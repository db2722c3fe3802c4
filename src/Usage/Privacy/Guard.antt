-- ===== src/Usage/Privacy/Guard.antt =====
-- What the privacy guard lets through.
use tokemon.Prelude.{ℕ, ◌≡◌, ◌⊎◌, refl, true, false, List, none, arith, inl, inr, Option-cases, any}
use tokemon.Prelude.Texts.{Text, text_eq, text_eq_iff}
use tokemon.Prelude.Find.{CaseTables, contains_any}
use tokemon.Usage.Event.{Event, accuracy_unknown}
use tokemon.Usage.Totals.{sanitize_outbound, validate_token_totals}
use tokemon.Usage.Names.{path_runes, normalize_project, normalize_session_id}
use tokemon.Usage.Names.Projects.{LowersToLetters, normalize_project-label}
use tokemon.Usage.Names.Sessions.{IsDigest, normalize_session_id_idem}
use tokemon.Usage.Privacy.{
  validate_outbound, identifiers, identifier_contains_sensitive_value, validate_approved_metadata,
}

sanitize_cases :
    (e : Event)
    → (sanitize_outbound e ≡ e)
      ⊎ (sanitize_outbound e ≡ record e { total_tokens = none; token_accuracy = accuracy_unknown })
unfolding sanitize_outbound
sanitize_cases e = elim (Option-cases e.total_tokens) [
  | inl absent ↦ inl (ground (arith, absent))
  | inr (t, known) ↦ elim (Option-cases (validate_token_totals e)) [
    | inl fits ↦ inl (ground (arith, known, fits))
    | inr (error, contradicts) ↦ inr (ground (arith, known, contradicts))
  ]
]

module _ (tables : CaseTables) (sha256 : Text → List ℕ) where
  -- Sanitizing an event does not change what the privacy guard says of it.
  pub validate_outbound-sanitize_outbound :
      (e : Event)
      → validate_outbound tables sha256 (sanitize_outbound e) ≡ validate_outbound tables sha256 e
  validate_outbound-sanitize_outbound e = elim (sanitize_cases e) [
    | inl same ↦ rw same
    | inr cut ↦ rw cut (unfold validate_outbound in refl)
  ]

  module _ (letters : LowersToLetters tables) (digests : (t : Text) → IsDigest (sha256 t)) where
    -- The guard accepts an event that an adapter has normalized: its project is a normalized label,
    -- its session a normalized name, no identifier resembles a path or a credential, its source
    -- identity is no path, and it has no metadata.
    pub validate_outbound-normalized :
        (e : Event) (directory raw : Text)
        → e.project ≡ normalize_project tables directory
        → e.session_id ≡ normalize_session_id tables sha256 raw
        → contains_any e.source.identity path_runes ≡ false
        → any identifier_contains_sensitive_value (identifiers e) ≡ false
        → e.metadata ≡ none
        → validate_outbound tables sha256 e ≡ none
    unfolding validate_outbound validate_approved_metadata
    validate_outbound-normalized e directory raw project session identity clean bare =
        let label : contains_any e.project path_runes ≡ false =
          rw project (normalize_project-label tables letters directory) in
        let settled : text_eq (normalize_session_id tables sha256 e.session_id) e.session_id
            ≡ true =
          (text_eq_iff _ e.session_id).1
            (rw session (normalize_session_id_idem tables sha256 digests raw)) in
        rw label (rw identity (rw clean (rw settled (rw bare (ground arith)))))
