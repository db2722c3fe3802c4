-- ===== src/Agent/Pass/Done.antt =====
-- What a finished pass leaves to send: nothing.
use tokemon.Prelude.{
  ◌≡◌, ◌≢◌, refl, sym, ap, ◌∙◌, subst, Bool, false, not, inl, inr, List, [], ◌∷◌, ◌++◌, Option,
  none, some, length, any, any-Memᴰ, filter, filter-Memᴰ, arith, Bool-cases, Option-cases,
  append-nil,
}
use tokemon.Prelude.Texts.{Text, text_eq, text_eq_iff, text_eq_refl, trim_space}
use tokemon.Prelude.Maps.{Map, lookup-insert_self}
use mathlib.Core.List.{Memᴰ, flatten}
use mathlib.Core.List.Memᴰ.{head, tail}
use tokemon.Usage.Event.{Event}
use tokemon.Adapters.Source.{Cursor}
use tokemon.Agent.Client.{client_ingest, sanitize_outbound_events}
use tokemon.Agent.Client.Sends.{logged, client_ingest-sends}
use tokemon.Agent.State.{
  Digest, Known, digest_len, pending, save_events, SourceReport, AgentState, CommitError, commit,
  of_machine,
}
use tokemon.Agent.State.Lookup.{IsDigests, on_record, pending_exact}
use tokemon.Agent.State.Sent.{IsDistinct, save-IsDigests, save_found, save_others, filter_none}
use tokemon.Agent.Pass.{
  Adapter, Hub, AgentConfig, PassError, hub_unhealthy, pending_unreadable, not_uploaded,
  hub_rejected, not_committed, sources_failed, collected, shown_events, check_health, upload,
  run_pass,
}
use tokemon.Agent.Pass.Keeps.{Uploaded, run_pass-keeps}

any-filter : (q p : Event → Bool) (xs : List Event) → any q xs ≡ false → any q (filter p xs) ≡ false
any-filter q p [] h = refl
any-filter q p (x ∷ xs) h = ground (arith, h, any-filter q p xs)

abbrev named : Event → Event → Bool
named e x = text_eq x.event_id e.event_id

named_sym : (x e : Event) → named x e ≡ false → named e x ≡ false
named_sym x e h =
    ground (arith, h, text_eq_iff x.event_id e.event_id, text_eq_iff e.event_id x.event_id)

-- An event that is filtered out is the only one of its name.
no_namesake :
    (p : Event → Bool) (xs : List Event) (e : Event)
    → IsDistinct xs
    → Memᴰ e xs
    → p e ≡ false
    → any (named e) (filter p xs) ≡ false
no_namesake p [] e d i h = elim i [ ]
no_namesake p (x ∷ xs) e d (head same) h =
    let gone : p x ≡ false = subst (λ (y : Event). p y ≡ false) same h in
    subst (λ (y : Event). any (named y) (filter p (x ∷ xs)) ≡ false) (sym same)
      (rw gone (any-filter (named x) p xs d.0))
no_namesake p (x ∷ xs) e d (tail i) h =
    let other = named_sym x e (any-Memᴰ (named x) xs e d.0 i) in
    ground (arith, other, no_namesake p xs e d.1 i h)

IsDistinct-filter : (p : Event → Bool) (xs : List Event) → IsDistinct xs → IsDistinct (filter p xs)
IsDistinct-filter p [] d = tt
IsDistinct-filter p (x ∷ xs) d = elim (Bool-cases (p x)) [
  | inl kept ↦ rw kept (any-filter (named x) p xs d.0, IsDistinct-filter p xs d.1)
  | inr gone ↦ rw gone (IsDistinct-filter p xs d.1)
]

module _ (fingerprint_of : Event → Digest)
    (lengths : (e : Event) → length (fingerprint_of e) ≡ digest_len) where
  -- After what is not on record is saved, everything is on record.
  nothing_left :
      (synced : Text) (events : List Event) (rows after : Known)
      → IsDigests rows
      → IsDistinct events
      → save_events fingerprint_of synced
          (filter (λ e. not (on_record rows fingerprint_of e)) events)
          rows
        ≡ some after
      → pending fingerprint_of after events ≡ some []
  nothing_left synced events rows after d distinct saved =
      let fresh = λ (e : Event). not (on_record rows fingerprint_of e) in
      let left = filter fresh events in
      let distinct_left = IsDistinct-filter fresh events distinct in
      pending_exact after (save-IsDigests fingerprint_of lengths synced left rows after saved d)
        fingerprint_of events
      ∙ ap some (
          filter_none _ events (λ e i. elim (Bool-cases (on_record rows fingerprint_of e)) [
            | inl known ↦
                rw
                  (
                    save_others fingerprint_of lengths synced left rows after e.event_id saved
                        (no_namesake fresh events e distinct i (ap not known)),
                    on_record,
                  )
                  (ap not known)
            | inr new ↦
                rw
                  (
                    save_found fingerprint_of lengths synced left rows after e saved distinct_left
                        (filter-Memᴰ fresh events e i (ap not new)),
                    on_record,
                  )
                  (rw (text_eq_refl (fingerprint_of e)))
          ]))

  commit_saves :
      (hash_identity : Text → Text) (machine : Text) (committed : Map Cursor)
      (reports : List SourceReport) (events : List Event) (synced : Text) (state : AgentState)
      → let (after, error) =
          commit fingerprint_of hash_identity machine committed reports events synced state in
        error ≡ none
        → (rows : Known) × (save_events fingerprint_of synced events
              (of_machine machine state.events)
            ≡ some rows)
          × (of_machine machine after.events ≡ rows)
  unfolding commit
  commit_saves hash_identity machine committed reports events synced state h =
      elim (Bool-cases (text_eq (trim_space machine) [])) [
        | inl nameless ↦ absurd (ground (arith, h, nameless))
        | inr has_name ↦
            elim (Option-cases
              (save_events fingerprint_of synced events (of_machine machine state.events))) [
                | inl refused ↦ absurd (ground (arith, h, has_name, refused))
                | inr (rows, saved) ↦ (
                  rows,
                  saved,
                  rw (has_name, commit)
                      (rw saved (rw (lookup-insert_self machine rows state.events, of_machine))),
                )
              ]
      ]

-- How a pass may end with what it collected committed.
abbrev pub IsDone : Option PassError → Type 0
IsDone none = Unit
IsDone (some sources_failed) = Unit
IsDone (some _) = ⊥

some_inj {ℓ} : {A : Type ℓ} {x y : A} → some x ≡ some y → x ≡ y
some_inj h = cc

gave_up-not-IsDone :
    (error : Option PassError) (e : PassError)
    → error ≡ some e
    → e ≢ sources_failed
    → IsDone error
    → ⊥
gave_up-not-IsDone none e same other done = cc
gave_up-not-IsDone (some sources_failed) e same other done = other (cc)
gave_up-not-IsDone (some hub_unhealthy) e same other done = done
gave_up-not-IsDone (some pending_unreadable) e same other done = done
gave_up-not-IsDone (some (not_uploaded _)) e same other done = done
gave_up-not-IsDone (some (hub_rejected _)) e same other done = done
gave_up-not-IsDone (some (not_committed _)) e same other done = done

module _ {H : Type 0} (hub : Hub H) where
  -- The hub that also writes down the batches of events it is sent.
  abbrev pub logged_hub : Hub (H × List (List Event))
  logged_hub = record {
    healthy = λ h. ((hub.healthy h.0).0, ((hub.healthy h.0).1, h.1));
    heartbeat = λ h reports. (hub.heartbeat h.0 reports, h.1);
    post = logged hub.post;
  }

module _ {S H : Type 0} (config : AgentConfig) (adapters : List (Adapter S)) (hub : Hub H) where
  open config use {machine_id, fingerprint_of}

  health-log :
      (h : H × List (List Event)) → (check_health config adapters (logged_hub hub) h).1.1 ≡ h.1
  unfolding check_health
  health-log h = elim (Bool-cases (text_eq (trim_space config.server_url) [])) [
    | inl nowhere ↦ rw nowhere refl
    | inr somewhere ↦ rw somewhere refl
  ]

  -- All that was left to send has been sent, sanitized and in order.
  upload-log :
      (h : H) (left : List Event)
      → Uploaded config adapters (logged_hub hub) (h, []) left
      → flatten (upload config adapters (logged_hub hub) (h, []) left).1.1
        ≡ sanitize_outbound_events left
  unfolding upload flatten sanitize_outbound_events
  upload-log h [] uploaded = refl
  upload-log h (e ∷ events) (inl nothing) = absurd (cc)
  upload-log h (e ∷ events) (inr (result, (replied, _))) =
      elim (client_ingest-sends hub.post config.tables config.sha256 config.encoded_len
        config.server_url h (e ∷ events)) [
          | inl (_, fails) ↦ absurd (fails result replied)
          | inr (_, (unsent, (_, (whole, (_, all_sent))))) ↦
              let log =
                (client_ingest (logged hub.post) config.tables config.sha256 config.encoded_len
                  config.server_url (h, []) (e ∷ events)).1.1 in
              ap flatten (
                sym (append-nil log)
                ∙ ap (λ (t : List (List Event)). log ++ t) (sym (all_sent result replied)))
              ∙ whole
        ]

  upload-log_from :
      (h : H × List (List Event)) (left : List Event)
      → h.1 ≡ []
      → Uploaded config adapters (logged_hub hub) h left
      → flatten (upload config adapters (logged_hub hub) h left).1.1 ≡ sanitize_outbound_events left
  upload-log_from (h, log) left empty =
      subst
        (λ (t : List (List Event)).
          Uploaded config adapters (logged_hub hub) (h, t) left
          → flatten (upload config adapters (logged_hub hub) (h, t) left).1.1
            ≡ sanitize_outbound_events left)
        (sym empty) (upload-log h left)

  -- A pass that ends without an error, or with one of sources only, has sent the hub, sanitized and in
  -- order, exactly the events that were pending of those it collected, and leaves nothing of them to
  -- send: where fingerprints have 32 bytes, also those on record, and no two events collected have
  -- one identifier.
  pub run_pass-done :
      (lengths : (e : Event) → length (fingerprint_of e) ≡ digest_len) (now : Text)
      (state : AgentState) (h : H) (kept : S)
      → IsDigests (of_machine machine_id state.events)
      → let events =
          shown_events config adapters
            (logged_hub hub)
            (collected config adapters (logged_hub hub) state kept).events in
        IsDistinct events
        → let (error, after, (_, log), _) =
            run_pass config adapters (logged_hub hub) now state (h, []) kept in
          IsDone error
          → ((left : List Event) × ((pending fingerprint_of
                    (of_machine machine_id state.events)
                    events
                  ≡ some left)
                × (flatten log ≡ sanitize_outbound_events left)))
            × (pending fingerprint_of (of_machine machine_id after.events) events ≡ some [])
  run_pass-done lengths now state h kept d distinct done =
      let events =
        shown_events config adapters (logged_hub hub)
          (collected config adapters (logged_hub hub) state kept).events in
      let rows = of_machine machine_id state.events in
      elim (run_pass-keeps config adapters (logged_hub hub) now state (h, []) kept) [
        | inl ((e, (failed, other)), _) ↦ absurd (gave_up-not-IsDone _ e failed other done)
        | inr (_, (_, (left, (found, (uploaded, (next, committed)))))) ↦
            let log =
              ap (λ (t : H × List (List Event)). flatten t.1) next
              ∙ upload-log_from _ left (health-log (h, [])) uploaded in
            let (known, saved, kept_rows) =
              commit_saves fingerprint_of lengths config.hash_identity machine_id _ _ left now state
                (ap (λ (t : AgentState × Option CommitError). t.1) committed) in
            let unrecorded = λ (e : Event). not (on_record rows fingerprint_of e) in
            let same : left ≡ filter unrecorded events =
              some_inj (sym found ∙ pending_exact rows d fingerprint_of events) in
            let after_rows =
              sym (
                ap (λ (t : AgentState × Option CommitError). of_machine machine_id t.0.events)
                  committed)
              ∙ kept_rows in
            (
              (left, (found, log)),
              subst (λ (t : Known). pending fingerprint_of t events ≡ some []) (sym after_rows)
                  (nothing_left fingerprint_of lengths now events rows known d distinct (
                    subst (λ (t : List Event). save_events fingerprint_of now t rows ≡ some known)
                      same saved)),
            )
      ]
