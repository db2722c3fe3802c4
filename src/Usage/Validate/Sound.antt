-- ===== src/Usage/Validate/Sound.antt =====
-- What an event that validation accepts is known to satisfy.
use tokemon.Prelude.{
  ℕ, ◌≤◌, ◌≡◌, refl, true, false, List, [], ◌∷◌, Option, none, some, arith, All, any, ||-eq-false,
}
use tokemon.Prelude.Int.{ℤ, pos, negsuc, ◌≤ℤ◌, ◌+ℤ◌, ltb_ℤ, pos_part, max_int64}
use tokemon.Prelude.Texts.{text_eq, eq_of_text_eq}
use tokemon.Prelude.Find.{CaseTables, contains_any}
use tokemon.Usage.Event.{Event, Time, Fields}
use tokemon.Usage.Totals.{components, validate_token_totals}
use tokemon.Usage.Totals.Exact.{IsCount, Covers, validate_token_totals_iff}
use tokemon.Usage.Names.{path_runes}
use tokemon.Usage.Validate.{
  validate_at, check_identity, check_labels, check_numbers, check_source, as_totals, counts,
  is_negative, exceeds, schema_version, max_duration_ms, day_nanos,
}

abbrev pub IsAtLeastZero : Option ℤ → Type 0
IsAtLeastZero none = Unit
IsAtLeastZero (some v) = pos 0 ≤ℤ v

-- A count that is known fits an int64 from above.
abbrev pub IsBounded : Option ℤ → Type 0
IsBounded none = Unit
IsBounded (some v) = pos_part v ≤ max_int64

pub record IsAdmitted (now : Time) (e : Event) : Type 0 where
  pub version : e.schema_version ≡ schema_version
  pub not_before_epoch : pos 0 ≤ℤ e.timestamp
  pub not_in_future : e.timestamp ≤ℤ now +ℤ pos day_nanos
  pub project_is_label : contains_any e.project path_runes ≡ false
  pub counts_known : All IsAtLeastZero (counts e)
  pub duration_bounded : (d : ℤ) → e.duration_ms ≡ some d → d ≤ℤ pos max_duration_ms
  pub offset_known : pos 0 ≤ℤ e.source.offset
  pub total_covers : Covers e.total_tokens (components e)

none_negative :
    (values : List (Option ℤ)) → any is_negative values ≡ false → All IsAtLeastZero values
none_negative [] h = tt
none_negative (none ∷ values) h = (tt, none_negative values h)
none_negative (some v ∷ values) h =
    let (first, rest) = ||-eq-false (ltb_ℤ v (pos 0)) (any is_negative values) h in
    (ground (arith, first), none_negative values rest)

All-counts :
    (values : List (Option ℤ))
    → All IsAtLeastZero values
    → All IsBounded values
    → All IsCount values
All-counts [] h k = tt
All-counts (none ∷ values) h k = (tt, All-counts values h.1 k.1)
All-counts (some (pos n) ∷ values) h k = ((refl, k.0), All-counts values h.1 k.1)
All-counts (some (negsuc n) ∷ values) h k = absurd (omega arith)

as_totals-eq-none :
    (e : Event) → as_totals (validate_token_totals e) ≡ none → validate_token_totals e ≡ none
as_totals-eq-none e h = ground (arith, h)

module _ (tables : CaseTables) (metadata_len : Fields → Option ℕ) where
  check_identity-known :
      (now : Time) (e : Event)
      → check_identity tables metadata_len now e ≡ none
      → (text_eq e.schema_version schema_version ≡ true)
        × (pos 0 ≤ℤ e.timestamp)
        × (e.timestamp ≤ℤ now +ℤ pos day_nanos)
  unfolding check_identity
  check_identity-known now e h = ground (arith, h)

  check_labels-known :
      (e : Event)
      → check_labels tables metadata_len e ≡ none
      → contains_any e.project path_runes ≡ false
  unfolding check_labels
  check_labels-known e h = ground (arith, h)

  check_numbers-known :
      (e : Event)
      → check_numbers tables metadata_len e ≡ none
      → (any is_negative (counts e) ≡ false) × (exceeds e.duration_ms max_duration_ms ≡ false)
  unfolding check_numbers
  check_numbers-known e h = ground (arith, h)

  check_source-known :
      (e : Event) → check_source tables metadata_len e.source ≡ none → pos 0 ≤ℤ e.source.offset
  unfolding check_source
  check_source-known e h = ground (arith, h)

  -- Every group of checks has passed.
  validate_at-parts :
      (now : Time) (e : Event)
      → validate_at tables metadata_len now e ≡ none
      → (check_identity tables metadata_len now e ≡ none)
        × (check_labels tables metadata_len e ≡ none)
        × (check_numbers tables metadata_len e ≡ none)
        × (check_source tables metadata_len e.source ≡ none)
        × (validate_token_totals e ≡ none)
  unfolding validate_at
  validate_at-parts now e h = ground (arith, h)

  exceeds-duration :
      (o : Option ℤ) (d : ℤ)
      → exceeds o max_duration_ms ≡ false
      → o ≡ some d
      → d ≤ℤ pos max_duration_ms
  exceeds-duration o d h known = ground (arith, h, known)

  bounded-total : (o : Option ℤ) → IsBounded o → (t : ℤ) → o ≡ some t → pos_part t ≤ max_int64
  bounded-total none b t known = cc
  bounded-total (some v) b t known = ground (arith, known)

  -- An event that passes validation at `now`, its counts being int64 values, has the one schema
  -- version, a timestamp from the Unix epoch to a day after `now`, a project that is no path, counts
  -- and an offset of at least zero, a duration of at most a year, and a total, if any, that is at
  -- least the exact sum of its known components.
  pub validate_at-IsAdmitted :
      (now : Time) (e : Event)
      → All IsBounded (counts e)
      → validate_at tables metadata_len now e ≡ none
      → IsAdmitted now e
  validate_at-IsAdmitted now e bounded h =
      let (identity, labels, numbers, source, totals) = validate_at-parts now e h in
      let (version, epoch, future) = check_identity-known now e identity in
      let (signs, duration) = check_numbers-known e numbers in
      let known = none_negative (counts e) signs in
      let exact =
        validate_token_totals_iff e (first_four (All-counts (counts e) known bounded))
          (bounded-total e.total_tokens bounded.1.1.1.1.1.0) in
      record {
        version = eq_of_text_eq _ _ version;
        not_before_epoch = epoch;
        not_in_future = future;
        project_is_label = check_labels-known e labels;
        counts_known = known;
        duration_bounded = λ d. exceeds-duration e.duration_ms d duration;
        offset_known = check_source-known e source;
        total_covers = exact.0 totals;
      }
    where
      first_four : All IsCount (counts e) → All IsCount (components e)
      first_four c = (c.0, (c.1.0, (c.1.1.0, (c.1.1.1.0, tt))))
