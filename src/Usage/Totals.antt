-- ===== src/Usage/Totals.antt =====
-- internal/usage/event.go: `validateTokenTotals` and `SanitizeOutbound`. The sum of the token
-- components is an int64, checked for overflow before each addition.
pub mod Exact
use tokemon.Prelude.{
  ℕ, suc, ◌+◌, ◌≤◌, ◌≡◌, refl, Bool, true, false, ◌⊎◌, inl, inr, List, [], ◌∷◌, Option, none, some,
  arith, if◌then◌else◌, All, Bool-cases, ◌↔◌,
}
use tokemon.Prelude.Int.{
  ℤ, pos, negsuc, pos_part, neg_part, ◌+ℤ◌, ◌-ℤ◌, ◌≤ℤ◌, ltb_ℤ, add64, sub64, max_int64, IsInt64,
  int_laws,
}
use tokemon.Usage.Event.{Event, accuracy_unknown}

pub data TotalsError : Type 0 where
  components_overflow total_too_small : TotalsError

pub data Checked (A : Type 0) : Type 0 where
  ok : A → Checked A
  fail : TotalsError → Checked A

-- The loop over the four components, from a sum so far.
unfoldable pub add_components : ℤ → List (Option ℤ) → Checked ℤ
add_components sum [] = ok sum
add_components sum (none ∷ rest) = add_components sum rest
add_components sum (some v ∷ rest) =
    let more = add_components (add64 sum v) rest in
    if ltb_ℤ (sub64 (pos max_int64) v) sum then fail components_overflow else more

abbrev pub components : Event → List (Option ℤ)
components e = e.input_tokens ∷ e.output_tokens ∷ e.cache_read_tokens ∷ e.cache_write_tokens ∷ []

abbrev compare_total : ℤ → Checked ℤ → Option TotalsError
compare_total total (fail e) = some e
compare_total total (ok sum) = if ltb_ℤ total sum then some total_too_small else none

-- `validateTokenTotals`; `none` is a nil error.
unfoldable pub validate_token_totals : Event → Option TotalsError
unfolding add_components add64 sub64
validate_token_totals e = elim e.total_tokens [
  | none ↦ none
  | some total ↦ compare_total total (add_components (pos 0) (components e))
]

-- `SanitizeOutbound`
unfoldable pub sanitize_outbound : Event → Event
sanitize_outbound e = elim e.total_tokens [
  | none ↦ e
  | some _ ↦ elim (validate_token_totals e) [
    | none ↦ e
    | some _ ↦ record e { total_tokens = none; token_accuracy = accuracy_unknown }
  ]
]
