-- ===== src/Usage/Totals/Exact.antt =====
-- The overflow checks make the int64 arithmetic of `validateTokenTotals` agree with exact sums, and
-- a sanitized event always passes it.
use tokemon.Prelude.{
  ℕ, ◌+◌, ◌≤◌, ◌<◌, ◌≡◌, refl, true, false, ◌⊎◌, inl, inr, List, [], ◌∷◌, Option, none, some, arith,
  All, Option-cases, ◌↔◌,
}
use tokemon.Prelude.Int.{ℤ, pos, negsuc, pos_part, neg_part, ◌≤ℤ◌, ltb_ℤ, add64, sub64, max_int64}
use tokemon.Usage.Event.{Event}
use tokemon.Usage.Totals.{
  components_overflow, ok, fail, add_components, components, compare_total, validate_token_totals,
  sanitize_outbound,
}

-- A count that is known is a non-negative int64.
abbrev pub IsCount : Option ℤ → Type 0
IsCount none = Unit
IsCount (some v) = (neg_part v ≡ 0) × (pos_part v ≤ max_int64)

-- The sum of the known counts, without a bound.
abbrev pub known_sum : List (Option ℤ) → ℕ
known_sum [] = 0
known_sum (none ∷ rest) = known_sum rest
known_sum (some v ∷ rest) = pos_part v + known_sum rest

-- How the loop ends: with the exact sum where an int64 holds it, and else with an error.
abbrev Adds : ℕ → List (Option ℤ) → Type 0
Adds sum cs =
    ((sum + known_sum cs ≤ max_int64)
      × (add_components (pos sum) cs ≡ ok (pos (sum + known_sum cs))))
    ⊎ ((max_int64 < sum + known_sum cs) × (add_components (pos sum) cs ≡ fail components_overflow))

add_step :
    (sum n : ℕ)
    → sum ≤ max_int64
    → n ≤ max_int64
    → ((sum + n ≤ max_int64)
        × (ltb_ℤ (sub64 (pos max_int64) (pos n)) (pos sum) ≡ false)
        × (add64 (pos sum) (pos n) ≡ pos (sum + n)))
      ⊎ ((max_int64 < sum + n) × (ltb_ℤ (sub64 (pos max_int64) (pos n)) (pos sum) ≡ true))
unfolding sub64 add64
add_step sum n h k = ground arith

add_components-Adds :
    (sum : ℕ) (cs : List (Option ℤ)) → sum ≤ max_int64 → All IsCount cs → Adds sum cs
unfolding add_components
add_components-Adds sum [] h c = inl (omega arith, ground arith)
add_components-Adds sum (none ∷ rest) h c = add_components-Adds sum rest h c.1
add_components-Adds sum (some (negsuc n) ∷ rest) h c = absurd (omega arith)
add_components-Adds sum (some (pos n) ∷ rest) h c = elim (add_step sum n h c.0.1) [
  | inl (fits, low, added) ↦ ground (arith, add_components-Adds (sum + n) rest fits c.1)
  | inr (over, high) ↦ inr (omega arith, rw high)
]

-- A total accounts for the known components.
abbrev pub Covers : Option ℤ → List (Option ℤ) → Type 0
Covers none cs = Unit
Covers (some total) cs = pos (known_sum cs) ≤ℤ total

compare_total_iff :
    (total : ℤ) (cs : List (Option ℤ))
    → pos_part total ≤ max_int64
    → Adds 0 cs
    → (compare_total total (add_components (pos 0) cs) ≡ none) ↔ (pos (known_sum cs) ≤ℤ total)
compare_total_iff total cs h (inl (fits, e)) = rw e (ground arith, ground arith)
compare_total_iff total cs h (inr (over, e)) = rw e (λ eq. cc, λ le. absurd (omega arith))

-- For an event whose known components are non-negative int64 values and whose total, if it has one,
-- is an int64: the checked int64 arithmetic accepts the totals exactly when the exact sum of the
-- known components is at most the total, or there is no total.
pub validate_token_totals_iff :
    (e : Event)
    → All IsCount (components e)
    → ((t : ℤ) → e.total_tokens ≡ some t → pos_part t ≤ max_int64)
    → (validate_token_totals e ≡ none) ↔ Covers e.total_tokens (components e)
unfolding validate_token_totals
validate_token_totals_iff e c bounded = elim (Option-cases e.total_tokens) [
  | inl absent ↦ rw absent (λ _. tt, λ _. refl)
  | inr (t, known) ↦ rw known (
      compare_total_iff t (components e) (bounded t known)
        (add_components-Adds 0 (components e) (omega arith) c))
]

-- Every sanitized event passes the check of totals, whatever its token values were.
pub sanitize_outbound-passes : (e : Event) → validate_token_totals (sanitize_outbound e) ≡ none
unfolding sanitize_outbound validate_token_totals
sanitize_outbound-passes e = ground arith
