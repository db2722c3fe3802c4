-- ===== src/Adapters/Arithmetic.antt =====
-- The max and min of int64 values that every adapter uses, and when int64 arithmetic is exact.
use tokemon.Prelude.{ℕ, ◌+◌, ◌-◌, ◌≤◌, ◌≡◌, if◌then◌else◌, arith}
use tokemon.Prelude.Int.{
  ℤ, pos, negsuc, pos_part, neg_part, ltb_ℤ, ◌≤ℤ◌, ◌+ℤ◌, add64, sub64, max_int64, int_laws,
}

-- max(0, v)
abbrev pub max0 : ℤ → ℤ
max0 v = if ltb_ℤ v (pos 0) then pos 0 else v

abbrev pub min_ℤ : ℤ → ℤ → ℤ
min_ℤ v w = if ltb_ℤ w v then w else v

-- A non-negative int64.
abbrev pub IsTokens : ℤ → Type 0
IsTokens v = (neg_part v ≡ 0) × (pos_part v ≤ max_int64)

pub difference :
    (v r : ℕ) → v ≤ max_int64 → r ≤ max_int64 → max0 (sub64 (pos v) (pos r)) ≡ pos (v - r)
unfolding sub64
difference v r h k = ground arith

-- What exceeds a part of a value, and what is left of the part, account for both.
pub excess_conserved :
    (v r : ℤ) → IsTokens v → IsTokens r → max0 (sub64 v r) +ℤ r ≡ v +ℤ max0 (sub64 r v)
excess_conserved (pos v) (pos r) h k =
    rw (difference v r h.1 k.1) (rw (difference r v k.1 h.1) (omega int_laws))
excess_conserved (negsuc v) r h k = absurd (omega arith)
excess_conserved (pos v) (negsuc r) h k = absurd (omega arith)

-- The growth of a counter.
pub growth_exact : (v p : ℤ) → IsTokens v → IsTokens p → p ≤ℤ v → max0 (sub64 v p) +ℤ p ≡ v
unfolding sub64 ◌+ℤ◌
growth_exact (pos v) (pos p) h k l = ground arith
growth_exact (negsuc v) p h k l = absurd (omega arith)
growth_exact (pos v) (negsuc p) h k l = absurd (omega arith)

-- A sum that fits.
pub add64_fits : (a b : ℕ) → a + b ≤ max_int64 → add64 (pos a) (pos b) ≡ pos (a + b)
unfolding add64
add64_fits a b h = ground arith

pub sub64_fits : (a b : ℕ) → a ≤ max_int64 → b ≤ a → sub64 (pos a) (pos b) ≡ pos (a - b)
unfolding sub64
sub64_fits a b h k = ground arith
