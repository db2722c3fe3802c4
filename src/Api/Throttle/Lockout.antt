-- ===== src/Api/Throttle/Lockout.antt =====
-- The lockout after a number of failures.
use Prim.Native.Nat.{min}
use native.Mathlib.Nat.{pow-suc}
use tokemon.Prelude.{
  ℕ, zero, suc, ◌-◌, ◌*◌, ◌^◌, ◌≤◌, ◌≡◌, ap, ltb, if◌then◌else◌, arith, inl, inr, Bool-cases,
}
use tokemon.Api.Throttle.{
  double_lockout, login_lockout, login_failures_allowed, login_base_lockout, login_max_lockout,
}

one-le-pow : (k : ℕ) → 1 ≤ 2 ^ k
one-le-pow zero = omega arith
one-le-pow (suc k) = omega (arith, pow-suc 2 k, one-le-pow k)

le-mul-pow : (l k : ℕ) → l ≤ l * 2 ^ k
le-mul-pow l k = grind (arith, one-le-pow k)

double_step : (l k : ℕ) → l * 2 ^ suc k ≡ l * 2 * 2 ^ k
double_step l k = omega (arith, ap (λ (t : ℕ). l * t) (pow-suc 2 k))

-- The loop stops early, but only past the maximum.
double_lockout-min :
    (k l : ℕ) → min (double_lockout k l) login_max_lockout ≡ min (l * 2 ^ k) login_max_lockout
unfolding double_lockout
double_lockout-min zero l = omega arith
double_lockout-min (suc k) l = elim (Bool-cases (ltb l login_max_lockout)) [
  | inl short ↦ rw short (rw (double_step l k) (double_lockout-min k (l * 2)))
  | inr long ↦ rw long (ground (arith, le-mul-pow l (suc k)))
]

-- From the fifth failure on, the lockout is 15 seconds, doubled for each failure past the fifth,
-- and at most ten minutes; before it there is none.
pub login_lockout_exact :
    (failures : ℕ)
    → login_lockout failures ≡ (
        if ltb failures login_failures_allowed
        then 0
        else min (login_base_lockout * 2 ^ (failures - login_failures_allowed)) login_max_lockout)
unfolding login_lockout
login_lockout_exact failures = elim (Bool-cases (ltb failures login_failures_allowed)) [
  | inl few ↦ rw few
  | inr many ↦
      rw many
        (ground (arith, double_lockout-min (failures - login_failures_allowed) login_base_lockout))
]
