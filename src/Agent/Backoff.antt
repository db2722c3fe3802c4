-- ===== src/Agent/Backoff.antt =====
-- cmd/tokemon/main.go: `nextAgentFailureInterval` and the interval kept by the agent's loop between
-- passes. Durations are nanoseconds; flags reject an interval that is not positive.
use Prim.Native.Nat.{min}
use native.Mathlib.Nat.{pow-suc}
use tokemon.Prelude.{
  ap, ℕ, zero, suc, ◌*◌, ◌/◌, ◌≤◌, ◌≡◌, Bool, false, ◌||◌, ltb, leb, if◌then◌else◌, arith, ◌^◌,
}

abbrev pub min_agent_failure_backoff : ℕ
min_agent_failure_backoff = 5 * 1_000_000_000

abbrev pub max_agent_failure_backoff : ℕ
max_agent_failure_backoff = 300 * 1_000_000_000

abbrev pub baseline : ℕ → ℕ
baseline configured =
    if ltb configured min_agent_failure_backoff then min_agent_failure_backoff else configured

abbrev pub ceiling : ℕ → ℕ
ceiling configured =
    if ltb max_agent_failure_backoff (baseline configured)
    then baseline configured
    else max_agent_failure_backoff

-- `nextAgentFailureInterval`
unfoldable pub next_agent_failure_interval : ℕ → ℕ → ℕ
next_agent_failure_interval configured current =
    if ltb current (baseline configured)
    then baseline configured
    else (if leb (ceiling configured) current || ltb (ceiling configured / 2) current
        then ceiling configured
        else current * 2)

-- The interval after a pass that succeeded or failed.
unfoldable pub after_pass : ℕ → ℕ → Bool → ℕ
unfolding next_agent_failure_interval
after_pass configured current succeeded =
    if succeeded then configured else next_agent_failure_interval configured current

-- The interval after a number of failures in a row, from the configured one.
unfoldable pub after_failures : ℕ → ℕ → ℕ
unfolding after_pass
after_failures configured zero = configured
after_failures configured (suc n) = after_pass configured (after_failures configured n) false

-- After a failure the agent waits at least five seconds and at least the configured interval, at most
-- five minutes or the configured interval, and never less than before, if it waited no longer than
-- that before.
pub next_agent_failure_interval_bounds :
    (configured current : ℕ)
    → current ≤ ceiling configured
    → let next = next_agent_failure_interval configured current in
      (baseline configured ≤ next) × ((next ≤ ceiling configured) × (current ≤ next))
unfolding next_agent_failure_interval
next_agent_failure_interval_bounds configured current h =
    (ground arith, (ground arith, ground arith))

after_failures-le : (configured n : ℕ) → after_failures configured n ≤ ceiling configured
unfolding after_failures after_pass
after_failures-le configured zero = ground arith
after_failures-le configured (suc n) =
    (next_agent_failure_interval_bounds configured (after_failures configured n)
      (after_failures-le configured n)).1.0

next_doubles :
    (configured current : ℕ)
    → baseline configured ≤ current
    → current ≤ ceiling configured
    → next_agent_failure_interval configured current ≡ min (current * 2) (ceiling configured)
unfolding next_agent_failure_interval
next_doubles configured current low high = ground arith

first_failure-ge :
    (configured : ℕ) → baseline configured ≤ next_agent_failure_interval configured configured
unfolding next_agent_failure_interval
first_failure-ge configured = ground arith

-- The interval after a run of failures: the one after the first failure, doubled for each further
-- failure, and at most the ceiling of five minutes or the configured interval.
pub after_failures_exact :
    (configured n : ℕ)
    → after_failures configured (suc n)
      ≡ min (next_agent_failure_interval configured configured * 2 ^ n) (ceiling configured)
unfolding after_failures after_pass
after_failures_exact configured zero =
    omega (arith, (next_agent_failure_interval_bounds configured configured (ground arith)).1.0)
after_failures_exact configured (suc n) =
    let before = after_failures_exact configured n in
    let high = after_failures-le configured (suc n) in
    let first = first_failure-ge configured in
    let low : baseline configured ≤ after_failures configured (suc n) =
      (next_agent_failure_interval_bounds configured (after_failures configured n)
        (after_failures-le configured n)).0 in
    omega (
      arith,
      next_doubles configured (after_failures configured (suc n)) low high,
      before,
      ap (λ (t : ℕ). next_agent_failure_interval configured configured * t) (pow-suc 2 n),
    )
