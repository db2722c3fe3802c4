-- ===== src/Api/Tests.antt =====
-- The theorems on the login throttle at concrete tables.
use Prim.Native.Nat.{min}
use tokemon.Prelude.{
  ℕ, suc, zero, ◌≡◌, ◌≢◌, ◌≤◌, refl, true, false, [], ◌∷◌, none, some, arith, All, ap,
  if◌then◌else◌, ltb, length, ◌*◌, ◌^◌, ◌-◌,
}
use tokemon.Prelude.Int.{pos, ◌≤ℤ◌, ◌<ℤ◌, ◌-ℤ◌, ◌+ℤ◌}
use tokemon.Prelude.Texts.{Text, text, text_eq}
use tokemon.Prelude.Maps.{lookup}
use tokemon.Usage.Event.{zero_time}
use tokemon.Api.Throttle.{
  LoginAttempt, LoginThrottle, too_many_requests, unauthorized, served, second, login_lockout,
  login_failures_allowed, login_base_lockout, login_max_lockout, login_max_tracked_remote,
  login_failure_window, double_lockout, is_quiet, retry_seconds, record_failure, record_success,
  dashboard_auth,
}
use tokemon.Api.Throttle.Lockout.{login_lockout_exact}
use tokemon.Api.Throttle.Blocks.{dashboard_auth_locked, dashboard_auth_window_ends_lockout}
use tokemon.Api.Throttle.Capacity.{IsPast, dashboard_auth-capped, record_failure_same_instant}

login_lockout_exact_example : login_lockout 7 ≡ (
    if ltb 7 login_failures_allowed
    then 0
    else min (login_base_lockout * 2 ^ (7 - login_failures_allowed)) login_max_lockout)
login_lockout_exact_example = login_lockout_exact 7

-- A remote with twelve failures, the last at second 1000.
abbrev busy : LoginAttempt
busy = record {
  failures = 12;
  first_failure = pos (900 * second);
  last_failure = pos (1000 * second);
  locked_until = pos (1600 * second);
}

abbrev remote : Text
remote = text "192.0.2.1"

abbrev other : Text
other = text "192.0.2.2"

abbrev table : LoginThrottle
table = (remote, busy) ∷ []

table-lookup : lookup remote table ≡ some busy
unfolding lookup text_eq
table-lookup = refl

not-quiet : is_quiet (pos (1001 * second)) busy.last_failure ≡ false
unfolding ◌-ℤ◌
not-quiet = refl

window : pos (1100 * second) ≤ℤ pos (1001 * second) +ℤ pos login_failure_window
unfolding ◌+ℤ◌
window = omega arith

locked : pos (1100 * second) <ℤ pos (1001 * second) +ℤ pos (login_lockout 13)
unfolding ◌+ℤ◌ login_lockout double_lockout
locked = omega arith

dashboard_auth_locked_example :
    let after = record_failure table (pos (1001 * second)) remote in
    dashboard_auth after (pos (1100 * second)) (pos (1101 * second)) remote true ≡ (
      too_many_requests
          (retry_seconds (pos (1001 * second) +ℤ pos (login_lockout 13) -ℤ pos (1100 * second))),
      after,
    )
dashboard_auth_locked_example =
    dashboard_auth_locked table (pos (1001 * second)) (pos (1100 * second)) (pos (1101 * second))
      remote busy true table-lookup not-quiet (omega arith) (omega arith) window locked

past_window : busy.last_failure +ℤ pos login_failure_window <ℤ pos (1301 * second)
unfolding ◌+ℤ◌
past_window = omega arith

dashboard_auth_window_ends_lockout_example :
    (dashboard_auth table (pos (1301 * second)) (pos (1302 * second)) remote true
      ≡ (served, record_success table remote))
    × (dashboard_auth table (pos (1301 * second)) (pos (1302 * second)) remote false
        ≡ (unauthorized, record_failure table (pos (1302 * second)) remote))
    × (lookup remote (record_failure table (pos (1302 * second)) remote)
        ≡ some (record {
          failures = 1;
          first_failure = pos (1302 * second);
          last_failure = pos (1302 * second);
          locked_until = zero_time;
        }))
dashboard_auth_window_ends_lockout_example =
    dashboard_auth_window_ends_lockout table (pos (1301 * second)) (pos (1302 * second)) remote busy
      table-lookup past_window (omega arith)

remote-other : remote ≢ other
remote-other h = ground (arith, h)

table-IsPast : IsPast (pos (1301 * second)) table
table-IsPast = ((λ h. ground (arith, h), omega arith), tt)

dashboard_auth-capped_example :
    length (dashboard_auth table (pos (1300 * second)) (pos (1301 * second)) other false).1
    ≤ login_max_tracked_remote
dashboard_auth-capped_example =
    dashboard_auth-capped table (pos (1300 * second)) (pos (1301 * second)) other false table-IsPast
      (omega arith)

-- A table of as many entries as asked for, all of one instant.
abbrev crowd : ℕ → LoginThrottle
crowd zero = []
crowd (suc n) = (n ∷ [], record busy { last_failure = pos 7 }) ∷ crowd n

crowd-length : (n : ℕ) → length (crowd n) ≡ n
crowd-length zero = refl
crowd-length (suc n) = ap suc (crowd-length n)

crowd-same : (n : ℕ) → All (λ (r : Text × LoginAttempt). r.1.last_failure ≡ pos 7) (crowd n)
crowd-same zero = tt
crowd-same (suc n) = (refl, crowd-same n)

crowd-lookup : (n : ℕ) → lookup [] (crowd n) ≡ none
unfolding lookup text_eq
crowd-lookup zero = refl
crowd-lookup (suc n) = crowd-lookup n

record_failure_same_instant_example :
    length (record_failure (crowd 1024) (pos 7) []) ≡ suc (length (crowd 1024))
record_failure_same_instant_example =
    record_failure_same_instant (crowd 1024) (pos 7) [] (crowd-same 1024)
      (omega (arith, crowd-length 1024)) (crowd-lookup 1024)
