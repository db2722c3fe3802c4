-- ===== src/Api/Throttle.antt =====
-- internal/api/security.go: the throttle of failed dashboard logins and the authentication wrapper
-- that uses it. Durations are nanoseconds, and times nanoseconds from the Unix epoch. The mutex
-- makes each method one step; each reads the clock once.
pub mod Lockout
pub mod Blocks
pub mod Capacity
use tokemon.Prelude.{
  ℕ, zero, suc, ◌+◌, ◌-◌, ◌*◌, ◌/◌, ◌%◌, Bool, true, false, ◌&&◌, List, [], ◌∷◌, Option, none, some,
  ltb, leb, ◌==◌, if◌then◌else◌, length, not,
}
use tokemon.Prelude.Int.{ℤ, pos, negsuc, pos_part, ◌+ℤ◌, ◌-ℤ◌, ltb_ℤ, leb_ℤ}
use tokemon.Prelude.Texts.{Text, text_eq}
use tokemon.Prelude.Maps.{Map, lookup, insert, erase}
use tokemon.Usage.Event.{Time, zero_time}

abbrev pub second : ℕ
second = 1_000_000_000

abbrev pub login_failures_allowed : ℕ
login_failures_allowed = 5

abbrev pub login_failure_window : ℕ
login_failure_window = 300 * 1_000_000_000

abbrev pub login_base_lockout : ℕ
login_base_lockout = 15 * 1_000_000_000

abbrev pub login_max_lockout : ℕ
login_max_lockout = 600 * 1_000_000_000

abbrev pub login_max_tracked_remote : ℕ
login_max_tracked_remote = 1024

pub record LoginAttempt : Type 0 where
  pub failures : ℕ
  pub first_failure : Time
  pub last_failure : Time
  pub locked_until : Time

abbrev pub LoginThrottle : Type 0
LoginThrottle = Map LoginAttempt

-- The loop of `loginLockout` over the failures in excess.
unfoldable pub double_lockout : ℕ → ℕ → ℕ
double_lockout zero lockout = lockout
double_lockout (suc excess) lockout =
    let longer = double_lockout excess (lockout * 2) in
    if ltb lockout login_max_lockout then longer else lockout

unfoldable pub login_lockout : ℕ → ℕ
login_lockout failures =
    if ltb failures login_failures_allowed
    then 0
    else (let lockout = double_lockout (failures - login_failures_allowed) login_base_lockout in
        if ltb login_max_lockout lockout then login_max_lockout else lockout)

-- `now.Sub(t) > loginFailureWindow`
abbrev pub is_quiet : Time → Time → Bool
is_quiet now t = ltb_ℤ (pos login_failure_window) (now -ℤ t)

-- `check`: whether the remote is blocked, and for how long.
unfoldable pub check : LoginThrottle → Time → Text → Bool × ℤ
check entries now remote = elim (lookup remote entries) [
  | none ↦ (false, pos 0)
  | some entry ↦
      if is_quiet now entry.last_failure
      then (false, pos 0)
      else (let remaining = entry.locked_until -ℤ now in
          if ltb_ℤ (pos 0) remaining then (true, remaining) else (false, pos 0))
]

abbrev pub is_expired : Time → LoginAttempt → Bool
is_expired now entry = ltb_ℤ entry.locked_until now && is_quiet now entry.last_failure

-- The loop of `evict`: the entries that stay, and the oldest of them with its last failure.
pub record Sweep : Type 0 where
  pub kept : LoginThrottle
  pub oldest_key : Text
  pub oldest_failure : Time

abbrev pub is_older : Time → LoginAttempt → Bool
is_older oldest_failure entry = ltb_ℤ entry.last_failure oldest_failure

abbrev pub keep : Text × LoginAttempt → Sweep → Sweep
keep entry s = record s { kept = entry ∷ s.kept }

unfoldable pub sweep : Time → Text → Time → LoginThrottle → Sweep
sweep now oldest_key oldest_failure [] = record {
  kept = [];
  oldest_key = oldest_key;
  oldest_failure = oldest_failure;
}
sweep now oldest_key oldest_failure ((remote, entry) ∷ entries) = elim (is_expired now entry) [
  | true ↦ sweep now oldest_key oldest_failure entries
  | false ↦ elim (is_older oldest_failure entry) [
    | true ↦ keep (remote, entry) (sweep now remote entry.last_failure entries)
    | false ↦ keep (remote, entry) (sweep now oldest_key oldest_failure entries)
  ]
]

unfoldable pub evict : LoginThrottle → Time → LoginThrottle
unfolding sweep
evict entries now =
    let s = sweep now [] now entries in
    if leb login_max_tracked_remote (length s.kept) && not (text_eq s.oldest_key [])
    then erase s.oldest_key s.kept
    else s.kept

abbrev pub new_attempt : LoginAttempt
new_attempt = record {
  failures = 0;
  first_failure = zero_time;
  last_failure = zero_time;
  locked_until = zero_time;
}

-- The part of `recordFailure` on the entry alone, once it is found or made.
unfoldable pub count_failure : Time → LoginAttempt → LoginAttempt
count_failure now entry =
    let failures = suc entry.failures in
    record {
      failures = failures;
      first_failure = if entry.failures == 0 then now else entry.first_failure;
      last_failure = now;
      locked_until =
          if leb login_failures_allowed failures
          then now +ℤ pos (login_lockout failures)
          else entry.locked_until;
    }

-- A quiet window starts a fresh burst.
abbrev pub after_quiet : Time → LoginAttempt → LoginAttempt
after_quiet now entry =
    if is_quiet now entry.last_failure
    then record entry { locked_until = zero_time; failures = 0 }
    else entry

unfoldable pub record_failure : LoginThrottle → Time → Text → LoginThrottle
record_failure entries now remote = elim (lookup remote entries) [
  | none ↦
      let room =
        if leb login_max_tracked_remote (length entries) then evict entries now else entries in
      insert remote (count_failure now new_attempt) room
  | some entry ↦ insert remote (count_failure now (after_quiet now entry)) entries
]

unfoldable pub record_success : LoginThrottle → Text → LoginThrottle
record_success entries remote = erase remote entries

pub data Response : Type 0 where
  too_many_requests : ℕ → Response
  unauthorized : Response
  served : Response

-- The Retry-After header: whole seconds, rounded up.
unfoldable pub retry_seconds : ℤ → ℕ
retry_seconds retry_after =
    let nanos = pos_part retry_after in
    if nanos % second == 0 then nanos / second else nanos / second + 1

-- `dashboardAuth`, on a request from a remote whose credentials are good or not: `check` reads the
-- clock at `now`, and `recordFailure`, after the credentials are compared, at `failed_at`.
unfoldable pub dashboard_auth : LoginThrottle → Time → Time → Text → Bool → Response × LoginThrottle
dashboard_auth entries now failed_at remote authorized =
    let (blocked, retry_after) = check entries now remote in
    if blocked
    then (too_many_requests (retry_seconds retry_after), entries)
    else (if authorized
        then (served, record_success entries remote)
        else (unauthorized, record_failure entries failed_at remote))
