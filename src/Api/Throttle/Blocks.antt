-- ===== src/Api/Throttle/Blocks.antt =====
-- How the wrapper treats a remote that has failed before.
use tokemon.Prelude.{
  ℕ, suc, ◌≤◌, ◌<◌, ◌≡◌, ◌≢◌, refl, Bool, true, false, some, arith, if◌then◌else◌, length, le→leb,
  ◌∙◌,
}
use tokemon.Prelude.Int.{pos, ◌+ℤ◌, ◌-ℤ◌, ◌≤ℤ◌, ◌<ℤ◌, ltb_ℤ, +ℤ_parts, -ℤ_parts}
use tokemon.Prelude.Texts.{Text, text_eq_iff}
use tokemon.Prelude.Maps.{lookup, lookup-insert_self, lookup-insert, lookup-erase}
use tokemon.Usage.Event.{Time, zero_time}
use tokemon.Api.Throttle.{
  LoginThrottle, LoginAttempt, too_many_requests, unauthorized, served, check, is_quiet,
  count_failure, after_quiet, record_failure, record_success, dashboard_auth, retry_seconds,
  login_lockout, login_failures_allowed, login_failure_window, login_max_tracked_remote,
}

check_known :
    (entries : LoginThrottle) (t : Time) (remote : Text) (entry : LoginAttempt)
    → lookup remote entries ≡ some entry
    → check entries t remote ≡ (
        if is_quiet t entry.last_failure
        then (false, pos 0)
        else (if ltb_ℤ (pos 0) (entry.locked_until -ℤ t)
            then (true, entry.locked_until -ℤ t)
            else (false, pos 0)))
unfolding check
check_known entries t remote entry known = rw (known, check)

lookup-record_failure :
    (entries : LoginThrottle) (now : Time) (remote : Text) (entry : LoginAttempt)
    → lookup remote entries ≡ some entry
    → lookup remote (record_failure entries now remote)
      ≡ some (count_failure now (after_quiet now entry))
unfolding record_failure
lookup-record_failure entries now remote entry known =
    rw (known, record_failure) (lookup-insert_self remote _ entries)

within-window : (now t : Time) (w : ℕ) → t ≤ℤ now +ℤ pos w → ltb_ℤ (pos w) (t -ℤ now) ≡ false
within-window now t w h = ground (arith, -ℤ_parts t now, +ℤ_parts now (pos w))

beyond-window : (now t : Time) (w : ℕ) → now +ℤ pos w <ℤ t → ltb_ℤ (pos w) (t -ℤ now) ≡ true
beyond-window now t w h = ground (arith, -ℤ_parts t now, +ℤ_parts now (pos w))

still-locked : (t until : Time) → t <ℤ until → ltb_ℤ (pos 0) (until -ℤ t) ≡ true
still-locked t until h = ground (arith, -ℤ_parts until t)

count_failure_locks :
    (now : Time) (entry : LoginAttempt)
    → is_quiet now entry.last_failure ≡ false
    → login_failures_allowed ≤ suc entry.failures
    → ((count_failure now (after_quiet now entry)).last_failure ≡ now)
      × ((count_failure now (after_quiet now entry)).locked_until
          ≡ now +ℤ pos (login_lockout (suc entry.failures)))
unfolding count_failure
count_failure_locks now entry busy many = rw busy (refl, rw (le→leb _ _ many))

check_locked :
    (entries : LoginThrottle) (t : Time) (remote : Text) (entry : LoginAttempt)
    → lookup remote entries ≡ some entry
    → t ≤ℤ entry.last_failure +ℤ pos login_failure_window
    → t <ℤ entry.locked_until
    → check entries t remote ≡ (true, entry.locked_until -ℤ t)
check_locked entries t remote entry known window locked =
    check_known entries t remote entry known
    ∙ rw (within-window entry.last_failure t login_failure_window window)
        (rw (still-locked t entry.locked_until locked))

-- A remote whose fifth or later failure of a burst was counted at `now` is turned away at every
-- later time up to the end of the lockout and of the failure window, whatever its credentials; the
-- answer names the time that remains, and the table does not change.
pub dashboard_auth_locked :
    (entries : LoginThrottle) (now t failed_at : Time) (remote : Text) (entry : LoginAttempt)
    (authorized : Bool)
    → lookup remote entries ≡ some entry
    → is_quiet now entry.last_failure ≡ false
    → login_failures_allowed ≤ suc entry.failures
    → now ≤ℤ t
    → t ≤ℤ now +ℤ pos login_failure_window
    → t <ℤ now +ℤ pos (login_lockout (suc entry.failures))
    → let after = record_failure entries now remote in
      dashboard_auth after t failed_at remote authorized ≡ (
        too_many_requests (retry_seconds (now +ℤ pos (login_lockout (suc entry.failures)) -ℤ t)),
        after,
      )
unfolding dashboard_auth
dashboard_auth_locked entries now t failed_at remote entry authorized known busy many later window
      locked =
    let counted = lookup-record_failure entries now remote entry known in
    let (last, until) = count_failure_locks now entry busy many in
    let blocked =
      check_locked (record_failure entries now remote) t remote _ counted (rw last window)
        (rw until locked) in
    rw blocked (rw until)

-- The failure window cuts a long lockout short. Once more than the window has passed since the last
-- failure, a remote is let through to the credentials, however far off the end of its lockout is;
-- bad credentials then start a new burst, with one failure on record, where the clock does not go back between the
-- check and the record.
pub dashboard_auth_window_ends_lockout :
    (entries : LoginThrottle) (t failed_at : Time) (remote : Text) (entry : LoginAttempt)
    → lookup remote entries ≡ some entry
    → entry.last_failure +ℤ pos login_failure_window <ℤ t
    → t ≤ℤ failed_at
    → (dashboard_auth entries t failed_at remote true ≡ (served, record_success entries remote))
      × (dashboard_auth entries t failed_at remote false
          ≡ (unauthorized, record_failure entries failed_at remote))
      × (lookup remote (record_failure entries failed_at remote)
          ≡ some (record {
            failures = 1;
            first_failure = failed_at;
            last_failure = failed_at;
            locked_until = zero_time;
          }))
unfolding dashboard_auth
dashboard_auth_window_ends_lockout entries t failed_at remote entry known quiet later =
    let over = beyond-window entry.last_failure t login_failure_window quiet in
    let still_over =
      beyond-window entry.last_failure failed_at login_failure_window
        (omega (arith, quiet, later)) in
    let open_again : check entries t remote ≡ (false, pos 0) =
      check_known entries t remote entry known ∙ rw over in
    (
      rw open_again,
      rw open_again,
      lookup-record_failure entries failed_at remote entry known
          ∙ unfold count_failure in rw still_over,
    )

-- A login from one remote leaves the record of every other remote alone, while the table has room.
pub dashboard_auth_others :
    (entries : LoginThrottle) (now failed_at : Time) (remote other : Text) (authorized : Bool)
    → remote ≢ other
    → length entries < login_max_tracked_remote
    → lookup other (dashboard_auth entries now failed_at remote authorized).1 ≡ lookup other entries
unfolding dashboard_auth record_failure record_success
dashboard_auth_others entries now failed_at remote other authorized ne room =
    grind (arith, lookup-insert, lookup-erase, text_eq_iff remote other)
