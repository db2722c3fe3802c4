-- ===== src/Api/Throttle/Capacity.antt =====
-- The table of remotes stays within its cap, and when it does not.
use tokemon.Prelude.{
  suc, ◌≤◌, ◌<◌, ◌≡◌, ◌≢◌, refl, ap, ◌⊎◌, inl, inr, Bool, false, [], ◌∷◌, none, some, arith, leb,
  length, All, Bool-cases, Option-cases, le→leb,
}
use tokemon.Prelude.Int.{◌<ℤ◌, -ℤ_parts}
use tokemon.Prelude.Texts.{Text, text_eq, text_eq_iff, text_eq_refl}
use tokemon.Prelude.Maps.{
  lookup, erase, length-insert, length-insert-le, length-erase-le, length-erase-lt,
}
use tokemon.Usage.Event.{Time}
use tokemon.Api.Throttle.{
  LoginThrottle, LoginAttempt, Sweep, sweep, evict, is_expired, is_older, keep, record_failure,
  record_success, dashboard_auth, count_failure, new_attempt, login_max_tracked_remote,
}

-- Every remote on record has a name, and failed before now.
abbrev pub IsPast : Time → LoginThrottle → Type 0
IsPast now = All (λ (r : Text × LoginAttempt). (r.0 ≢ []) × (r.1.last_failure <ℤ now))

-- The sweep found an oldest entry among those that stay, or it kept what it was given.
abbrev Finds : Time → Text → Time → Sweep → Type 0
Finds now k f s =
    ((v : LoginAttempt) × (lookup s.oldest_key s.kept ≡ some v))
    ⊎ ((s.oldest_key ≡ k) × (f ≡ now → s.kept ≡ []))

-- One round of the sweep.
abbrev SweepRound : Time → Text → Time → Text → LoginAttempt → LoginThrottle → Type 0
SweepRound now k f remote entry entries =
    let s = sweep now k f ((remote, entry) ∷ entries) in
    (s ≡ sweep now k f entries)
    ⊎ (s ≡ keep (remote, entry) (sweep now remote entry.last_failure entries))
    ⊎ ((is_older f entry ≡ false) × (s ≡ keep (remote, entry) (sweep now k f entries)))

sweep_round :
    (now : Time) (k : Text) (f : Time) (remote : Text) (entry : LoginAttempt)
    (entries : LoginThrottle)
    → SweepRound now k f remote entry entries
unfolding sweep
sweep_round now k f remote entry entries = elim (Bool-cases (is_expired now entry)) [
  | inl expired ↦ inl (rw (expired, sweep))
  | inr fresh ↦ elim (Bool-cases (is_older f entry)) [
    | inl older ↦ inr (inl (rw (fresh, sweep) (rw older)))
    | inr newer ↦ inr (inr (newer, rw (fresh, sweep) (rw newer)))
  ]
]

keep-Finds :
    (now : Time) (k : Text) (f : Time) (remote : Text) (entry : LoginAttempt) (s : Sweep)
    → (v : LoginAttempt) × (lookup s.oldest_key s.kept ≡ some v)
    → Finds now k f (keep (remote, entry) s)
unfolding lookup
keep-Finds now k f remote entry s (v, found) = elim (Bool-cases (text_eq remote s.oldest_key)) [
  | inl same ↦ inl (entry, rw same)
  | inr other ↦ inl (v, rw other found)
]

sweep-Finds :
    (now : Time) (k : Text) (f : Time) (entries : LoginThrottle)
    → IsPast now entries
    → Finds now k f (sweep now k f entries)
sweep-Finds now k f [] h = inr (unfold sweep in refl, λ _. unfold sweep in refl)
sweep-Finds now k f ((remote, entry) ∷ entries) h =
    elim (sweep_round now k f remote entry entries) [
      | inl gone ↦ rw gone (sweep-Finds now k f entries h.1)
      | inr (inl older) ↦
          rw older (older_found (sweep-Finds now remote entry.last_failure entries h.1))
      | inr (inr (newer, kept)) ↦ rw kept (newer_found newer (sweep-Finds now k f entries h.1))
    ]
  where
    older_found :
        Finds now remote entry.last_failure (sweep now remote entry.last_failure entries)
        → Finds now k f (keep (remote, entry) (sweep now remote entry.last_failure entries))
    older_found (inl found) =
        keep-Finds now k f remote entry (sweep now remote entry.last_failure entries) found
    older_found (inr (same, _)) = inl (entry, unfold lookup in rw same (rw text_eq_refl))

    newer_found :
        is_older f entry ≡ false
        → Finds now k f (sweep now k f entries)
        → Finds now k f (keep (remote, entry) (sweep now k f entries))
    newer_found newer (inl found) = keep-Finds now k f remote entry (sweep now k f entries) found
    newer_found newer (inr (same, _)) = inr (same, λ e. absurd (ground (arith, newer, h.0.1, e)))

sweep-length :
    (now : Time) (k : Text) (f : Time) (entries : LoginThrottle)
    → length (sweep now k f entries).kept ≤ length entries
sweep-length now k f [] = unfold sweep in omega arith
sweep-length now k f ((remote, entry) ∷ entries) = elim (sweep_round now k f remote entry entries) [
  | inl gone ↦ rw gone (omega (arith, sweep-length now k f entries))
  | inr (inl older) ↦ rw older (omega (arith, sweep-length now remote entry.last_failure entries))
  | inr (inr (newer, kept)) ↦ rw kept (omega (arith, sweep-length now k f entries))
]

sweep-IsPast :
    (now : Time) (k : Text) (f : Time) (entries : LoginThrottle)
    → IsPast now entries
    → IsPast now (sweep now k f entries).kept
sweep-IsPast now k f [] h = unfold sweep in tt
sweep-IsPast now k f ((remote, entry) ∷ entries) h =
    elim (sweep_round now k f remote entry entries) [
      | inl gone ↦ rw gone (sweep-IsPast now k f entries h.1)
      | inr (inl older) ↦ rw older (h.0, sweep-IsPast now remote entry.last_failure entries h.1)
      | inr (inr (newer, kept)) ↦ rw kept (h.0, sweep-IsPast now k f entries h.1)
    ]

lookup-nameless :
    (now : Time) (entries : LoginThrottle) → IsPast now entries → lookup [] entries ≡ none
unfolding lookup text_eq
lookup-nameless now [] h = refl
lookup-nameless now (([], entry) ∷ entries) h = absurd (h.0.0 refl)
lookup-nameless now ((_ ∷ _, entry) ∷ entries) h = lookup-nameless now entries h.1

-- With an entry left, the oldest one has a name and is there to be erased.
oldest-known :
    (now : Time) (entries : LoginThrottle)
    → IsPast now entries
    → let s = sweep now [] now entries in
      0 < length s.kept
      → (text_eq s.oldest_key [] ≡ false) × (length (erase s.oldest_key s.kept) < length s.kept)
oldest-known now entries past more = elim (sweep-Finds now [] now entries past) [
  | inl (v, found) ↦ (named v found, length-erase-lt s.oldest_key s.kept v found)
  | inr (_, nothing) ↦ absurd (omega (arith, ap length (nothing refl)))
]
  where
    s : Sweep
    s = sweep now [] now entries

    named :
        (v : LoginAttempt) → lookup s.oldest_key s.kept ≡ some v → text_eq s.oldest_key [] ≡ false
    named v found = elim (Bool-cases (text_eq s.oldest_key [])) [
      | inr named' ↦ named'
      | inl nameless ↦
          let missing = lookup-nameless now s.kept (sweep-IsPast now [] now entries past) in
          cc (found, missing, (text_eq_iff s.oldest_key []).0 nameless)
    ]

-- A full table makes room.
evict-length :
    (now : Time) (entries : LoginThrottle)
    → IsPast now entries
    → length entries ≤ login_max_tracked_remote
    → length (evict entries now) < login_max_tracked_remote
unfolding evict
evict-length now entries past full =
    elim (Bool-cases (leb login_max_tracked_remote (length (sweep now [] now entries).kept))) [
      | inr room ↦ rw room (ground (arith, room))
      | inl still_full ↦
          let (named, shorter) = oldest-known now entries past (ground (arith, still_full)) in
          rw (still_full, named) (omega (arith, shorter, sweep-length now [] now entries))
    ]

record_failure-length :
    (entries : LoginThrottle) (now : Time) (remote : Text)
    → IsPast now entries
    → length entries ≤ login_max_tracked_remote
    → length (record_failure entries now remote) ≤ login_max_tracked_remote
unfolding record_failure
record_failure-length entries now remote past full = elim (Option-cases (lookup remote entries)) [
  | inr (entry, known) ↦ rw (known, record_failure) (rw length-insert (rw known full))
  | inl new ↦
      rw (new, record_failure)
        (ground (
          arith,
          length-insert-le remote (count_failure now new_attempt) entries,
          length-insert-le remote (count_failure now new_attempt) (evict entries now),
          evict-length now entries past full,
        ))
]

-- The table of tracked remotes never grows past 1024 entries through the login wrapper, if the clock
-- that counts a failure has moved on since every failure on record and no tracked remote is the empty string.
pub dashboard_auth-capped :
    (entries : LoginThrottle) (now failed_at : Time) (remote : Text) (authorized : Bool)
    → IsPast failed_at entries
    → length entries ≤ login_max_tracked_remote
    → length (dashboard_auth entries now failed_at remote authorized).1 ≤ login_max_tracked_remote
unfolding dashboard_auth record_success
dashboard_auth-capped entries now failed_at remote authorized past full = ground (
  arith,
  record_failure-length entries failed_at remote past full,
  length-erase-le remote entries,
)

sweep_same_instant :
    (now : Time) (k : Text) (entries : LoginThrottle)
    → All (λ (r : Text × LoginAttempt). r.1.last_failure ≡ now) entries
    → sweep now k now entries ≡ record { kept = entries; oldest_key = k; oldest_failure = now }
unfolding sweep
sweep_same_instant now k [] h = refl
sweep_same_instant now k ((remote, entry) ∷ entries) h =
    let fresh : is_expired now entry ≡ false =
      ground (arith, h.0, -ℤ_parts now entry.last_failure) in
    let newer : is_older now entry ≡ false = ground (arith, h.0) in
    rw (fresh, sweep) (rw newer (ap (keep (remote, entry)) (sweep_same_instant now k entries h.1)))

-- Where the clock has not moved on since any failure on record, a full table does not make room:
-- a failure from a new remote is added on top.
pub record_failure_same_instant :
    (entries : LoginThrottle) (now : Time) (remote : Text)
    → All (λ (r : Text × LoginAttempt). r.1.last_failure ≡ now) entries
    → login_max_tracked_remote ≤ length entries
    → lookup remote entries ≡ none
    → length (record_failure entries now remote) ≡ suc (length entries)
unfolding record_failure
record_failure_same_instant entries now remote same full new =
    let no_room : evict entries now ≡ entries =
      unfold evict text_eq in rw (sweep_same_instant now [] entries same) (ground arith) in
    rw (new, record_failure) (rw (le→leb _ _ full) (rw no_room (rw length-insert (rw new))))
