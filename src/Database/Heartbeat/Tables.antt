-- ===== src/Database/Heartbeat/Tables.antt =====
-- `RecordHeartbeat` of internal/database/database.go: the lookups in its tables after a heartbeat.
use tokemon.Prelude.{
  ◌≡◌, refl, ◌∙◌, ◌&&◌, List, [], ◌∷◌, Option, none, some, if◌then◌else◌, arith, Bool-cases,
  Option-cases, inl, inr,
}
use tokemon.Prelude.Texts.{Text, text_eq, text_eq_iff, eq_of_text_eq}
use tokemon.Prelude.Maps.{lookup, lookup-insert}
use tokemon.Usage.Event.{Time}
use tokemon.Database.Clock.{format_utc}
use tokemon.Database.Heartbeat.{
  AgentSourceHealth, AgentHeartbeat, HealthRow, Fleet, HeartbeatError, heartbeat_machine, has_key,
  put_health, health_row, put_sources, without_machine, replace_sources, check_heartbeat,
  apply_heartbeat, record_heartbeat,
}

-- The row of a source of a machine.
unfoldable pub find_health : Text → Text → Text → List HealthRow → Option HealthRow
find_health machine adapter hash [] = none
find_health machine adapter hash (r ∷ rows) =
    if has_key machine adapter hash r then some r else find_health machine adapter hash rows

-- What a list says last of a source.
unfoldable pub last_reported : Text → Text → List AgentSourceHealth → Option AgentSourceHealth
last_reported adapter hash [] = none
last_reported adapter hash (s ∷ sources) =
    let here = if text_eq s.adapter adapter && text_eq s.source_hash hash then some s else none in
    elim (last_reported adapter hash sources) [ none ↦ here | some later ↦ some later ]

find-put_health :
    (m a k : Text) (row : HealthRow) (rows : List HealthRow)
    → find_health m a k (put_health row rows)
      ≡ (if has_key m a k row then some row else find_health m a k rows)
unfolding find_health put_health
find-put_health m a k row [] = refl
find-put_health m a k row (r ∷ rows) = ground (
  arith,
  find-put_health m a k row rows,
  text_eq_iff row.machine_id m,
  text_eq_iff r.machine_id row.machine_id,
  text_eq_iff r.machine_id m,
  text_eq_iff row.adapter a,
  text_eq_iff r.adapter row.adapter,
  text_eq_iff r.adapter a,
  text_eq_iff row.source_hash k,
  text_eq_iff r.source_hash row.source_hash,
  text_eq_iff r.source_hash k,
)

find-without_machine :
    (machine m a k : Text) (rows : List HealthRow)
    → find_health m a k (without_machine machine rows)
      ≡ (if text_eq machine m then none else find_health m a k rows)
unfolding find_health
find-without_machine machine m a k [] = ground arith
find-without_machine machine m a k (r ∷ rows) = ground (
  arith,
  find-without_machine machine m a k rows,
  text_eq_iff machine m,
  text_eq_iff r.machine_id machine,
  text_eq_iff r.machine_id m,
)

-- The row that a reported source leaves, or the row there was.
abbrev pub row_of : Text → Text → Option AgentSourceHealth → Option HealthRow → Option HealthRow
row_of machine now none before = before
row_of machine now (some s) before = some (health_row machine now s)

find-put_sources :
    (machine now m a k : Text) (sources : List AgentSourceHealth) (rows : List HealthRow)
    → find_health m a k (put_sources machine now sources rows) ≡ (
        if text_eq machine m
        then row_of machine now (last_reported a k sources) (find_health m a k rows)
        else find_health m a k rows)
unfolding put_sources last_reported
find-put_sources machine now m a k [] rows = ground arith
find-put_sources machine now m a k (s ∷ sources) rows =
    find-put_sources machine now m a k sources (put_health (health_row machine now s) rows)
    ∙ ground (arith, find-put_health m a k (health_row machine now s) rows)

-- What a heartbeat leaves for a source: with a list of sources, the machine keeps exactly what the
-- list says last of each; without one, and for other machines, nothing changes.
abbrev pub health_after :
    Text
    → Option (List AgentSourceHealth)
    → Text
    → Text
    → Text
    → Text
    → Option HealthRow
    → Option HealthRow
health_after machine none now m a k before = before
health_after machine (some sources) now m a k before =
    if text_eq machine m then row_of machine now (last_reported a k sources) none else before

find-replace_sources :
    (machine : Text) (sources : Option (List AgentSourceHealth)) (now m a k : Text)
    (rows : List HealthRow)
    → find_health m a k (replace_sources machine now sources rows)
      ≡ health_after machine sources now m a k (find_health m a k rows)
find-replace_sources machine none now m a k rows = refl
find-replace_sources machine (some sources) now m a k rows =
    find-put_sources machine now m a k sources (without_machine machine rows)
    ∙ ground (arith, find-without_machine machine m a k rows)

refused_error :
    (clock : Time) (h : AgentHeartbeat) (fleet : Fleet) (error : HeartbeatError)
    → check_heartbeat h ≡ some error
    → (record_heartbeat clock h fleet).1 ≡ some error
unfolding record_heartbeat
refused_error clock h fleet error bad = rw (bad, record_heartbeat) refl

pub checked_applies :
    (clock : Time) (h : AgentHeartbeat) (fleet : Fleet)
    → check_heartbeat h ≡ none
    → record_heartbeat clock h fleet ≡ (apply_heartbeat (format_utc clock) h fleet, none)
unfolding record_heartbeat
checked_applies clock h fleet good = rw (good, record_heartbeat) refl

accepted_applies :
    (clock : Time) (h : AgentHeartbeat) (fleet : Fleet)
    → (record_heartbeat clock h fleet).1 ≡ none
    → record_heartbeat clock h fleet ≡ (apply_heartbeat (format_utc clock) h fleet, none)
accepted_applies clock h fleet accepted = elim (Option-cases (check_heartbeat h)) [
  | inr (error, bad) ↦ absurd (ground (arith, refused_error clock h fleet error bad, accepted))
  | inl good ↦ checked_applies clock h fleet good
]

-- The two tables after a heartbeat that is accepted.
pub record_heartbeat-tables :
    (clock : Time) (h : AgentHeartbeat) (fleet : Fleet)
    → (record_heartbeat clock h fleet).1 ≡ none
    → let next = (record_heartbeat clock h fleet).0 in
      ((m : Text)
        → lookup m next.machines ≡ (
            if text_eq h.machine_id m
            then some (heartbeat_machine h (format_utc clock) (lookup m fleet.machines))
            else lookup m fleet.machines))
      × ((m a k : Text)
          → find_health m a k next.health
            ≡ health_after h.machine_id h.sources
                (format_utc clock)
                m
                a
                k
                (find_health m a k fleet.health))
record_heartbeat-tables clock h fleet accepted = rw (accepted_applies clock h fleet accepted) (
  (λ m. lookup-insert h.machine_id m _ fleet.machines ∙ same_machine m),
  λ m a k. find-replace_sources h.machine_id h.sources (format_utc clock) m a k fleet.health,
)
  where
    same_machine :
        (m : Text)
        → (if text_eq h.machine_id m
            then some (heartbeat_machine h (format_utc clock) (lookup h.machine_id fleet.machines))
            else lookup m fleet.machines)
          ≡ (if text_eq h.machine_id m
              then some (heartbeat_machine h (format_utc clock) (lookup m fleet.machines))
              else lookup m fleet.machines)
    same_machine m = elim (Bool-cases (text_eq h.machine_id m)) [
      | inl same ↦ rw (eq_of_text_eq h.machine_id m same) refl
      | inr other ↦ rw other refl
    ]
