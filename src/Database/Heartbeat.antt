-- ===== src/Database/Heartbeat.antt =====
-- internal/database/database.go: `RecordHeartbeat`, which keeps what an agent reports of its machine
-- and of each of its sources, with `normalizeAdapterIDs` and `splitAdapterIDs`. The clock's reading is
-- an argument. Every statement succeeds: the keys and the counts are checked before the transaction.
pub mod Tables
pub mod Health
pub mod Sorted
pub mod Commas
pub mod Adapters
use tokemon.Prelude.{
  ℕ, Bool, true, false, not, ◌&&◌, ◌||◌, List, [], ◌∷◌, ◌++◌, Option, none, some, if◌then◌else◌,
  any, filter,
}
use tokemon.Prelude.Int.{ℤ, pos, ltb_ℤ}
use tokemon.Prelude.Texts.{Text, text_eq, trim_space}
use tokemon.Prelude.Maps.{Map, lookup, insert}
use tokemon.Usage.Event.{Time}
use tokemon.Usage.Check.{◌>>◌, refuse_if}
use tokemon.Usage.Names.{split_on}
use tokemon.Database.Clock.{format_utc}
use tokemon.Database.Machines.{Machine, text_gt}

-- `AgentSourceHealth`
pub record AgentSourceHealth : Type 0 where
  pub adapter : Text
  pub source_hash : Text
  pub last_successful_sync : Option Time
  pub last_error_class : Text

-- `AgentHeartbeat`; of `sources` nil is told apart from a list without sources.
pub record AgentHeartbeat : Type 0 where
  pub machine_id : Text
  pub agent_version : Text
  pub operating_system : Text
  pub architecture : Text
  pub adapters : List Text
  pub source_count : ℤ
  pub source_error_count : ℤ
  pub sources : Option (List AgentSourceHealth)

-- A row of machine_source_health, whose primary key is its first three columns.
pub record HealthRow : Type 0 where
  pub machine_id : Text
  pub adapter : Text
  pub source_hash : Text
  pub last_successful_sync : Text
  pub last_error_class : Text
  pub updated_at : Text

pub record Fleet : Type 0 where
  pub machines : Map Machine
  pub health : List HealthRow

pub data HeartbeatError : Type 0 where
  machine_id_required negative_source_count source_key_required : HeartbeatError

-- The texts without blank ones, trimmed, each once.
unfoldable pub add_adapter_id : List Text → Text → List Text
add_adapter_id result raw =
    let value = trim_space raw in
    if text_eq value [] || any (text_eq value) result then result else result ++ (value ∷ [])

unfoldable pub collect_adapter_ids : List Text → List Text → List Text
collect_adapter_ids result [] = result
collect_adapter_ids result (raw ∷ values) = collect_adapter_ids (add_adapter_id result raw) values

-- sort.Strings; the order of the bytes of UTF-8 is that of the runes.
unfoldable pub insert_string : Text → List Text → List Text
insert_string s [] = s ∷ []
insert_string s (t ∷ ts) =
    let rest = insert_string s ts in if text_gt s t then t ∷ rest else s ∷ t ∷ ts

unfoldable pub sort_strings : List Text → List Text
sort_strings [] = []
sort_strings (s ∷ ss) = insert_string s (sort_strings ss)

-- `normalizeAdapterIDs`
unfoldable pub normalize_adapter_ids : List Text → List Text
normalize_adapter_ids values = sort_strings (collect_adapter_ids [] values)

-- strings.Join with ","
unfoldable pub join_comma : List Text → Text
join_comma [] = []
join_comma (s ∷ []) = s
join_comma (s ∷ t ∷ ss) = s ++ (b',' ∷ join_comma (t ∷ ss))

-- `splitAdapterIDs`
unfoldable pub split_adapter_ids : Text → List Text
split_adapter_ids value =
    if text_eq (trim_space value) [] then [] else normalize_adapter_ids (split_on b',' value)

abbrev or_kept : Text → Text → Text
or_kept kept reported = if text_eq reported [] then kept else reported

abbrev first_heartbeat : AgentHeartbeat → Text → Text → Machine
first_heartbeat h adapters now = record {
  name = h.machine_id;
  operating_system = h.operating_system;
  architecture = h.architecture;
  agent_version = h.agent_version;
  detected_adapters = adapters;
  source_count = h.source_count;
  source_error_count = h.source_error_count;
  first_seen_at = now;
  last_seen_at = now;
}

-- ON CONFLICT(id) DO UPDATE
abbrev next_heartbeat : AgentHeartbeat → Text → Text → Machine → Machine
next_heartbeat h adapters now m = record m {
  name = h.machine_id;
  operating_system = or_kept m.operating_system h.operating_system;
  architecture = or_kept m.architecture h.architecture;
  agent_version = or_kept m.agent_version h.agent_version;
  detected_adapters = adapters;
  source_count = h.source_count;
  source_error_count = h.source_error_count;
  last_seen_at = now;
}

abbrev pub heartbeat_machine : AgentHeartbeat → Text → Option Machine → Machine
heartbeat_machine h now before =
    let adapters = join_comma (normalize_adapter_ids h.adapters) in
    elim before [ none ↦ first_heartbeat h adapters now | some m ↦ next_heartbeat h adapters now m ]

abbrev pub has_key : Text → Text → Text → HealthRow → Bool
has_key machine adapter hash r =
    text_eq r.machine_id machine && text_eq r.adapter adapter && text_eq r.source_hash hash

-- INSERT ... ON CONFLICT(machine_id, adapter, source_hash) DO UPDATE
unfoldable pub put_health : HealthRow → List HealthRow → List HealthRow
put_health row [] = row ∷ []
put_health row (r ∷ rows) =
    let rest = put_health row rows in
    if has_key row.machine_id row.adapter row.source_hash r then row ∷ rows else r ∷ rest

abbrev pub health_row : Text → Text → AgentSourceHealth → HealthRow
health_row machine now s = record {
  machine_id = machine;
  adapter = s.adapter;
  source_hash = s.source_hash;
  last_successful_sync = elim s.last_successful_sync [ none ↦ [] | some t ↦ format_utc t ];
  last_error_class = s.last_error_class;
  updated_at = now;
}

unfoldable pub put_sources : Text → Text → List AgentSourceHealth → List HealthRow → List HealthRow
put_sources machine now [] rows = rows
put_sources machine now (s ∷ sources) rows =
    put_sources machine now sources (put_health (health_row machine now s) rows)

-- DELETE FROM machine_source_health WHERE machine_id = ?
abbrev pub without_machine : Text → List HealthRow → List HealthRow
without_machine machine rows = filter (λ r. not (text_eq r.machine_id machine)) rows

abbrev pub no_key : AgentSourceHealth → Bool
no_key s = text_eq (trim_space s.adapter) [] || text_eq (trim_space s.source_hash) []

abbrev pub replace_sources :
    Text → Text → Option (List AgentSourceHealth) → List HealthRow → List HealthRow
replace_sources machine now none rows = rows
replace_sources machine now (some sources) rows =
    put_sources machine now sources (without_machine machine rows)

abbrev sources_of : AgentHeartbeat → List AgentSourceHealth
sources_of h = elim h.sources [ none ↦ [] | some sources ↦ sources ]

-- The checks of `RecordHeartbeat` before its transaction.
unfoldable pub check_heartbeat : AgentHeartbeat → Option HeartbeatError
check_heartbeat h = do
  refuse_if (text_eq (trim_space h.machine_id) []) machine_id_required
  refuse_if (ltb_ℤ h.source_count (pos 0) || ltb_ℤ h.source_error_count (pos 0))
      negative_source_count
  refuse_if (any no_key (sources_of h)) source_key_required

abbrev pub apply_heartbeat : Text → AgentHeartbeat → Fleet → Fleet
apply_heartbeat now h fleet = record {
  machines =
      insert h.machine_id (heartbeat_machine h now (lookup h.machine_id fleet.machines))
        fleet.machines;
  health = replace_sources h.machine_id now h.sources fleet.health;
}

-- `RecordHeartbeat`: the tables after it, and the error if any.
unfoldable pub record_heartbeat : Time → AgentHeartbeat → Fleet → Fleet × Option HeartbeatError
record_heartbeat clock h fleet = elim (check_heartbeat h) [
  | some error ↦ (fleet, some error)
  | none ↦ (apply_heartbeat (format_utc clock) h fleet, none)
]
