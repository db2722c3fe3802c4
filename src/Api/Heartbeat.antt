-- ===== src/Api/Heartbeat.antt =====
-- internal/api/server.go: `heartbeat`, which records what an agent says of its machine and its sources.
-- The clock reads `clock n` while the handler looks at the n-th source. The log and the measured
-- latency are left out.
pub mod Records
mod Tests
use tokemon.Prelude.{
  ℕ, suc, ◌+◌, ◌%◌, ◌^◌, ◌*◌, Bool, true, false, ◌||◌, List, [], ◌∷◌, Option, none, some, ◌⊎◌, inl,
  inr, if◌then◌else◌, ltb, length, map,
}
use tokemon.Prelude.Int.{ℤ, pos, pos_part, ltb_ℤ, ◌+ℤ◌}
use tokemon.Prelude.Texts.{Text, text_eq, byte_len, trim_space}
use tokemon.Usage.Event.{Time}
use tokemon.Usage.Check.{◌>>◌, refuse_if}
use tokemon.Usage.Validate.{day_nanos}
use tokemon.Database.Heartbeat.{AgentSourceHealth, AgentHeartbeat, Fleet, record_heartbeat}
use tokemon.Api.Auth.{NetTools, Credentials, Config, ingest_authorized}
use tokemon.Api.Hub.{Codecs, Post, decode_json_body, body_status}

pub record HeartbeatAdapter : Type 0 where
  pub id : Text
  pub version : Text

-- `heartbeatRequest`; of `sources` nil is told apart from a list without sources.
pub record HeartbeatRequest : Type 0 where
  pub machine_id : Text
  pub agent_version : Text
  pub operating_system : Text
  pub architecture : Text
  pub adapters : List HeartbeatAdapter
  pub source_count : ℤ
  pub source_error_count : ℤ
  pub sources : Option (List AgentSourceHealth)

pub data Problem : Type 0 where
  not_authorized invalid_heartbeat machine_id_required machine_id_too_long field_too_long : Problem
  negative_counts too_many_adapters too_many_sources bad_source_adapter bad_identity_hash : Problem
  error_class_too_long sync_in_future bad_adapter_id adapter_version_too_long not_recorded : Problem

pub data HeartbeatReply : Type 0 where
  refused_heartbeat : ℕ → Problem → HeartbeatReply
  recorded : HeartbeatReply

-- The tables and the counter of `Metrics` that `heartbeat` moves.
pub record Station : Type 0 where
  pub fleet : Fleet
  pub source_errors : ℕ

abbrev pub max_heartbeat_body_bytes : ℕ
max_heartbeat_body_bytes = 2 ^ 20

abbrev bad_name : Text → Bool
bad_name s = text_eq (trim_space s) [] || ltb 128 (length s)

abbrev too_far : Time → Option Time → Bool
too_far now none = false
too_far now (some t) = ltb_ℤ (now +ℤ pos day_nanos) t

unfoldable pub check_source_health : Time → AgentSourceHealth → Option Problem
check_source_health now s = do
  refuse_if (bad_name s.adapter) bad_source_adapter
  refuse_if (bad_name s.source_hash) bad_identity_hash
  refuse_if (ltb 32 (byte_len s.last_error_class)) error_class_too_long
  refuse_if (too_far now s.last_successful_sync) sync_in_future

unfoldable pub check_sources : (ℕ → Time) → ℕ → List AgentSourceHealth → Option Problem
check_sources clock index [] = none
check_sources clock index (s ∷ sources) = do
  check_source_health (clock index) s
  check_sources clock (suc index) sources

unfoldable pub check_adapters : List HeartbeatAdapter → Option Problem
check_adapters [] = none
check_adapters (a ∷ adapters) = do
  refuse_if (bad_name a.id) bad_adapter_id
  refuse_if (ltb 64 (byte_len a.version)) adapter_version_too_long
  check_adapters adapters

abbrev pub reported_sources : HeartbeatRequest → List AgentSourceHealth
reported_sources r = elim r.sources [ none ↦ [] | some sources ↦ sources ]

abbrev long_field : HeartbeatRequest → Bool
long_field r =
    ltb 64 (byte_len r.agent_version)
    || ltb 32 (byte_len r.operating_system)
    || ltb 16 (byte_len r.architecture)

-- The checks of `heartbeat` in the order of the source.
unfoldable pub check_request : (ℕ → Time) → HeartbeatRequest → Option Problem
check_request clock r = do
  refuse_if (text_eq (trim_space r.machine_id) []) machine_id_required
  refuse_if (ltb 128 (byte_len r.machine_id)) machine_id_too_long
  refuse_if (long_field r) field_too_long
  refuse_if (ltb_ℤ r.source_count (pos 0) || ltb_ℤ r.source_error_count (pos 0)) negative_counts
  refuse_if (ltb 64 (length r.adapters)) too_many_adapters
  refuse_if (ltb 256 (length (reported_sources r))) too_many_sources
  check_sources clock 0 (reported_sources r)
  check_adapters r.adapters

abbrev pub heartbeat_of : HeartbeatRequest → AgentHeartbeat
heartbeat_of r = record {
  machine_id = r.machine_id;
  agent_version = r.agent_version;
  operating_system = r.operating_system;
  architecture = r.architecture;
  adapters = map (λ (a : HeartbeatAdapter). a.id) r.adapters;
  source_count = r.source_count;
  source_error_count = r.source_error_count;
  sources = r.sources;
}

-- The part of `heartbeat` after the checks.
unfoldable pub record_request : Time → HeartbeatRequest → Station → Station × HeartbeatReply
record_request later r station =
    let (next, error) = record_heartbeat later (heartbeat_of r) station.fleet in
    let after : Station = record {
      fleet = next;
      source_errors = (station.source_errors + pos_part r.source_error_count) % 2 ^ 64;
    } in
    elim error [ none ↦ (after, recorded) | some _ ↦ (after, refused_heartbeat 500 not_recorded) ]

unfoldable pub answer_request :
    (ℕ → Time) → Time → HeartbeatRequest → Station → Station × HeartbeatReply
answer_request clock later r station = elim (check_request clock r) [
  | some problem ↦ (station, refused_heartbeat 400 problem)
  | none ↦ record_request later r station
]

module _ {Ip : Type 0} (net : NetTools Ip) (tools : Credentials)
    (codecs : Codecs HeartbeatRequest) where
  unfoldable pub read_heartbeat : (ℕ → Time) → Time → Post → Station → Station × HeartbeatReply
  read_heartbeat clock later p station = elim (decode_json_body codecs max_heartbeat_body_bytes p) [
    | inr error ↦ (station, refused_heartbeat (body_status error) invalid_heartbeat)
    | inl r ↦ answer_request clock later r station
  ]

  -- `Server.heartbeat`
  unfoldable pub heartbeat_handler :
      Config Ip → (ℕ → Time) → Time → Post → Station → Station × HeartbeatReply
  heartbeat_handler c clock later p station =
      if ingest_authorized tools net c p.request
      then read_heartbeat clock later p station
      else (station, refused_heartbeat 401 not_authorized)
