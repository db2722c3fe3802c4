-- ===== src/Adapters/Codex/Log.antt =====
-- internal/adapters/codex/codex.go: `parseLogUncached`, which reads a session log from the cursor on
-- and turns its records into events. Positions and line numbers stay far below the bounds of int64.
pub mod Reading
pub mod Resume
pub mod Polls
pub mod Forks
mod Tests
use tokemon.Prelude.{
  ℕ, suc, ◌+◌, ◌*◌, ◌^◌, Bool, true, false, not, ◌&&◌, ◌||◌, List, [], ◌∷◌, ◌++◌, Option, none,
  some, ltb, ◌==◌, if◌then◌else◌, length, any, drop,
}
use tokemon.Prelude.Int.{ℤ, pos, pos_part, ltb_ℤ, leb_ℤ}
use tokemon.Prelude.Texts.{Text, text, text_eq, trim_space}
use tokemon.Prelude.Find.{CaseTables, contains}
use tokemon.Usage.Event.{Time, Event, Source, accuracy_reported}
use tokemon.Usage.Names.{normalize_session_id, normalize_project, hash_session_id}
use tokemon.Usage.Validate.{schema_version}
use tokemon.Usage.Identity.{hash_identity, join_nul, decimal, deterministic_id}
use tokemon.Adapters.Source.{Bytes, cut_records, Cursor, ParseResult}
use tokemon.Adapters.Codex.{
  NormalizedTokenUsage, no_usage, normalize_token_usage, delta, is_zero, event_token_usage,
  subtract_inherited_prefix,
}
use tokemon.Adapters.Codex.Fork.{
  SessionMetadata, no_metadata, TokenInfo, Payload, session_meta, turn_context, event_msg,
  unreadable, LogRecord, first_non_empty, fork_timestamp, session_meta_mark, turn_context_mark,
  token_count_mark,
}

-- maxCodexRecordBytes
abbrev pub max_codex_record_bytes : ℕ
max_codex_record_bytes = 64 * 2 ^ 20

-- codexParseStateVersion
abbrev pub parse_state_version : ℕ
parse_state_version = 1

-- `codexParseState`: what the loop knows of the session, and what the cursor keeps of it.
pub record ParseState : Type 0 where
  pub cache_identity : Text
  pub session_id : Text
  pub source_session_id : Text
  pub provider : Text
  pub model : Text
  pub project : Text
  pub previous_cumulative : NormalizedTokenUsage
  pub has_previous_cumulative : Bool
  pub fork_baseline : NormalizedTokenUsage
  pub fork_resolved : Bool
  pub fork_prefix_pending : Bool
  pub remaining_fork_prefix : NormalizedTokenUsage

-- A cumulative snapshot: the state after it, and the tokens to charge, if it is not skipped.
unfoldable pub charge_growth :
    NormalizedTokenUsage → ParseState → ParseState × Option NormalizedTokenUsage
charge_growth current st =
    let reset =
      st.has_previous_cumulative
      && ltb_ℤ current.total_tokens st.previous_cumulative.total_tokens in
    let previous = if reset then no_usage else st.previous_cumulative in
    let value = delta current previous in
    (
      record st { previous_cumulative = current; has_previous_cumulative = true },
      if is_zero value && not st.has_previous_cumulative then none else some value,
    )

unfoldable pub charge_cumulative :
    NormalizedTokenUsage → ParseState → ParseState × Option NormalizedTokenUsage
unfolding charge_growth
charge_cumulative current st =
    let past_prefix = record st {
      previous_cumulative = st.fork_baseline;
      has_previous_cumulative = true;
      fork_prefix_pending = false;
    } in
    if st.fork_prefix_pending
    then (if leb_ℤ current.total_tokens st.fork_baseline.total_tokens
        then (st, some no_usage)
        else charge_growth current past_prefix)
    else charge_growth current st

-- The usage of one turn, where no cumulative usage is there.
unfoldable pub charge_turn :
    NormalizedTokenUsage → ParseState → ParseState × Option NormalizedTokenUsage
charge_turn raw st =
    let (adjusted, remaining) = subtract_inherited_prefix raw st.remaining_fork_prefix in
    let alone = event_token_usage raw in
    if is_zero raw
    then (st, none)
    else (if st.fork_resolved
        then (record st { remaining_fork_prefix = remaining }, some (event_token_usage adjusted))
        else (st, if is_zero alone then none else some alone))

-- `none` where neither usage is there.
unfoldable pub charge : TokenInfo → ParseState → ParseState × Option NormalizedTokenUsage
unfolding charge_cumulative charge_turn
charge info st = elim info.total_token_usage [
  | some total ↦ charge_cumulative (normalize_token_usage (some total)) st
  | none ↦ elim info.last_token_usage [
    | some last ↦ charge_turn (normalize_token_usage (some last)) st
    | none ↦ (st, none)
  ]
]

abbrev pub is_cumulative : TokenInfo → Bool
is_cumulative info = elim info.total_token_usage [ none ↦ false | some _ ↦ true ]

-- The packages that the parser calls: encoding/json, time, and SHA-256.
pub record LogTools : Type 0 where
  pub decode : Bytes → Option LogRecord
  pub parse_time : Text → Option Time
  pub format_utc : Time → Text
  pub marshal_state : ℕ → ParseState → Text
  pub unmarshal_state : Text → Option (ℕ × ParseState)
  pub sha256 : Text → List ℕ

-- Where a log stands, what the request says, and what a session inherits.
pub record LogRequest : Type 0 where
  pub path : Text
  pub machine_id : Text
  pub cache_identity : Text
  pub metadata : SessionMetadata
  pub baseline_of : SessionMetadata → Option NormalizedTokenUsage

pub data ParseError : Type 0 where
  record_too_long : ParseError

-- Events and where the loop stopped.
pub record LogProgress : Type 0 where
  pub events : List Event
  pub state : ParseState
  pub offset : ℕ
  pub line : ℕ

pub data Parsed : Type 0 where
  parsed : LogProgress → Parsed
  failed : ParseError → Parsed

unfoldable pub prepend : Option Event → Parsed → Parsed
prepend none r = r
prepend (some e) (parsed p) = parsed (record p { events = e ∷ p.events })
prepend (some e) (failed error) = failed error

abbrev pub is_relevant : Bytes → Bool
is_relevant line =
    contains line session_meta_mark
    || contains line turn_context_mark
    || contains line token_count_mark

module _ (tables : CaseTables) (tools : LogTools) (request : LogRequest) where
  open tools use {decode, parse_time, format_utc, sha256}

  -- `encodeCodexParseState` and `decodeCodexParseState`
  unfoldable pub encode_state : ParseState → Text
  encode_state st = tools.marshal_state parse_state_version st

  unfoldable pub decode_state : Text → Option ParseState
  decode_state raw =
      let decoded : Option ParseState = elim (tools.unmarshal_state raw) [
        | none ↦ none
        | some (version, st) ↦ if version == parse_state_version then some st else none
      ] in
      if text_eq (trim_space raw) [] then none else decoded

  -- The state of a parse from the beginning of the log.
  unfoldable pub fresh_state : ParseState
  fresh_state =
      let found = request.baseline_of request.metadata in
      let resolved : Bool = elim found [ none ↦ false | some _ ↦ true ] in
      let baseline : NormalizedTokenUsage = elim found [ none ↦ no_usage | some b ↦ b ] in
      record {
        cache_identity = request.cache_identity;
        session_id = [];
        source_session_id = [];
        provider = text "openai";
        model = text "unknown";
        project = [];
        previous_cumulative = no_usage;
        has_previous_cumulative = false;
        fork_baseline = baseline;
        fork_resolved = resolved;
        fork_prefix_pending = resolved;
        remaining_fork_prefix = baseline;
      }

  -- A fork that the metadata of the log itself resolves.
  unfoldable pub resolve_fork : SessionMetadata → ParseState → ParseState
  resolve_fork m st =
      let resolved : ParseState = elim (request.baseline_of m) [
        | none ↦ st
        | some baseline ↦ record st {
          previous_cumulative = no_usage;
          has_previous_cumulative = false;
          fork_baseline = baseline;
          fork_resolved = true;
          fork_prefix_pending = true;
          remaining_fork_prefix = baseline;
        }
      ] in
      if st.fork_resolved then st else resolved

  unfoldable pub read_session_meta : SessionMetadata → ParseState → ParseState
  unfolding resolve_fork
  read_session_meta m st =
      let next = resolve_fork m st in
      let id = normalize_session_id tables sha256 m.id in
      let original = normalize_session_id tables sha256 m.session_id in
      record next {
        session_id = first_non_empty (next.session_id ∷ id ∷ original ∷ []);
        source_session_id = first_non_empty (next.source_session_id ∷ original ∷ id ∷ []);
        provider = first_non_empty (m.model_provider ∷ next.provider ∷ []);
        project = first_non_empty (normalize_project tables m.cwd ∷ next.project ∷ []);
      }

  unfoldable pub read_turn_context : Text → Text → ParseState → ParseState
  read_turn_context model cwd st = record st {
    model = first_non_empty (trim_space model ∷ st.model ∷ []);
    project = first_non_empty (normalize_project tables cwd ∷ st.project ∷ []);
  }

  abbrev current_model : TokenInfo → ParseState → Text
  current_model info st =
      first_non_empty
        (trim_space info.model ∷ trim_space info.model_name ∷ st.model ∷ text "unknown" ∷ [])

  abbrev stable_session_id : ParseState → Text
  stable_session_id st =
      first_non_empty (st.session_id ∷ hash_session_id tables sha256 request.path ∷ [])

  abbrev event_session_id : ParseState → Text
  event_session_id st = first_non_empty (st.source_session_id ∷ stable_session_id st ∷ [])

  -- `codexUsageKey` of the turn's usage.
  unfoldable pub usage_key : TokenInfo → Time → ParseState → Text
  usage_key info at st =
      let raw = normalize_token_usage info.last_token_usage in
      join_nul (
        stable_session_id st
        ∷ format_utc at
        ∷ st.provider
        ∷ current_model info st
        ∷ decimal raw.input_tokens
        ∷ decimal raw.cached_input_tokens
        ∷ text "0"
        ∷ decimal raw.output_tokens
        ∷ decimal raw.reasoning_tokens
        ∷ decimal raw.total_tokens
        ∷ [])

  unfoldable pub event_of : TokenInfo → Text → Time → ℕ → NormalizedTokenUsage → ParseState → Event
  event_of info timestamp at line value st =
      let identity =
        hash_identity sha256 (text "codex" ++ text ":session:" ++ event_session_id st) in
      record {
        schema_version = schema_version;
        event_id =
            deterministic_id sha256 request.machine_id (text "codex") identity (pos line) timestamp
              (event_session_id st);
        timestamp = at;
        machine_id = request.machine_id;
        session_id = stable_session_id st;
        project = st.project;
        provider = st.provider;
        model = current_model info st;
        canonical_model = [];
        tool = text "codex";
        input_tokens = some value.input_tokens;
        output_tokens = some value.output_tokens;
        cache_read_tokens = some value.cached_input_tokens;
        cache_write_tokens = some value.cache_write_tokens;
        reasoning_tokens = some value.reasoning_tokens;
        total_tokens = some value.total_tokens;
        duration_ms = none;
        cost = none;
        cost_estimated = false;
        currency = text "USD";
        token_accuracy = accuracy_reported;
        source = record {
          adapter = text "codex";
          adapter_version = text "0.6.0";
          identity = identity;
          offset = pos line;
        };
        metadata = none;
      }
