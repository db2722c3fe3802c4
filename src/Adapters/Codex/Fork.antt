-- ===== src/Adapters/Codex/Fork.antt =====
-- internal/adapters/codex/codex.go: the records of a session log, the index of the sessions, and the
-- usage that a forked session inherits. What encoding/json makes of a line and time.Parse of a
-- timestamp are parameters.
use tokemon.Prelude.{
  ℕ, ◌*◌, ◌^◌, Bool, true, false, not, ◌&&◌, ◌||◌, List, [], ◌∷◌, ◌++◌, Option, none, some, ltb,
  leb, ◌==◌, if◌then◌else◌, length,
}
use tokemon.Prelude.Int.{ltb_ℤ}
use tokemon.Prelude.Texts.{Text, text, text_eq, trim_space}
use tokemon.Prelude.Find.{contains}
use tokemon.Usage.Event.{Time}
use tokemon.Adapters.Source.{Bytes, newline, cut_records}
use tokemon.Adapters.Codex.{TokenUsage, NormalizedTokenUsage, normalize_token_usage}

pub record SessionMetadata : Type 0 where
  pub id : Text
  pub session_id : Text
  pub model_provider : Text
  pub cwd : Text
  pub forked_from_id : Text
  pub forked_from_id_alt : Text
  pub parent_session_id : Text
  pub parent_session_id_alt : Text
  pub timestamp : Text

abbrev pub no_metadata : SessionMetadata
no_metadata = record {
  id = [];
  session_id = [];
  model_provider = [];
  cwd = [];
  forked_from_id = [];
  forked_from_id_alt = [];
  parent_session_id = [];
  parent_session_id_alt = [];
  timestamp = [];
}

pub record TokenInfo : Type 0 where
  pub model : Text
  pub model_name : Text
  pub last_token_usage : Option TokenUsage
  pub total_token_usage : Option TokenUsage

-- The payload by the record's type; `unreadable` is any other type, and a payload that does not
-- decode. An event message has its own type and, perhaps, counts.
pub data Payload : Type 0 where
  session_meta : SessionMetadata → Payload
  turn_context : Text → Text → Payload
  event_msg : Text → Option TokenInfo → Payload
  unreadable : Payload

pub record LogRecord : Type 0 where
  pub timestamp : Text
  pub payload : Payload

-- `firstNonEmpty`
unfoldable pub first_non_empty : List Text → Text
first_non_empty [] = []
first_non_empty (value ∷ values) =
    if text_eq (trim_space value) [] then first_non_empty values else trim_space value

-- `forkParentID`
unfoldable pub fork_parent_id : SessionMetadata → Text
unfolding first_non_empty
fork_parent_id m =
    first_non_empty
      (m.forked_from_id ∷ m.forked_from_id_alt ∷ m.parent_session_id ∷ m.parent_session_id_alt ∷ [])

-- `forkTimestamp`
unfoldable pub fork_timestamp : SessionMetadata → Text → Text
unfolding first_non_empty
fork_timestamp m fallback = first_non_empty (m.timestamp ∷ fallback ∷ [])

abbrev pub quoted : Text → Text
quoted s = 34 ∷ s ++ 34 ∷ []

abbrev pub session_meta_mark : Text
session_meta_mark = quoted (text "session_meta")

abbrev pub turn_context_mark : Text
turn_context_mark = quoted (text "turn_context")

abbrev pub token_count_mark : Text
token_count_mark = quoted (text "token_count")

-- 64 << 20
abbrev pub max_line_bytes : ℕ
max_line_bytes = 64 * 2 ^ 20

-- A line as bufio.ScanLines returns it: no newline, and no carriage return before it.
unfoldable pub without_end : Bytes → Bytes
without_end [] = []
without_end (c ∷ []) = if c == newline || c == 13 then [] else c ∷ []
without_end (c ∷ d ∷ []) =
    let rest = without_end (d ∷ []) in if c == 13 && d == newline then [] else c ∷ rest
without_end (c ∷ d ∷ e ∷ bytes) = c ∷ without_end (d ∷ e ∷ bytes)

abbrev line_then : Bytes → List Bytes × Bool → List Bytes × Bool
line_then line (lines, failed) = (without_end line ∷ lines, failed)

-- The lines of a file that a bufio.Scanner returns, and whether it then fails: a line does not fit its
-- buffer.
unfoldable pub scan_lines : List Bytes → Bytes → List Bytes × Bool
unfolding without_end
scan_lines [] [] = ([], false)
scan_lines [] (c ∷ rest) =
    if leb max_line_bytes (length (c ∷ rest))
    then ([], true)
    else (without_end (c ∷ rest) ∷ [], false)
scan_lines (r ∷ records) rest =
    let later = line_then r (scan_lines records rest) in
    if ltb max_line_bytes (length r) then ([], true) else later

module _ (decode : Bytes → Option LogRecord) where
  abbrev metadata_of : Option LogRecord → Option SessionMetadata
  metadata_of none = none
  metadata_of (some r) = elim r.payload [
    | session_meta m ↦ some (record m { timestamp = fork_timestamp m r.timestamp })
    | _ ↦ none
  ]

  -- The loop of `readSessionMetadata`: the first record of a session.
  unfoldable pub find_metadata : List Bytes → Option SessionMetadata
  unfolding fork_timestamp
  find_metadata [] = none
  find_metadata (line ∷ lines) =
      let later = find_metadata lines in
      if contains line session_meta_mark
      then (elim (metadata_of (decode line)) [ some m ↦ some m | none ↦ later ])
      else later

  -- `readSessionMetadata`; an error and a log without such a record are treated alike.
  unfoldable pub read_session_metadata : Option Bytes → Option SessionMetadata
  unfolding find_metadata scan_lines
  read_session_metadata none = none
  read_session_metadata (some bytes) =
      let (records, rest) = cut_records bytes in find_metadata (scan_lines records rest).0

module _ (decode : Bytes → Option LogRecord) (parse_time : Text → Option Time) where
  abbrev cumulative_of : Option TokenInfo → Option TokenUsage
  cumulative_of none = none
  cumulative_of (some info) = info.total_token_usage

  -- The cumulative usage of a record that is not after the fork.
  unfoldable pub usage_at_fork : Time → Option LogRecord → Option NormalizedTokenUsage
  usage_at_fork fork_at none = none
  usage_at_fork fork_at (some r) = elim r.payload [
    | event_msg kind info ↦ elim (cumulative_of info) [
      | none ↦ none
      | some usage ↦ elim (parse_time r.timestamp) [
        | none ↦ none
        | some at ↦
            if not (text_eq kind (text "token_count")) || ltb_ℤ fork_at at
            then none
            else some (normalize_token_usage (some usage))
      ]
    ]
    | _ ↦ none
  ]

  -- The loop of `inheritedCumulativeUsage`.
  unfoldable pub latest_usage :
      Time → Option NormalizedTokenUsage → List Bytes → Option NormalizedTokenUsage
  unfolding usage_at_fork
  latest_usage fork_at latest [] = latest
  latest_usage fork_at latest (line ∷ lines) =
      latest_usage fork_at
        (if contains line token_count_mark
          then (elim (usage_at_fork fork_at (decode line)) [ some u ↦ some u | none ↦ latest ])
          else latest)
        lines

  -- `inheritedCumulativeUsage`; `none` is an error or that none was found.
  unfoldable pub inherited_cumulative_usage : Option Bytes → Text → Option NormalizedTokenUsage
  unfolding latest_usage scan_lines
  inherited_cumulative_usage bytes timestamp = elim (parse_time timestamp) [
    | none ↦ none
    | some fork_at ↦ elim bytes [
      | none ↦ none
      | some content ↦
          let (records, rest) = cut_records content in
          let (lines, failed) = scan_lines records rest in
          if failed then none else latest_usage fork_at none lines
    ]
  ]
