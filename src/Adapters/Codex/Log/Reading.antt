-- ===== src/Adapters/Codex/Log/Reading.antt =====
-- internal/adapters/codex/codex.go: the loop of `parseLogUncached` over the records of the log, and
-- where it starts: at the beginning, or where the cursor left it.
use tokemon.Prelude.{
  ℕ, suc, ◌+◌, Bool, false, not, ◌&&◌, ◌||◌, List, [], ◌∷◌, Option, none, some, ltb, if◌then◌else◌,
  length, any, drop,
}
use tokemon.Prelude.Int.{pos, pos_part, ltb_ℤ, leb_ℤ}
use tokemon.Prelude.Texts.{Text, text, text_eq}
use tokemon.Prelude.Find.{CaseTables}
use tokemon.Usage.Event.{Time, Event}
use tokemon.Usage.Identity.{hash_identity}
use tokemon.Adapters.Source.{Bytes, cut_records, Cursor, ParseResult}
use tokemon.Adapters.Codex.Fork.{
  TokenInfo, session_meta, turn_context, event_msg, unreadable, LogRecord, fork_timestamp,
}
use tokemon.Adapters.Codex.Log.{
  max_codex_record_bytes, ParseState, charge, is_cumulative, is_relevant, LogTools, LogRequest,
  record_too_long, LogProgress, Parsed, parsed, failed, prepend, decode_state, encode_state,
  fresh_state, read_session_meta, read_turn_context, usage_key, event_of,
}

-- An event, and the key by which a repeated one is skipped, if it has one.
abbrev pub Candidate : Type 0
Candidate = Option Text × Event

abbrev pub is_seen : Option Text → List Text → Bool
is_seen none seen = false
is_seen (some key) seen = any (text_eq key) seen

abbrev pub also_seen : Option Text → List Text → List Text
also_seen none seen = seen
also_seen (some key) seen = key ∷ seen

-- Whether a candidate becomes an event, and the keys seen after it.
unfoldable pub admit : Option Candidate → List Text → Option Event × List Text
admit none seen = (none, seen)
admit (some (key, e)) seen = if is_seen key seen then (none, seen) else (some e, also_seen key seen)

module _ (tables : CaseTables) (tools : LogTools) (request : LogRequest) where
  open tools use {decode, parse_time, sha256}

  -- The case of a token count.
  unfoldable pub read_token_count :
      Text → ℕ → TokenInfo → ParseState → ParseState × Option Candidate
  read_token_count timestamp line info st =
      let (next, value) = charge info st in
      let key = λ (at : Time).
        if is_cumulative info then none else some (usage_key tables tools request info at next) in
      let out : Option Candidate = elim value [
        | none ↦ none
        | some tokens ↦ elim (parse_time timestamp) [
          | none ↦ none
          | some at ↦
              some (key at, event_of tables tools request info timestamp at line tokens next)
        ]
      ] in
      (next, out)

  unfoldable pub read_record : ℕ → LogRecord → ParseState → ParseState × Option Candidate
  unfolding read_token_count fork_timestamp
  read_record line r st = elim r.payload [
    | session_meta m ↦ (
      read_session_meta tables tools request (record m { timestamp = fork_timestamp m r.timestamp })
          st,
      none,
    )
    | turn_context model cwd ↦ (read_turn_context tables tools request model cwd st, none)
    | event_msg kind none ↦ (st, none)
    | event_msg kind (some info) ↦
        if text_eq kind (text "token_count")
        then read_token_count r.timestamp line info st
        else (st, none)
    | unreadable ↦ (st, none)
  ]

  unfoldable pub read_line : ℕ → Bytes → ParseState → ParseState × Option Candidate
  unfolding read_record
  read_line line bytes st =
      let read : ParseState × Option Candidate = elim (decode bytes) [
        | none ↦ (st, none)
        | some r ↦ read_record line r st
      ] in
      if is_relevant bytes then read else (st, none)

  -- The loop over the records; `rest` is the end of the file after the last newline, which is left
  -- for the next poll.
  unfoldable pub read_records : List Bytes → Bytes → List Text → ParseState → ℕ → ℕ → Parsed
  unfolding read_line admit
  read_records [] rest seen st offset line =
      if ltb max_codex_record_bytes (length rest)
      then failed record_too_long
      else parsed (record { events = []; state = st; offset = offset; line = line })
  read_records (r ∷ records) rest seen st offset line =
      let (next, out) = read_line (suc line) r st in
      let (event, seen') = admit out seen in
      let later = read_records records rest seen' next (offset + length r) (suc line) in
      if ltb max_codex_record_bytes (length r) then failed record_too_long else prepend event later

  -- The state that the cursor keeps, if the parse may go on from it.
  unfoldable pub resumed_state : ℕ → Cursor → Option ParseState
  resumed_state size cursor = elim (decode_state tables tools request cursor.state) [
    | none ↦ none
    | some st ↦
        if leb_ℤ cursor.offset (pos 0)
          || leb_ℤ cursor.line (pos 0)
          || ltb_ℤ (pos size) cursor.offset
          || not (text_eq st.cache_identity request.cache_identity)
          || (not (text_eq cursor.identity [])
              && not (text_eq cursor.identity (hash_identity sha256 request.path)))
        then none
        else some st
  ]

  abbrev pub read_from : Bytes → ParseState → ℕ → ℕ → Parsed
  read_from bytes st offset line =
      let (records, rest) = cut_records (drop offset bytes) in
      read_records records rest [] st offset line

  -- The parse of a log whose bytes could be read, up to the making of the cursor.
  unfoldable pub parse_log : Bytes → Cursor → Parsed
  unfolding read_records cut_records
  parse_log bytes cursor = elim (resumed_state (length bytes) cursor) [
    | none ↦ read_from bytes (fresh_state tables tools request) 0 0
    | some st ↦ read_from bytes st (pos_part cursor.offset) (pos_part cursor.line)
  ]

  unfoldable pub cursor_of : LogProgress → Cursor
  cursor_of p = record {
    identity = hash_identity sha256 request.path;
    offset = pos p.offset;
    line = pos p.line;
    state = encode_state tables tools request p.state;
  }

  unfoldable pub result_of : LogProgress → ParseResult
  unfolding cursor_of
  result_of p = record { events = p.events; cursor = cursor_of p }
