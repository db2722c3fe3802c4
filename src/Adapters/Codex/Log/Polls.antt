-- ===== src/Adapters/Codex/Log/Polls.antt =====
-- What a log that grows between two polls becomes: the events of both polls against those of one poll
-- that reads all of it.
use tokemon.Prelude.{
  ◌==◌, ==_iff, ℕ, suc, ◌+◌, ◌≤◌, true, ◌≡◌, refl, sym, ap, subst, ◌∙◌, All, List, [], ◌∷◌, ◌++◌,
  Option, none, some, ltb, if◌then◌else◌, length, length-append, drop, arith, inl, inr, Bool-cases,
  Option-cases,
}
use tokemon.Prelude.Int.{leb_ℤ}
use tokemon.Prelude.Texts.{
  Text, text, text_eq, text_eq_iff, text_eq_refl, trim_space, trim_left, trim_right,
}
use tokemon.Prelude.Find.{CaseTables}
use tokemon.Usage.Event.{Event}
use tokemon.Usage.Identity.{hash_identity}
use tokemon.Adapters.Source.{Bytes, cut_records, no_cursor}
use tokemon.Adapters.Source.Records.{flat, flat-cut_records, cut_records-NonEmpty, length-le-flat}
use tokemon.Adapters.Codex.Fork.{
  TokenInfo, LogRecord, Payload, session_meta, turn_context, event_msg, unreadable,
}
use tokemon.Adapters.Codex.Log.{
  is_cumulative, charge, is_relevant, ParseState, LogTools, LogRequest, LogProgress, Parsed, parsed,
  failed, prepend, decode_state, encode_state, fresh_state, max_codex_record_bytes, record_too_long,
}
use tokemon.Adapters.Codex.Log.Reading.{
  Candidate, admit, read_line, read_record, read_token_count, read_records, resumed_state,
  parse_log, cursor_of,
}
use tokemon.Adapters.Codex.Log.Resume.{
  after, after_nothing, run, positions, keeps_cache, records_at_poll, split_at_poll,
}

-- A usage that the line reports is cumulative, as it is where the line has total_token_usage.
abbrev pub CountsTotal : LogTools → Bytes → Type 0
CountsTotal tools bytes =
    (r : LogRecord) (kind : Text) (info : TokenInfo)
    → tools.decode bytes ≡ some r
    → r.payload ≡ event_msg kind (some info)
    → is_cumulative info ≡ true

-- So it is on every line of the log.
abbrev pub IsCumulative : LogTools → Bytes → Type 0
IsCumulative tools log = All (CountsTotal tools) (cut_records log).0

All-later : (P : Bytes → Type 0) (xs ys : List Bytes) → All P (xs ++ ys) → All P ys
All-later P [] ys a = a
All-later P (x ∷ xs) ys a = All-later P xs ys a.1

-- A candidate that is never skipped as repeated.
abbrev HasNoKey : Option Candidate → Type 0
HasNoKey none = Unit
HasNoKey (some (key, e)) = key ≡ none

admit_keyless :
    (out : Option Candidate) (seen seen' : List Text)
    → HasNoKey out
    → (admit out seen).0 ≡ (admit out seen').0
unfolding admit
admit_keyless none seen seen' h = refl
admit_keyless (some (key, e)) seen seen' h = rw h

record_bounds :
    (bytes more : Bytes)
    → 1 ≤ length (cut_records bytes).0
    → (1 ≤ length (flat (cut_records bytes).0))
      × (length (flat (cut_records bytes).0) ≤ length (bytes ++ more))
record_bounds bytes more h =
    let (records, rest) = cut_records bytes in
    (
      omega (arith, length-le-flat records (cut_records-NonEmpty bytes)),
      omega (
        arith,
        length-append bytes more,
        length-append (flat records) rest,
        ap (λ (b : Bytes). length b) (flat-cut_records bytes),
      ),
    )

module _ (tables : CaseTables) (tools : LogTools) (request : LogRequest) where
  count_keyless :
      (timestamp : Text) (line : ℕ) (info : TokenInfo) (st : ParseState)
      → is_cumulative info ≡ true
      → HasNoKey (read_token_count tables tools request timestamp line info st).1
  unfolding read_token_count
  count_keyless timestamp line info st total = elim (Option-cases (charge info st).1) [
    | inl skipped ↦ rw (skipped, HasNoKey) tt
    | inr (value, charged) ↦ elim (Option-cases (tools.parse_time timestamp)) [
      | inl bad ↦ rw (charged, HasNoKey) (rw (bad, HasNoKey) tt)
      | inr (at, good) ↦ rw (charged, HasNoKey) (rw (good, HasNoKey) (rw total))
    ]
  ]

  payload_keyless :
      (line : ℕ) (timestamp : Text) (p : Payload) (st : ParseState)
      → ((kind : Text) (info : TokenInfo)
          → p ≡ event_msg kind (some info)
          → is_cumulative info ≡ true)
      → HasNoKey
          (read_record tables tools request line
            (record { timestamp = timestamp; payload = p })
            st).1
  unfolding read_record
  payload_keyless line timestamp (session_meta m) st h = tt
  payload_keyless line timestamp (turn_context model cwd) st h = tt
  payload_keyless line timestamp (event_msg kind none) st h = tt
  payload_keyless line timestamp (event_msg kind (some info)) st h =
      elim (Bool-cases (text_eq kind (text "token_count"))) [
        | inl counts ↦ rw counts (count_keyless timestamp line info st (h kind info refl))
        | inr other ↦ rw other tt
      ]
  payload_keyless line timestamp unreadable st h = tt

  line_keyless :
      (line : ℕ) (bytes : Bytes) (st : ParseState)
      → CountsTotal tools bytes
      → HasNoKey (read_line tables tools request line bytes st).1
  unfolding read_line
  line_keyless line bytes st h = elim (Bool-cases (is_relevant bytes)) [
    | inr other ↦ rw other tt
    | inl relevant ↦ elim (Option-cases (tools.decode bytes)) [
      | inl broken ↦ rw relevant (rw broken tt)
      | inr (r, reads) ↦ rw relevant (
          rw reads
            (payload_keyless line r.timestamp r.payload st (λ kind info e. h r kind info reads e)))
    ]
  ]

  -- What was seen before does not matter to a log of cumulative usage.
  run_seen :
      (records : List Bytes) (rest : Bytes) (seen seen' : List Text) (st : ParseState)
      (offset line : ℕ)
      → All (CountsTotal tools) records
      → run tables tools request records rest seen st offset line
        ≡ run tables tools request records rest seen' st offset line
  unfolding read_records
  run_seen [] rest seen seen' st offset line h = refl
  run_seen (r ∷ records) rest seen seen' st offset line h =
      let (next, out) = read_line tables tools request (suc line) r st in
      let (event, more) = admit out seen in
      let (event', more') = admit out seen' in
      ap
        (λ (x : Parsed).
          if ltb max_codex_record_bytes (length r) then failed record_too_long else x)
        (ap
            (λ (e : Option Event).
              prepend e
                (run tables tools request records rest more next (offset + length r) (suc line)))
            (admit_keyless out seen seen' (line_keyless (suc line) r st h.0))
          ∙ ap (prepend event')
              (run_seen records rest more more' next (offset + length r) (suc line) h.1))

  nothing_read :
      (records : List Bytes) (rest : Bytes) (seen : List Text) (st : ParseState) (offset line : ℕ)
      (p : LogProgress)
      → run tables tools request records rest seen st offset line ≡ parsed p
      → length records ≡ 0
      → (p.events ≡ []) × (length (flat records) ≡ 0)
  unfolding read_records
  nothing_read [] rest seen st offset line p h e = (ground (arith, h), refl)
  nothing_read (r ∷ records) rest seen st offset line p h e = absurd (omega (arith, e))

  from_start :
      (bytes : Bytes)
      → parse_log tables tools request bytes no_cursor
        ≡ run tables tools request
            (cut_records bytes).0
            (cut_records bytes).1
            []
            (fresh_state tables tools request)
            0
            0
  unfolding parse_log resumed_state decode_state trim_space trim_left trim_right text_eq
  from_start bytes = refl

  fresh_cache : (fresh_state tables tools request).cache_identity ≡ request.cache_identity
  unfolding fresh_state
  fresh_cache = refl

  resumed_zero :
      (size : ℕ) (p : LogProgress)
      → p.offset ≡ 0
      → resumed_state tables tools request size (cursor_of tables tools request p) ≡ none
  unfolding resumed_state cursor_of
  resumed_zero size p h =
      elim (Option-cases
        (decode_state tables tools request (encode_state tables tools request p.state))) [
          | inl lost ↦ rw (resumed_state, lost)
          | inr (st, reads) ↦ rw (resumed_state, reads) (rw (h, leb_ℤ))
        ]

  from_zero :
      (bytes : Bytes) (p : LogProgress)
      → p.offset ≡ 0
      → parse_log tables tools request bytes (cursor_of tables tools request p)
        ≡ run tables tools request
            (cut_records bytes).0
            (cut_records bytes).1
            []
            (fresh_state tables tools request)
            0
            0
  unfolding parse_log
  from_zero bytes p h = rw (parse_log, resumed_zero (length bytes) p h)

  resumed_some :
      (size : ℕ) (p : LogProgress)
      → decode_state tables tools request (encode_state tables tools request p.state) ≡ some p.state
      → p.state.cache_identity ≡ request.cache_identity
      → 1 ≤ p.offset
      → 1 ≤ p.line
      → p.offset ≤ size
      → resumed_state tables tools request size (cursor_of tables tools request p) ≡ some p.state
  unfolding resumed_state cursor_of
  resumed_some size p reads cache h k l =
      rw (resumed_state, reads)
        (ground (
          arith,
          text_eq_iff p.state.cache_identity request.cache_identity,
          text_eq_refl (hash_identity tools.sha256 request.path),
        ))

  resumes :
      (bytes : Bytes) (p : LogProgress)
      → resumed_state tables tools request (length bytes) (cursor_of tables tools request p)
        ≡ some p.state
      → let later = cut_records (drop p.offset bytes) in
        parse_log tables tools request bytes (cursor_of tables tools request p)
        ≡ run tables tools request later.0 later.1 [] p.state p.offset p.line
  unfolding parse_log cursor_of
  resumes bytes p h = rw (parse_log, h)

  -- A log whose lines report cumulative usage only, polled when it held `bytes` and again from that poll's
  -- cursor when `more` was appended: the two polls give, in order, just the events of one poll that
  -- reads it all, and end in the same state at the same place. The state in the cursor must read back.
  pub resumed_log_exact :
      (bytes more : Bytes) (p : LogProgress)
      → IsCumulative tools (bytes ++ more)
      → parse_log tables tools request bytes no_cursor ≡ parsed p
      → decode_state tables tools request (encode_state tables tools request p.state) ≡ some p.state
      → parse_log tables tools request (bytes ++ more) no_cursor
        ≡ after p.events
            (parse_log tables tools request (bytes ++ more) (cursor_of tables tools request p))
  resumed_log_exact bytes more p h first reads =
      let whole = bytes ++ more in
      let (records, rest) = cut_records bytes in
      let fresh = fresh_state tables tools request in
      let ran : run tables tools request records rest [] fresh 0 0 ≡ parsed p =
        sym (from_start bytes) ∙ first in
      let (at, on) = positions tables tools request records rest [] fresh 0 0 p ran in
      elim (Bool-cases (length records == 0)) [
        | inl empty ↦
            let (none_yet, no_bytes) =
              nothing_read records rest [] fresh 0 0 p ran ((==_iff (length records) 0).0 empty) in
            from_start whole
            ∙ rw none_yet (after_nothing _)
            ∙ ap (after p.events) (sym (from_zero whole p (omega (arith, at, no_bytes))))
        | inr some_read ↦
            let later = cut_records (drop p.offset whole) in
            let later_total : All (CountsTotal tools) later.0 =
              All-later (CountsTotal tools) records later.0 (
                subst (All (CountsTotal tools))
                  (records_at_poll tables tools request bytes more [] fresh p ran) h) in
            let (starts, fits) = record_bounds bytes more (ground (arith, some_read)) in
            let on_file =
              resumed_some (length whole) p reads
                (keeps_cache tables tools request records rest [] fresh 0 0 p ran ∙ fresh_cache)
                (omega (arith, at, starts)) (ground (arith, on, some_read))
                (omega (arith, at, fits)) in
            from_start whole
            ∙ split_at_poll tables tools request bytes more [] fresh p ran
            ∙ ap (after p.events) (
                run_seen later.0 later.1 _ [] p.state p.offset p.line later_total
                ∙ sym (resumes whole p on_file))
      ]
