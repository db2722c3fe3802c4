-- ===== src/Adapters/Codex/Log/Resume.antt =====
-- A log that grows, read poll by poll, against the same log read at once.
use tokemon.Prelude.{
  ℕ, suc, ◌+◌, Bool, true, false, ◌≡◌, refl, sym, ap, ◌∙◌, subst, List, [], ◌∷◌, ◌++◌, Option, none,
  some, ltb, if◌then◌else◌, length, length-append, drop, append_assoc, arith, inl, inr, Bool-cases,
  Option-cases,
}
use tokemon.Prelude.Texts.{Text, text, text_eq}
use tokemon.Prelude.Find.{CaseTables}
use tokemon.Usage.Event.{Event}
use tokemon.Adapters.Source.{Bytes, cut_records}
use tokemon.Adapters.Source.Records.{flat, flat-cut_records, cut_records-append, drop-append}
use tokemon.Adapters.Codex.Fork.{
  SessionMetadata, TokenInfo, Payload, fork_timestamp, session_meta, turn_context, event_msg,
  unreadable,
}
use tokemon.Adapters.Codex.Log.{
  charge, charge_cumulative, charge_growth, charge_turn, resolve_fork, read_session_meta,
  read_turn_context, max_codex_record_bytes, is_relevant, ParseState, LogTools, LogRequest,
  record_too_long, LogProgress, Parsed, parsed, failed, prepend,
}
use tokemon.Adapters.Codex.Log.Reading.{
  read_token_count, read_record, read_line, admit, read_records,
}

-- The events of a first poll before those of a second.
abbrev pub after : List Event → Parsed → Parsed
after events (failed e) = failed e
after events (parsed p) = parsed (record p { events = events ++ p.events })

parsed_injective : (p q : LogProgress) → parsed p ≡ parsed q → p ≡ q
parsed_injective p q h = ap (λ (r : Parsed). elim r [ parsed x ↦ x | failed _ ↦ p ]) h

pub after_nothing : (r : Parsed) → r ≡ after [] r
after_nothing (parsed p) = refl
after_nothing (failed e) = refl

prepend-parsed :
    (event : Option Event) (r : Parsed) (p : LogProgress)
    → prepend event r ≡ parsed p
    → (q : LogProgress) × (r ≡ parsed q)
unfolding prepend
prepend-parsed event (parsed q) p h = (q, refl)
prepend-parsed none (failed e) p h = cc
prepend-parsed (some _) (failed e) p h = cc

prepend_first :
    (e : Event) (events : List Event) (r : Parsed)
    → prepend (some e) (after events r) ≡ after (e ∷ events) r
unfolding prepend
prepend_first e events (parsed p) = refl
prepend_first e events (failed _) = refl

prepend-after :
    (event : Option Event) (q p : LogProgress) (then_run : ParseState → ℕ → ℕ → Parsed)
    → prepend event (parsed q) ≡ parsed p
    → prepend event (after q.events (then_run q.state q.offset q.line))
      ≡ after p.events (then_run p.state p.offset p.line)
unfolding prepend
prepend-after none q p then_run h = rw (parsed_injective q p h)
prepend-after (some e) q p then_run h =
    let made : LogProgress = record q { events = e ∷ q.events } in
    subst
      (λ (x : LogProgress).
        prepend (some e) (after q.events (then_run q.state q.offset q.line))
        ≡ after x.events (then_run x.state x.offset x.line))
      (parsed_injective made p h) (prepend_first e q.events (then_run q.state q.offset q.line))

prepend_keeps :
    (event : Option Event) (q p : LogProgress)
    → prepend event (parsed q) ≡ parsed p
    → (p.offset ≡ q.offset) × (p.line ≡ q.line) × (p.state ≡ q.state)
unfolding prepend
prepend_keeps none q p h =
    let e = parsed_injective q p h in
    (
      ap (λ (x : LogProgress). x.offset) (sym e),
      ap (λ (x : LogProgress). x.line) (sym e),
      ap (λ (x : LogProgress). x.state) (sym e),
    )
prepend_keeps (some e') q p h =
    let e = parsed_injective (record q { events = e' ∷ q.events }) p h in
    (
      ap (λ (x : LogProgress). x.offset) (sym e),
      ap (λ (x : LogProgress). x.line) (sym e),
      ap (λ (x : LogProgress). x.state) (sym e),
    )

-- A record that fits and what follows it.
step_parsed :
    (long : Bool) (event : Option Event) (r : Parsed) (p : LogProgress)
    → (if long then failed record_too_long else prepend event r) ≡ parsed p
    → (long ≡ false) × ((q : LogProgress) × (r ≡ parsed q) × (prepend event (parsed q) ≡ parsed p))
step_parsed true event r p h = absurd (ground (arith, h))
step_parsed false event r p h =
    let (q, ran) = prepend-parsed event r p h in (refl, (q, ran, rw (← ran) h))

module _ (tables : CaseTables) (tools : LogTools) (request : LogRequest) where
  abbrev pub run : List Bytes → Bytes → List Text → ParseState → ℕ → ℕ → Parsed
  run = read_records tables tools request

  charge_keeps_cache :
      (info : TokenInfo) (st : ParseState) → (charge info st).0.cache_identity ≡ st.cache_identity
  unfolding charge charge_cumulative charge_growth charge_turn
  charge_keeps_cache info st = ground arith

  resolve_keeps_cache :
      (m : SessionMetadata) (st : ParseState)
      → (resolve_fork tables tools request m st).cache_identity ≡ st.cache_identity
  unfolding resolve_fork
  resolve_keeps_cache m st = ground arith

  payload_keeps_cache :
      (line : ℕ) (timestamp : Text) (p : Payload) (st : ParseState)
      → (read_record tables tools request line
          (record { timestamp = timestamp; payload = p })
          st).0.cache_identity
        ≡ st.cache_identity
  unfolding read_record read_session_meta read_turn_context read_token_count
  payload_keeps_cache line timestamp (session_meta m) st =
      resolve_keeps_cache (record m { timestamp = fork_timestamp m timestamp }) st
  payload_keeps_cache line timestamp (turn_context model cwd) st = refl
  payload_keeps_cache line timestamp (event_msg kind none) st = refl
  payload_keeps_cache line timestamp (event_msg kind (some info)) st =
      elim (Bool-cases (text_eq kind (text "token_count"))) [
        | inl counts ↦ rw counts (charge_keeps_cache info st)
        | inr other ↦ rw other
      ]
  payload_keeps_cache line timestamp unreadable st = refl

  line_keeps_cache :
      (line : ℕ) (r : Bytes) (st : ParseState)
      → (read_line tables tools request line r st).0.cache_identity ≡ st.cache_identity
  unfolding read_line
  line_keeps_cache line r st = elim (Bool-cases (is_relevant r)) [
    | inr other ↦ rw other
    | inl relevant ↦ elim (Option-cases (tools.decode r)) [
      | inl broken ↦ rw relevant (rw broken)
      | inr (decoded, reads) ↦
          rw relevant (rw reads (payload_keeps_cache line decoded.timestamp decoded.payload st))
    ]
  ]

  -- The keys seen after some records.
  unfoldable pub seen_after : List Bytes → List Text → ParseState → ℕ → List Text
  seen_after [] seen st line = seen
  seen_after (r ∷ records) seen st line =
      let (next, out) = read_line tables tools request (suc line) r st in
      seen_after records (admit out seen).1 next (suc line)

  pub run_split :
      (first second : List Bytes) (rest rest' : Bytes) (seen : List Text) (st : ParseState)
      (offset line : ℕ) (p : LogProgress)
      → run first rest seen st offset line ≡ parsed p
      → run (first ++ second) rest' seen st offset line
        ≡ after p.events (run second rest' (seen_after first seen st line) p.state p.offset p.line)
  unfolding read_records seen_after
  run_split [] second rest rest' seen st offset line p h =
      elim (Bool-cases (ltb max_codex_record_bytes (length rest))) [
        | inl long ↦ absurd (ground (arith, h, long))
        | inr fits ↦
            let ends : LogProgress = record {
              events = [];
              state = st;
              offset = offset;
              line = line;
            } in
            subst
              (λ (x : LogProgress).
                run second rest' seen st offset line
                ≡ after x.events (run second rest' seen x.state x.offset x.line))
              (parsed_injective ends p (ground (arith, h, fits)))
              (after_nothing (run second rest' seen st offset line))
      ]
  run_split (r ∷ first) second rest rest' seen st offset line p h =
      let (next, out) = read_line tables tools request (suc line) r st in
      let (event, seen') = admit out seen in
      let (fits, (q, ran, made)) =
        step_parsed (ltb max_codex_record_bytes (length r)) event
          (run first rest seen' next (offset + length r) (suc line)) p h in
      rw fits (
        ap (prepend event)
          (run_split first second rest rest' seen' next (offset + length r) (suc line) q ran)
        ∙ prepend-after event q p
            (λ state o l. run second rest' (seen_after first seen' next (suc line)) state o l) made)

  pub positions :
      (records : List Bytes) (rest : Bytes) (seen : List Text) (st : ParseState) (offset line : ℕ)
      (p : LogProgress)
      → run records rest seen st offset line ≡ parsed p
      → (p.offset ≡ offset + length (flat records)) × (p.line ≡ line + length records)
  unfolding read_records
  positions [] rest seen st offset line p h =
      elim (Bool-cases (ltb max_codex_record_bytes (length rest))) [
        | inl long ↦ absurd (ground (arith, h, long))
        | inr fits ↦
            let ends : LogProgress = record {
              events = [];
              state = st;
              offset = offset;
              line = line;
            } in
            let same = parsed_injective ends p (ground (arith, h, fits)) in
            (
              omega (arith, ap (λ (x : LogProgress). x.offset) same),
              omega (arith, ap (λ (x : LogProgress). x.line) same),
            )
      ]
  positions (r ∷ records) rest seen st offset line p h =
      let (next, out) = read_line tables tools request (suc line) r st in
      let (event, seen') = admit out seen in
      let (fits, (q, ran, made)) =
        step_parsed (ltb max_codex_record_bytes (length r)) event
          (run records rest seen' next (offset + length r) (suc line)) p h in
      let (at, on) = positions records rest seen' next (offset + length r) (suc line) q ran in
      let (same_offset, same_line, same_state) = prepend_keeps event q p made in
      (omega (arith, at, same_offset, length-append r (flat records)), omega (arith, on, same_line))

  -- What the resume state is tied to does not change.
  pub keeps_cache :
      (records : List Bytes) (rest : Bytes) (seen : List Text) (st : ParseState) (offset line : ℕ)
      (p : LogProgress)
      → run records rest seen st offset line ≡ parsed p
      → p.state.cache_identity ≡ st.cache_identity
  unfolding read_records
  keeps_cache [] rest seen st offset line p h =
      elim (Bool-cases (ltb max_codex_record_bytes (length rest))) [
        | inl long ↦ absurd (ground (arith, h, long))
        | inr fits ↦
            let ends : LogProgress = record {
              events = [];
              state = st;
              offset = offset;
              line = line;
            } in
            let same = parsed_injective ends p (ground (arith, h, fits)) in
            sym (ap (λ (x : LogProgress). x.state.cache_identity) same)
      ]
  keeps_cache (r ∷ records) rest seen st offset line p h =
      let (next, out) = read_line tables tools request (suc line) r st in
      let (event, seen') = admit out seen in
      let (fits, (q, ran, made)) =
        step_parsed (ltb max_codex_record_bytes (length r)) event
          (run records rest seen' next (offset + length r) (suc line)) p h in
      let (same_offset, same_line, same_state) = prepend_keeps event q p made in
      ap (λ (x : ParseState). x.cache_identity) same_state
      ∙ keeps_cache records rest seen' next (offset + length r) (suc line) q ran
      ∙ line_keeps_cache (suc line) r st

  pub left_at_poll :
      (bytes more : Bytes) (seen : List Text) (st : ParseState) (p : LogProgress)
      → run (cut_records bytes).0 (cut_records bytes).1 seen st 0 0 ≡ parsed p
      → drop p.offset (bytes ++ more) ≡ (cut_records bytes).1 ++ more
  left_at_poll bytes more seen st p h =
      let (first, rest) = cut_records bytes in
      let offset_is : p.offset ≡ length (flat first) =
        omega (arith, (positions first rest seen st 0 0 p h).0) in
      let bytes_are : bytes ++ more ≡ flat first ++ (rest ++ more) =
        ap (λ (b : Bytes). b ++ more) (sym (flat-cut_records bytes))
        ∙ append_assoc (flat first) rest more in
      rw offset_is (rw bytes_are (drop-append (flat first) (rest ++ more)))

  -- The lines of the whole log are those of the first poll, then those after its offset.
  pub records_at_poll :
      (bytes more : Bytes) (seen : List Text) (st : ParseState) (p : LogProgress)
      → run (cut_records bytes).0 (cut_records bytes).1 seen st 0 0 ≡ parsed p
      → (cut_records (bytes ++ more)).0
        ≡ (cut_records bytes).0 ++ (cut_records (drop p.offset (bytes ++ more))).0
  records_at_poll bytes more seen st p h =
      rw (left_at_poll bytes more seen st p h) (ap (λ r. r.0) (cut_records-append bytes more))

  -- The events of the whole log in one poll, and in two.
  pub split_at_poll :
      (bytes more : Bytes) (seen : List Text) (st : ParseState) (p : LogProgress)
      → run (cut_records bytes).0 (cut_records bytes).1 seen st 0 0 ≡ parsed p
      → let later = cut_records (drop p.offset (bytes ++ more)) in
        run (cut_records (bytes ++ more)).0 (cut_records (bytes ++ more)).1 seen st 0 0
        ≡ after p.events (
            run later.0 later.1
              (seen_after (cut_records bytes).0 seen st 0)
              p.state
              p.offset
              p.line)
  split_at_poll bytes more seen st p h =
      let (first, rest) = cut_records bytes in
      let later = cut_records (rest ++ more) in
      rw (left_at_poll bytes more seen st p h)
        (rw (cut_records-append bytes more) (run_split first later.0 rest later.1 seen st 0 0 p h))
