-- ===== src/Database/Ingest.antt =====
-- internal/database/database.go: `Ingest`, which stores a batch of events in one transaction. Each
-- statement is taken to succeed but for the errors that the data causes: a constraint, and a SUM
-- that leaves int64. The clock's reading while the n-th event is validated is `clock n`.
pub mod Refresh
pub mod Commits
pub mod Again
use tokemon.Prelude.{
  ℕ, zero, suc, ◌+◌, Bool, true, false, not, ◌&&◌, ◌||◌, List, [], ◌∷◌, ◌++◌, Option, none, some,
  if◌then◌else◌, any, filter, ltb, ◌==◌,
}
use tokemon.Prelude.Int.{ℤ, pos, negsuc, ◌+ℤ◌, leb_ℤ, max_int64}
use tokemon.Prelude.Texts.{Text, text, text_eq}
use tokemon.Prelude.Find.{CaseTables}
use tokemon.Prelude.Maps.{Map, lookup, insert}
use tokemon.Prelude.Floats.{Float64, FloatOps}
use tokemon.Evolution.{stage}
use tokemon.Usage.Event.{Event, Time, Fields}
use tokemon.Usage.Names.{normalize_project}
use tokemon.Usage.Validate.{ValidationError, validate_at}
use tokemon.Catalog.{Catalog, resolve, estimate}
use tokemon.Database.Clock.{format_utc}
use tokemon.Database.Machines.{Machine, upsert_machine}
use tokemon.Database.Rows.{
  Row, Rows, codex, is_known, same_usage, is_detailed, has_id, others, find_row, insert_or_ignore,
  update_or_ignore, update,
}

pub record Store : Type 0 where
  pub rows : Rows
  pub machines : Map Machine

pub record IngestResult : Type 0 where
  pub accepted : ℕ
  pub duplicates : ℕ
  pub rejected : ℕ
  pub errors : List (ℕ × ValidationError)
  pub previous_stage : ℕ
  pub current_stage : ℕ
  pub evolved : Bool
  pub previous_total : ℤ
  pub current_total : ℤ

pub data StoreError : Type 0 where
  sum_overflow : StoreError
  constraint_failed : StoreError
  ignored_without_row : Text → StoreError

-- The state of the loop over the events, or the result and the error of an early return.
pub data Loop : Type 0 where
  going : Store → IngestResult → Loop
  stopped : IngestResult → StoreError → Loop

abbrev fits_int64 : ℤ → Bool
fits_int64 v = leb_ℤ v (pos max_int64) && leb_ℤ (negsuc max_int64) v

-- SUM(total_tokens): an error once a partial sum leaves int64.
unfoldable pub sum_tokens : ℤ → Rows → Option ℤ
sum_tokens sum [] = some sum
sum_tokens sum (r ∷ rows) = elim r.total_tokens [
  | none ↦ sum_tokens sum rows
  | some v ↦ let more = sum_tokens (sum +ℤ v) rows in if fits_int64 (sum +ℤ v) then more else none
]

-- `LifetimeTokens`
unfoldable pub lifetime_tokens : Store → Option ℤ
lifetime_tokens store = sum_tokens (pos 0) store.rows

unfoldable pub is_aggregate_codex_event : Event → Bool
is_aggregate_codex_event e =
    text_eq e.source.adapter codex
    && not (is_known e.input_tokens)
    && not (is_known e.output_tokens)
    && not (is_known e.cache_read_tokens)
    && not (is_known e.cache_write_tokens)

abbrev pub has_components : Row → Bool
has_components r =
    is_known r.input_tokens
    || is_known r.output_tokens
    || is_known r.cache_read_tokens
    || is_known r.cache_write_tokens

-- `machine_id = ? AND session_id = ? AND adapter = 'codex'`; a NULL session equals nothing.
abbrev pub in_codex_session : Event → Row → Bool
in_codex_session e r =
    text_eq r.machine_id e.machine_id
    && elim r.session_id [ none ↦ false | some s ↦ text_eq s e.session_id ]
    && text_eq r.adapter codex

abbrev pub has_detail : Event → Rows → Bool
has_detail e rows = any (λ r. in_codex_session e r && has_components r) rows

-- A detailed event with a total supersedes the aggregate of its session.
abbrev pub supersedes : Event → Bool
supersedes e =
    text_eq e.source.adapter codex
    && not (text_eq e.session_id [])
    && is_known e.input_tokens
    && is_known e.total_tokens

unfoldable pub without_aggregates : Event → Rows → Rows
without_aggregates e rows = filter (λ r. not (in_codex_session e r && not (has_components r))) rows

abbrev currency : Text → Text
currency value = if text_eq value [] then text "USD" else value

abbrev null_string : Text → Option Text
null_string value = if text_eq value [] then none else some value

abbrev pub matches_usage : Row → Row → Bool
matches_usage row r = text_eq r.adapter codex && same_usage r row

-- `refreshUsageEvent` on the columns of the event, whose tokens and adapter are the row's: the table
-- and whether a row holds the event; `none` is a violated constraint.
unfoldable pub refresh_usage_event : Row → Rows → Option (Rows × Bool)
refresh_usage_event row rows =
    let (refreshed, updated) = update_or_ignore row.event_id row rows in
    let exists : Option (Rows × Bool) = some (rows, any (has_id row.event_id) rows) in
    if updated
    then some (refreshed, true)
    else (if not (is_detailed row) then exists else elim (find_row (matches_usage row) rows) [
      | none ↦ exists
      | some duplicate ↦
          if has_id row.event_id duplicate
          then some (rows, true)
          else update duplicate.event_id row (others row.event_id rows)
    ])

-- What `Ingest` adds to an event before it is stored: the catalog's name and its estimate.
abbrev priced : FloatOps → Option Catalog → Event → Text × Option Float64
priced floats catalog e =
    if text_eq e.canonical_model []
    then elim (resolve catalog e.model) [
      | none ↦ (e.canonical_model, none)
      | some (id, model) ↦ (id, elim e.cost [ none ↦ estimate floats e model | some _ ↦ none ])
    ]
    else (e.canonical_model, none)

abbrev pub begin : ℤ → IngestResult
begin before = record {
  accepted = 0;
  duplicates = 0;
  rejected = 0;
  errors = [];
  previous_stage = stage before;
  current_stage = 0;
  evolved = false;
  previous_total = before;
  current_total = pos 0;
}

abbrev report : ℤ → IngestResult → IngestResult
report after result = record result {
  current_total = after;
  current_stage = stage after;
  evolved = ltb result.previous_stage (stage after);
}

abbrev pub no_result : IngestResult
no_result = record (begin (pos 0)) { previous_stage = 0 }

module _ (tables : CaseTables) (metadata_len : Fields → Option ℕ) (floats : FloatOps)
    (catalog : Option Catalog) where
  -- `usageEventArgs`, with the cost chosen in `Ingest`.
  unfoldable pub usage_event_args : Event → Row
  unfolding format_utc
  usage_event_args e =
      let (canonical, estimated) = priced floats catalog e in
      record {
        event_id = e.event_id;
        timestamp = format_utc e.timestamp;
        machine_id = e.machine_id;
        project = normalize_project tables e.project;
        provider = e.provider;
        raw_model = e.model;
        canonical_model = canonical;
        tool = e.tool;
        input_tokens = e.input_tokens;
        output_tokens = e.output_tokens;
        cache_read_tokens = e.cache_read_tokens;
        cache_write_tokens = e.cache_write_tokens;
        reasoning_tokens = e.reasoning_tokens;
        total_tokens = e.total_tokens;
        cost = elim e.cost [ none ↦ estimated | some c ↦ some c ];
        cost_estimated = elim e.cost [
          | none ↦ elim estimated [ none ↦ e.cost_estimated | some _ ↦ true ]
          | some _ ↦ e.cost_estimated
        ];
        currency = currency e.currency;
        session_id = null_string e.session_id;
        duration_ms = e.duration_ms;
        token_accuracy = e.token_accuracy;
        adapter = e.source.adapter;
        adapter_version = e.source.adapter_version;
      }

  -- The round of the loop once an event is valid and not an obsolete aggregate.
  unfoldable pub store_event : Event → Store → IngestResult → Loop
  store_event e store result =
      let cleared = if supersedes e then without_aggregates e store.rows else store.rows in
      let machines = upsert_machine e e.machine_id store.machines in
      let row = usage_event_args e in
      let (rows, inserted) = insert_or_ignore row cleared in
      if inserted
      then going (record { rows = rows; machines = machines })
          (record result { accepted = suc result.accepted })
      else elim (refresh_usage_event row rows) [
        | none ↦ stopped result constraint_failed
        | some (refreshed, true) ↦
            going (record { rows = refreshed; machines = machines })
              (record result { duplicates = suc result.duplicates })
        | some (_, false) ↦ stopped result (ignored_without_row e.event_id)
      ]

  unfoldable pub ingest_event : ℕ → Time → Event → Store → IngestResult → Loop
  unfolding store_event
  ingest_event index now raw store result =
      let e = record raw { project = normalize_project tables raw.project } in
      elim (validate_at tables metadata_len now e) [
        | some error ↦ going store (record result {
          rejected = suc result.rejected;
          errors = result.errors ++ ((index + 1, error) ∷ []);
        })
        | none ↦
            if is_aggregate_codex_event e
              && not (text_eq e.session_id [])
              && has_detail e store.rows
            then going store (record result { duplicates = suc result.duplicates })
            else store_event e store result
      ]

  unfoldable pub ingest_loop : (ℕ → Time) → ℕ → List Event → Store → IngestResult → Loop
  ingest_loop clock index [] store result = going store result
  ingest_loop clock index (e ∷ events) store result =
      elim (ingest_event index (clock index) e store result) [
        | going next counted ↦ ingest_loop clock (suc index) events next counted
        | stopped counted error ↦ stopped counted error
      ]

  -- `Ingest`: the committed store, the result, and the error if any. An early return rolls the
  -- transaction back; the total after it is read once it is committed.
  unfoldable pub ingest :
      (ℕ → Time) → List Event → Store → Store × (IngestResult × Option StoreError)
  unfolding ingest_loop lifetime_tokens
  ingest clock events store = elim (lifetime_tokens store) [
    | none ↦ (store, (no_result, some sum_overflow))
    | some before ↦ elim (ingest_loop clock 0 events store (begin before)) [
      | stopped result error ↦ (store, (result, some error))
      | going next result ↦ elim (lifetime_tokens next) [
        | none ↦ (next, (result, some sum_overflow))
        | some after ↦ (next, (report after result, none))
      ]
    ]
  ]
