-- ===== src/Agent/State.antt =====
-- internal/agent/state.go: the agent's own database, with `Pending` and `Commit`, and `eventFingerprint`
-- of internal/agent/delta.go. A table is a map by its primary key, machine first; the encoding of an
-- event and SHA-256 are one parameter, the fingerprint.
pub mod Lookup
pub mod Sent
mod Tests
use tokemon.Prelude.{
  ℕ, zero, suc, ◌+◌, Bool, true, false, not, ◌&&◌, ◌||◌, List, [], ◌∷◌, ◌++◌, Option, none, some,
  if◌then◌else◌, length, any, take, drop, ◌==◌, filter,
}
use tokemon.Prelude.Int.{ℤ, ltb_ℤ}
use tokemon.Prelude.Texts.{Text, text_eq, trim_space}
use tokemon.Prelude.Maps.{Map, lookup, insert}
use tokemon.Usage.Event.{Event}
pub use tokemon.Adapters.Source.{Cursor}
use tokemon.Adapters.Source.{cursor_eq}

abbrev pub Digest : Type 0
Digest = List ℕ

-- sha256.Size
abbrev pub digest_len : ℕ
digest_len = 32

abbrev pub lookup_chunk_size : ℕ
lookup_chunk_size = 500

pub record EventState : Type 0 where
  pub fingerprint : Digest
  pub last_successful_sync : Text

-- The rows of the table `event_state` of one machine, by event.
abbrev pub Known : Type 0
Known = Map EventState

abbrev pub of_machine {ℓ} : {V : Type ℓ} → Text → Map (Map V) → Map V
of_machine machine table = elim (lookup machine table) [ none ↦ [] | some rows ↦ rows ]

-- One row of the SELECT over a chunk, into the map of known fingerprints; `none` is a fingerprint of
-- the wrong length.
unfoldable pub load_id : Known → Text → Map Digest → Option (Map Digest)
load_id rows id known = elim (lookup id rows) [
  | none ↦ some known
  | some row ↦
      if length row.fingerprint == digest_len then some (insert id row.fingerprint known) else none
]

unfoldable pub load_ids : Known → List Text → Map Digest → Option (Map Digest)
unfolding load_id
load_ids rows [] known = some known
load_ids rows (id ∷ ids) known = elim (load_id rows id known) [
  | none ↦ none
  | some more ↦ load_ids rows ids more
]

-- The identifiers of a chunk, each once.
unfoldable pub distinct_ids : List Text → List Event → List Text
distinct_ids seen [] = []
distinct_ids seen (e ∷ events) =
    let skip = distinct_ids seen events in
    let keep = distinct_ids (e.event_id ∷ seen) events in
    if any (text_eq e.event_id) seen then skip else e.event_id ∷ keep

-- The loop over chunks of 500 events; each round takes at least one event, so that the number of
-- events is fuel enough.
unfoldable pub load_chunks : Known → ℕ → List Event → Map Digest → Option (Map Digest)
unfolding load_ids distinct_ids
load_chunks rows fuel [] known = some known
load_chunks rows zero (e ∷ events) known = none
load_chunks rows (suc fuel) (e ∷ events) known =
    elim (load_ids rows (distinct_ids [] (take lookup_chunk_size (e ∷ events))) known) [
      | none ↦ none
      | some more ↦ load_chunks rows fuel (drop lookup_chunk_size (e ∷ events)) more
    ]

module _ (fingerprint_of : Event → Digest) where
  abbrev pub is_sent : Map Digest → Event → Bool
  is_sent known e = elim (lookup e.event_id known) [
    | none ↦ false
    | some previous ↦ text_eq previous (fingerprint_of e)
  ]

  -- `Pending`, on the rows of one machine.
  unfoldable pub pending : Known → List Event → Option (List Event)
  unfolding load_chunks
  pending rows events = elim (load_chunks rows (length events) events []) [
    | none ↦ none
    | some known ↦ some (filter (λ e. not (is_sent known e)) events)
  ]

  -- The loop of `Commit` over the uploaded events; `none` is an event without an identifier.
  unfoldable pub save_events : Text → List Event → Known → Option Known
  save_events synced [] rows = some rows
  save_events synced (e ∷ events) rows =
      let more = save_events synced events (
        insert e.event_id (record { fingerprint = fingerprint_of e; last_successful_sync = synced })
          rows) in
      if text_eq (trim_space e.event_id) [] then none else more

-- `adapters.SourceReport`, of whose source the path and the identity matter here, and of whose error
-- that there is one.
pub record SourceReport : Type 0 where
  pub adapter : Text
  pub path : Text
  pub source_identity : Text
  pub cursor : Cursor
  pub failed : Bool

pub record SourceState : Type 0 where
  pub source_identity : Text
  pub cursor : Cursor
  pub last_successful_sync : Text

-- The tables `source_state`, by machine, adapter and path, and `event_state`, by machine and event.
pub record AgentState : Type 0 where
  pub sources : Map (Map (Map SourceState))
  pub events : Map (Map EventState)

pub data CommitError : Type 0 where
  machine_required event_without_id : CommitError

-- `SourceKey`
abbrev pub source_key : Text → Text → Text
source_key adapter path = adapter ++ (0 ∷ path)

abbrev first_named : Text → Text → Text
first_named a b = if text_eq a [] then b else a

-- The cursor that is committed for a report: its identity, the source's, or a hash of the path.
unfoldable pub report_cursor : (Text → Text) → SourceReport → Cursor
report_cursor hash_identity r = record r.cursor {
  identity =
      first_named (first_named r.cursor.identity r.source_identity)
        (hash_identity (r.adapter ++ (b':' ∷ r.path)));
}

unfoldable pub save_source :
    Text → Text → SourceReport → Cursor → Map (Map (Map SourceState)) → Map (Map (Map SourceState))
save_source machine synced r cursor table =
    let mine = of_machine machine table in
    insert machine
      (insert r.adapter
        (insert r.path
          (record {
            source_identity = cursor.identity;
            cursor = cursor;
            last_successful_sync = synced;
          })
          (of_machine r.adapter mine))
        mine)
      table

-- The loop of `Commit` over the reports: failed sources and cursors that did not move are skipped.
unfoldable pub save_sources :
    (Text → Text)
    → Text
    → Text
    → Map Cursor
    → List SourceReport
    → Map (Map (Map SourceState))
    → Map (Map (Map SourceState))
unfolding report_cursor save_source cursor_eq
save_sources hash_identity machine synced committed [] table = table
save_sources hash_identity machine synced committed (r ∷ reports) table =
    let cursor = report_cursor hash_identity r in
    let unchanged : Bool = elim (lookup (source_key r.adapter r.path) committed) [
      | none ↦ false
      | some existing ↦ cursor_eq existing cursor
    ] in
    let skip = r.failed || unchanged in
    save_sources hash_identity machine synced committed reports
      (if skip then table else save_source machine synced r cursor table)

module _ (fingerprint_of : Event → Digest) (hash_identity : Text → Text) where
  -- `Commit`: the tables after it, and its error. An error rolls the transaction back.
  unfoldable pub commit :
      Text
      → Map Cursor
      → List SourceReport
      → List Event
      → Text
      → AgentState
      → AgentState × Option CommitError
  unfolding save_sources save_events
  commit machine committed reports events synced state =
      if text_eq (trim_space machine) []
      then (state, some machine_required)
      else elim (save_events fingerprint_of synced events (of_machine machine state.events)) [
        | none ↦ (state, some event_without_id)
        | some rows ↦ (
          record {
            sources = save_sources hash_identity machine synced committed reports state.sources;
            events = insert machine rows state.events;
          },
          none,
        )
      ]
