-- ===== src/Agent/Pass.antt =====
-- cmd/tokemon/main.go: `pass` in runAgent, one poll of the agent, with
-- internal/adapters/adapter.go: `CollectWithCursors` and internal/agent/state.go: `Snapshot`. What the
-- adapters read and keep, and what the hub makes of a request, are parameters; so is what a heartbeat
-- does, whose outcome the pass ignores. The agent's own database does not fail.
pub mod Keeps
pub mod Done
mod Tests
use tokemon.Prelude.{
  ℕ, zero, suc, Bool, true, false, not, ◌||◌, List, [], ◌∷◌, ◌++◌, Option, none, some,
  if◌then◌else◌, length, any, map, ◌==◌,
}
use tokemon.Prelude.Texts.{Text, text_eq, trim_space}
use tokemon.Prelude.Find.{CaseTables}
use tokemon.Prelude.Maps.{Map, lookup, insert}
use tokemon.Usage.Event.{Event}
use tokemon.Database.Ingest.{IngestResult}
use tokemon.Adapters.Source.{Cursor, no_cursor, ParseResult}
use tokemon.Adapters.Cache.{SourceError, ParseOutcome, parsed, failed}
use tokemon.Agent.Client.{ClientError, Outcome, combined, client_ingest}
use tokemon.Agent.Client
use tokemon.Agent.State.{
  Digest, SourceReport, SourceState, AgentState, CommitError, source_key, of_machine, pending,
  commit,
}

-- `Source`
pub record SourceRef : Type 0 where
  pub path : Text
  pub identity : Text

-- An adapter, whose methods may change what the adapters keep.
pub record Adapter (S : Type 0) : Type 0 where
  pub id : Text
  pub discover : S → Option (List SourceRef) × S
  pub parse : S → SourceRef → Text → Cursor → ParseOutcome × S

pub record Collected (S : Type 0) : Type 0 where
  pub events : List Event
  pub reports : List SourceReport
  pub kept : S

abbrev report_of : Text → SourceRef → Cursor → Bool → SourceReport
report_of adapter source cursor is_failed = record {
  adapter = adapter;
  path = source.path;
  source_identity = source.identity;
  cursor = cursor;
  failed = is_failed;
}

abbrev cursor_at : Map Cursor → Text → Text → Cursor
cursor_at cursors adapter path = elim (lookup (source_key adapter path) cursors) [
  | none ↦ no_cursor
  | some cursor ↦ cursor
]

module _ {S : Type 0} (machine_id : Text) (cursors : Map Cursor) where
  abbrev add_outcome : Adapter S → SourceRef → ParseOutcome → Collected S → Collected S
  add_outcome adapter source (failed error) rest = record rest {
    reports = report_of adapter.id source no_cursor true ∷ rest.reports;
  }
  add_outcome adapter source (parsed r) rest = record rest {
    events = r.events ++ rest.events;
    reports = report_of adapter.id source r.cursor false ∷ rest.reports;
  }

  -- The sources of one adapter.
  unfoldable pub collect_sources : Adapter S → List SourceRef → S → Collected S
  collect_sources adapter [] kept = record { events = []; reports = []; kept = kept }
  collect_sources adapter (source ∷ sources) kept =
      let (outcome, next) =
        adapter.parse kept source machine_id (cursor_at cursors adapter.id source.path) in
      add_outcome adapter source outcome (collect_sources adapter sources next)

  unfoldable pub collect_adapter : Adapter S → S → Collected S
  unfolding collect_sources
  collect_adapter adapter kept =
      let (found, next) = adapter.discover kept in
      elim found [
        | some sources ↦ collect_sources adapter sources next
        | none ↦ record {
          events = [];
          reports = report_of adapter.id (record { path = []; identity = [] }) no_cursor true ∷ [];
          kept = next;
        }
      ]

  -- `CollectWithCursors`
  unfoldable pub collect_with_cursors : List (Adapter S) → S → Collected S
  unfolding collect_adapter
  collect_with_cursors [] kept = record { events = []; reports = []; kept = kept }
  collect_with_cursors (adapter ∷ adapters) kept =
      let first = collect_adapter adapter kept in
      let rest = collect_with_cursors adapters first.kept in
      record rest { events = first.events ++ rest.events; reports = first.reports ++ rest.reports }

-- The cursors of the paths of one adapter.
unfoldable pub path_cursors : Text → Map SourceState → Map Cursor
path_cursors adapter [] = []
path_cursors adapter ((path, state) ∷ states) =
    insert (source_key adapter path) state.cursor (path_cursors adapter states)

-- `Snapshot`: the committed cursors of the machine.
unfoldable pub snapshot_cursors : Map (Map SourceState) → Map Cursor
unfolding path_cursors
snapshot_cursors [] = []
snapshot_cursors ((adapter, states) ∷ rest) = path_cursors adapter states ++ snapshot_cursors rest

pub data PassError : Type 0 where
  hub_unhealthy pending_unreadable : PassError
  not_uploaded : ClientError → PassError
  hub_rejected : ℕ → PassError
  not_committed : CommitError → PassError
  sources_failed : PassError

-- The hub as the agent sees it: its answers may depend on its state H and change it.
pub record Hub (H : Type 0) : Type 0 where
  pub healthy : H → Bool × H
  pub heartbeat : H → List SourceReport → H
  pub post : H → List Event → Option IngestResult × H

-- What the agent is configured with, and the hashes it uses.
pub record AgentConfig : Type 0 where
  pub server_url : Text
  pub machine_id : Text
  pub include_projects : Bool
  pub tables : CaseTables
  pub sha256 : Text → List ℕ
  pub encoded_len : Event → Option ℕ
  pub fingerprint_of : Event → Digest
  pub hash_identity : Text → Text

abbrev pub without_project : Event → Event
without_project e = record e { project = [] }

module _ {S H : Type 0} (config : AgentConfig) (adapters : List (Adapter S)) (hub : Hub H) where
  open config use {machine_id, fingerprint_of, hash_identity}

  -- What a pass collects, with the cursors that are committed.
  unfoldable pub collected : AgentState → S → Collected S
  collected state kept =
      collect_with_cursors machine_id (snapshot_cursors (of_machine machine_id state.sources))
        adapters kept

  -- The events that it may send: projects stay on the machine unless they are asked for.
  unfoldable pub shown_events : List Event → List Event
  shown_events events = if config.include_projects then events else map without_project events

  -- `client.Health`, which needs a server.
  unfoldable pub check_health : H → Bool × H
  check_health h = if text_eq (trim_space config.server_url) [] then (false, h) else hub.healthy h

  abbrev pub rejection : Outcome → Option PassError
  rejection (Client.failed error) = some (not_uploaded error)
  rejection (combined result) =
      if result.rejected == 0 then none else some (hub_rejected result.rejected)

  -- The upload, if anything is pending.
  unfoldable pub upload : H → List Event → Option PassError × H
  upload h [] = (none, h)
  upload h (e ∷ events) =
      let (outcome, next) =
        client_ingest hub.post config.tables config.sha256 config.encoded_len config.server_url h
          (e ∷ events) in
      (rejection outcome, next)

  abbrev pub any_failed : List SourceReport → Bool
  any_failed reports = any (λ (r : SourceReport). r.failed) reports

  -- `stateStore.Commit` and what the pass returns after it.
  unfoldable pub commit_pass :
      Text → AgentState → List SourceReport → List Event → Option PassError × AgentState
  commit_pass now state reports sent =
      let cursors = snapshot_cursors (of_machine machine_id state.sources) in
      let (next, error) =
        commit fingerprint_of hash_identity machine_id cursors reports sent now state in
      elim error [
        | some e ↦ (some (not_committed e), next)
        | none ↦ (if any_failed reports then some sources_failed else none, next)
      ]

  -- From the lookup of what is pending on.
  unfoldable pub send_pending :
      Text → AgentState → H → List SourceReport → List Event → Option PassError × AgentState × H
  unfolding upload commit_pass
  send_pending now state h reports events =
      elim (pending fingerprint_of (of_machine machine_id state.events) events) [
        | none ↦ (some pending_unreadable, state, h)
        | some left ↦
            let (refused, next) = upload h left in
            let (error, after) = commit_pass now state reports left in
            elim refused [ some e ↦ (some e, state, next) | none ↦ (error, after, next) ]
      ]

  -- `pass` at the time `now`: its error, the agent's database, the hub, and what the adapters keep.
  unfoldable pub run_pass : Text → AgentState → H → S → Option PassError × AgentState × H × S
  run_pass now state h kept =
      let (healthy, h') = check_health h in
      let found = collected state kept in
      let (error, after, h'') =
        send_pending now state (hub.heartbeat h' found.reports) found.reports
          (shown_events found.events) in
      if healthy then (error, after, h'', found.kept) else (some hub_unhealthy, state, h', kept)
