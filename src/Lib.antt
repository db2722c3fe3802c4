-- ===== src/Lib.antt =====
-- Tokemon: a model of the program that collects token usage of coding agents, and its theorems.
--
-- An agent runs on each developer's machine. Its adapters read the logs of the coding tools and turn
-- them into usage events; it sends the events that the hub has not seen to the hub, in batches. The
-- hub validates each event, stores it, and shows the totals on a dashboard behind a login; the
-- lifetime total decides the stage of the creature on it.
--
-- Which file models which part:
--   Prelude     names that all modules share: integers and their int64 wrap-around, text as a list of
--               runes with the functions of strings and unicode that the code calls, association
--               lists for Go maps, float64 as its 64 bits
--   Evolution   internal/evolution/evolution.go: Stage is `stage`, FormForStage `form_for_stage`,
--               SnapshotFor `snapshot_for`
--   Usage       internal/usage/event.go: the Event struct (Event), validateTokenTotals and
--               SanitizeOutbound (Totals), NormalizeProject and NormalizeSessionID (Names),
--               validateMetadata (Metadata), Event.Validate (Validate);
--               internal/usage/privacy.go (Privacy)
--   Catalog     internal/catalog/catalog.go: Resolve and Estimate; New, which checks the
--               models and builds the table of aliases (Build)
--   Database    internal/database/database.go: how a time is written (Clock), upsertMachine
--               (Machines), the table usage_events and the statements on it (Rows), Ingest and
--               refreshUsageEvent (Ingest), RecordHeartbeat (Heartbeat)
--   Adapters    internal/adapters: records, cursors and HashIdentity of adapter.go (Source),
--               FileSignature and SnapshotCache of cache.go (Signature, Cache), UnixTime and
--               DurationMS of sqlite.go (Clock); of codex/codex.go the token arithmetic (Codex), the
--               index of sessions and fork baselines (Codex/Fork, Codex/Sessions), parseLogUncached
--               (Codex/Log) and parseThreadSnapshots (Codex/Threads); the token arithmetic of
--               hermes/hermes.go (Hermes) and zcode/zcode.go (Zcode)
--   Agent       internal/agent/client.go: splitIngestBatches (Batches), Client.Ingest
--               (Client); cmd/tokemon/main.go: nextAgentFailureInterval (Backoff) and the pass of
--               runAgent (Pass), with CollectWithCursors of internal/adapters/adapter.go;
--               internal/agent/state.go: StateStore.Pending and Commit (State), Snapshot (Pass)
--   Api         internal/api/security.go: the login throttle and dashboardAuth (Throttle), the
--               configuration and who may send events or see the dashboard (Auth);
--               internal/api/server.go: the ingest handler with the decoding of its body (Hub),
--               the heartbeat handler (Heartbeat), the cache
--               of the overview with the interleavings of requests and ingests (Overview)
--
-- Correspondence. A struct is a record, a pointer to an int64 or float64 an Option, a Go map an
-- association list, an error a constructor that names the check. A loop is a structural recursion
-- over the list it ranges over or over the counter it runs down, so no fuel is needed. Time is the
-- distance from the Unix epoch in nanoseconds as an unbounded integer; the clock's reading is an
-- argument. The sums of token counts wrap around as int64 does. Text is a list of runes: input that
-- is not valid UTF-8 is outside the model. The arithmetic of float64, SHA-256, the case tables of
-- Unicode beyond ASCII, what encoding/json makes of a log line, the length of what it writes,
-- time.Parse, and whether net/url reads an HTTPS URL are parameters; so is the hub that the agent
-- talks to, and the state that the adapters keep between polls. On the hub's side package net, bcrypt,
-- gzip and encoding/json are parameters, and the readings of the clock.
--
-- The database is a list of rows in the order of insertion. INSERT OR IGNORE, UPDATE OR IGNORE,
-- UPDATE and DELETE are functions on it that keep to the primary key and to the partial unique
-- index, in which a NULL session never equals another. A transaction is the store that is returned
-- or the one before it. A statement fails by a constraint or by a SUM that leaves int64; failures
-- of the disk are left out.
--
-- Requests run one after another, but for the cache of the overview: there a step is one section that
-- the mutex guards, one query of the many that compute an overview, which reads the clock and the
-- commits made so far, or one commit, and steps come in any order. The handler's middleware,
-- its deadlines and its log are left out.
--
-- Not modelled: the database's other queries and tables, the walks over
-- directories and the SQLite queries of the adapters, the adapters of other tools, the other HTTP
-- handlers and the pages, insights, backups, and the tools and assets beside the program.
pub mod Prelude
pub mod Evolution
pub mod Usage
pub mod Catalog
pub mod Database
pub mod Adapters
pub mod Agent
pub mod Api
