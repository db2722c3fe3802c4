-- ===== src/Adapters/Codex/Threads.antt =====
-- internal/adapters/codex/codex.go: the table of threads of a Codex database, each thread a snapshot
-- that becomes one event. The rows are what the query returns: threads that used tokens, in order.
pub mod Retry
use tokemon.Prelude.{
  ℕ, Bool, List, [], ◌∷◌, ◌++◌, ◌||◌, Option, none, some, if◌then◌else◌, ltb, false, map,
}
use tokemon.Prelude.Int.{ℤ, pos, leb_ℤ}
use tokemon.Prelude.Texts.{Text, text, trim_space}
use tokemon.Prelude.Find.{CaseTables}
use tokemon.Usage.Event.{Event, accuracy_reported}
use tokemon.Usage.Names.{normalize_project}
use tokemon.Usage.Validate.{schema_version}
use tokemon.Usage.Identity.{deterministic_id}
use tokemon.Adapters.Source.{Cursor, ParseResult, no_cursor}
use tokemon.Adapters.Signature.{FileSignature}
use tokemon.Adapters.Clock.{unix_time, duration_ms}
use tokemon.Adapters.Cache.{ParseOutcome, parsed, failed, SourceError, Cache, cached_parse}
use tokemon.Adapters.Codex.Fork.{first_non_empty}

pub record ThreadRow : Type 0 where
  pub id : Text
  pub created_at_ms : ℤ
  pub updated_at_ms : ℤ
  pub model_provider : Text
  pub model : Text
  pub cwd : Text
  pub tokens_used : ℤ

-- A database: it could not be opened or read, it has no such table, or the rows of the query.
pub data Threads : Type 0 where
  unreadable : SourceError → Threads
  no_table : Threads
  rows : List ThreadRow → Threads

-- The cursor of every parse that succeeds: it holds the identity and no position.
abbrev pub thread_cursor : Text → Cursor
thread_cursor identity = record no_cursor { identity = identity }

-- "codex:", the name of the file, and ":threads".
abbrev pub thread_identity : Text → Text
thread_identity base = text "codex:" ++ base ++ text ":threads"

module _ (tables : CaseTables) (sha256 : Text → List ℕ) where
  unfoldable pub thread_event : Text → Text → ThreadRow → Event
  thread_event machine_id identity r = record {
    schema_version = schema_version;
    event_id =
        deterministic_id sha256 machine_id (text "codex") identity (pos 0) (text "snapshot") r.id;
    timestamp =
        unix_time (if leb_ℤ r.updated_at_ms (pos 0) then r.created_at_ms else r.updated_at_ms);
    machine_id = machine_id;
    session_id = r.id;
    project = normalize_project tables r.cwd;
    provider = first_non_empty (r.model_provider ∷ text "unknown" ∷ []);
    model = first_non_empty (trim_space r.model ∷ text "unknown" ∷ []);
    canonical_model = [];
    tool = text "codex";
    input_tokens = none;
    output_tokens = none;
    cache_read_tokens = none;
    cache_write_tokens = none;
    reasoning_tokens = none;
    total_tokens = some r.tokens_used;
    duration_ms = duration_ms r.created_at_ms r.updated_at_ms;
    cost = none;
    cost_estimated = false;
    currency = text "USD";
    token_accuracy = accuracy_reported;
    source = record {
      adapter = text "codex";
      adapter_version = text "0.2.0";
      identity = identity;
      offset = pos 0;
    };
    metadata = none;
  }

  -- `parseThreadSnapshotsUncached`
  unfoldable pub parse_threads : Text → Text → Threads → ParseOutcome
  unfolding thread_event
  parse_threads machine_id identity (unreadable error) = failed error
  parse_threads machine_id identity no_table =
      parsed (record { events = []; cursor = thread_cursor identity })
  parse_threads machine_id identity (rows rs) = parsed (record {
    events = map (thread_event machine_id identity) rs;
    cursor = thread_cursor identity;
  })

  -- `parseThreadSnapshots` of a file whose signature could be read.
  unfoldable pub parse_thread_snapshots :
      Cache → Text → Text → FileSignature → Text → Cursor → Threads → ParseOutcome × Cache
  unfolding parse_threads
  parse_thread_snapshots cache machine_id path signature base request threads =
      cached_parse cache path signature (thread_identity base) request
        (parse_threads machine_id (thread_identity base) threads)
