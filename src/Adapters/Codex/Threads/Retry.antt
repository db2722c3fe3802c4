-- ===== src/Adapters/Codex/Threads/Retry.antt =====
-- What a poll of an unchanged database of threads gives after an upload that failed.
use tokemon.Prelude.{ℕ, ◌≡◌, ◌∙◌, [], List, none, map}
use tokemon.Prelude.Texts.{Text}
use tokemon.Prelude.Find.{CaseTables}
use tokemon.Adapters.Signature.{FileSignature}
use tokemon.Adapters.Cache.{Cache, cache_lookup, parsed}
use tokemon.Adapters.Cache.Again.{cursor_eq_refl, cached_parse_again}
use tokemon.Adapters.Codex.Threads.{
  ThreadRow, rows, thread_identity, thread_cursor, thread_event, parse_threads,
  parse_thread_snapshots,
}

-- A database of threads that has changed since its cursor was committed: a poll gives an event for each
-- thread. If its upload fails, so that the same cursor is asked for again, the next poll of the
-- unchanged file gives no events: they are not sent again.
pub parse_thread_snapshots_not_again :
    (tables : CaseTables) (sha256 : Text → List ℕ) (cache : Cache) (machine_id path : Text)
    (signature : FileSignature) (base : Text) (threads : List ThreadRow)
    → let identity = thread_identity base in
      let cursor = thread_cursor identity in
      cache_lookup cache path signature identity cursor ≡ none
      → let (first, after) =
          parse_thread_snapshots tables sha256 cache machine_id path signature base cursor
            (rows threads) in
        (first
          ≡ parsed (record {
            events = map (thread_event tables sha256 machine_id identity) threads;
            cursor = cursor;
          }))
        × ((parse_thread_snapshots tables sha256 after machine_id path signature base cursor
              (rows threads)).0
            ≡ parsed (record { events = []; cursor = cursor }))
unfolding parse_thread_snapshots
parse_thread_snapshots_not_again tables sha256 cache machine_id path signature base threads missed =
    let identity = thread_identity base in
    let cursor = thread_cursor identity in
    let fresh = parse_threads tables sha256 machine_id identity (rows threads) in
    let (first, second) = cached_parse_again cache path signature identity cursor fresh missed in
    (first, second ∙ rw (cursor_eq_refl cursor))
