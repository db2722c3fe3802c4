-- ===== src/Adapters/Cache.antt =====
-- internal/adapters/cache.go: `SnapshotCache`, by which an adapter does not parse an unchanged file
-- again, and the way the adapters use it.
pub mod Again
use tokemon.Prelude.{
  Bool, true, false, not, ◌&&◌, ◌||◌, List, [], ◌∷◌, Option, none, some, if◌then◌else◌, any,
}
use tokemon.Prelude.Texts.{Text, text_eq}
use tokemon.Prelude.Maps.{Map, lookup, insert}
use tokemon.Adapters.Source.{Cursor, no_cursor, cursor_eq, ParseResult}
use tokemon.Adapters.Signature.{FileSignature, signature_eq}

-- An error of a parse: the poll was cancelled or ran out of time, or any other.
pub data SourceError : Type 0 where
  canceled : SourceError
  broken : Text → SourceError

pub data ParseOutcome : Type 0 where
  parsed : ParseResult → ParseOutcome
  failed : SourceError → ParseOutcome

pub record CacheEntry : Type 0 where
  pub signature : FileSignature
  pub identity : Text
  pub request_cursor : Cursor
  pub result_cursor : Cursor
  pub error : Option SourceError

abbrev pub Cache : Type 0
Cache = Map CacheEntry

abbrev cursor_only : Cursor → ParseOutcome
cursor_only cursor = parsed (record { events = []; cursor = cursor })

-- What an entry answers for a file that has not changed.
unfoldable pub entry_answer : CacheEntry → Cursor → Option ParseOutcome
entry_answer entry request = elim entry.error [
  | some error ↦ if cursor_eq entry.request_cursor request then some (failed error) else none
  | none ↦
      if cursor_eq entry.result_cursor request then some (cursor_only entry.result_cursor) else none
]

-- `Lookup`; `none` is a miss.
unfoldable pub cache_lookup : Cache → Text → FileSignature → Text → Cursor → Option ParseOutcome
unfolding entry_answer
cache_lookup cache path signature identity request = elim (lookup path cache) [
  | none ↦ none
  | some entry ↦
      if not (signature_eq entry.signature signature) || not (text_eq entry.identity identity)
      then none
      else entry_answer entry request
]

abbrev error_of : ParseOutcome → Option SourceError
error_of (parsed _) = none
error_of (failed e) = some e

-- The cursor of a failed parse is empty.
abbrev result_cursor_of : Cursor → ParseOutcome → Cursor
result_cursor_of empty (parsed r) = r.cursor
result_cursor_of empty (failed _) = empty

abbrev is_canceled : ParseOutcome → Bool
is_canceled (failed canceled) = true
is_canceled _ = false

-- `Store`
unfoldable pub cache_store : Cache → Text → FileSignature → Text → Cursor → ParseOutcome → Cache
cache_store cache path signature identity request outcome =
    if is_canceled outcome
    then cache
    else insert path
        (record {
          signature = signature;
          identity = identity;
          request_cursor = request;
          result_cursor = result_cursor_of no_cursor outcome;
          error = error_of outcome;
        })
        cache

-- `Prune`: only the paths that were seen stay.
unfoldable pub cache_prune : Cache → List Text → Cache
cache_prune [] seen = []
cache_prune ((path, entry) ∷ cache) seen =
    let rest = cache_prune cache seen in
    if any (text_eq path) seen then (path, entry) ∷ rest else rest

-- How `Parse` of an adapter uses it, with the outcome that a parse of the file would have.
unfoldable pub cached_parse :
    Cache → Text → FileSignature → Text → Cursor → ParseOutcome → ParseOutcome × Cache
cached_parse cache path signature identity request fresh =
    elim (cache_lookup cache path signature identity request) [
      | some outcome ↦ (outcome, cache)
      | none ↦ (fresh, cache_store cache path signature identity request fresh)
    ]
