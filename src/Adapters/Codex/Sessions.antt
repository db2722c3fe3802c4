-- ===== src/Adapters/Codex/Sessions.antt =====
-- internal/adapters/codex/codex.go: the index of the session logs, which finds the log of the session
-- that a session was forked from.
use tokemon.Prelude.{ℕ, Bool, true, false, ◌||◌, List, [], ◌∷◌, Option, none, some, if◌then◌else◌}
use tokemon.Prelude.Texts.{Text, text, text_eq}
use tokemon.Prelude.Maps.{Map, lookup, insert}
use tokemon.Usage.Event.{Time}
use tokemon.Usage.Identity.{hash_identity, join_nul, decimal}
use tokemon.Adapters.Source.{Bytes}
use tokemon.Adapters.Signature.{FileSignature, signature_eq, Disk}
use tokemon.Adapters.Codex.{NormalizedTokenUsage}
use tokemon.Adapters.Codex.Fork.{
  SessionMetadata, LogRecord, first_non_empty, fork_parent_id, fork_timestamp,
  read_session_metadata, inherited_cumulative_usage,
}

-- What the adapter keeps of the session logs between polls.
pub record SessionIndex : Type 0 where
  pub session_files : Map Text
  pub metadata_by_path : Map SessionMetadata
  pub metadata_sigs : Map FileSignature

abbrev pub no_sessions : SessionIndex
no_sessions = record { session_files = []; metadata_by_path = []; metadata_sigs = [] }

abbrev path_of : Map Text → Text → Text
path_of files id = elim (lookup id files) [ none ↦ [] | some path ↦ path ]

-- files[id] = path, unless there is no identifier or it has a file.
unfoldable pub add_session_file : Text → Text → Map Text → Map Text
add_session_file id path files =
    if text_eq id []
    then files
    else elim (lookup id files) [ none ↦ insert id path files | some _ ↦ files ]

unfoldable pub add_session : Text → FileSignature → SessionMetadata → SessionIndex → SessionIndex
unfolding add_session_file
add_session path signature m index = record {
  session_files =
      add_session_file (first_non_empty (m.id ∷ m.session_id ∷ [])) path index.session_files;
  metadata_by_path = insert path m index.metadata_by_path;
  metadata_sigs = insert path signature index.metadata_sigs;
}

abbrev same_signature : Option FileSignature → FileSignature → Bool
same_signature none signature = false
same_signature (some s) signature = signature_eq s signature

abbrev bool_text : Bool → Text
bool_text true = text "true"
bool_text false = text "false"

module _ (decode : Bytes → Option LogRecord) (parse_time : Text → Option Time) (disk : Disk) where
  open disk use {signature_of, contents_of}

  -- The metadata of a log: what is known of it, if the file has not changed, or read again.
  unfoldable pub metadata_at : SessionIndex → Text → FileSignature → Option SessionMetadata
  metadata_at known path signature =
      let again = read_session_metadata decode (contents_of path) in
      elim (lookup path known.metadata_by_path) [
        | none ↦ again
        | some m ↦
            if same_signature (lookup path known.metadata_sigs) signature then some m else again
      ]

  -- The loop of `refreshSessionIndex` over the paths.
  unfoldable pub index_sources : SessionIndex → List Text → SessionIndex → SessionIndex
  unfolding metadata_at add_session
  index_sources known [] index = index
  index_sources known (path ∷ paths) index =
      let next : SessionIndex = elim (signature_of path) [
        | none ↦ index
        | some signature ↦ elim (metadata_at known path signature) [
          | none ↦ index
          | some m ↦ add_session path signature m index
        ]
      ] in
      index_sources known paths next

  unfoldable pub refresh_session_index : List Text → SessionIndex → SessionIndex
  unfolding index_sources
  refresh_session_index paths known = index_sources known paths no_sessions

  -- `sourceMetadata`
  unfoldable pub source_metadata : SessionIndex → Text → Option SessionMetadata
  source_metadata index path = elim (lookup path index.metadata_by_path) [
    | some m ↦ some m
    | none ↦ read_session_metadata decode (contents_of path)
  ]

  -- The log of a session; an empty index is filled first, from the logs that discovery finds, if it
  -- does not fail.
  unfoldable pub parent_path : SessionIndex → Option (List Text) → Text → Text
  unfolding refresh_session_index
  parent_path index discovered id =
      let again : Text = elim discovered [
        | none ↦ []
        | some paths ↦ path_of (refresh_session_index paths index).session_files id
      ] in
      elim index.session_files [ [] ↦ again | _ ∷ _ ↦ path_of index.session_files id ]

  -- `resolveForkBaseline`
  unfoldable pub resolve_fork_baseline :
      SessionIndex → Option (List Text) → Text → SessionMetadata → Option NormalizedTokenUsage
  unfolding parent_path fork_parent_id fork_timestamp
  resolve_fork_baseline index discovered path m =
      let parent = parent_path index discovered (fork_parent_id m) in
      if text_eq (fork_parent_id m) [] || text_eq (fork_timestamp m []) []
      then none
      else (if text_eq parent [] || text_eq parent path
          then none
          else inherited_cumulative_usage decode parse_time (contents_of parent)
              (fork_timestamp m []))

  module _ (sha256 : Text → List ℕ) where
    -- `logCacheIdentity`: what the meaning of a log depends on besides its own bytes.
    unfoldable pub log_cache_identity : SessionIndex → Text → Text → Text
    unfolding fork_parent_id source_metadata hash_identity
    log_cache_identity index path identity = elim (source_metadata index path) [
      | none ↦ identity
      | some m ↦
          let parent_id = fork_parent_id m in
          let parent = path_of index.session_files parent_id in
          if text_eq parent_id []
          then identity
          else (if text_eq parent [] || text_eq parent path
              then hash_identity sha256
                  (join_nul (identity ∷ text "fork" ∷ parent_id ∷ text "unresolved" ∷ []))
              else elim (signature_of parent) [
                | none ↦ hash_identity sha256 (
                    join_nul
                      (identity ∷ text "fork" ∷ parent_id ∷ parent ∷ text "unavailable" ∷ []))
                | some s ↦ hash_identity sha256 (
                    join_nul (
                      identity
                      ∷ text "fork"
                      ∷ parent_id
                      ∷ parent
                      ∷ decimal s.size
                      ∷ decimal s.mod_time
                      ∷ decimal s.sidecar_size
                      ∷ decimal s.sidecar_time
                      ∷ bool_text s.sidecar
                      ∷ []))
              ])
    ]
