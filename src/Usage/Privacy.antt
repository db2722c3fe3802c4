-- ===== src/Usage/Privacy.antt =====
-- internal/usage/privacy.go: the guard on what leaves an agent. The sentinel ErrSensitiveContent
-- wraps every error here; a constructor says which test refused. Where Go ranges over a map of
-- fields, an error does not say here which field it met first.
pub mod Guard
mod Tests
use tokemon.Prelude.{
  ℕ, suc, ◌+◌, Bool, true, false, not, ◌&&◌, ◌||◌, List, [], ◌∷◌, ◌++◌, Option, none, some, ltb,
  leb, ◌==◌, if◌then◌else◌, length, any,
}
use tokemon.Prelude.Texts.{Text, text, text_eq, byte_len, is_space, is_control, trim_space}
use tokemon.Prelude.Find.{CaseTables, contains, contains_any, has_prefix, to_lower}
use tokemon.Usage.Event.{
  Event, Value, null, boolean, float, integer, string, array, object, unsupported, Items, no_items,
  item, Fields, no_fields, field,
}
use tokemon.Usage.Names.{slash, backslash, path_runes, normalize_session_id}
use tokemon.Usage.Check.{◌>>◌, refuse_if}

pub data PrivacyError : Type 0 where
  project_not_label identity_is_path resembles_secret session_not_opaque : PrivacyError
  key_not_approved nested_key_not_approved value_resembles_secret value_unsupported : PrivacyError

abbrev pub metadata_namespace : Text
metadata_namespace = text "tokemon_"

abbrev pub secret_marks : List Text
secret_marks = text "Bearer " ∷ text "sk-" ∷ text "ghp_" ∷ []

-- `len(value) >= 3 && value[1] == ':' && (value[2] == '/' || value[2] == '\\')` on bytes: a first
-- rune beyond ASCII puts no colon at index 1.
unfoldable pub is_drive_path : Text → Bool
is_drive_path (a ∷ b ∷ c ∷ _) = ltb a 0x80 && b == b':' && (c == slash || c == backslash)
is_drive_path _ = false

-- `identifierContainsSensitiveValue`
unfoldable pub identifier_contains_sensitive_value : Text → Bool
identifier_contains_sensitive_value value =
    not (text_eq value [])
    && (contains_any value (13 ∷ 10 ∷ [])
        || any (contains value) secret_marks
        || has_prefix value (slash ∷ [])
        || has_prefix value (backslash ∷ backslash ∷ [])
        || is_drive_path value)

abbrev pub key_words : List Text
key_words =
    text "prompt"
    ∷ text "response"
    ∷ text "content"
    ∷ text "source"
    ∷ text "path"
    ∷ text "title"
    ∷ text "secret"
    ∷ text "credential"
    ∷ text "token"
    ∷ text "repository"
    ∷ text "repo"
    ∷ text "code"
    ∷ text "message"
    ∷ text "conversation"
    ∷ text "command"
    ∷ text "cwd"
    ∷ text "url"
    ∷ []

abbrev pub value_words : List Text
value_words =
    text "prompt"
    ∷ text "response"
    ∷ text "source"
    ∷ text "path"
    ∷ text "title"
    ∷ text "secret"
    ∷ text "credential"
    ∷ text "repository"
    ∷ text "repo"
    ∷ text "code"
    ∷ text "message"
    ∷ text "conversation"
    ∷ text "command"
    ∷ text "cwd"
    ∷ text "http:"
    ∷ text "https:"
    ∷ []

abbrev pub identifiers : Event → List Text
identifiers e =
    e.event_id ∷ e.machine_id ∷ e.session_id ∷ e.provider ∷ e.model ∷ e.canonical_model ∷ e.tool
    ∷ e.source.identity ∷ e.source.adapter ∷ e.source.adapter_version ∷ []

module _ (tables : CaseTables) where
  -- `approvedMetadataKey`
  unfoldable pub approved_metadata_key : Text → Bool
  approved_metadata_key raw =
      let key = trim_space raw in
      not (text_eq key [])
      && has_prefix (to_lower tables key) metadata_namespace
      && not (any (λ r. is_control r || is_space r) key)
      && not (any (contains (to_lower tables key)) key_words)
      && leb (length key) 128
      && ltb (byte_len metadata_namespace) (byte_len key)

  unfoldable mutual
    -- `validateMetadataValue`
    pub validate_metadata_value : Text → Value → Option PrivacyError
    validate_metadata_value key null = none
    validate_metadata_value key (boolean _) = none
    validate_metadata_value key (float _) = none
    validate_metadata_value key (integer _) = none
    validate_metadata_value key (string s) = do
      refuse_if (contains_any s (13 ∷ 10 ∷ slash ∷ backslash ∷ []) || any (contains s) secret_marks)
          value_resembles_secret
      refuse_if (any (contains (to_lower tables s)) value_words) value_resembles_secret
    validate_metadata_value key (array items) = validate_value_items key items
    validate_metadata_value key (object fields) = validate_value_fields key fields
    validate_metadata_value key unsupported = some value_unsupported

    pub validate_value_items : Text → Items → Option PrivacyError
    validate_value_items key no_items = none
    validate_value_items key (item child rest) = do
      validate_metadata_value key child
      validate_value_items key rest

    pub validate_value_fields : Text → Fields → Option PrivacyError
    validate_value_fields key no_fields = none
    validate_value_fields key (field child_key child rest) = do
      refuse_if (not (approved_metadata_key (key ++ (b'.' ∷ child_key)))) nested_key_not_approved
      validate_metadata_value (key ++ (b'.' ∷ child_key)) child
      validate_value_fields key rest

  -- The loop of `FilterApprovedMetadata`; the copy that it returns is equal to the map it read.
  unfoldable pub check_approved : Fields → Option PrivacyError
  check_approved no_fields = none
  check_approved (field key value rest) = do
    refuse_if (not (approved_metadata_key key)) key_not_approved
    validate_metadata_value key value
    check_approved rest

  -- `validateApprovedMetadata`
  unfoldable pub validate_approved_metadata : Option Fields → Option PrivacyError
  validate_approved_metadata none = none
  validate_approved_metadata (some fields) = check_approved fields

  module _ (sha256 : Text → List ℕ) where
    -- `ValidateOutbound`
    unfoldable pub validate_outbound : Event → Option PrivacyError
    validate_outbound e = do
      refuse_if (contains_any e.project path_runes) project_not_label
      refuse_if (contains_any e.source.identity path_runes) identity_is_path
      refuse_if (any identifier_contains_sensitive_value (identifiers e)) resembles_secret
      refuse_if
          (not (text_eq e.session_id [])
            && not (text_eq (normalize_session_id tables sha256 e.session_id) e.session_id))
          session_not_opaque
      validate_approved_metadata e.metadata

    -- `ValidateOutboundBatch`: the index of the first event refused, and why.
    unfoldable pub refuse_from : ℕ → List Event → Option (ℕ × PrivacyError)
    refuse_from index [] = none
    refuse_from index (e ∷ events) =
        let later = refuse_from (suc index) events in
        elim (validate_outbound e) [ none ↦ later | some error ↦ some (index, error) ]

    unfoldable pub validate_outbound_batch : List Event → Option (ℕ × PrivacyError)
    validate_outbound_batch events = refuse_from 0 events
