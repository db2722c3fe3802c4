-- ===== src/Usage/Metadata.antt =====
-- internal/usage/event.go: `validateMetadata` and `validateMetadataKey`.
pub mod Depth
use tokemon.Prelude.{
  ℕ, suc, ◌+◌, Bool, true, false, ◌||◌, List, [], ◌∷◌, Option, none, some, ltb, if◌then◌else◌,
  length, any,
}
use tokemon.Prelude.Texts.{Text, text, text_eq, is_space, is_control, trim_space}
use tokemon.Prelude.Find.{CaseTables, contains, to_lower}
use tokemon.Prelude.Floats.{is_nan, is_inf}
use tokemon.Usage.Event.{
  Value, null, boolean, float, integer, string, array, object, unsupported, Items, no_items, item,
  Fields, no_fields, field,
}
use tokemon.Usage.Check.{◌>>◌, refuse_if}

abbrev pub max_metadata_entries : ℕ
max_metadata_entries = 32

abbrev pub max_metadata_depth : ℕ
max_metadata_depth = 4

abbrev pub max_metadata_string_size : ℕ
max_metadata_string_size = 256

pub data MetadataError : Type 0 where
  too_deep too_many_entries array_too_long string_too_long control_characters : MetadataError
  not_finite unsupported_value key_length key_characters key_not_permitted : MetadataError

abbrev pub sensitive_words : List Text
sensitive_words =
    text "prompt"
    ∷ text "response"
    ∷ text "content"
    ∷ text "source"
    ∷ text "path"
    ∷ text "title"
    ∷ text "secret"
    ∷ text "credential"
    ∷ text "token"
    ∷ text "repository"
    ∷ text "repo"
    ∷ text "code"
    ∷ text "message"
    ∷ text "conversation"
    ∷ text "command"
    ∷ text "cwd"
    ∷ []

abbrev pub count_items : Items → ℕ
count_items no_items = 0
count_items (item _ rest) = suc (count_items rest)

abbrev pub count_fields : Fields → ℕ
count_fields no_fields = 0
count_fields (field _ _ rest) = suc (count_fields rest)

module _ (tables : CaseTables) where
  -- `validateMetadataKey`
  unfoldable pub validate_metadata_key : Text → Option MetadataError
  validate_metadata_key key = do
    refuse_if (text_eq (trim_space key) [] || ltb max_metadata_string_size (length key)) key_length
    refuse_if (any (λ r. is_control r || is_space r) key) key_characters
    refuse_if (any (contains (to_lower tables key)) sensitive_words) key_not_permitted

  unfoldable mutual
    -- `validateMetadata`
    pub validate_metadata : Value → ℕ → Option MetadataError
    validate_metadata (object fields) depth = do
      refuse_if (ltb max_metadata_depth depth) too_deep
      refuse_if (ltb max_metadata_entries (count_fields fields)) too_many_entries
      validate_fields fields depth
    validate_metadata (array items) depth = do
      refuse_if (ltb max_metadata_depth depth) too_deep
      refuse_if (ltb max_metadata_entries (count_items items)) array_too_long
      validate_items items depth
    validate_metadata (string s) depth = do
      refuse_if (ltb max_metadata_depth depth) too_deep
      refuse_if (ltb max_metadata_string_size (length s)) string_too_long
      refuse_if (any is_control s) control_characters
    validate_metadata (float x) depth = do
      refuse_if (ltb max_metadata_depth depth) too_deep
      refuse_if (is_nan x || is_inf x) not_finite
    validate_metadata unsupported depth = do
      refuse_if (ltb max_metadata_depth depth) too_deep
      some unsupported_value
    validate_metadata null depth = refuse_if (ltb max_metadata_depth depth) too_deep
    validate_metadata (boolean _) depth = refuse_if (ltb max_metadata_depth depth) too_deep
    validate_metadata (integer _) depth = refuse_if (ltb max_metadata_depth depth) too_deep

    pub validate_items : Items → ℕ → Option MetadataError
    validate_items no_items depth = none
    validate_items (item child rest) depth = do
      validate_metadata child (depth + 1)
      validate_items rest depth

    pub validate_fields : Fields → ℕ → Option MetadataError
    validate_fields no_fields depth = none
    validate_fields (field key child rest) depth = do
      validate_metadata_key key
      validate_metadata child (depth + 1)
      validate_fields rest depth
