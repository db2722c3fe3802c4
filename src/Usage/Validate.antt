-- ===== src/Usage/Validate.antt =====
-- internal/usage/event.go: `Event.Validate`, `validateText` and the checks of single fields. The
-- clock's reading is an argument. Of json.Marshal on the metadata the code uses the length or that
-- it failed, which is a parameter. Where Go ranges over a map of counts, an error does not say here
-- which count it met first.
pub mod Sound
use tokemon.Prelude.{
  ℕ, ◌+◌, ◌*◌, Bool, true, false, not, ◌&&◌, ◌||◌, List, [], ◌∷◌, Option, none, some, ltb, leb,
  ◌==◌, if◌then◌else◌, length, all, any,
}
use tokemon.Prelude.Int.{ℤ, pos, negsuc, ltb_ℤ, ◌+ℤ◌}
use tokemon.Prelude.Texts.{Text, text, text_eq, byte_len, is_space, is_control, trim_space}
use tokemon.Prelude.Find.{CaseTables, contains_any, has_prefix, trim_prefix, to_upper}
use tokemon.Prelude.Floats.{Float64, is_nan, is_inf, float_lt, float_zero}
use tokemon.Usage.Event.{Event, Source, Time, zero_time, Fields, object, accuracy_valid}
use tokemon.Usage.Totals.{TotalsError, validate_token_totals}
use tokemon.Usage.Names.{path_runes, digest_prefix, digest_size, is_hex}
use tokemon.Usage.Metadata.{MetadataError, validate_metadata}
use tokemon.Usage.Check.{◌>>◌, refuse_if}

pub data FieldName : Type 0 where
  event_id_field machine_id_field session_id_field project_field provider_field model_field :
      FieldName
  canonical_model_field tool_field adapter_field adapter_version_field identity_field : FieldName

-- The names for which `validateText` lets an empty value pass.
abbrev pub is_optional : FieldName → Bool
is_optional session_id_field = true
is_optional project_field = true
is_optional canonical_model_field = true
is_optional identity_field = true
is_optional _ = false

pub data ValidationError : Type 0 where
  wrong_schema_version bad_digest timestamp_required before_epoch in_future : ValidationError
  project_is_path bad_accuracy negative_count duration_too_large bad_cost : ValidationError
  bad_currency negative_offset metadata_too_large : ValidationError
  required too_long surrounding_space invalid_characters : FieldName → ValidationError
  totals : TotalsError → ValidationError
  metadata : MetadataError → ValidationError

abbrev pub schema_version : Text
schema_version = text "1"

-- 365 * 24 hours in milliseconds
abbrev pub max_duration_ms : ℕ
max_duration_ms = 365 * 24 * 60 * 60 * 1000

abbrev pub day_nanos : ℕ
day_nanos = 24 * 60 * 60 * 1_000_000_000

abbrev time_eq : Time → Time → Bool
time_eq s t = not (ltb_ℤ s t) && not (ltb_ℤ t s)

-- `validateText`
unfoldable pub validate_text : FieldName → Text → ℕ → Bool → Option ValidationError
validate_text name value max allow_whitespace =
    if text_eq (trim_space value) []
    then refuse_if (not (is_optional name)) (required name)
    else (do
      refuse_if (ltb max (length value)) (too_long name)
      refuse_if (not (text_eq (trim_space value) value)) (surrounding_space name)
      refuse_if (any (λ r. is_control r || (not allow_whitespace && is_space r)) value)
          (invalid_characters name))

-- `isASCIIAlpha`
unfoldable pub is_ascii_alpha : Text → Bool
is_ascii_alpha value = all (λ r. (leb b'A' r && leb r b'Z') || (leb b'a' r && leb r b'z')) value

-- `validateEventIDDigest`
unfoldable pub validate_event_id_digest : Text → Option ValidationError
validate_event_id_digest value =
    if has_prefix value digest_prefix
    then (let digest = trim_prefix value digest_prefix in
        refuse_if (not (byte_len digest == digest_size * 2) || not (is_hex digest)) bad_digest)
    else none

abbrev pub is_negative : Option ℤ → Bool
is_negative none = false
is_negative (some v) = ltb_ℤ v (pos 0)

abbrev pub exceeds : Option ℤ → ℕ → Bool
exceeds none n = false
exceeds (some v) n = ltb_ℤ (pos n) v

abbrev pub bad_float : Option Float64 → Bool
bad_float none = false
bad_float (some x) = is_nan x || is_inf x || float_lt x float_zero

abbrev pub counts : Event → List (Option ℤ)
counts e =
    e.input_tokens ∷ e.output_tokens ∷ e.cache_read_tokens ∷ e.cache_write_tokens
    ∷ e.reasoning_tokens ∷ e.total_tokens ∷ e.duration_ms ∷ []

abbrev as_totals : Option TotalsError → Option ValidationError
as_totals none = none
as_totals (some e) = some (totals e)

abbrev as_metadata : Option MetadataError → Option ValidationError
as_metadata none = none
as_metadata (some e) = some (metadata e)

module _ (tables : CaseTables) where
  unfoldable pub bad_currency_code : Text → Bool
  unfolding is_ascii_alpha
  bad_currency_code c =
      not (text_eq c [])
      && (not (byte_len c == 3) || not (text_eq c (to_upper tables c)) || not (is_ascii_alpha c))

  module _ (metadata_len : Fields → Option ℕ) where
    abbrev metadata_oversized : Fields → Bool
    metadata_oversized fields = elim (metadata_len fields) [
      | none ↦ true
      | some n ↦ ltb (4 * 1024) n
    ]

    unfoldable pub check_metadata : Option Fields → Option ValidationError
    check_metadata none = none
    check_metadata (some fields) = do
      refuse_if (metadata_oversized fields) metadata_too_large
      as_metadata (validate_metadata tables (object fields) 0)

    unfoldable pub check_identity : Time → Event → Option ValidationError
    check_identity now e = do
      refuse_if (not (text_eq e.schema_version schema_version)) wrong_schema_version
      validate_text event_id_field e.event_id 256 false
      validate_event_id_digest e.event_id
      refuse_if (time_eq e.timestamp zero_time) timestamp_required
      refuse_if (ltb_ℤ e.timestamp (pos 0)) before_epoch
      refuse_if (ltb_ℤ (now +ℤ pos day_nanos) e.timestamp) in_future

    unfoldable pub check_labels : Event → Option ValidationError
    check_labels e = do
      validate_text machine_id_field e.machine_id 256 false
      validate_text session_id_field e.session_id 256 true
      validate_text project_field e.project 256 true
      refuse_if (contains_any e.project path_runes) project_is_path
      validate_text provider_field e.provider 128 true
      validate_text model_field e.model 256 true
      validate_text canonical_model_field e.canonical_model 256 true
      validate_text tool_field e.tool 128 true

    unfoldable pub check_numbers : Event → Option ValidationError
    unfolding bad_currency_code
    check_numbers e = do
      refuse_if (not (accuracy_valid e.token_accuracy)) bad_accuracy
      refuse_if (any is_negative (counts e)) negative_count
      refuse_if (exceeds e.duration_ms max_duration_ms) duration_too_large
      refuse_if (bad_float e.cost) bad_cost
      refuse_if (bad_currency_code e.currency) bad_currency

    unfoldable pub check_source : Source → Option ValidationError
    check_source s = do
      refuse_if (ltb_ℤ s.offset (pos 0)) negative_offset
      validate_text adapter_field s.adapter 128 false
      validate_text adapter_version_field s.adapter_version 128 true
      validate_text identity_field s.identity 256 true

    -- `validateAt`: the checks in the order of the source.
    unfoldable pub validate_at : Time → Event → Option ValidationError
    validate_at now e = do
      check_identity now e
      check_labels e
      check_numbers e
      check_source e.source
      as_totals (validate_token_totals e)
      check_metadata e.metadata
