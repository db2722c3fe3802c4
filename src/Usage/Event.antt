-- ===== src/Usage/Event.antt =====
-- The event of internal/usage/event.go. A *int64 is an optional integer; a time.Time is its distance
-- from the Unix epoch in nanoseconds; map[string]any is a tree of JSON values.
use tokemon.Prelude.{Bool, Option, ◌||◌, ◌*◌, ◌-◌}
use tokemon.Prelude.Int.{ℤ, negsuc}
use tokemon.Prelude.Texts.{Text, text, text_eq}
use tokemon.Prelude.Floats.{Float64}

abbrev pub Time : Type 0
Time = ℤ

-- time.Time{}: the first of January of the year 1.
abbrev pub zero_time : Time
zero_time = negsuc (62_135_596_800 * 1_000_000_000 - 1)

-- `type Accuracy string`: any text, of which four are valid.
abbrev pub accuracy_reported : Text
accuracy_reported = text "reported"

abbrev pub accuracy_derived : Text
accuracy_derived = text "derived"

abbrev pub accuracy_estimated : Text
accuracy_estimated = text "estimated"

abbrev pub accuracy_unknown : Text
accuracy_unknown = text "unknown"

-- `Accuracy.Valid`
unfoldable pub accuracy_valid : Text → Bool
accuracy_valid a =
    text_eq a accuracy_reported
    || text_eq a accuracy_derived
    || text_eq a accuracy_estimated
    || text_eq a accuracy_unknown

-- What a metadata value can be: the cases of the type switches. `unsupported` is any other Go type.
mutual
  pub data Value : Type 0 where
    null : Value
    boolean : Bool → Value
    float : Float64 → Value
    integer : ℤ → Value
    string : Text → Value
    array : Items → Value
    object : Fields → Value
    unsupported : Value

  pub data Items : Type 0 where
    no_items : Items
    item : Value → Items → Items

  pub data Fields : Type 0 where
    no_fields : Fields
    field : Text → Value → Fields → Fields

pub record Source : Type 0 where
  pub adapter : Text
  pub adapter_version : Text
  pub identity : Text
  pub offset : ℤ

pub record Event : Type 0 where
  pub schema_version : Text
  pub event_id : Text
  pub timestamp : Time
  pub machine_id : Text
  pub session_id : Text
  pub project : Text
  pub provider : Text
  pub model : Text
  pub canonical_model : Text
  pub tool : Text
  pub input_tokens : Option ℤ
  pub output_tokens : Option ℤ
  pub cache_read_tokens : Option ℤ
  pub cache_write_tokens : Option ℤ
  pub reasoning_tokens : Option ℤ
  pub total_tokens : Option ℤ
  pub duration_ms : Option ℤ
  pub cost : Option Float64
  pub cost_estimated : Bool
  pub currency : Text
  pub token_accuracy : Text
  pub source : Source
  pub metadata : Option Fields
