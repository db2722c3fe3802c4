-- ===== src/Usage/Metadata/Depth.antt =====
-- Validated metadata is shallow.
use Prim.Native.Nat.{max}
use tokemon.Prelude.{ℕ, ◌+◌, ◌≤◌, ◌≡◌, none, arith}
use tokemon.Prelude.Find.{CaseTables}
use tokemon.Usage.Event.{
  Value, null, boolean, float, integer, string, array, object, unsupported, Items, no_items, item,
  Fields, no_fields, field,
}
use tokemon.Usage.Metadata.{validate_metadata, validate_items, validate_fields, max_metadata_depth}

-- How many containers lie round the value that lies deepest in this one, be that value an empty
-- container; a container does not lie round itself.
mutual
  pub enclosing : Value → ℕ
  enclosing (array items) = enclosing_items items
  enclosing (object fields) = enclosing_fields fields
  enclosing null = 0
  enclosing (boolean _) = 0
  enclosing (float _) = 0
  enclosing (integer _) = 0
  enclosing (string _) = 0
  enclosing unsupported = 0

  pub enclosing_items : Items → ℕ
  enclosing_items no_items = 0
  enclosing_items (item child rest) = max (1 + enclosing child) (enclosing_items rest)

  pub enclosing_fields : Fields → ℕ
  enclosing_fields no_fields = 0
  enclosing_fields (field _ child rest) = max (1 + enclosing child) (enclosing_fields rest)

module _ (tables : CaseTables) where
  mutual
    unfolding enclosing enclosing_items enclosing_fields validate_metadata validate_items
        validate_fields

    nested :
        (v : Value) (d : ℕ)
        → d ≤ 5
        → validate_metadata tables v d ≡ none
        → d + enclosing v ≤ max_metadata_depth
    nested (object fields) d l h = ground (arith, nested_fields fields d)
    nested (array items) d l h = ground (arith, nested_items items d)
    nested (string s) d l h = ground (arith, h)
    nested (float x) d l h = ground (arith, h)
    nested unsupported d l h = ground (arith, h)
    nested null d l h = ground (arith, h)
    nested (boolean _) d l h = ground (arith, h)
    nested (integer _) d l h = ground (arith, h)

    nested_items :
        (items : Items) (d : ℕ)
        → d ≤ max_metadata_depth
        → validate_items tables items d ≡ none
        → d + enclosing_items items ≤ max_metadata_depth
    nested_items no_items d l h = omega arith
    nested_items (item child rest) d l h =
        ground (arith, nested child (d + 1), nested_items rest d l)

    nested_fields :
        (fields : Fields) (d : ℕ)
        → d ≤ max_metadata_depth
        → validate_fields tables fields d ≡ none
        → d + enclosing_fields fields ≤ max_metadata_depth
    nested_fields no_fields d l h = omega arith
    nested_fields (field key child rest) d l h =
        ground (arith, nested child (d + 1), nested_fields rest d l)

  -- In a metadata value that validation accepts, no value, be it an empty container, lies inside more
  -- than four containers.
  pub validate_metadata-enclosing :
      (v : Value) → validate_metadata tables v 0 ≡ none → enclosing v ≤ max_metadata_depth
  validate_metadata-enclosing v h = omega (arith, nested v 0 (omega arith) h)
