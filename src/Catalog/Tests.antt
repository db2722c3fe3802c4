-- ===== src/Catalog/Tests.antt =====
-- The theorem on the table of aliases at a concrete catalog.
use tokemon.Prelude.{true, Bool, List, [], ◌∷◌, none, some, ◌≡◌, refl}
use tokemon.Prelude.Texts.{Text, text, text_eq, trim_space, trim_right, trim_left, is_space}
use tokemon.Prelude.Maps.{lookup, insert}
use tokemon.Prelude.Floats.{float_one, float_lt}
use mathlib.Core.List.Memᴰ.{head, tail}
use tokemon.Catalog.{Model, Catalog}
use tokemon.Catalog.Build.{new_catalog, validate_model, valid_date}
use tokemon.Catalog.Build.Aliases.{new_catalog-names}

abbrev priced_model : Text → Model
priced_model alias = record {
  provider = text "openai";
  display_name = text "Model";
  aliases = alias ∷ [];
  tier = [];
  pricing = record {
    currency = text "USD";
    mode = text "standard";
    effective_from = [];
    verified_at = text "2024-02-29";
    source = text "https://example.com";
    input_price_per_million = some float_one;
    output_price_per_million = some float_one;
    cache_read_price_per_million = none;
    cache_write_price_per_million = none;
  };
}

abbrev two_models : List (Text × Model)
two_models = (text "b", priced_model (text "two")) ∷ (text "a", priced_model (text "one")) ∷ []

abbrev any_url : Text → Bool
any_url _ = true

abbrev built_catalog : Catalog
built_catalog = record {
  models = (text "a", priced_model (text "one")) ∷ (text "b", priced_model (text "two")) ∷ [];
  by_alias =
      (text "a", text "a")
      ∷ (text "b", text "b")
      ∷ (text "one", text "a")
      ∷ (text "two", text "b")
      ∷ [];
}

builds : new_catalog any_url two_models ≡ (some built_catalog, none)
unfolding new_catalog validate_model text_eq trim_space trim_right trim_left is_space float_lt
    valid_date lookup insert
builds = refl

new_catalog-names_example :
    lookup (trim_space (text "two")) built_catalog.by_alias ≡ some (text "b")
new_catalog-names_example =
    new_catalog-names any_url two_models built_catalog builds (text "b") (priced_model (text "two"))
      (tail (head refl)) (text "two") (head refl)
