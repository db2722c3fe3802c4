-- ===== src/Catalog.antt =====
-- internal/catalog/catalog.go: the priced models, `Resolve` and `Estimate`. Loading the file is YAML.
pub mod Build
mod Tests
use tokemon.Prelude.{zero, Bool, true, false, Option, none, some, ◌&&◌, if◌then◌else◌, List}
use tokemon.Prelude.Int.{ℤ, pos}
use tokemon.Prelude.Texts.{Text}
use tokemon.Prelude.Maps.{Map, lookup}
use tokemon.Prelude.Floats.{Float64, FloatOps, float_zero}
use tokemon.Usage.Event.{Event}

pub record Pricing : Type 0 where
  pub currency : Text
  pub mode : Text
  pub effective_from : Text
  pub verified_at : Text
  pub source : Text
  pub input_price_per_million : Option Float64
  pub output_price_per_million : Option Float64
  pub cache_read_price_per_million : Option Float64
  pub cache_write_price_per_million : Option Float64

pub record Model : Type 0 where
  pub provider : Text
  pub display_name : Text
  pub aliases : List Text
  pub tier : Text
  pub pricing : Pricing

pub record Catalog : Type 0 where
  pub models : Map Model
  pub by_alias : Map Text

-- `Resolve`; a nil catalog is `none`. The alias names an identifier, and that a model.
unfoldable pub resolve : Option Catalog → Text → Option (Text × Model)
resolve none raw = none
resolve (some c) raw = elim (lookup raw c.by_alias) [
  | none ↦ none
  | some id ↦ elim (lookup id c.models) [ none ↦ none | some model ↦ some (id, model) ]
]

module _ (floats : FloatOps) where
  open floats use {float_add, float_mul, float_div, float_of_int}

  -- `addPriced`: the new total, or that the price of a component is not known.
  unfoldable pub add_priced : Float64 → Option ℤ → Option Float64 → Option Float64
  add_priced total none price = some total
  add_priced total (some (pos zero)) price = some total
  add_priced total (some tokens) none = none
  add_priced total (some tokens) (some price) = some (
      float_add total
        (float_div (float_mul (float_of_int tokens) price) (float_of_int (pos 1_000_000))))

  abbrev and_priced : Option Float64 → Option ℤ → Option Float64 → Option Float64
  and_priced none tokens price = none
  and_priced (some total) tokens price = add_priced total tokens price

  abbrev is_unknown : Option ℤ → Bool
  is_unknown none = true
  is_unknown (some _) = false

  -- `Estimate`
  unfoldable pub estimate : Event → Model → Option Float64
  estimate e model =
      if is_unknown e.input_tokens
        && is_unknown e.output_tokens
        && is_unknown e.cache_read_tokens
        && is_unknown e.cache_write_tokens
      then none
      else (let p = model.pricing in
          let input = add_priced float_zero e.input_tokens p.input_price_per_million in
          let output = and_priced input e.output_tokens p.output_price_per_million in
          let read = and_priced output e.cache_read_tokens p.cache_read_price_per_million in
          and_priced read e.cache_write_tokens p.cache_write_price_per_million)
