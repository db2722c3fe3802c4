-- ===== src/Catalog/Build.antt =====
-- internal/catalog/catalog.go: `New`, which checks the models and builds the table of aliases. Whether
-- net/url reads a text as a request URI with scheme https and a host is a parameter. Where Go ranges
-- over a map of prices, an error does not say here which price it met first.
pub mod Aliases
use tokemon.Prelude.{
  ℕ, zero, suc, ◌+◌, ◌*◌, ◌-◌, ◌%◌, ◌^◌, Bool, true, false, not, ◌&&◌, ◌||◌, List, [], ◌∷◌, Option,
  none, some, if◌then◌else◌, any, all, ltb, leb, ◌==◌, length,
}
use tokemon.Prelude.Texts.{Text, text, text_eq, trim_space}
use tokemon.Prelude.Maps.{Map, lookup, insert}
use tokemon.Prelude.Floats.{Float64, float_lt, float_zero}
use tokemon.Usage.Check.{◌>>◌, refuse_if}
use tokemon.Catalog.{Pricing, Model, Catalog}

pub data CatalogError : Type 0 where
  bad_id provider_required display_name_required alias_required bad_alias : CatalogError
  bad_pricing_currency bad_mode prices_required negative_price bad_verified_at bad_effective_from
        bad_source :
      CatalogError
  alias_repeated : CatalogError
  alias_conflicts : Text → CatalogError

abbrev is_digit : ℕ → Bool
is_digit c = leb b'0' c && leb c b'9'

abbrev number : Text → ℕ
number [] = 0
number (c ∷ s) = (c - b'0') * 10 ^ length s + number s

abbrev is_leap : ℕ → Bool
is_leap y = (y % 4 == 0 && not (y % 100 == 0)) || y % 400 == 0

abbrev days_in : ℕ → ℕ → ℕ
days_in y m =
    if m == 2
    then (if is_leap y then 29 else 28)
    else (if m == 4 || m == 6 || m == 9 || m == 11 then 30 else 31)

-- time.Parse with time.DateOnly: YYYY-MM-DD, a day that the calendar has.
unfoldable pub valid_date : Text → Bool
valid_date (a ∷ b ∷ c ∷ d ∷ h ∷ m ∷ n ∷ k ∷ p ∷ q ∷ []) =
    let year = number (a ∷ b ∷ c ∷ d ∷ []) in
    let month = number (m ∷ n ∷ []) in
    let day = number (p ∷ q ∷ []) in
    all is_digit (a ∷ b ∷ c ∷ d ∷ m ∷ n ∷ p ∷ q ∷ [])
    && h == b'-'
    && k == b'-'
    && leb 1 month
    && leb month 12
    && leb 1 day
    && leb day (days_in year month)
valid_date _ = false

abbrev is_padded : Text → Bool
is_padded t = text_eq (trim_space t) [] || not (text_eq t (trim_space t))

abbrev is_missing : Option Float64 → Bool
is_missing none = true
is_missing (some _) = false

abbrev is_negative_price : Option Float64 → Bool
is_negative_price none = false
is_negative_price (some x) = float_lt x float_zero

abbrev is_empty_list : List Text → Bool
is_empty_list [] = true
is_empty_list (_ ∷ _) = false

module _ (is_https_url : Text → Bool) where
  -- `validateModel`
  unfoldable pub validate_model : Text → Model → Option CatalogError
  validate_model id model = do
    refuse_if (is_padded id) bad_id
    refuse_if (text_eq (trim_space model.provider) []) provider_required
    refuse_if (text_eq (trim_space model.display_name) []) display_name_required
    refuse_if (is_empty_list model.aliases) alias_required
    refuse_if (any is_padded model.aliases) bad_alias
    refuse_if (not (text_eq model.pricing.currency (text "USD"))) bad_pricing_currency
    refuse_if (not (text_eq model.pricing.mode (text "standard"))) bad_mode
    refuse_if
        (is_missing model.pricing.input_price_per_million
          || is_missing model.pricing.output_price_per_million)
        prices_required
    refuse_if
        (any is_negative_price (
          model.pricing.input_price_per_million ∷ model.pricing.output_price_per_million
          ∷ model.pricing.cache_read_price_per_million ∷ model.pricing.cache_write_price_per_million
          ∷ []))
        negative_price
    refuse_if (not (valid_date model.pricing.verified_at)) bad_verified_at
    refuse_if
        (not (text_eq model.pricing.effective_from [])
          && not (valid_date model.pricing.effective_from))
        bad_effective_from
    refuse_if (not (is_https_url model.pricing.source)) bad_source

  -- The first loop of `New`: every model is checked, and its identifier names itself.
  unfoldable pub check_models : Map Model → Map Text → Option CatalogError × Map Text
  check_models [] aliases = (none, aliases)
  check_models ((id, model) ∷ models) aliases =
      let rest = check_models models (insert id id aliases) in
      elim (validate_model id model) [ some error ↦ (some error, aliases) | none ↦ rest ]

-- The loop over the aliases of a model; `seen` are those before.
unfoldable pub add_aliases :
    Text → List Text → List Text → Map Text → Option CatalogError × Map Text
add_aliases id seen [] aliases = (none, aliases)
add_aliases id seen (raw ∷ raws) aliases =
    let alias = trim_space raw in
    let own = add_aliases id (alias ∷ seen) raws aliases in
    let added = add_aliases id (alias ∷ seen) raws (insert alias id aliases) in
    if any (text_eq alias) seen
    then (some alias_repeated, aliases)
    else (if text_eq alias id then own else elim (lookup alias aliases) [
      | some owner ↦ (some (alias_conflicts owner), aliases)
      | none ↦ added
    ])

-- The second loop of `New`.
unfoldable pub add_models : Map Model → Map Text → Option CatalogError × Map Text
unfolding add_aliases
add_models [] aliases = (none, aliases)
add_models ((id, model) ∷ models) aliases =
    let (error, added) = add_aliases id [] model.aliases aliases in
    elim error [ some e ↦ (some e, added) | none ↦ add_models models added ]

abbrev text_leb : Text → Text → Bool
text_leb [] t = true
text_leb (c ∷ s) [] = false
text_leb (c ∷ s) (d ∷ t) = ltb c d || (c == d && text_leb s t)

abbrev insert_sorted : Text × Model → Map Model → Map Model
insert_sorted m [] = m ∷ []
insert_sorted m (n ∷ models) =
    let later = insert_sorted m models in if text_leb m.0 n.0 then m ∷ n ∷ models else n ∷ later

-- sort.Strings on the identifiers.
unfoldable pub sorted : Map Model → Map Model
sorted [] = []
sorted (m ∷ models) = insert_sorted m (sorted models)

-- `New`
unfoldable pub new_catalog : (Text → Bool) → Map Model → Option Catalog × Option CatalogError
unfolding check_models add_models sorted
new_catalog is_https_url models =
    let (invalid, identities) = check_models is_https_url (sorted models) [] in
    elim invalid [
      | some error ↦ (none, some error)
      | none ↦
          let (conflict, aliases) = add_models (sorted models) identities in
          elim conflict [
            | some error ↦ (none, some error)
            | none ↦ (some (record { models = sorted models; by_alias = aliases }), none)
          ]
    ]
