-- ===== src/Pricing/Catalog.antt =====
-- `PriceResolver` of crates/pricing/src/catalog.rs. A map is an association list, in an order in which
-- its entries may be visited.
pub mod Nearest
use lnwdeck.Prelude.{
  ℕ, Bool, true, false, not, ◌&&◌, Option, none, some, List, [], ◌∷◌, ◌++◌, if◌then◌else◌, ltb,
  Result, ok, err, ◌>>=◌,
}
use lnwdeck.Prelude.Text.{Text, codes, text_eq, len, strip_prefix, contains}
use lnwdeck.Prelude.Maps.{lookup}
use lnwdeck.Json.{Value, string, array, Items, nil, cons, get}
use lnwdeck.Pricing.Models.{Panic, strip_date_suffix}

pub record ModelPricing : Type 0 where
  pub input_per_1k : Text
  pub output_per_1k : Text

pub record Override : Type 0 where
  pub provider : Text
  pub model : Text
  pub input_per_1k : Text
  pub output_per_1k : Text

abbrev pub Models : Type 0
Models = List (Text × ModelPricing)

pub record PriceResolver : Type 0 where
  pub catalog : List (Text × Models)
  pub overrides : List Override

-- `o[key].as_str().unwrap_or_default()`
module _ {F : Type 0} where
  unfoldable pub text_at : Text → Value F → Text
  unfolding get
  text_at key o = elim (get key o) [ some (string s) ↦ s | _ ↦ [] ]

  unfoldable pub override_of : Value F → Override
  unfolding text_at
  override_of o = record {
    provider = text_at (codes "provider") o;
    model = text_at (codes "model") o;
    input_per_1k = text_at (codes "input_per_1k") o;
    output_per_1k = text_at (codes "output_per_1k") o;
  }

  unfoldable pub overrides_of : Items F → List Override
  unfolding override_of
  overrides_of nil = []
  overrides_of (cons o os) = override_of o ∷ overrides_of os

  -- The catalog is the parsed file of the build.
  unfoldable pub new_with_overrides : List (Text × Models) → Value F → PriceResolver
  unfolding overrides_of
  new_with_overrides catalog (array items) = record {
    catalog = catalog;
    overrides = overrides_of items;
  }
  new_with_overrides catalog _ = record { catalog = catalog; overrides = [] }

unfoldable pub find_override : Text → Text → List Override → Option ModelPricing
unfolding text_eq
find_override provider model [] = none
find_override provider model (o ∷ os) =
    if text_eq o.provider provider && text_eq o.model model
    then some (record { input_per_1k = o.input_per_1k; output_per_1k = o.output_per_1k })
    else find_override provider model os

unfoldable pub find_exact : Text → Text → List (Text × Models) → Option ModelPricing
unfolding lookup text_eq
find_exact provider model catalog = elim (lookup provider catalog) [
  | some models ↦ lookup model models
  | none ↦ none
]

unfoldable pub resolve : PriceResolver → Text → Text → Option ModelPricing
unfolding find_override find_exact
resolve r provider model = elim (find_override provider model r.overrides) [
  | some pricing ↦ some pricing
  | none ↦ find_exact provider model r.catalog
]

-- `best` of the loop, with the bytes that its key has after the prefix.
unfoldable pub is_better : Text → Option (ℕ × ModelPricing) → Bool
is_better rest none = true
is_better rest (some (best_len, pricing)) = ltb (len rest) best_len

unfoldable pub offer :
    Option Text → ModelPricing → Option (ℕ × ModelPricing) → Option (ℕ × ModelPricing)
unfolding is_better
offer none pricing best = best
offer (some rest) pricing best = if is_better rest best then some (len rest, pricing) else best

unfoldable pub nearest : Text → Models → Option (ℕ × ModelPricing) → Option (ℕ × ModelPricing)
unfolding offer strip_prefix
nearest prefix [] best = best
nearest prefix ((key, pricing) ∷ models) best =
    nearest prefix models (offer (strip_prefix prefix key) pricing best)

-- After the exact and the stripped name.
unfoldable pub resolve_family : Text → Models → Option ModelPricing
unfolding contains nearest
resolve_family model models =
    if not (contains (codes "-") model)
    then none
    else elim (nearest (model ++ codes "-") models none) [
      | some (rest, pricing) ↦ some pricing
      | none ↦ none
    ]

unfoldable pub or_family : Text → Models → Option ModelPricing → Option ModelPricing
unfolding resolve_family
or_family model models (some pricing) = some pricing
or_family model models none = resolve_family model models

unfoldable pub or_stripped :
    Text → Models → Option ModelPricing → Result Panic (Option ModelPricing)
unfolding lookup text_eq strip_date_suffix or_family
or_stripped model models (some pricing) = ok (some pricing)
or_stripped model models none =
    strip_date_suffix model >>= λ stripped. ok (or_family model models (lookup stripped models))

unfoldable pub resolve_among : Text → Option Models → Result Panic (Option ModelPricing)
unfolding lookup text_eq or_stripped
resolve_among model none = ok none
resolve_among model (some models) = or_stripped model models (lookup model models)

unfoldable pub resolve_catalog : PriceResolver → Text → Text → Result Panic (Option ModelPricing)
unfolding lookup text_eq resolve_among
resolve_catalog r provider model = resolve_among model (lookup provider r.catalog)
