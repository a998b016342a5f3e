-- ===== src/Pricing/Examples.antt =====
-- The theorems on pricing at concrete names and catalogs, with whole numbers for floats and ASCII's
-- mapping for Unicode's.
use lnwdeck.Prelude.{ℕ, ◌≡◌, ◌⊎◌, refl, some, none, [], ◌∷◌, ◌++◌, ok, err, ◌>>=◌}
use lnwdeck.Prelude.Text.{Text, codes, utf8_char, utf8, to_ascii_lowercase}
use lnwdeck.Prelude.Maps.{lookup}
use lnwdeck.Domain.Examples.{whole}
use lnwdeck.Pricing.Models.{
  not_char_boundary, strip_date_suffix, find_date, date_or, is_date_at, cut_bytes, date_after,
}
use lnwdeck.Pricing.Models.Dated.{IsDate, NoDate, strip_date_suffix-IsDate}
use lnwdeck.Pricing.Models.Ascii.{strip_date_suffix-returns}
use lnwdeck.Pricing.Catalog.{ModelPricing, Models, PriceResolver, resolve_catalog}
use lnwdeck.Pricing.Catalog.Nearest.{IsPricedBy, resolve_catalog-some}
use lnwdeck.Pricing.Calculator.{calculate_cost_with_provider, norm_provider}
use lnwdeck.Pricing.Calculator.Sought.{sought, estimate, calculate_cost_with_provider-sought}

abbrev dated : Text
dated = codes "claude-sonnet-4-20250514"

strip_date_suffix-dated : strip_date_suffix dated ≡ ok (codes "claude-sonnet-4")
unfolding strip_date_suffix find_date date_or is_date_at cut_bytes date_after utf8_char
strip_date_suffix-dated = refl

-- A dash before three Chinese characters, of three bytes each: the eighth byte is inside the third.
strip_date_suffix-panics : strip_date_suffix (codes "a-模型型") ≡ err not_char_boundary
unfolding strip_date_suffix find_date date_or is_date_at cut_bytes date_after utf8_char
strip_date_suffix-panics = refl

strip_date_suffix-IsDate_example :
    ((codes "claude-sonnet-4" ≡ dated) × NoDate dated)
    ⊎ ((c : ℕ) × (rest : Text) × (dated ≡ codes "claude-sonnet-4" ++ c ∷ rest)
        × IsDate c rest
        × NoDate rest)
strip_date_suffix-IsDate_example =
    strip_date_suffix-IsDate dated (codes "claude-sonnet-4") strip_date_suffix-dated

strip_date_suffix-returns_example : (left : Text) × (strip_date_suffix dated ≡ ok left)
strip_date_suffix-returns_example = strip_date_suffix-returns dated refl

abbrev rates : ModelPricing
rates = record { input_per_1k = codes "0.003"; output_per_1k = codes "0.015" }

abbrev claude_models : Models
claude_models =
    (codes "claude-sonnet-4-20250514-preview", rates) ∷ (codes "claude-sonnet-4-latest", rates) ∷ []

abbrev resolver : PriceResolver
resolver = record { catalog = (codes "anthropic", claude_models) ∷ []; overrides = [] }

resolver-family :
    resolve_catalog resolver (codes "anthropic") (codes "claude-sonnet-4") ≡ ok (some rates)
unfolding resolve_catalog cut_bytes utf8_char utf8
resolver-family = refl

resolve_catalog-some_example :
    (models : Models) × (lookup (codes "anthropic") resolver.catalog ≡ some models)
    × IsPricedBy (codes "claude-sonnet-4") rates models
resolve_catalog-some_example =
    resolve_catalog-some resolver (codes "anthropic") (codes "claude-sonnet-4") rates
      resolver-family

calculate_cost_with_provider-sought_example :
    calculate_cost_with_provider to_ascii_lowercase whole
      (λ s. some none)
      (λ x. [])
      []
      (codes "claude-sonnet-4")
      10
      20
      resolver
    ≡ (sought to_ascii_lowercase
          (norm_provider to_ascii_lowercase whole
            (λ s. some none)
            (λ x. [])
            []
            (codes "claude-sonnet-4"))
          (codes "claude-sonnet-4")
          resolver
        >>= λ o. ok (estimate to_ascii_lowercase whole (λ s. some none) (λ x. []) o 10 20))
calculate_cost_with_provider-sought_example =
    calculate_cost_with_provider-sought to_ascii_lowercase whole (λ s. some none) (λ x. []) []
      (codes "claude-sonnet-4") 10 20 resolver
