-- ===== src/Pricing/Calculator.antt =====
-- crates/pricing/src/calculator.rs. `str::to_lowercase`, the parser of floats and the format with six
-- decimals are parameters.
pub mod Sought
use lnwdeck.Prelude.{
  ℕ, Bool, true, false, not, Option, none, some, is_some, is_nil, [], if◌then◌else◌, Result, ok,
  err, ◌>>=◌,
}
use lnwdeck.Prelude.Text.{Text, codes, text_eq}
use lnwdeck.Domain.Float.{F64}
use lnwdeck.Pricing.Models.{Panic, normalize_model, normalize_provider_id, infer_provider}
use lnwdeck.Pricing.Catalog.{ModelPricing, PriceResolver, resolve, resolve_catalog}

pub data PricingStatus : Type 0 where
  priced estimated : PricingStatus

pub record CostEstimate : Type 0 where
  pub cost : Text
  pub status : PricingStatus

-- `FALLBACK_INPUT_PER_1K`, `FALLBACK_OUTPUT_PER_1K`
abbrev pub fallback : ModelPricing
fallback = record { input_per_1k = codes "0.002500"; output_per_1k = codes "0.010000" }

module _ (to_lowercase : Text → Text) where
  -- The attempt with the routed model's family.
  unfoldable pub resolve_routed : Text → Text → PriceResolver → Result Panic ModelPricing
  unfolding text_eq infer_provider resolve_catalog
  resolve_routed provider normalized r =
      if text_eq provider (codes "opencode")
      then (resolve_catalog r (infer_provider to_lowercase normalized) normalized >>= λ routed.
          elim routed [ some pricing ↦ ok pricing | none ↦ ok fallback ])
      else ok fallback

  unfoldable pub resolve_pricing : Text → Text → PriceResolver → Result Panic ModelPricing
  unfolding resolve normalize_model resolve_catalog resolve_routed
  resolve_pricing provider model r = elim (resolve r provider model) [
    | some pricing ↦ ok pricing
    | none ↦ do
      normalized ← normalize_model to_lowercase model
      tolerant ← resolve_catalog r provider normalized
      elim tolerant [ some pricing ↦ ok pricing | none ↦ resolve_routed provider normalized r ]
  ]

  unfoldable pub routed_price_known : Text → Text → PriceResolver → Result Panic Bool
  unfolding text_eq infer_provider resolve_catalog
  routed_price_known provider normalized r =
      if text_eq provider (codes "opencode")
      then (resolve_catalog r (infer_provider to_lowercase normalized) normalized >>= λ routed.
          if is_some routed then ok true else ok false)
      else ok false

  unfoldable pub provider_price_known : Text → Text → PriceResolver → Result Panic Bool
  unfolding resolve normalize_model resolve_catalog routed_price_known
  provider_price_known provider model r = elim (resolve r provider model) [
    | some pricing ↦ ok true
    | none ↦ do
      normalized ← normalize_model to_lowercase model
      tolerant ← resolve_catalog r provider normalized
      elim tolerant [ some pricing ↦ ok true | none ↦ routed_price_known provider normalized r ]
  ]

  module _ (F : F64) (parse : Text → Option F.Carrier) (format : F.Carrier → Text) where
    unfoldable pub decimal_from_str : Text → F.Carrier
    decimal_from_str s = elim (parse s) [ some x ↦ x | none ↦ F.nought ]

    -- `input_cost + output_cost`, with six decimals
    unfoldable pub cost_of : ModelPricing → ℕ → ℕ → Text
    unfolding decimal_from_str
    cost_of pricing tokens_input tokens_output =
        let part = λ (rate : Text) (tokens : ℕ).
          F.div (F.mul (decimal_from_str rate) (F.of_u64 tokens)) (F.of_u64 1000) in
        format (
          F.add (part pricing.input_per_1k tokens_input) (part pricing.output_per_1k tokens_output))

    unfoldable pub norm_provider : Text → Text → Text
    unfolding normalize_provider_id infer_provider
    norm_provider provider model =
        if not (is_nil provider)
        then normalize_provider_id to_lowercase provider
        else infer_provider to_lowercase model

    unfoldable pub calculate_cost_with_provider :
        Text → Text → ℕ → ℕ → PriceResolver → Result Panic (Result Text CostEstimate)
    unfolding norm_provider resolve_pricing provider_price_known cost_of
    calculate_cost_with_provider provider model tokens_input tokens_output r = do
      pricing ← resolve_pricing (norm_provider provider model) model r
      known ← provider_price_known (norm_provider provider model) model r
      ok (
          ok (record {
            cost = cost_of pricing tokens_input tokens_output;
            status = if known then priced else estimated;
          }))

    unfoldable pub calculate_cost :
        Text → ℕ → ℕ → PriceResolver → Result Panic (Result Text CostEstimate)
    unfolding calculate_cost_with_provider
    calculate_cost model tokens_input tokens_output r =
        calculate_cost_with_provider [] model tokens_input tokens_output r
