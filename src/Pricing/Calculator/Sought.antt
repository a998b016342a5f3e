-- ===== src/Pricing/Calculator/Sought.antt =====
-- The rates and the status of a cost come from one search.
use lnwdeck.Prelude.{
  ℕ, ◌≡◌, refl, Bool, true, false, Option, none, some, is_some, if◌then◌else◌, Result, ok, err,
  ◌>>=◌, Bool-cases, inl, inr,
}
use lnwdeck.Prelude.Text.{Text, codes, text_eq}
use lnwdeck.Domain.Float.{F64}
use lnwdeck.Pricing.Models.{Panic, normalize_model, infer_provider}
use lnwdeck.Pricing.Catalog.{ModelPricing, PriceResolver, resolve, resolve_catalog}
use lnwdeck.Pricing.Calculator.{
  CostEstimate, priced, estimated, fallback, resolve_routed, resolve_pricing, routed_price_known,
  provider_price_known, cost_of, norm_provider, calculate_cost_with_provider,
}

-- The first, or else the second.
abbrev or_else : {A : Type 0} → Option A → Result Panic (Option A) → Result Panic (Option A)
or_else (some a) second = ok (some a)
or_else none second = second

module _ (to_lowercase : Text → Text) where
  -- What the catalog has of an opencode model's own family.
  abbrev routed : Text → Text → PriceResolver → Result Panic (Option ModelPricing)
  routed provider normalized r =
      if text_eq provider (codes "opencode")
      then resolve_catalog r (infer_provider to_lowercase normalized) normalized
      else ok none

  -- The rates that are known: an override or an exact entry, then a tolerant match, then one of the
  -- routed family.
  abbrev pub sought : Text → Text → PriceResolver → Result Panic (Option ModelPricing)
  sought provider model r = or_else (resolve r provider model) (
      normalize_model to_lowercase model >>= λ normalized.
      resolve_catalog r provider normalized >>= λ tolerant.
      or_else tolerant (routed provider normalized r))

  abbrev pub or_fallback : Option ModelPricing → ModelPricing
  or_fallback (some pricing) = pricing
  or_fallback none = fallback

  resolve_routed-routed :
      (provider normalized : Text) (r : PriceResolver)
      → resolve_routed to_lowercase provider normalized r
        ≡ (routed provider normalized r >>= λ o. ok (or_fallback o))
  unfolding resolve_routed
  resolve_routed-routed provider normalized r =
      elim (Bool-cases (text_eq provider (codes "opencode"))) [
        | inl e ↦
            rw e (of_result (resolve_catalog r (infer_provider to_lowercase normalized) normalized))
        | inr e ↦ rw e refl
      ]
    where
      of_result :
          (x : Result Panic (Option ModelPricing))
          → (x >>= λ o. elim o [ some pricing ↦ ok pricing | none ↦ ok fallback ])
            ≡ (x >>= λ o. ok (or_fallback o))
      of_result (err e) = refl
      of_result (ok none) = refl
      of_result (ok (some pricing)) = refl

  routed_price_known-routed :
      (provider normalized : Text) (r : PriceResolver)
      → routed_price_known to_lowercase provider normalized r
        ≡ (routed provider normalized r >>= λ o. ok (is_some o))
  unfolding routed_price_known
  routed_price_known-routed provider normalized r =
      elim (Bool-cases (text_eq provider (codes "opencode"))) [
        | inl e ↦
            rw e (of_result (resolve_catalog r (infer_provider to_lowercase normalized) normalized))
        | inr e ↦ rw e refl
      ]
    where
      of_result :
          (x : Result Panic (Option ModelPricing))
          → (x >>= λ o. if is_some o then ok true else ok false) ≡ (x >>= λ o. ok (is_some o))
      of_result (err e) = refl
      of_result (ok none) = refl
      of_result (ok (some pricing)) = refl

  -- The three attempts in a row, and what is made of the first that finds something.
  attempts :
      {A B : Type 0} (made : Option A → B) (o : Option A) (n : Result Panic Text)
      (tolerant second : Text → Result Panic (Option A)) (last : Text → Result Panic B)
      → ((t : Text) → last t ≡ (second t >>= λ x. ok (made x)))
      → (elim o [
        | some a ↦ ok (made (some a))
        | none ↦
            n >>= λ t. tolerant t >>= λ x. elim x [ some a ↦ ok (made (some a)) | none ↦ last t ]
      ])
        ≡ (or_else o (n >>= λ t. tolerant t >>= λ x. or_else x (second t)) >>= λ x. ok (made x))
  attempts made (some a) n tolerant second last h = refl
  attempts made none (err e) tolerant second last h = refl
  attempts {A = A} made none (ok t) tolerant second last h = of_tolerant (tolerant t)
    where
      of_tolerant :
          (x : Result Panic (Option A))
          → (x >>= λ y. elim y [ some a ↦ ok (made (some a)) | none ↦ last t ])
            ≡ ((x >>= λ y. or_else y (second t)) >>= λ y. ok (made y))
      of_tolerant (err e) = refl
      of_tolerant (ok none) = h t
      of_tolerant (ok (some a)) = refl

  resolve_pricing-sought :
      (provider model : Text) (r : PriceResolver)
      → resolve_pricing to_lowercase provider model r
        ≡ (sought provider model r >>= λ o. ok (or_fallback o))
  unfolding resolve_pricing
  resolve_pricing-sought provider model r =
      attempts or_fallback (resolve r provider model) (normalize_model to_lowercase model)
        (resolve_catalog r provider) (λ t. routed provider t r)
        (λ t. resolve_routed to_lowercase provider t r) (λ t. resolve_routed-routed provider t r)

  provider_price_known-sought :
      (provider model : Text) (r : PriceResolver)
      → provider_price_known to_lowercase provider model r
        ≡ (sought provider model r >>= λ o. ok (is_some o))
  unfolding provider_price_known
  provider_price_known-sought provider model r =
      attempts is_some (resolve r provider model) (normalize_model to_lowercase model)
        (resolve_catalog r provider) (λ t. routed provider t r)
        (λ t. routed_price_known to_lowercase provider t r)
        (λ t. routed_price_known-routed provider t r)

  module _ (F : F64) (parse : Text → Option F.Carrier) (format : F.Carrier → Text) where
    -- An estimate by the rates, where some are known.
    abbrev costed : ModelPricing → Bool → ℕ → ℕ → CostEstimate
    costed pricing known tokens_input tokens_output = record {
      cost = cost_of to_lowercase F parse format pricing tokens_input tokens_output;
      status = if known then priced else estimated;
    }

    abbrev pub estimate : Option ModelPricing → ℕ → ℕ → Result Text CostEstimate
    estimate o tokens_input tokens_output =
        ok (costed (or_fallback o) (is_some o) tokens_input tokens_output)

    -- The cost of tokens and its status come from one search: the cost is by the rates that it finds, or
    -- by the fallback, and the status says which. There is no error, and a panic only in the search.
    pub calculate_cost_with_provider-sought :
        (provider model : Text) (tokens_input tokens_output : ℕ) (r : PriceResolver)
        → calculate_cost_with_provider to_lowercase F parse format provider model tokens_input
            tokens_output r
          ≡ (sought (norm_provider to_lowercase F parse format provider model) model r >>= λ o.
              ok (estimate o tokens_input tokens_output))
    unfolding calculate_cost_with_provider
    calculate_cost_with_provider-sought provider model tokens_input tokens_output r =
        let named = norm_provider to_lowercase F parse format provider model in
        rw (resolve_pricing-sought named model r, provider_price_known-sought named model r)
          (of_search (sought named model r))
      where
        made : ModelPricing → Bool → Result Panic (Result Text CostEstimate)
        made pricing known = ok (ok (costed pricing known tokens_input tokens_output))

        of_search :
            (x : Result Panic (Option ModelPricing))
            → ((x >>= λ o. ok (or_fallback o)) >>= λ pricing.
                (x >>= λ o. ok (is_some o)) >>= λ known. made pricing known)
              ≡ (x >>= λ o. ok (estimate o tokens_input tokens_output))
        of_search (err e) = refl
        of_search (ok o) = refl
