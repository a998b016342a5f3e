-- ===== src/Pricing/Catalog/Nearest.antt =====
-- Which model of a provider a name is priced by.
use lnwdeck.Prelude.{
  ℕ, ◌≤◌, ◌≡◌, ◌⊎◌, refl, sym, ap, ◌∙◌, Bool, true, false, not, Option, none, some, [], ◌∷◌, ◌++◌,
  if◌then◌else◌, ltb, ok, inl, inr, arith, ok_injective, bind-ok,
}
use mathlib.Core.Option.{some-injective}
use lnwdeck.Prelude.Text.{
  Text, codes, len, strip_prefix, strip_prefix_sound, strip_prefix-append, contains,
}
use lnwdeck.Prelude.Maps.{lookup}
use lnwdeck.Pricing.Models.{strip_date_suffix}
use lnwdeck.Pricing.Catalog.{
  ModelPricing, Models, PriceResolver, is_better, offer, nearest, resolve_family, or_family,
  or_stripped, resolve_among, resolve_catalog,
}

-- The entry stands in the map.
abbrev Entry : Text → ModelPricing → Models → Type 0
Entry key pricing [] = ⊥
Entry key pricing ((k, p) ∷ models) = ((key ≡ k) × (pricing ≡ p)) ⊎ Entry key pricing models

-- No key that continues the prefix continues it by fewer bytes.
abbrev pub IsShortest : Text → ℕ → Models → Type 0
IsShortest prefix n [] = Unit
IsShortest prefix n ((k, p) ∷ models) =
    ((rest : Text) → k ≡ prefix ++ rest → n ≤ len rest) × IsShortest prefix n models

-- The best so far is no less.
abbrev IsBelow : ℕ → Option (ℕ × ModelPricing) → Type 0
IsBelow n none = Unit
IsBelow n (some (m, q)) = n ≤ m

offer-IsBelow :
    (o : Option Text) (pricing : ModelPricing) (best : Option (ℕ × ModelPricing)) (n : ℕ)
    → IsBelow n (offer o pricing best)
    → IsBelow n best × ((rest : Text) → o ≡ some rest → n ≤ len rest)
unfolding offer is_better
offer-IsBelow none pricing best n h = (h, λ rest e. absurd (cc e))
offer-IsBelow (some r) pricing none n h = (tt, λ rest e. rw (sym (some-injective r rest e)) h)
offer-IsBelow (some r) pricing (some (m, q)) n h = by_test (ltb (len r) m) refl h
  where
    at_rest : n ≤ len r → (rest : Text) → some r ≡ some rest → n ≤ len rest
    at_rest k rest e = rw (sym (some-injective r rest e)) k

    by_test :
        (b : Bool)
        → ltb (len r) m ≡ b
        → IsBelow n (if b then some (len r, pricing) else some (m, q))
        → (n ≤ m) × ((rest : Text) → some r ≡ some rest → n ≤ len rest)
    by_test true e k = (ground arith, at_rest k)
    by_test false e k = (k, at_rest (ground arith))

-- What is best after an offer was best before it, or is the offer.
offer-some :
    (o : Option Text) (pricing : ModelPricing) (best : Option (ℕ × ModelPricing)) (n : ℕ)
    (p : ModelPricing)
    → offer o pricing best ≡ some (n, p)
    → (best ≡ some (n, p)) ⊎ ((rest : Text) × (o ≡ some rest) × (pricing ≡ p) × (n ≡ len rest))
unfolding offer
offer-some none pricing best n p h = inl h
offer-some (some r) pricing best n p h = by_test (is_better r best) h
  where
    by_test :
        (b : Bool)
        → (if b then some (len r, pricing) else best) ≡ some (n, p)
        → (best ≡ some (n, p))
          ⊎ ((rest : Text) × (some r ≡ some rest) × (pricing ≡ p) × (n ≡ len rest))
    by_test true e =
        let same = some-injective (len r, pricing) (n, p) e in
        inr (r, refl, ap (λ x. x.1) same, sym (ap (λ x. x.0) same))
    by_test false e = inl e

-- The best of a map is the best before it, or it is an entry whose key continues the prefix; and none
-- continues it by fewer bytes.
nearest-some :
    (prefix : Text) (models : Models) (best : Option (ℕ × ModelPricing)) (n : ℕ) (p : ModelPricing)
    → nearest prefix models best ≡ some (n, p)
    → ((best ≡ some (n, p)) ⊎ ((rest : Text) × Entry (prefix ++ rest) p models × (n ≡ len rest)))
      × IsShortest prefix n models
      × IsBelow n best
unfolding nearest
nearest-some prefix [] best n p h = (inl h, tt, rw h (omega arith))
nearest-some prefix ((k, q) ∷ models) best n p h =
    let offered = strip_prefix prefix k in
    let (from, shortest, below) = nearest-some prefix models (offer offered q best) n p h in
    let (before, here) = offer-IsBelow offered q best n below in
    (
      by_source from,
      (
        λ rest split. here rest (ap (strip_prefix prefix) split ∙ strip_prefix-append prefix rest),
        shortest,
      ),
      before,
    )
  where
    at_head :
        (rest : Text)
        → strip_prefix prefix k ≡ some rest
        → q ≡ p
        → n ≡ len rest
        → (rest : Text) × Entry (prefix ++ rest) p ((k, q) ∷ models) × (n ≡ len rest)
    at_head rest e same counted =
        (rest, inl (sym (strip_prefix_sound prefix k rest e), sym same), counted)

    by_source :
        (offer (strip_prefix prefix k) q best ≡ some (n, p))
          ⊎ ((rest : Text) × Entry (prefix ++ rest) p models × (n ≡ len rest))
        → (best ≡ some (n, p))
          ⊎ ((rest : Text) × Entry (prefix ++ rest) p ((k, q) ∷ models) × (n ≡ len rest))
    by_source (inr (rest, entry, counted)) = inr (rest, inr entry, counted)
    by_source (inl e) = elim (offer-some (strip_prefix prefix k) q best n p e) [
      | inl was ↦ inl was
      | inr (rest, found, same, counted) ↦ inr (at_head rest found same counted)
    ]

-- How a name that is not exact comes to a price: without its date suffix, or, where it has a dash, by
-- the entry that continues it with a dash and the fewest bytes.
abbrev pub IsOfFamily : Text → ModelPricing → Models → Type 0
IsOfFamily model pricing models =
    (contains (codes "-") model ≡ true)
    × ((rest : Text) × Entry (model ++ codes "-" ++ rest) pricing models
        × IsShortest (model ++ codes "-") (len rest) models)

resolve_family-IsOfFamily :
    (model : Text) (models : Models) (pricing : ModelPricing)
    → resolve_family model models ≡ some pricing
    → IsOfFamily model pricing models
unfolding resolve_family
resolve_family-IsOfFamily model models pricing h = by_dash (contains (codes "-") model) refl h
  where
    by_best :
        (o : Option (ℕ × ModelPricing))
        → nearest (model ++ codes "-") models none ≡ o
        → (elim o [ some (n, p) ↦ some p | none ↦ none ]) ≡ some pricing
        → (rest : Text) × Entry (model ++ codes "-" ++ rest) pricing models
          × IsShortest (model ++ codes "-") (len rest) models
    by_best none e k = cc
    by_best (some (n, p)) e k =
        let (from, shortest, below) = nearest-some (model ++ codes "-") models none n p e in
        let same = some-injective p pricing k in
        elim from [
          | inl nothing ↦ absurd (cc nothing)
          | inr (rest, entry, counted) ↦ (rest, rw (sym same) entry, rw (sym counted) shortest)
        ]

    by_dash :
        (b : Bool)
        → contains (codes "-") model ≡ b
        → (if not b then none else elim (nearest (model ++ codes "-") models none) [
          | some (n, p) ↦ some p
          | none ↦ none
        ])
          ≡ some pricing
        → IsOfFamily model pricing models
    by_dash true e k = (e, by_best (nearest (model ++ codes "-") models none) refl k)
    by_dash false e k = cc

abbrev pub IsPricedBy : Text → ModelPricing → Models → Type 0
IsPricedBy model pricing models =
    (lookup model models ≡ some pricing)
    ⊎ (((stripped : Text) × (strip_date_suffix model ≡ ok stripped)
          × (lookup stripped models ≡ some pricing))
        ⊎ IsOfFamily model pricing models)

or_family-some :
    (model : Text) (models : Models) (o : Option ModelPricing) (pricing : ModelPricing)
    → or_family model models o ≡ some pricing
    → (o ≡ some pricing) ⊎ IsOfFamily model pricing models
unfolding or_family
or_family-some model models (some p) pricing h = inl h
or_family-some model models none pricing h = inr (resolve_family-IsOfFamily model models pricing h)

or_stripped-some :
    (model : Text) (models : Models) (o : Option ModelPricing) (pricing : ModelPricing)
    → lookup model models ≡ o
    → or_stripped model models o ≡ ok (some pricing)
    → IsPricedBy model pricing models
unfolding or_stripped
or_stripped-some model models (some p) pricing e h = inl (e ∙ ok_injective h)
or_stripped-some model models none pricing e h =
    let (stripped, s, found) =
      bind-ok (strip_date_suffix model) (λ x. ok (or_family model models (lookup x models))) h in
    elim (or_family-some model models (lookup stripped models) pricing (ok_injective found)) [
      | inl exact ↦ inr (inl (stripped, s, exact))
      | inr family ↦ inr (inr family)
    ]

-- A price of a provider's catalog is that of the name itself, or of the name without its date suffix,
-- or of the entry of the name's family with the shortest key.
pub resolve_catalog-some :
    (r : PriceResolver) (provider model : Text) (pricing : ModelPricing)
    → resolve_catalog r provider model ≡ ok (some pricing)
    → (models : Models) × (lookup provider r.catalog ≡ some models)
      × IsPricedBy model pricing models
unfolding resolve_catalog
resolve_catalog-some r provider model pricing h = of_models (lookup provider r.catalog) refl h
  where
    of_models :
        (o : Option Models)
        → lookup provider r.catalog ≡ o
        → resolve_among model o ≡ ok (some pricing)
        → (models : Models) × (lookup provider r.catalog ≡ some models)
          × IsPricedBy model pricing models
    of_models none e k = absurd (cc (ok_injective k))
    of_models (some models) e k =
        (models, e, or_stripped-some model models (lookup model models) pricing refl k)
