-- ===== src/Prelude/Maps.antt =====
-- A map from texts, as an association list in which the first entry of a key counts.
use mathlib.Core.Path.{◌≡◌, refl}
use mathlib.Core.Bool.{false}
use mathlib.Core.Logic.{inl, inr}
use mathlib.Core.Option.{Option, none, some}
use mathlib.Core.List.{List, [], ◌∷◌}
use native.Mathlib.Omega.{arith}
use lnwdeck.Prelude.Tests.{if◌then◌else◌, Bool-cases}
use lnwdeck.Prelude.Text.{Text, text_eq, text_eq_sound, text_eq_refl}

module _ {ℓ} {V : Type ℓ} where
  abbrev pub unwrap_or : V → Option V → V
  unwrap_or default none = default
  unwrap_or default (some v) = v

  -- `HashMap::get`
  unfoldable pub lookup : Text → List (Text × V) → Option V
  lookup key [] = none
  lookup key ((k, v) ∷ rest) = if text_eq k key then some v else lookup key rest

  -- `entry(key).or_insert(default)`, and then `change` of the entry
  unfoldable pub upsert : Text → V → (V → V) → List (Text × V) → List (Text × V)
  upsert key default change [] = (key, change default) ∷ []
  upsert key default change ((k, v) ∷ rest) =
      let later = upsert key default change rest in
      if text_eq k key then (k, change v) ∷ rest else (k, v) ∷ later

  pub lookup-upsert :
      (key : Text) (default : V) (change : V → V) (m : List (Text × V))
      → lookup key (upsert key default change m) ≡ some (change (unwrap_or default (lookup key m)))
  unfolding lookup upsert
  lookup-upsert key default change [] = let e = text_eq_refl key in ground arith
  lookup-upsert key default change ((k, v) ∷ rest) =
      let ih = lookup-upsert key default change rest in
      elim (Bool-cases (text_eq k key)) [ inl e ↦ rw (e, e) refl | inr e ↦ rw (e, e) ih ]

  pub lookup-upsert_other :
      (key other : Text) (default : V) (change : V → V) (m : List (Text × V))
      → text_eq key other ≡ false
      → lookup other (upsert key default change m) ≡ lookup other m
  unfolding lookup upsert
  lookup-upsert_other key other default change [] h = ground arith
  lookup-upsert_other key other default change ((k, v) ∷ rest) h =
      let ih = lookup-upsert_other key other default change rest h in
      elim (Bool-cases (text_eq k key)) [
        | inl e ↦
            let same = text_eq_sound k key e in
            let apart : text_eq k other ≡ false = rw same h in rw (e, apart) refl
        | inr e ↦ rw e (ground arith)
      ]
