-- ===== src/Runtime/Registry.antt =====
-- crates/provider-runtime/src/registry.rs: the adapters in the order of their registration.
pub mod Distinct
use lnwdeck.Prelude.{
  ℕ, suc, ◌≡◌, Bool, true, false, Option, none, some, List, [], ◌∷◌, ◌++◌, map, if◌then◌else◌, any,
  find, length, Result, ok, err, ◌>>=◌, ◌>>◌, refuse,
}
use lnwdeck.Prelude.Text.{Text, text_eq}
use lnwdeck.Domain.Float.{F64}
use lnwdeck.Runtime.Descriptor.{AdapterDescriptor, Contradiction, check}
use lnwdeck.Runtime.Adapter.{ProviderAdapter}

pub data RegistryError : Type 0 where
  contradictory : Contradiction → RegistryError
  duplicate_provider_id : Text → RegistryError

-- `descriptor.check()?`
abbrev pub checked : Result Contradiction (Unit {0}) → Result RegistryError (Unit {0})
checked (ok u) = ok u
checked (err c) = err (contradictory c)

module _ (F : F64) where
  pub record AdapterRegistry : Type 0 where
    pub adapters : List (ProviderAdapter F)

  abbrev pub has_id : Text → ProviderAdapter F → Bool
  has_id id a = text_eq a.descriptor.id id

  abbrev pub new : AdapterRegistry
  new = record { adapters = [] }

  -- On an error the registry stays as it was.
  unfoldable pub register :
      AdapterRegistry → ProviderAdapter F → Result RegistryError AdapterRegistry
  unfolding check text_eq
  register registry a = do
    checked (check a.descriptor)
    refuse (any (has_id a.descriptor.id) registry.adapters) (duplicate_provider_id a.descriptor.id)
    ok (record { adapters = registry.adapters ++ a ∷ [] })

  unfoldable pub find_adapter : AdapterRegistry → Text → Option (ProviderAdapter F)
  unfolding text_eq
  find_adapter registry id = find (has_id id) registry.adapters

  -- `find` and `map` of `display_name`
  abbrev pub name_of : Option (ProviderAdapter F) → Option Text
  name_of none = none
  name_of (some a) = some a.descriptor.display_name

  unfoldable pub display_name : AdapterRegistry → Text → Option Text
  unfolding find_adapter
  display_name registry id = name_of (find_adapter registry id)

  -- `Iterator::position`
  unfoldable pub position : (ProviderAdapter F → Bool) → List (ProviderAdapter F) → Option ℕ
  position p [] = none
  position p (a ∷ rest) =
      let later = position p rest in
      if p a then some 0 else elim later [ none ↦ none | some i ↦ some (suc i) ]

  unfoldable pub rank : AdapterRegistry → Text → Option ℕ
  unfolding text_eq position
  rank registry id = position (has_id id) registry.adapters

  unfoldable pub descriptors : AdapterRegistry → List AdapterDescriptor
  descriptors registry = map (λ a. a.descriptor) registry.adapters
