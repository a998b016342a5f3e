-- ===== src/Runtime/Scheduler/Triggered.antt =====
-- Which adapter a trigger by hand is about.
use lnwdeck.Prelude.{Bool, ◌≡◌, refl, none, some, List, [], ◌∷◌, find, Bool-cases, inl, inr, Option}
use lnwdeck.Prelude.Text.{Text, text_eq}
use lnwdeck.Domain.Float.{F64}
use lnwdeck.Runtime.Adapter.{ProviderAdapter}
use lnwdeck.Runtime.Registry.{find_adapter, has_id}
use lnwdeck.Runtime.Scheduler.{AdaptiveScheduler, trigger, trigger_manual, is_adapter_permitted}

module _ (F : F64) where
  -- Whether the adapter that was found has each permission it requires.
  abbrev pub permitted : AdaptiveScheduler F → Option (ProviderAdapter F) → Option Bool
  permitted s none = none
  permitted s (some a) = some (is_adapter_permitted F s a)

  trigger-find :
      (s : AdaptiveScheduler F) (id : Text) (adapters : List (ProviderAdapter F))
      → trigger F s adapters id ≡ permitted s (find (has_id F id) adapters)
  unfolding trigger
  trigger-find s id [] = refl
  trigger-find s id (x ∷ rest) =
      let ih = trigger-find s id rest in
      elim (Bool-cases (text_eq x.descriptor.id id)) [
        | inl e ↦ elim (Bool-cases (is_adapter_permitted F s x)) [
          | inl y ↦ rw (e, y) refl
          | inr n ↦ rw (e, n) refl
        ]
        | inr e ↦ rw e ih
      ]

  -- A trigger answers for the adapter that the registry finds, and says whether it has each
  -- permission it requires; with no such adapter there is no answer.
  pub trigger_manual-find_adapter :
      (s : AdaptiveScheduler F) (id : Text)
      → trigger_manual F s id ≡ permitted s (find_adapter F s.registry id)
  unfolding trigger_manual find_adapter
  trigger_manual-find_adapter s id = trigger-find s id s.registry.adapters
