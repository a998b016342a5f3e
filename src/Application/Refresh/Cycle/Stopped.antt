-- ===== src/Application/Refresh/Cycle/Stopped.antt =====
-- A refresh that `on_provider` stops.
use lnwdeck.Prelude.{
  ℕ, suc, ◌+◌, ◌≡◌, refl, ◌∙◌, Bool, Option, none, some, List, [], ◌∷◌, ◌++◌, length, filter,
  is_some, if◌then◌else◌, arith, length-append, Bool-cases, inl, inr,
}
use lnwdeck.Prelude.Text.{Text}
use lnwdeck.Domain.Float.{F64}
use lnwdeck.Application.Refresh.{ProviderCollection}
use lnwdeck.Application.Refresh.Persist.{Library, Database}
use lnwdeck.Application.Refresh.Cycle.{
  Turn, Cycle, persist_collected, turn, turns, execute_with_progress,
}

length-snoc {ℓ} : {A : Type ℓ} (xs : List A) (x : A) → length (xs ++ x ∷ []) ≡ suc (length xs)
length-snoc xs x = length-append xs (x ∷ []) ∙ omega arith

module _ {F : F64} (L : Library F) where
  -- The turns up to the first that is answered `false`.
  abbrev pub taken_turns : (Text → ℕ → ℕ → Bool) → ℕ → ℕ → List (Turn L) → List (Turn L)
  taken_turns on_provider total index [] = []
  taken_turns on_provider total index (t ∷ ts) =
      let rest = taken_turns on_provider total (suc index) ts in
      t ∷ (if on_provider t.adapter.descriptor.id (suc index) total then rest else [])

  -- One turn after another.
  abbrev pub all_turns : List (Turn L) → Cycle L → Cycle L
  all_turns [] c = c
  all_turns (t ∷ ts) c = all_turns ts (turn L t c)

  turns-taken_turns :
      (on_provider : Text → ℕ → ℕ → Bool) (total index : ℕ) (ts : List (Turn L)) (c : Cycle L)
      → turns L on_provider total index ts c ≡ all_turns (taken_turns on_provider total index ts) c
  unfolding turns
  turns-taken_turns on_provider total index [] c = refl
  turns-taken_turns on_provider total index (t ∷ ts) c =
      let rest = turns-taken_turns on_provider total (suc index) ts (turn L t c) in
      elim (Bool-cases (on_provider t.adapter.descriptor.id (suc index) total)) [
        | inl e ↦ rw e rest
        | inr e ↦ rw e refl
      ]

  abbrev is_collected : Turn L → Bool
  is_collected t = is_some t.collection

  -- What one turn adds to the outcomes.
  length-persist_collected :
      (t : Turn L) (o : Option (ProviderCollection F)) (c : Cycle L)
      → (length (persist_collected L t o c).outcome.usage ≡ suc (length c.outcome.usage))
        × (length (persist_collected L t o c).outcome.quota
            ≡ length c.outcome.quota + (if is_some o then 1 else 0))
  unfolding persist_collected
  length-persist_collected t none c = (length-snoc c.outcome.usage _, omega arith)
  length-persist_collected t (some collection) c =
      (length-snoc c.outcome.usage _, length-snoc c.outcome.quota _ ∙ omega arith)

  length-all_turns :
      (ts : List (Turn L)) (c : Cycle L)
      → (length (all_turns ts c).outcome.usage ≡ length c.outcome.usage + length ts)
        × (length (all_turns ts c).outcome.quota
            ≡ length c.outcome.quota + length (filter is_collected ts))
  length-all_turns [] c = (omega arith, omega arith)
  length-all_turns (t ∷ ts) c =
      let later = length-all_turns ts (turn L t c) in
      let one = length-persist_collected t t.collection c in
      (omega (arith, later.0, one.0), later.1 ∙ rw one.1 counted)
    where
      counted :
          length c.outcome.quota
            + (if is_collected t then 1 else 0)
            + length (filter is_collected ts)
          ≡ length c.outcome.quota + length (filter is_collected (t ∷ ts))
      counted = ground arith

  -- A refresh runs the turns up to the first that `on_provider` answers with false, each on what the
  -- one before it left in the database. It returns a usage outcome for each of these, and a quota
  -- outcome for each whose adapter was collected.
  pub execute_with_progress-taken_turns :
      (on_provider : Text → ℕ → ℕ → Bool) (ts : List (Turn L)) (db : Database F)
      → let taken = taken_turns on_provider (length ts) 0 ts in
        let done = execute_with_progress L on_provider ts db in
        (done ≡ all_turns taken (record { db = db; outcome = record { usage = []; quota = [] } }))
        × (length done.outcome.usage ≡ length taken)
        × (length done.outcome.quota ≡ length (filter is_collected taken))
  unfolding execute_with_progress
  execute_with_progress-taken_turns on_provider ts db =
      let taken = taken_turns on_provider (length ts) 0 ts in
      let start : Cycle L = record { db = db; outcome = record { usage = []; quota = [] } } in
      let same = turns-taken_turns on_provider (length ts) 0 ts start in
      let counted = length-all_turns taken start in
      (same, rw same (counted.0 ∙ omega arith), rw same (counted.1 ∙ omega arith))
