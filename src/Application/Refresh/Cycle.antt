-- ===== src/Application/Refresh/Cycle.antt =====
-- The loop of `execute_with_progress_and_hash_key` of crates/application/src/refresh.rs, over the
-- adapters with what was collected of them. `on_provider` is a function of its arguments: since
-- the index is another at each call, it can be any sequence of answers.
pub mod Stopped
pub mod Private
use lnwdeck.Prelude.{
  ℕ, suc, ◌+◌, Bool, true, false, Option, none, some, List, [], ◌∷◌, ◌++◌, length, if◌then◌else◌,
}
use lnwdeck.Prelude.Text.{Text}
use lnwdeck.Domain.Float.{F64}
use lnwdeck.Runtime.Collection.{CollectionOutcome, QuotaCollectionOutcome}
use lnwdeck.Runtime.Adapter.{ProviderAdapter}
use lnwdeck.Application.Refresh.{ProviderCollection, Readings}
use lnwdeck.Application.Refresh.Persist.{
  Library, Statements, Database, storage_failure_outcome, usage_run_row, add_run, persist_provider,
}

pub record RefreshCycleOutcome : Type 0 where
  pub usage : List CollectionOutcome
  pub quota : List QuotaCollectionOutcome

module _ {F : F64} (L : Library F) where
  -- An adapter, what was collected of it, and what its turn reads and finds.
  pub record Turn : Type 0 where
    pub adapter : ProviderAdapter F
    pub collection : Option (ProviderCollection F)
    pub statements : Statements
    pub usage_at : Readings
    pub quota_at : Readings

  pub record Cycle : Type 0 where
    pub db : Database F
    pub outcome : RefreshCycleOutcome

  -- The `match` on the collection, and the two `extend`s.
  unfoldable pub persist_collected : Turn → Option (ProviderCollection F) → Cycle → Cycle
  unfolding persist_provider storage_failure_outcome usage_run_row add_run
  persist_collected t (some collection) c =
      let (db, usage, quota) =
        persist_provider L t.statements t.usage_at t.quota_at t.adapter collection c.db in
      record {
        db = db;
        outcome = record {
          usage = c.outcome.usage ++ usage ∷ [];
          quota = c.outcome.quota ++ quota ∷ [];
        };
      }
  persist_collected t none c =
      let outcome = storage_failure_outcome t.usage_at t.adapter.descriptor.id in
      record {
        db = add_run t.statements.usage_run_ok (usage_run_row outcome) c.db;
        outcome = record c.outcome { usage = c.outcome.usage ++ outcome ∷ [] };
      }

  abbrev pub turn : Turn → Cycle → Cycle
  turn t c = persist_collected t t.collection c

  module _ (on_provider : Text → ℕ → ℕ → Bool) (total : ℕ) where
    unfoldable pub turns : ℕ → List Turn → Cycle → Cycle
    unfolding persist_collected
    turns index [] c = c
    turns index (t ∷ ts) c =
        let done = turn t c in
        let rest = turns (suc index) ts done in
        if on_provider t.adapter.descriptor.id (suc index) total then rest else done

  unfoldable pub execute_with_progress : (Text → ℕ → ℕ → Bool) → List Turn → Database F → Cycle
  unfolding turns
  execute_with_progress on_provider ts db =
      turns on_provider (length ts) 0 ts
        (record { db = db; outcome = record { usage = []; quota = [] } })
