-- ===== src/Application/Refresh/Cycle/Private.antt =====
-- A whole refresh keeps what is stored private.
use lnwdeck.Prelude.{ℕ, suc, length, Bool, Option, none, some, List, [], ◌∷◌, Bool-cases, inl, inr}
use lnwdeck.Prelude.Text.{Text}
use lnwdeck.Domain.Float.{F64}
use lnwdeck.Application.Refresh.{ProviderCollection}
use lnwdeck.Application.Refresh.Persist.{Library, Database, storage_failure_outcome, usage_run_row}
use lnwdeck.Application.Refresh.Persist.Private.{
  IsPrivateDatabase, add_run-IsPrivateDatabase, persist_provider-IsPrivateDatabase,
}
use lnwdeck.Application.Refresh.Cycle.{
  Turn, Cycle, turn, turns, persist_collected, execute_with_progress,
}

module _ {F : F64} (L : Library F) where
  persist_collected-IsPrivateDatabase :
      (t : Turn L) (o : Option (ProviderCollection F)) (c : Cycle L)
      → IsPrivateDatabase L c.db
      → IsPrivateDatabase L (persist_collected L t o c).db
  unfolding persist_collected
  persist_collected-IsPrivateDatabase t none c h =
      add_run-IsPrivateDatabase L t.statements.usage_run_ok
        (usage_run_row (storage_failure_outcome t.usage_at t.adapter.descriptor.id)) c.db h
  persist_collected-IsPrivateDatabase t (some collection) c h =
      persist_provider-IsPrivateDatabase L t.statements t.usage_at t.quota_at t.adapter collection
        c.db h

  turns-IsPrivateDatabase :
      (on_provider : Text → ℕ → ℕ → Bool) (total index : ℕ) (ts : List (Turn L)) (c : Cycle L)
      → IsPrivateDatabase L c.db
      → IsPrivateDatabase L (turns L on_provider total index ts c).db
  unfolding turns
  turns-IsPrivateDatabase on_provider total index [] c h = h
  turns-IsPrivateDatabase on_provider total index (t ∷ ts) c h =
      let one = persist_collected-IsPrivateDatabase t t.collection c h in
      let rest = turns-IsPrivateDatabase on_provider total (suc index) ts (turn L t c) one in
      elim (Bool-cases (on_provider t.adapter.descriptor.id (suc index) total)) [
        | inl e ↦ rw e rest
        | inr e ↦ rw e one
      ]

  -- Whatever the adapters return, whatever statements fail and wherever it is stopped, a refresh
  -- keeps the tables of usage events and of quotas private: in each text of theirs that an
  -- adapter or the hash gives, the guard finds no path, bearer token or API key, or it is empty.
  pub execute_with_progress-IsPrivateDatabase :
      (on_provider : Text → ℕ → ℕ → Bool) (ts : List (Turn L)) (db : Database F)
      → IsPrivateDatabase L db
      → IsPrivateDatabase L (execute_with_progress L on_provider ts db).db
  unfolding execute_with_progress
  execute_with_progress-IsPrivateDatabase on_provider ts db h =
      turns-IsPrivateDatabase on_provider (length ts) 0 ts
        (record { db = db; outcome = record { usage = []; quota = [] } }) h
