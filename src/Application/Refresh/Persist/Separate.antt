-- ===== src/Application/Refresh/Persist/Separate.antt =====
-- The two channels of a provider do not touch each other's tables.
use lnwdeck.Prelude.{
  ◌≡◌, refl, ap, sym, ◌∙◌, Bool, true, false, Option, none, some, Result, ok, err, Bool-cases, inl,
  inr,
}
use lnwdeck.Prelude.Text.{Text}
use lnwdeck.Domain.Float.{F64}
use lnwdeck.Domain.Usage.{UsageBatch}
use lnwdeck.Domain.Quota.{QuotaReport}
use lnwdeck.Runtime.Collection.{CollectionOutcome, QuotaCollectionOutcome}
use lnwdeck.Runtime.Adapter.{ProviderAdapter}
use lnwdeck.Security.PrivacyGuard.{PrivacyViolation}
use lnwdeck.Storage.Diagnostics.{upsert_provider_state}
use lnwdeck.Storage.Rows.{CollectorRunRow}
use lnwdeck.Application.Refresh.{ProviderCollection, Readings}
use lnwdeck.Application.Refresh.Persist.{
  Library, Statements, Database, add_run, save_cursor, store_checked, store_usage, persist_usage,
  store_report_checked, store_quota, persist_quota, persist_provider, state_row, usage_run_row,
  quota_run_row, owned, guard_batch, guard_report, normalize_usage_batch,
}
use lnwdeck.Storage.Quotas.{upsert_report}

module _ {F : F64} where
  -- The tables of the usage channel are the same, and that of the quota channel.
  abbrev SameUsage : Database F → Database F → Type 0
  SameUsage x y = (x.usage ≡ y.usage) × (x.states ≡ y.states) × (x.cursors ≡ y.cursors)

  add_run-same :
      (b : Bool) (run : CollectorRunRow) (db : Database F)
      → SameUsage (add_run b run db) db × ((add_run b run db).quotas ≡ db.quotas)
  unfolding add_run
  add_run-same true run db = ((refl, refl, refl), refl)
  add_run-same false run db = ((refl, refl, refl), refl)

  save_cursor-quotas :
      (b : Bool) (id : Text) (cursor : Option Text) (db : Database F)
      → (save_cursor b id cursor db).quotas ≡ db.quotas
  unfolding save_cursor
  save_cursor-quotas b id none db = refl
  save_cursor-quotas true id (some cursor) db = refl
  save_cursor-quotas false id (some cursor) db = refl

  store_checked-quotas :
      (b : Bool) (id : Text) (full : Bool) (batch : UsageBatch)
      (r : Result PrivacyViolation (Unit {0})) (o : CollectionOutcome) (db : Database F)
      → (store_checked b id full batch r o db).0.quotas ≡ db.quotas
  unfolding store_checked
  store_checked-quotas b id full batch (err e) o db = refl
  store_checked-quotas true id full batch (ok t) o db = refl
  store_checked-quotas false id full batch (ok t) o db = refl

module _ {F : F64} (L : Library F) where
  store_usage-quotas :
      (b : Bool) (id : Text) (c : ProviderCollection F) (batch : Option UsageBatch)
      (db : Database F)
      → (store_usage L b id c batch db).0.quotas ≡ db.quotas
  unfolding store_usage
  store_usage-quotas b id c none db = refl
  store_usage-quotas b id c (some batch) db =
      let normal = normalize_usage_batch L c.fingerprint batch in
      store_checked-quotas b id c.full_scan normal (guard_batch L normal) c.usage.outcome db

  persist_usage-quotas :
      (s : Statements) (at : Readings) (a : ProviderAdapter F) (c : ProviderCollection F)
      (db : Database F)
      → (persist_usage L s at a c db).0.quotas ≡ db.quotas
  unfolding persist_usage
  persist_usage-quotas s at a c db =
      let id = a.descriptor.id in
      let state = state_row id a.descriptor.display_name c.detection in
      let detected = record db { states = upsert_provider_state state db.states } in
      let stored = store_usage L s.usage_ok id c c.usage.batch detected in
      let saved = save_cursor s.cursor_ok id c.usage.next_cursor stored.0 in
      elim (Bool-cases s.state_ok) [
        | inl e ↦ rw e (
            (add_run-same s.usage_run_ok (usage_run_row stored.1) saved).1
            ∙ save_cursor-quotas s.cursor_ok id c.usage.next_cursor stored.0
            ∙ store_usage-quotas s.usage_ok id c c.usage.batch detected)
        | inr e ↦ rw e refl
      ]

  store_report_checked-same :
      (b : Bool) (at : Readings) (id : Text) (report : QuotaReport F)
      (r : Result PrivacyViolation (Unit {0})) (o : QuotaCollectionOutcome) (db : Database F)
      → SameUsage (store_report_checked L b at id report r o db).0 db
  unfolding store_report_checked
  store_report_checked-same b at id report (err e) o db = (refl, refl, refl)
  store_report_checked-same true at id report (ok t) o db = (refl, refl, refl)
  store_report_checked-same false at id report (ok t) o db = (refl, refl, refl)

  store_quota-same :
      (b : Bool) (at : Readings) (id : Text) (c : ProviderCollection F)
      (report : Option (QuotaReport F)) (db : Database F)
      → SameUsage (store_quota L b at id c report db).0 db
  unfolding store_quota
  store_quota-same b at id c none db = (refl, refl, refl)
  store_quota-same b at id c (some report) db =
      let own = owned c.fingerprint report in
      store_report_checked-same b at id own (guard_report L own) c.quota.outcome db

  -- What is stored of a report depends on the tables of the quotas alone.
  store_report_checked-quotas :
      (b : Bool) (at : Readings) (id : Text) (report : QuotaReport F)
      (r : Result PrivacyViolation (Unit {0})) (o : QuotaCollectionOutcome) (x y : Database F)
      → x.quotas ≡ y.quotas
      → (store_report_checked L b at id report r o x).0.quotas
        ≡ (store_report_checked L b at id report r o y).0.quotas
  unfolding store_report_checked
  store_report_checked-quotas b at id report (err e) o x y h = h
  store_report_checked-quotas true at id report (ok t) o x y h =
      ap (λ q. (upsert_report F report q).0) h
  store_report_checked-quotas false at id report (ok t) o x y h = h

  store_quota-quotas :
      (b : Bool) (at : Readings) (id : Text) (c : ProviderCollection F)
      (report : Option (QuotaReport F)) (x y : Database F)
      → x.quotas ≡ y.quotas
      → (store_quota L b at id c report x).0.quotas ≡ (store_quota L b at id c report y).0.quotas
  unfolding store_quota
  store_quota-quotas b at id c none x y h = h
  store_quota-quotas b at id c (some report) x y h =
      let own = owned c.fingerprint report in
      store_report_checked-quotas b at id own (guard_report L own) c.quota.outcome x y h

  -- Whatever statements fail, a provider's turn leaves the usage events, the states and the cursors
  -- as its usage channel alone does, and the quota reports and windows as its quota channel alone
  -- does: neither channel erases or changes what the other stores.
  pub persist_provider-same :
      (s : Statements) (u q : Readings) (a : ProviderAdapter F) (c : ProviderCollection F)
      (db : Database F)
      → let done = (persist_provider L s u q a c db).0 in
        let used = (persist_usage L s u a c db).0 in
        (done.usage ≡ used.usage)
        × (done.states ≡ used.states)
        × (done.cursors ≡ used.cursors)
        × (done.quotas ≡ (persist_quota L s q a c db).0.quotas)
  unfolding persist_provider persist_quota
  persist_provider-same s u q a c db =
      let id = a.descriptor.id in
      let used = (persist_usage L s u a c db).0 in
      let kept = store_quota-same s.quota_ok q id c c.quota.report used in
      let ran = λ (x : Database F).
        add_run-same s.quota_run_ok
          (quota_run_row (store_quota L s.quota_ok q id c c.quota.report x).1)
          (store_quota L s.quota_ok q id c c.quota.report x).0 in
      let same =
        store_quota-quotas s.quota_ok q id c c.quota.report used db
          (persist_usage-quotas s u a c db) in
      (
        (ran used).0.0 ∙ kept.0,
        (ran used).0.1 ∙ kept.1,
        (ran used).0.2 ∙ kept.2,
        (ran used).1 ∙ same ∙ sym (ran db).1,
      )
