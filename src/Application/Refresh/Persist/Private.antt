-- ===== src/Application/Refresh/Persist/Private.antt =====
-- What a refresh stores of usage events and of quotas is private: each text is empty, or the privacy
-- guard finds nothing in it.
use lnwdeck.Prelude.{
  ◌≡◌, refl, Bool, true, false, Option, none, some, Result, ok, err, Bool-cases, inl, inr, All,
}
use lnwdeck.Prelude.Text.{Text}
use lnwdeck.Domain.Float.{F64}
use lnwdeck.Domain.Usage.{UsageBatch}
use lnwdeck.Domain.Quota.{QuotaReport}
use lnwdeck.Runtime.Collection.{CollectionOutcome, QuotaCollectionOutcome}
use lnwdeck.Runtime.Adapter.{ProviderAdapter}
use lnwdeck.Security.PrivacyGuard.{PrivacyViolation}
use lnwdeck.Security.PrivacyGuard.Passed.{
  validate_usage_batch-IsPrivateEvent, validate_quota_report-IsPrivateReport,
}
use lnwdeck.Storage.Diagnostics.{upsert_provider_state}
use lnwdeck.Storage.Rows.{CollectorRunRow}
use lnwdeck.Application.Refresh.{ProviderCollection, Readings}
use lnwdeck.Application.Refresh.Persist.{
  Library, Statements, Database, add_run, save_cursor, store_checked, store_usage, persist_usage,
  store_report_checked, store_quota, persist_quota, persist_provider, state_row, usage_run_row,
  quota_run_row, owned, guard_batch, guard_report, normalize_usage_batch,
}
use lnwdeck.Application.Refresh.Persist.Rows.{
  IsPrivateRow, IsPrivateQuotas, ingestion-IsPrivateRow, upsert_report-IsPrivateQuotas,
}

module _ {F : F64} (L : Library F) where
  abbrev pub IsPrivateDatabase : Database F → Type 0
  IsPrivateDatabase db = All (IsPrivateRow L) db.usage × IsPrivateQuotas L db.quotas

  pub add_run-IsPrivateDatabase :
      (b : Bool) (run : CollectorRunRow) (db : Database F)
      → IsPrivateDatabase db
      → IsPrivateDatabase (add_run b run db)
  unfolding add_run
  add_run-IsPrivateDatabase true run db h = h
  add_run-IsPrivateDatabase false run db h = h

  save_cursor-IsPrivateDatabase :
      (b : Bool) (id : Text) (cursor : Option Text) (db : Database F)
      → IsPrivateDatabase db
      → IsPrivateDatabase (save_cursor b id cursor db)
  unfolding save_cursor
  save_cursor-IsPrivateDatabase b id none db h = h
  save_cursor-IsPrivateDatabase true id (some cursor) db h = h
  save_cursor-IsPrivateDatabase false id (some cursor) db h = h

  store_checked-IsPrivateDatabase :
      (b : Bool) (id : Text) (full : Bool) (batch : UsageBatch)
      (r : Result PrivacyViolation (Unit {0})) (o : CollectionOutcome) (db : Database F)
      → guard_batch L batch ≡ r
      → IsPrivateDatabase db
      → IsPrivateDatabase (store_checked b id full batch r o db).0
  unfolding store_checked guard_batch
  store_checked-IsPrivateDatabase b id full batch (err e) o db g h = h
  store_checked-IsPrivateDatabase false id full batch (ok _) o db g h = h
  store_checked-IsPrivateDatabase true id full batch (ok _) o db g h =
      let passed =
        validate_usage_batch-IsPrivateEvent F L.is_finite L.rfc3339 L.to_lowercase L.to_uppercase
          batch g in
      (ingestion-IsPrivateRow L id full batch db.usage passed.0 passed.1 h.0, h.1)

  store_usage-IsPrivateDatabase :
      (b : Bool) (id : Text) (c : ProviderCollection F) (batch : Option UsageBatch)
      (db : Database F)
      → IsPrivateDatabase db
      → IsPrivateDatabase (store_usage L b id c batch db).0
  unfolding store_usage
  store_usage-IsPrivateDatabase b id c none db h = h
  store_usage-IsPrivateDatabase b id c (some batch) db h =
      let normal = normalize_usage_batch L c.fingerprint batch in
      store_checked-IsPrivateDatabase b id c.full_scan normal (guard_batch L normal) c.usage.outcome
        db refl h

  persist_usage-IsPrivateDatabase :
      (s : Statements) (at : Readings) (a : ProviderAdapter F) (c : ProviderCollection F)
      (db : Database F)
      → IsPrivateDatabase db
      → IsPrivateDatabase (persist_usage L s at a c db).0
  unfolding persist_usage
  persist_usage-IsPrivateDatabase s at a c db h =
      let id = a.descriptor.id in
      let state = state_row id a.descriptor.display_name c.detection in
      let detected = record db { states = upsert_provider_state state db.states } in
      let stored = store_usage L s.usage_ok id c c.usage.batch detected in
      let saved = save_cursor s.cursor_ok id c.usage.next_cursor stored.0 in
      let kept = store_usage-IsPrivateDatabase s.usage_ok id c c.usage.batch detected h in
      elim (Bool-cases s.state_ok) [
        | inl e ↦ rw e (
            add_run-IsPrivateDatabase s.usage_run_ok (usage_run_row stored.1) saved
              (save_cursor-IsPrivateDatabase s.cursor_ok id c.usage.next_cursor stored.0 kept))
        | inr e ↦ rw e h
      ]

  store_report_checked-IsPrivateDatabase :
      (b : Bool) (at : Readings) (id : Text) (report : QuotaReport F)
      (r : Result PrivacyViolation (Unit {0})) (o : QuotaCollectionOutcome) (db : Database F)
      → guard_report L report ≡ r
      → IsPrivateDatabase db
      → IsPrivateDatabase (store_report_checked L b at id report r o db).0
  unfolding store_report_checked guard_report
  store_report_checked-IsPrivateDatabase b at id report (err e) o db g h = h
  store_report_checked-IsPrivateDatabase false at id report (ok _) o db g h = h
  store_report_checked-IsPrivateDatabase true at id report (ok _) o db g h =
      let passed =
        validate_quota_report-IsPrivateReport F L.is_finite L.rfc3339 L.to_lowercase L.to_uppercase
          report g in
      (h.0, upsert_report-IsPrivateQuotas L report db.quotas passed h.1)

  store_quota-IsPrivateDatabase :
      (b : Bool) (at : Readings) (id : Text) (c : ProviderCollection F)
      (report : Option (QuotaReport F)) (db : Database F)
      → IsPrivateDatabase db
      → IsPrivateDatabase (store_quota L b at id c report db).0
  unfolding store_quota
  store_quota-IsPrivateDatabase b at id c none db h = h
  store_quota-IsPrivateDatabase b at id c (some report) db h =
      let own = owned c.fingerprint report in
      store_report_checked-IsPrivateDatabase b at id own (guard_report L own) c.quota.outcome db
        refl h

  pub persist_provider-IsPrivateDatabase :
      (s : Statements) (u q : Readings) (a : ProviderAdapter F) (c : ProviderCollection F)
      (db : Database F)
      → IsPrivateDatabase db
      → IsPrivateDatabase (persist_provider L s u q a c db).0
  unfolding persist_provider persist_quota
  persist_provider-IsPrivateDatabase s u q a c db h =
      let id = a.descriptor.id in
      let used = (persist_usage L s u a c db).0 in
      let stored = store_quota L s.quota_ok q id c c.quota.report used in
      add_run-IsPrivateDatabase s.quota_run_ok (quota_run_row stored.1) stored.0 (
        store_quota-IsPrivateDatabase s.quota_ok q id c c.quota.report used
          (persist_usage-IsPrivateDatabase s u a c db h))
