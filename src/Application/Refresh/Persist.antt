-- ===== src/Application/Refresh/Persist.antt =====
-- What crates/application/src/refresh.rs does with a collection: `persist_usage`, `persist_quota`,
-- `persist_provider`, and the cycle over the adapters. A statement of the database may fail; which
-- do is an argument, and one that fails changes nothing. `Private` is about what is stored,
-- `Separate` about the two channels.
pub mod Rows
pub mod Private
pub mod Separate
use lnwdeck.Prelude.{
  ℕ, suc, ◌+◌, Bool, true, false, Option, none, some, List, [], ◌∷◌, ◌++◌, map, length, is_nil,
  if◌then◌else◌, Result, ok, err,
}
use lnwdeck.Prelude.Text.{Text, codes, text_eq, utf8, trim}
use lnwdeck.Domain.Float.{F64}
use lnwdeck.Domain.Usage.{Instant, UsageEvent, UsageBatch}
use lnwdeck.Domain.Quota.{QuotaReport}
use lnwdeck.Runtime.Descriptor.{DetectionResult}
use lnwdeck.Runtime.Collection.{CollectionOutcome, QuotaCollectionOutcome, failure, quota_failure}
use lnwdeck.Runtime.Adapter.{ProviderAdapter}
use lnwdeck.Security.PrivacyGuard.{PrivacyViolation}
use lnwdeck.Security.PrivacyGuard.Batches.{validate_usage_batch, validate_quota_report}
use lnwdeck.Storage.Rows.{ProviderStateRow, CollectorRunRow}
use lnwdeck.Storage.Diagnostics.{upsert_provider_state, insert_collector_run, upsert_cursor}
use lnwdeck.Storage.Usage.{UsageRow, Ingestion, ingest_batch_with_counts, replace_provider_batch}
use lnwdeck.Storage.Quotas.{QuotaTables, upsert_report}
use lnwdeck.Application.Refresh.{ProviderCollection, Readings}
pub use lnwdeck.Application.Refresh.Stored.{Library, Statements, Database}
unfoldable pub use lnwdeck.Application.Refresh.Stored.{
  state_row, usage_run_row, quota_run_row, add_run, save_cursor,
}

-- What `persist_usage` does with a batch that passed the guard.
unfoldable pub full_scan_sources : Text → Text × Text
unfolding text_eq
full_scan_sources id =
    if text_eq id (codes "openai_codex")
    then (codes "local_jsonl_v2", codes "local_jsonl")
    else (codes "opencode_db", codes "opencode_db")

unfoldable pub ingestion : Text → Bool → UsageBatch → List UsageRow → Ingestion
unfolding full_scan_sources ingest_batch_with_counts replace_provider_batch
ingestion id full_scan batch rows =
    if full_scan
    then replace_provider_batch batch id (full_scan_sources id).0 (full_scan_sources id).1 rows
    else ingest_batch_with_counts batch rows

unfoldable pub storage_failure_outcome : Readings → Text → CollectionOutcome
unfolding failure
storage_failure_outcome at id =
    failure at.finished at.now id (codes "passive_scan") at.started (codes "STORAGE_FAILURE")

module _ {F : F64} where
  -- The `match` on what the guard says of the batch.
  unfoldable pub store_checked :
      Bool
      → Text
      → Bool
      → UsageBatch
      → Result PrivacyViolation (Unit {0})
      → CollectionOutcome
      → Database F
      → Database F × CollectionOutcome
  unfolding ingestion
  store_checked succeeds id full_scan batch (err violation) o db = (
    db,
    record o { events_rejected = length batch.events; error_code = codes "PRIVACY_VIOLATION" },
  )
  store_checked succeeds id full_scan batch (ok _) o db =
      let done = ingestion id full_scan batch db.usage in
      if succeeds
      then (
        record db { usage = done.rows },
        record o { events_inserted = done.inserted; duplicates_skipped = done.duplicates },
      )
      else (db, record o { error_code = codes "STORAGE_FAILURE" })

-- `report.account_fingerprint = collection.fingerprint.clone()`
abbrev pub owned : {F : F64} → Option Text → QuotaReport F → QuotaReport F
owned fingerprint report = record report { account_fingerprint = fingerprint }

module _ {F : F64} (L : Library F) where
  -- `account_fingerprint` with a key that is not empty.
  unfoldable pub fingerprint_of : Text → List ℕ → Option Text → Option Text
  unfolding utf8 trim
  fingerprint_of id hash_key none = none
  fingerprint_of id hash_key (some identity) =
      let trimmed = trim identity in
      if is_nil trimmed
      then none
      else some (L.hash hash_key (utf8 (codes "account|" ++ id ++ codes "|" ++ trimmed)))

  unfoldable pub account_fingerprint : ProviderAdapter F → List ℕ → Option Text
  unfolding fingerprint_of
  account_fingerprint a hash_key =
      if is_nil hash_key then none else fingerprint_of a.descriptor.id hash_key a.account_identity

  unfoldable pub normalize_event : Text → UsageEvent → UsageEvent
  unfolding utf8
  normalize_event fingerprint e = record e {
    id = L.hash (utf8 fingerprint) (utf8 (codes "event|" ++ e.provider_id ++ codes "|" ++ e.id));
    account_fingerprint = some fingerprint;
  }

  unfoldable pub normalize_usage_batch : Option Text → UsageBatch → UsageBatch
  unfolding normalize_event
  normalize_usage_batch none batch = batch
  normalize_usage_batch (some fingerprint) batch = record batch {
    events = map (normalize_event fingerprint) batch.events;
  }

  -- The calls of the guard.
  unfoldable pub guard_batch : UsageBatch → Result PrivacyViolation (Unit {0})
  unfolding validate_usage_batch
  guard_batch = validate_usage_batch F L.is_finite L.rfc3339 L.to_lowercase L.to_uppercase

  unfoldable pub guard_report : QuotaReport F → Result PrivacyViolation (Unit {0})
  unfolding validate_quota_report
  guard_report = validate_quota_report F L.is_finite L.rfc3339 L.to_lowercase L.to_uppercase

  -- `if let Some(mut batch) = result.batch.take()`
  unfoldable pub store_usage :
      Bool
      → Text
      → ProviderCollection F
      → Option UsageBatch
      → Database F
      → Database F × CollectionOutcome
  unfolding store_checked normalize_usage_batch
  store_usage succeeds id c none db = (db, c.usage.outcome)
  store_usage succeeds id c (some batch) db =
      let normal = normalize_usage_batch c.fingerprint batch in
      store_checked succeeds id c.full_scan normal (guard_batch normal) c.usage.outcome db

  unfoldable pub persist_usage :
      Statements
      → Readings
      → ProviderAdapter F
      → ProviderCollection F
      → Database F
      → Database F × CollectionOutcome
  unfolding state_row usage_run_row store_usage save_cursor add_run upsert_provider_state
      storage_failure_outcome
  persist_usage s at a c db =
      let id = a.descriptor.id in
      let state = state_row id a.descriptor.display_name c.detection in
      let detected = record db { states = upsert_provider_state state db.states } in
      let (stored, outcome) = store_usage s.usage_ok id c c.usage.batch detected in
      let saved = save_cursor s.cursor_ok id c.usage.next_cursor stored in
      if s.state_ok
      then (add_run s.usage_run_ok (usage_run_row outcome) saved, outcome)
      else (db, storage_failure_outcome at id)

  -- What the channel of quotas stores of a report that the guard has seen.
  unfoldable pub store_report_checked :
      Bool
      → Readings
      → Text
      → QuotaReport F
      → Result PrivacyViolation (Unit {0})
      → QuotaCollectionOutcome
      → Database F
      → Database F × QuotaCollectionOutcome
  unfolding quota_failure upsert_report
  store_report_checked succeeds at id report (err violation) o db =
      (db, quota_failure F at.finished at.now id at.started (codes "PRIVACY_VIOLATION"))
  store_report_checked succeeds at id report (ok _) o db =
      if succeeds
      then (record db { quotas = (upsert_report F report db.quotas).0 }, o)
      else (db, quota_failure F at.finished at.now id at.started (codes "STORAGE_FAILURE"))

  unfoldable pub store_quota :
      Bool
      → Readings
      → Text
      → ProviderCollection F
      → Option (QuotaReport F)
      → Database F
      → Database F × QuotaCollectionOutcome
  unfolding store_report_checked
  store_quota succeeds at id c none db = (db, c.quota.outcome)
  store_quota succeeds at id c (some report) db =
      let own = owned c.fingerprint report in
      store_report_checked succeeds at id own (guard_report own) c.quota.outcome db

  unfoldable pub persist_quota :
      Statements
      → Readings
      → ProviderAdapter F
      → ProviderCollection F
      → Database F
      → Database F × QuotaCollectionOutcome
  unfolding store_quota quota_run_row add_run
  persist_quota s at a c db =
      let (stored, outcome) = store_quota s.quota_ok at a.descriptor.id c c.quota.report db in
      (add_run s.quota_run_ok (quota_run_row outcome) stored, outcome)

  unfoldable pub persist_provider :
      Statements
      → Readings
      → Readings
      → ProviderAdapter F
      → ProviderCollection F
      → Database F
      → Database F × CollectionOutcome × QuotaCollectionOutcome
  unfolding persist_usage persist_quota
  persist_provider s u q a c db =
      let (used, usage) = persist_usage s u a c db in
      let (done, quota) = persist_quota s q a c used in (done, usage, quota)
