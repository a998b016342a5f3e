-- ===== src/Application/Refresh/Stored.antt =====
-- The tables that crates/application/src/refresh.rs writes, the rows that it makes, and the writes that
-- both channels share. What a failing statement was to write stays unwritten.
use lnwdeck.Prelude.{
  ℕ, suc, Bool, true, false, Option, none, some, List, [], if◌then◌else◌, Result, ok, err,
}
use lnwdeck.Prelude.Text.{Text, codes}
use lnwdeck.Domain.Float.{F64}
use lnwdeck.Domain.Usage.{Instant}
use lnwdeck.Runtime.Descriptor.{DetectionResult}
use lnwdeck.Runtime.Collection.{CollectionOutcome, QuotaCollectionOutcome}
use lnwdeck.Storage.Rows.{ProviderStateRow, CollectorRunRow}
use lnwdeck.Storage.Diagnostics.{insert_collector_run, upsert_cursor}
use lnwdeck.Storage.Usage.{UsageRow}
use lnwdeck.Storage.Quotas.{QuotaTables}

-- What the code takes from other libraries: the test and the text of a float and of a time,
-- Unicode's mappings, and the keyed hash of `IdentifierHasher`, of a key and an input in bytes.
pub record Library (F : F64) : Type 0 where
  pub is_finite : F.Carrier → Bool
  pub rfc3339 : Instant → Text
  pub to_lowercase : Text → Text
  pub to_uppercase : Text → Text
  pub hash : List ℕ → List ℕ → Text

-- Which statements succeed.
pub record Statements : Type 0 where
  pub state_ok : Bool
  pub usage_ok : Bool
  pub cursor_ok : Bool
  pub usage_run_ok : Bool
  pub quota_ok : Bool
  pub quota_run_ok : Bool

-- The tables that a refresh writes.
pub record Database (F : F64) : Type 0 where
  pub usage : List UsageRow
  pub quotas : QuotaTables F
  pub states : List ProviderStateRow
  pub cursors : List (Text × Text)
  pub runs : List CollectorRunRow
  pub next_run : ℕ

-- The row of `persist_usage` from a detection, and from its error.
unfoldable pub state_row : Text → Text → Result Text DetectionResult → ProviderStateRow
state_row id name (ok d) = record {
  provider_id = d.provider_id;
  display_name = d.display_name;
  enabled = d.enabled;
  detected = d.detected;
  detection_method = d.detection_method;
  source_type = d.source_type;
  source_exists = d.source_exists;
  permission_state = d.permission_state;
  adapter_version = d.adapter_version;
  last_detection_at = d.last_detection_at;
  detection_error_code = d.detection_error_code;
}
state_row id name (err code) = record {
  provider_id = id;
  display_name = name;
  enabled = true;
  detected = false;
  detection_method = codes "unsupported";
  source_type = [];
  source_exists = false;
  permission_state = codes "n/a";
  adapter_version = codes "0.2.0";
  last_detection_at = none;
  detection_error_code = code;
}

-- The rows of `record_run` and `record_quota_run`.
unfoldable pub usage_run_row : CollectionOutcome → CollectorRunRow
usage_run_row o = record {
  id = 0;
  provider_id = o.provider_id;
  collector_mode = o.collector_mode;
  started_at = o.started_at;
  finished_at = o.finished_at;
  duration_ms = o.duration_ms;
  source_records_seen = o.source_records_seen;
  records_parsed = o.records_parsed;
  events_normalized = o.events_normalized;
  events_rejected = o.events_rejected;
  duplicates_skipped = o.duplicates_skipped;
  events_inserted = o.events_inserted;
  quota_snapshots_inserted = o.quota_snapshots_inserted;
  warning_codes = o.warning_codes;
  error_code = o.error_code;
  next_retry_at = o.next_retry_at;
}

unfoldable pub quota_run_row : QuotaCollectionOutcome → CollectorRunRow
quota_run_row o = record {
  id = 0;
  provider_id = o.provider_id;
  collector_mode = o.collector_mode;
  started_at = o.started_at;
  finished_at = o.finished_at;
  duration_ms = o.duration_ms;
  source_records_seen = 0;
  records_parsed = 0;
  events_normalized = 0;
  events_rejected = 0;
  duplicates_skipped = 0;
  events_inserted = 0;
  quota_snapshots_inserted = o.windows_collected;
  warning_codes = [];
  error_code = o.error_code;
  next_retry_at = none;
}

module _ {F : F64} where
  unfoldable pub add_run : Bool → CollectorRunRow → Database F → Database F
  unfolding insert_collector_run
  add_run succeeds run db =
      if succeeds
      then record db {
        runs = insert_collector_run db.next_run run db.runs;
        next_run = suc db.next_run;
      }
      else db

  unfoldable pub save_cursor : Bool → Text → Option Text → Database F → Database F
  unfolding upsert_cursor
  save_cursor succeeds id none db = db
  save_cursor succeeds id (some next_cursor) db =
      if succeeds then record db { cursors = upsert_cursor id next_cursor db.cursors } else db
