-- ===== src/Runtime/Collection.antt =====
-- crates/provider-runtime/src/collection.rs and quota.rs: the outcomes of collections. A time that
-- the code writes as a text of RFC 3339 is the instant; the two readings of the clock that an
-- outcome takes, for its end and for its duration, are the arguments `finished` and `now`.
use lnwdeck.Prelude.{
  ℕ, ◌-◌, ◌/◌, Bool, Option, none, some, List, [], ◌∷◌, ◌++◌, length, Result, ok, err,
}
use lnwdeck.Prelude.Text.{Text, codes, text_eq}
use lnwdeck.Domain.Float.{F64}
use lnwdeck.Domain.Usage.{Instant, UsageBatch}
use lnwdeck.Domain.Quota.{QuotaStatus, QuotaReport, error}
use lnwdeck.Domain.Quota.Status.{from_error_code}

abbrev pub not_supported_code : Text
not_supported_code = codes "NOT_SUPPORTED"

-- Milliseconds, at least 0.
unfoldable pub elapsed_ms : Instant → Instant → ℕ
elapsed_ms now since = (now - since) / 1000000

pub record CollectionOutcome : Type 0 where
  pub provider_id : Text
  pub collector_mode : Text
  pub started_at : Instant
  pub finished_at : Instant
  pub duration_ms : ℕ
  pub source_records_seen : ℕ
  pub records_parsed : ℕ
  pub events_normalized : ℕ
  pub events_rejected : ℕ
  pub duplicates_skipped : ℕ
  pub events_inserted : ℕ
  pub quota_snapshots_inserted : ℕ
  pub warning_codes : List Text
  pub error_code : Text
  pub next_retry_at : Option Instant

pub record CollectionResult : Type 0 where
  pub batch : Option UsageBatch
  pub outcome : CollectionOutcome
  pub next_cursor : Option Text

module _ (finished now : Instant) where
  unfoldable pub base : Text → Text → Instant → CollectionOutcome
  unfolding elapsed_ms
  base provider_id collector_mode started_at = record {
    provider_id = provider_id;
    collector_mode = collector_mode;
    started_at = started_at;
    finished_at = finished;
    duration_ms = elapsed_ms now started_at;
    source_records_seen = 0;
    records_parsed = 0;
    events_normalized = 0;
    events_rejected = 0;
    duplicates_skipped = 0;
    events_inserted = 0;
    quota_snapshots_inserted = 0;
    warning_codes = [];
    error_code = [];
    next_retry_at = none;
  }

  unfoldable pub success : Text → Text → Instant → ℕ → CollectionOutcome
  unfolding base
  success provider_id collector_mode started_at events_normalized =
      record (base provider_id collector_mode started_at) { events_normalized = events_normalized }

  unfoldable pub failure : Text → Text → Instant → Text → CollectionOutcome
  unfolding base
  failure provider_id collector_mode started_at error_code =
      record (base provider_id collector_mode started_at) { error_code = error_code }

  unfoldable pub not_supported : Text → Instant → CollectionOutcome
  unfolding failure
  not_supported provider_id started_at =
      failure provider_id (codes "unsupported") started_at not_supported_code

  unfoldable pub result_from_basic :
      Text → Text → Instant → Result Text UsageBatch → Option Text → CollectionResult
  unfolding success failure
  result_from_basic provider_id collector_mode started_at (ok batch) cursor = record {
    batch = some batch;
    outcome = success provider_id collector_mode started_at (length batch.events);
    next_cursor = cursor;
  }
  result_from_basic provider_id collector_mode started_at (err code) cursor = record {
    batch = none;
    outcome = failure provider_id collector_mode started_at code;
    next_cursor = cursor;
  }

  unfoldable pub result_not_supported : Text → Instant → Option Text → CollectionResult
  unfolding not_supported
  result_not_supported provider_id started_at cursor = record {
    batch = none;
    outcome = not_supported provider_id started_at;
    next_cursor = cursor;
  }

unfoldable pub with_warning : CollectionOutcome → Text → CollectionOutcome
with_warning o code = record o { warning_codes = o.warning_codes ++ code ∷ [] }

unfoldable pub is_not_supported : CollectionOutcome → Bool
is_not_supported o = text_eq o.error_code not_supported_code

pub record QuotaCollectionOutcome : Type 0 where
  pub provider_id : Text
  pub collector_mode : Text
  pub started_at : Instant
  pub finished_at : Instant
  pub duration_ms : ℕ
  pub windows_collected : ℕ
  pub status : QuotaStatus
  pub error_code : Text

-- `error_code.clone().unwrap_or_default()`
abbrev pub text_or_empty : Option Text → Text
text_or_empty none = []
text_or_empty (some code) = code

module _ (F : F64) where
  pub record QuotaCollectionResult : Type 0 where
    pub report : Option (QuotaReport F)
    pub outcome : QuotaCollectionOutcome

  module _ (finished now : Instant) where
    unfoldable pub quota_base : Text → Instant → QuotaCollectionOutcome
    unfolding elapsed_ms
    quota_base provider_id started_at = record {
      provider_id = provider_id;
      collector_mode = codes "quota_collect";
      started_at = started_at;
      finished_at = finished;
      duration_ms = elapsed_ms now started_at;
      windows_collected = 0;
      status = error;
      error_code = [];
    }

    unfoldable pub quota_success : Text → Instant → QuotaReport F → QuotaCollectionOutcome
    unfolding quota_base
    quota_success provider_id started_at report = record (quota_base provider_id started_at) {
      status = report.status;
      windows_collected = length report.windows;
      error_code = text_or_empty report.error_code;
    }

    unfoldable pub quota_failure : Text → Instant → Text → QuotaCollectionOutcome
    unfolding quota_base from_error_code
    quota_failure provider_id started_at error_code = record (quota_base provider_id started_at) {
      status = from_error_code error_code;
      error_code = error_code;
    }

    unfoldable pub quota_from_report : QuotaReport F → Instant → QuotaCollectionResult
    unfolding quota_success
    quota_from_report report started_at = record {
      report = some report;
      outcome = quota_success report.provider_id started_at report;
    }

    unfoldable pub quota_not_supported : Text → Instant → QuotaCollectionResult
    unfolding quota_failure
    quota_not_supported provider_id started_at = record {
      report = none;
      outcome = quota_failure provider_id started_at not_supported_code;
    }

    unfoldable pub quota_source_unavailable : Text → Instant → QuotaCollectionResult
    unfolding quota_failure
    quota_source_unavailable provider_id started_at = record {
      report = none;
      outcome = quota_failure provider_id started_at (codes "SOURCE_UNAVAILABLE");
    }

    unfoldable pub quota_failed : Text → Instant → Text → QuotaCollectionResult
    unfolding quota_failure
    quota_failed provider_id started_at error_code = record {
      report = none;
      outcome = quota_failure provider_id started_at error_code;
    }
