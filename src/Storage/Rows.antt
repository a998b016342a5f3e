-- ===== src/Storage/Rows.antt =====
-- The rows of crates/storage/src/repositories/diagnostics_repository.rs. Times are instants.
use lnwdeck.Prelude.{ℕ, Bool, Option, List}
use lnwdeck.Prelude.Text.{Text}
use lnwdeck.Domain.Usage.{Instant}

pub record ProviderStateRow : Type 0 where
  pub provider_id : Text
  pub display_name : Text
  pub enabled : Bool
  pub detected : Bool
  pub detection_method : Text
  pub source_type : Text
  pub source_exists : Bool
  pub permission_state : Text
  pub adapter_version : Text
  pub last_detection_at : Option Instant
  pub detection_error_code : Text

pub record CollectorRunRow : Type 0 where
  pub id : ℕ
  pub provider_id : Text
  pub collector_mode : Text
  pub started_at : Instant
  pub finished_at : Instant
  pub duration_ms : ℕ
  pub source_records_seen : ℕ
  pub records_parsed : ℕ
  pub events_normalized : ℕ
  pub events_rejected : ℕ
  pub duplicates_skipped : ℕ
  pub events_inserted : ℕ
  pub quota_snapshots_inserted : ℕ
  pub warning_codes : List Text
  pub error_code : Text
  pub next_retry_at : Option Instant
