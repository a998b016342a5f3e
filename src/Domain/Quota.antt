-- ===== src/Domain/Quota.antt =====
-- crates/domain/src/quota.rs: the types of quota windows and reports. Percentages are of an
-- interface of floats.
pub mod Status
pub mod Window
pub mod Report
pub mod Consistent
pub mod Failed
use lnwdeck.Prelude.{ℕ, ◌*◌, Bool, Option, List}
use lnwdeck.Prelude.Text.{Text}
use lnwdeck.Domain.Float.{F64}
use lnwdeck.Domain.Usage.{Confidence, Instant}

-- One hour, in nanoseconds.
abbrev pub default_freshness : ℕ
default_freshness = 3600 * 1000000000

pub data QuotaWindowScope : Type 0 where
  rolling daily weekly monthly session other : QuotaWindowScope

pub data QuotaKind : Type 0 where
  requests tokens credits parallel : QuotaKind

pub data QuotaStatus : Type 0 where
  fresh stale unavailable auth_expired rate_limited error : QuotaStatus

module _ (F : F64) where
  pub record QuotaWindow : Type 0 where
    pub window_key : Text
    pub label : Text
    pub scope : QuotaWindowScope
    pub kind : QuotaKind
    pub used : ℕ
    pub limit : Option ℕ
    pub remaining : Option ℕ
    pub used_percent : Option F.Carrier
    pub remaining_percent : Option F.Carrier
    pub reset_at : Option Instant
    pub is_unlimited : Bool
    pub confidence : Confidence

  pub record QuotaReport : Type 0 where
    pub provider_id : Text
    pub account_fingerprint : Option Text
    pub plan : Option Text
    pub status : QuotaStatus
    pub source : Text
    pub collected_at : Instant
    pub stale_at : Instant
    pub error_code : Option Text
    pub windows : List QuotaWindow
