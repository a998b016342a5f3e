-- ===== src/Domain/Quota/Report.antt =====
-- `impl QuotaReport` of crates/domain/src/quota.rs. `Utc::now()` is an argument.
use lnwdeck.Prelude.{ℕ, ◌+◌, Bool, not, ◌&&◌, none, some, List, [], is_nil}
use lnwdeck.Prelude.Text.{Text}
use lnwdeck.Domain.Float.{F64}
use lnwdeck.Domain.Usage.{Instant}
use lnwdeck.Domain.Quota.{QuotaWindow, QuotaReport, fresh, default_freshness}
use lnwdeck.Domain.Quota.Status
use lnwdeck.Domain.Quota.Status.{from_error_code}

module _ (F : F64) where
  unfoldable pub new : Instant → Text → Text → List (QuotaWindow F) → ℕ → QuotaReport F
  new now provider_id source windows freshness = record {
    provider_id = provider_id;
    account_fingerprint = none;
    plan = none;
    status = fresh;
    source = source;
    collected_at = now;
    stale_at = now + freshness;
    error_code = none;
    windows = windows;
  }

  unfoldable pub failed : Instant → Text → Text → Text → QuotaReport F
  unfolding from_error_code
  failed now provider_id source error_code = record {
    provider_id = provider_id;
    account_fingerprint = none;
    plan = none;
    status = from_error_code error_code;
    source = source;
    collected_at = now;
    stale_at = now + default_freshness;
    error_code = some error_code;
    windows = [];
  }

  unfoldable pub is_usable : QuotaReport F → Bool
  unfolding Status.is_usable
  is_usable r = Status.is_usable r.status && not (is_nil r.windows)
