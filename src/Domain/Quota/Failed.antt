-- ===== src/Domain/Quota/Failed.antt =====
-- Which reports are usable, and what an error code makes of a report.
use lnwdeck.Prelude.{ℕ, ◌≡◌, refl, true, false, not, List, arith, is_nil}
use lnwdeck.Prelude.Text.{Text}
use lnwdeck.Domain.Float.{F64}
use lnwdeck.Domain.Quota.{
  QuotaWindow, QuotaStatus, fresh, stale, unavailable, auth_expired, rate_limited, error,
}
use lnwdeck.Domain.Quota.Status
use lnwdeck.Domain.Quota.Status.{from_error_code, is_error}
use lnwdeck.Domain.Quota.Report.{new, failed, is_usable}

-- A status is an error exactly when it is not usable.
pub is_error-is_usable : (s : QuotaStatus) → is_error s ≡ not (Status.is_usable s)
unfolding is_error Status.is_usable
is_error-is_usable fresh = refl
is_error-is_usable stale = refl
is_error-is_usable unavailable = refl
is_error-is_usable auth_expired = refl
is_error-is_usable rate_limited = refl
is_error-is_usable error = refl

pub is_error-from_error_code : (code : Text) → is_error (from_error_code code) ≡ true
unfolding is_error from_error_code
is_error-from_error_code code = ground arith

module _ (F : F64) where
  -- The status of a failed report is an error, whatever its code, and the report would not be
  -- usable with windows in it either; a new report is usable exactly when it has a window.
  pub is_usable-failed :
      (now : ℕ) (provider source code : Text) (windows : List (QuotaWindow F)) (freshness : ℕ)
      → (is_error ((failed F now provider source code).status) ≡ true)
        × (is_usable F (record (failed F now provider source code) { windows = windows }) ≡ false)
        × (is_usable F (new F now provider source windows freshness) ≡ not (is_nil windows))
  unfolding is_usable failed new Status.is_usable
  is_usable-failed now provider source code windows freshness =
      let e = is_error-from_error_code code in
      let u = is_error-is_usable (from_error_code code) in (e, ground arith, refl)
