-- ===== src/Security/PrivacyGuard/Batches.antt =====
-- `PrivacyGuard::validate_usage_batch` and `validate_quota_report` of
-- crates/security/src/privacy_guard.rs. `serde_json::to_value` of these types does not fail.
use lnwdeck.Prelude.{Bool, Result}
use lnwdeck.Prelude.Text.{Text}
use lnwdeck.Domain.Float.{F64}
use lnwdeck.Domain.Usage.{Instant, UsageBatch}
use lnwdeck.Domain.Quota.{QuotaReport}
use lnwdeck.Domain.Serialized.{batch_value, report_value}
use lnwdeck.Security.PrivacyGuard.{PrivacyViolation, validate_value}

module _ (F : F64) (is_finite : F.Carrier → Bool) (rfc3339 : Instant → Text)
    (lower upper : Text → Text) where
  unfoldable pub validate_usage_batch : UsageBatch → Result PrivacyViolation (Unit {0})
  unfolding validate_value batch_value
  validate_usage_batch batch = validate_value lower upper (batch_value F is_finite rfc3339 batch)

  unfoldable pub validate_quota_report : QuotaReport F → Result PrivacyViolation (Unit {0})
  unfolding validate_value report_value
  validate_quota_report report =
      validate_value lower upper (report_value F is_finite rfc3339 report)
