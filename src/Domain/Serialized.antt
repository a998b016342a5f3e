-- ===== src/Domain/Serialized.antt =====
-- `serde_json::to_value` of a usage batch and of a quota report: the derived `Serialize` of
-- crates/domain/src/usage.rs, quota.rs and confidence.rs. `rfc3339` writes a time; a float that is
-- not finite is `null`.
use lnwdeck.Prelude.{ℕ, Bool, Option, none, some, List, [], ◌∷◌, if◌then◌else◌}
use lnwdeck.Prelude.Text.{Text, codes}
use lnwdeck.Json.{
  Value, null, bool, number, string, array, object, Items, nil, cons, end, field, unsigned, float,
}
use lnwdeck.Domain.Float.{F64}
use lnwdeck.Domain.Usage.{Instant, Confidence, low, medium, high, UsageEvent, UsageBatch}
use lnwdeck.Domain.Quota.{
  QuotaWindow, QuotaReport, QuotaStatus, QuotaWindowScope, QuotaKind, fresh, stale, unavailable,
  auth_expired, rate_limited, error, rolling, daily, weekly, monthly, session, other, requests,
  tokens, credits, parallel,
}

unfoldable pub confidence_name : Confidence → Text
confidence_name low = codes "Low"
confidence_name medium = codes "Medium"
confidence_name high = codes "High"

unfoldable pub status_name : QuotaStatus → Text
status_name fresh = codes "fresh"
status_name stale = codes "stale"
status_name unavailable = codes "unavailable"
status_name auth_expired = codes "auth_expired"
status_name rate_limited = codes "rate_limited"
status_name error = codes "error"

unfoldable pub scope_name : QuotaWindowScope → Text
scope_name rolling = codes "rolling"
scope_name daily = codes "daily"
scope_name weekly = codes "weekly"
scope_name monthly = codes "monthly"
scope_name session = codes "session"
scope_name other = codes "other"

unfoldable pub kind_name : QuotaKind → Text
kind_name requests = codes "requests"
kind_name tokens = codes "tokens"
kind_name credits = codes "credits"
kind_name parallel = codes "parallel"

module _ (F : F64) (is_finite : F.Carrier → Bool) (rfc3339 : Instant → Text) where
  abbrev pub Json : Type 0
  Json = Value F.Carrier

  abbrev pub count : ℕ → Json
  count n = number (unsigned n)

  abbrev pub real : F.Carrier → Json
  real x = if is_finite x then number (float x) else null

  abbrev pub optional {ℓ} : {A : Type ℓ} → (A → Json) → Option A → Json
  optional value none = null
  optional value (some x) = value x

  abbrev pub items_of {ℓ} : {A : Type ℓ} → (A → Json) → List A → Items F.Carrier
  items_of value [] = nil
  items_of value (x ∷ xs) = cons (value x) (items_of value xs)

  unfoldable pub event_value : UsageEvent → Json
  unfolding confidence_name
  event_value e = object (
      field (codes "id") (string e.id) (
        field (codes "timestamp") (string (rfc3339 e.timestamp)) (
          field (codes "provider_id") (string e.provider_id) (
            field (codes "model") (string e.model) (
              field (codes "tokens_input") (count e.tokens_input) (
                field (codes "tokens_cached") (count e.tokens_cached) (
                  field (codes "tokens_cache_write") (count e.tokens_cache_write) (
                    field (codes "tokens_output") (count e.tokens_output) (
                      field (codes "tokens_reasoning") (count e.tokens_reasoning) (
                        field (codes "confidence") (string (confidence_name e.confidence)) (
                          field (codes "data_source") (string e.data_source) (
                            field (codes "cost") (string e.cost) (
                              field (codes "session_hash") (optional string e.session_hash) (
                                field (codes "project_hash") (optional string e.project_hash) (
                                  field (codes "account_fingerprint")
                                    (optional string e.account_fingerprint) end)))))))))))))))

  unfoldable pub batch_value : UsageBatch → Json
  unfolding event_value
  batch_value b = object (
      field (codes "events") (array (items_of event_value b.events))
        (field (codes "batch_id") (string b.batch_id) end))

  unfoldable pub window_value : QuotaWindow F → Json
  unfolding scope_name kind_name confidence_name
  window_value w = object (
      field (codes "window_key") (string w.window_key) (
        field (codes "label") (string w.label) (
          field (codes "scope") (string (scope_name w.scope)) (
            field (codes "kind") (string (kind_name w.kind)) (
              field (codes "used") (count w.used) (
                field (codes "limit") (optional count w.limit) (
                  field (codes "remaining") (optional count w.remaining) (
                    field (codes "used_percent") (optional real w.used_percent) (
                      field (codes "remaining_percent") (optional real w.remaining_percent) (
                        field (codes "reset_at") (optional (λ t. string (rfc3339 t)) w.reset_at) (
                          field (codes "is_unlimited") (bool w.is_unlimited) (
                            field (codes "confidence") (string (confidence_name w.confidence))
                              end))))))))))))

  unfoldable pub report_value : QuotaReport F → Json
  unfolding status_name window_value
  report_value r = object (
      field (codes "provider_id") (string r.provider_id) (
        field (codes "account_fingerprint") (optional string r.account_fingerprint) (
          field (codes "plan") (optional string r.plan) (
            field (codes "status") (string (status_name r.status)) (
              field (codes "source") (string r.source) (
                field (codes "collected_at") (string (rfc3339 r.collected_at)) (
                  field (codes "stale_at") (string (rfc3339 r.stale_at)) (
                    field (codes "error_code") (optional string r.error_code) (
                      field (codes "windows") (array (items_of window_value r.windows)) end)))))))))
