-- ===== src/Application/Quota.antt =====
-- crates/application/src/quota.rs: what the quota dashboard shows of a provider. The reports, states
-- and runs are what the repositories return, in their order, and `Utc::now()` is an argument.
pub mod Cards
pub mod Connected
pub mod Honest
pub mod Aged
use lnwdeck.Prelude.{
  ℕ, zero, suc, ◌+◌, Bool, true, false, not, ◌&&◌, ◌||◌, Option, none, some, List, [], ◌∷◌, any,
  find, length, is_nil, is_some, if◌then◌else◌, ltb, leb,
}
use lnwdeck.Prelude.Text.{Text, codes, text_eq}
use lnwdeck.Domain.Float.{F64}
use lnwdeck.Domain.Usage.{Instant}
use lnwdeck.Domain.Quota.{QuotaWindow, QuotaReport, QuotaStatus, fresh, stale, unavailable}
use lnwdeck.Domain.Quota.Report.{failed, is_usable}
use lnwdeck.Runtime.Descriptor.{
  AdapterDescriptor, ChannelSupport, native, local_estimate, unsupported, needs_credentials,
  is_supported, support_label, source_label,
}
use lnwdeck.Runtime.Registry.{AdapterRegistry, display_name}
use lnwdeck.Storage.Rows.{ProviderStateRow, CollectorRunRow}

pub data ProviderConnectionState : Type 0 where
  connected not_detected not_configured permission_required : ProviderConnectionState
  auth_expired rate_limited transient_error not_supported : ProviderConnectionState

-- `is_some_and` and `is_none_or`
abbrev pub is_some_and {ℓ} : {A : Type ℓ} → (A → Bool) → Option A → Bool
is_some_and p none = false
is_some_and p (some x) = p x

abbrev pub is_none_or {ℓ} : {A : Type ℓ} → (A → Bool) → Option A → Bool
is_none_or p none = true
is_none_or p (some x) = p x

-- `Option::or_else`
abbrev pub or_else {ℓ} : {A : Type ℓ} → Option A → Option A → Option A
or_else none other = other
or_else (some x) other = some x

-- `(!code.is_empty()).then_some(code)`
abbrev pub non_empty : Text → Option Text
non_empty code = if is_nil code then none else some code

-- `matches!(code, Some(…))` of some texts
abbrev pub is_one_of : List Text → Text → Bool
is_one_of texts code = any (text_eq code) texts

unfoldable pub state_error_code : ProviderConnectionState → Option Text
state_error_code not_detected = some (codes "SOURCE_UNAVAILABLE")
state_error_code not_configured = some (codes "NOT_CONFIGURED")
state_error_code permission_required = some (codes "PERMISSION_DENIED")
state_error_code auth_expired = some (codes "AUTH_EXPIRED")
state_error_code rate_limited = some (codes "RATE_LIMITED")
state_error_code transient_error = some (codes "SOURCE_SCHEMA_MISMATCH")
state_error_code not_supported = some (codes "NOT_SUPPORTED")
state_error_code connected = none

abbrev pub is_connected : ProviderConnectionState → Bool
is_connected connected = true
is_connected _ = false

-- The two flags of a state that say its source is there.
abbrev pub is_present : ProviderStateRow → Bool
is_present provider = provider.detected || provider.source_exists

abbrev pub is_absent : ProviderStateRow → Bool
is_absent provider = not provider.source_exists && not provider.detected

abbrev pub absence_codes : List Text
absence_codes =
    codes "SOURCE_UNAVAILABLE"
    ∷ codes "NOT_INSTALLED"
    ∷ codes "NOT_CONFIGURED"
    ∷ codes "NOT_SUPPORTED"
    ∷ codes "UNSUPPORTED"
    ∷ []

abbrev pub is_fresh : QuotaStatus → Bool
is_fresh fresh = true
is_fresh _ = false

module _ (F : F64) where
  pub record ProviderQuotaCard : Type 0 where
    pub provider_id : Text
    pub display_name : Text
    pub account_index : Option ℕ
    pub connection_state : ProviderConnectionState
    pub quota_support : Text
    pub status : QuotaStatus
    pub plan : Option Text
    pub source : Text
    pub collected_at : Instant
    pub stale_at : Instant
    pub error_code : Option Text
    pub windows : List (QuotaWindow F)

  unfoldable pub derive_read_time_status : QuotaReport F → Instant → QuotaReport F
  derive_read_time_status report now =
      if is_fresh report.status && leb report.stale_at now
      then record report { status = stale }
      else report

  unfoldable pub sanitize_legacy_gemini_reports : QuotaReport F → Instant → Option (QuotaReport F)
  unfolding derive_read_time_status text_eq
  sanitize_legacy_gemini_reports report now =
      let derived = derive_read_time_status report now in
      if text_eq derived.provider_id (codes "google_gemini")
        && text_eq derived.source (codes "provider_api")
      then none
      else some derived

  unfoldable pub sanitize_legacy_opencode_report : Instant → QuotaReport F → QuotaReport F
  unfolding failed text_eq
  sanitize_legacy_opencode_report now report =
      if text_eq report.provider_id (codes "opencode")
        && text_eq report.source (codes "local_estimate")
      then record (failed F now (codes "opencode") (codes "provider_api")
          (codes "NOT_CONFIGURED")) { account_fingerprint = report.account_fingerprint }
      else report

  -- The error code that `connection_state_for` reads: of the run, of the state, of the report.
  unfoldable pub connection_error_code :
      Option ProviderStateRow → Option CollectorRunRow → Option (QuotaReport F) → Option Text
  connection_error_code state quota_run report =
      or_else (elim quota_run [ none ↦ none | some run ↦ non_empty run.error_code ])
        (or_else
          (elim state [ none ↦ none | some provider ↦ non_empty provider.detection_error_code ])
          (elim report [ none ↦ none | some value ↦ value.error_code ]))

  -- The `match` on that code; `none` where it goes on.
  unfoldable pub state_of_code :
      Option ProviderStateRow
      → Option (QuotaReport F)
      → Option Text
      → Option ProviderConnectionState
  unfolding is_usable text_eq
  state_of_code state report none = none
  state_of_code state report (some code) =
      if is_one_of (codes "NOT_CONFIGURED" ∷ []) code
      then some not_configured
      else if is_one_of (codes "PERMISSION_DENIED" ∷ codes "ACCESS_DENIED" ∷ []) code
      then some permission_required
      else if is_one_of (codes "AUTH_EXPIRED" ∷ codes "AUTH_FAILED" ∷ codes "TOKEN_EXPIRED" ∷ [])
          code
      then some auth_expired
      else if is_one_of (codes "RATE_LIMITED" ∷ codes "RATE_LIMIT" ∷ []) code
      then some rate_limited
      else if is_one_of (codes "SOURCE_UNAVAILABLE" ∷ codes "NOT_INSTALLED" ∷ []) code
      then (if is_none_or is_absent state then some not_detected else some transient_error)
      else if is_one_of (codes "SOURCE_REQUIRES_IDE" ∷ []) code && is_some_and (is_usable F) report
      then some connected
      else if not (is_nil code)
          && not (is_one_of (codes "NOT_SUPPORTED" ∷ codes "UNSUPPORTED" ∷ []) code)
      then some transient_error
      else none

  -- What `connection_state_for` returns after that `match`.
  unfoldable pub state_of_source :
      AdapterDescriptor → Option ProviderStateRow → Option (QuotaReport F) → ProviderConnectionState
  unfolding is_usable needs_credentials
  state_of_source descriptor state report =
      if is_some_and is_present state || is_some_and (is_usable F) report
      then connected
      else if needs_credentials descriptor
      then not_configured
      else not_detected

  unfoldable pub connection_state_for :
      AdapterDescriptor
      → Option ProviderStateRow
      → Option CollectorRunRow
      → Option (QuotaReport F)
      → ProviderConnectionState
  unfolding connection_error_code state_of_code state_of_source is_supported text_eq
  connection_state_for descriptor state quota_run report =
      let report_is_absence =
        is_none_or (λ value. is_some_and (is_one_of absence_codes) value.error_code) report in
      let source_absent = is_none_or is_absent state && report_is_absence in
      if source_absent
      then not_detected
      else if not (is_supported descriptor.quota_support)
      then not_supported
      else elim (state_of_code state report (connection_error_code state quota_run report)) [
        | some connection_state ↦ connection_state
        | none ↦ state_of_source descriptor state report
      ]

  -- The report that `card_from_descriptor` shows: `report.filter(|_| … == Connected)`.
  unfoldable pub effective_report :
      Option (QuotaReport F) → ProviderConnectionState → Option (QuotaReport F)
  effective_report report connection_state = if is_connected connection_state then report else none

  unfoldable pub card_from_effective :
      Instant
      → AdapterDescriptor
      → Option (QuotaReport F)
      → ProviderConnectionState
      → Option ℕ
      → Option CollectorRunRow
      → ProviderQuotaCard
  unfolding support_label source_label state_error_code
  card_from_effective now descriptor (some report) connection_state account_index quota_run =
      record {
        provider_id = descriptor.id;
        display_name = descriptor.display_name;
        account_index = account_index;
        connection_state = connection_state;
        quota_support = support_label descriptor.quota_support;
        status = report.status;
        plan = report.plan;
        source = report.source;
        collected_at = report.collected_at;
        stale_at = report.stale_at;
        error_code = report.error_code;
        windows = report.windows;
      }
  card_from_effective now descriptor none connection_state account_index quota_run = record {
    provider_id = descriptor.id;
    display_name = descriptor.display_name;
    account_index = account_index;
    connection_state = connection_state;
    quota_support = support_label descriptor.quota_support;
    status = unavailable;
    plan = none;
    source = source_label descriptor.source_kind;
    collected_at = now;
    stale_at = now;
    error_code =
        or_else (elim quota_run [ none ↦ none | some run ↦ non_empty run.error_code ])
          (state_error_code connection_state);
    windows = [];
  }

  unfoldable pub card_from_descriptor :
      Instant
      → AdapterDescriptor
      → Option (QuotaReport F)
      → ProviderConnectionState
      → Option ℕ
      → Option CollectorRunRow
      → ProviderQuotaCard
  unfolding effective_report card_from_effective
  card_from_descriptor now descriptor report connection_state account_index quota_run =
      card_from_effective now descriptor (effective_report report connection_state) connection_state
        account_index quota_run
