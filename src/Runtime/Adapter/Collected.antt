-- ===== src/Runtime/Adapter/Collected.antt =====
-- What a collection records, on every branch.
use lnwdeck.Prelude.{
  ℕ, ◌≡◌, refl, ap, true, Option, none, some, [], length, if◌then◌else◌, Result, ok, err, arith,
  Bool-cases, Result-cases, inl, inr,
}
use lnwdeck.Prelude.Text.{Text, codes}
use lnwdeck.Domain.Float.{F64}
use lnwdeck.Domain.Usage.{Instant, UsageBatch}
use lnwdeck.Domain.Quota.{QuotaReport}
use lnwdeck.Domain.Quota.Status.{is_error}
use lnwdeck.Domain.Quota.Failed.{is_error-from_error_code}
use lnwdeck.Runtime.Descriptor.{is_supported}
use lnwdeck.Runtime.Collection.{QuotaCollectionResult, quota_not_supported, not_supported_code}
use lnwdeck.Runtime.Adapter.{
  ProviderAdapter, quota_result, collect_usage_with_cursor, collect_quota_report,
}

-- The batch of a successful call, and no batch otherwise.
abbrev pub batch_of : Result Text UsageBatch → Option UsageBatch
batch_of (ok batch) = some batch
batch_of (err code) = none

abbrev pub events_of : Result Text UsageBatch → ℕ
events_of (ok batch) = length batch.events
events_of (err code) = 0

abbrev pub code_of : Result Text UsageBatch → Text
code_of (ok batch) = []
code_of (err code) = code

module _ (F : F64) (started finished now : Instant) where
  -- Where the usage channel is unsupported, nothing that `collect_usage` would return matters:
  -- there is no batch and the attempt is `NOT_SUPPORTED`. Where it is supported, the result is what
  -- `collect_usage` returns, counted. The cursor is the given one in both cases.
  pub collect_usage_with_cursor-recorded :
      (a : ProviderAdapter F) (cursor : Option Text)
      → let result = collect_usage_with_cursor F started finished now a cursor in
        let call =
          if is_supported a.descriptor.usage_support
          then a.collect_usage
          else err not_supported_code in
        (result.batch ≡ batch_of call)
        × (result.outcome.events_normalized ≡ events_of call)
        × (result.outcome.error_code ≡ code_of call)
        × (result.outcome.provider_id ≡ a.descriptor.id)
        × (result.next_cursor ≡ cursor)
  unfolding collect_usage_with_cursor
  collect_usage_with_cursor-recorded a cursor =
      elim (Bool-cases (is_supported a.descriptor.usage_support)) [
        | inl e ↦ elim (Result-cases a.collect_usage) [
          | inl (batch, u) ↦ (ground arith, ground arith, ground arith, ground arith, ground arith)
          | inr (code, u) ↦ (ground arith, ground arith, ground arith, ground arith, ground arith)
        ]
        | inr e ↦ (ground arith, ground arith, ground arith, ground arith, ground arith)
      ]

  abbrev pub report_of : Result Text (Option (QuotaReport F)) → Option (QuotaReport F)
  report_of (ok report) = report
  report_of (err code) = none

  -- What the result of an attempt records of a call.
  abbrev pub Records : QuotaCollectionResult F → Result Text (Option (QuotaReport F)) → Type 0
  Records result call =
      (result.report ≡ report_of call)
      × ((report : QuotaReport F)
          → report_of call ≡ some report
          → (result.outcome.status ≡ report.status)
            × (result.outcome.windows_collected ≡ length report.windows))
      × (report_of call ≡ none
          → (is_error result.outcome.status ≡ true) × (result.outcome.windows_collected ≡ 0))
      × (call ≡ ok none → result.outcome.error_code ≡ codes "SOURCE_UNAVAILABLE")
      × ((code : Text) → call ≡ err code → result.outcome.error_code ≡ code)

  quota_result-Records :
      (id : Text) (call : Result Text (Option (QuotaReport F)))
      → Records (quota_result F started finished now id call) call
  unfolding quota_result
  quota_result-Records id (ok (some report)) = (
    refl,
    λ r h. let same : report ≡ r = cc in (ap (λ x. x.status) same, ap (λ x. length x.windows) same),
    λ h. cc,
    λ h. cc,
    λ code h. cc,
  )
  quota_result-Records id (ok none) = (
    refl,
    λ r h. cc,
    λ h. (is_error-from_error_code (codes "SOURCE_UNAVAILABLE"), refl),
    λ h. refl,
    λ code h. cc,
  )
  quota_result-Records id (err code) =
      (refl, λ r h. cc, λ h. (is_error-from_error_code code, refl), λ h. cc, λ other h. cc)

  quota_not_supported-Records :
      (id : Text) → Records (quota_not_supported F finished now id started) (err not_supported_code)
  unfolding quota_not_supported
  quota_not_supported-Records id = (
    refl,
    λ r h. cc,
    λ h. (is_error-from_error_code not_supported_code, refl),
    λ h. cc,
    λ other h. cc,
  )

  -- A supported channel records the report that `collect_quota` returns, with its status and its
  -- number of windows; an unsupported one records the code `NOT_SUPPORTED`, whatever the call would
  -- return. An attempt with no report has a status that is an error and no windows; its code is
  -- `SOURCE_UNAVAILABLE` where the source was absent, and else the code of the error.
  pub collect_quota_report-Records :
      (a : ProviderAdapter F)
      → Records (collect_quota_report F started finished now a) (
          if is_supported a.descriptor.quota_support
          then a.collect_quota
          else err not_supported_code)
  unfolding collect_quota_report
  collect_quota_report-Records a = elim (Bool-cases (is_supported a.descriptor.quota_support)) [
    | inl e ↦ rw e (quota_result-Records a.descriptor.id a.collect_quota)
    | inr e ↦ rw e (quota_not_supported-Records a.descriptor.id)
  ]
