-- ===== src/Runtime/Adapter.antt =====
-- `ProviderAdapter` of crates/provider-runtime/src/adapter.rs: an adapter is what its methods
-- return, and the provided methods are functions. The clock's readings are arguments.
pub mod Collected
use lnwdeck.Prelude.{Bool, Option, none, some, List, if◌then◌else◌, not, Result, ok, err}
use lnwdeck.Prelude.Text.{Text, codes}
use lnwdeck.Domain.Float.{F64}
use lnwdeck.Domain.Usage.{Instant, UsageBatch}
use lnwdeck.Domain.Quota.{QuotaReport}
use lnwdeck.Runtime.Descriptor.{
  AdapterDescriptor, ChannelSupport, DetectionResult, native, local_estimate, unsupported,
  is_supported,
}
use lnwdeck.Runtime.Permissions.{Permission}
use lnwdeck.Runtime.Collection.{
  CollectionResult, QuotaCollectionResult, result_not_supported, result_from_basic,
  quota_from_report, quota_not_supported, quota_source_unavailable, quota_failed,
}

unfoldable pub collector_mode : ChannelSupport → Text
collector_mode native = codes "provider_api"
collector_mode local_estimate = codes "local_scan"
collector_mode unsupported = codes "unsupported"

module _ (F : F64) where
  pub record ProviderAdapter : Type 0 where
    pub descriptor : AdapterDescriptor
    pub account_identity : Option Text
    pub collect_usage : Result Text UsageBatch
    pub collect_quota : Result Text (Option (QuotaReport F))
    pub required_permissions : List Permission
    pub detect : Result Text DetectionResult

  module _ (started finished now : Instant) where
    unfoldable pub collect_usage_with_cursor : ProviderAdapter → Option Text → CollectionResult
    unfolding is_supported collector_mode result_not_supported result_from_basic
    collect_usage_with_cursor a cursor =
        let d = a.descriptor in
        if not (is_supported d.usage_support)
        then result_not_supported finished now d.id started cursor
        else result_from_basic finished now d.id (collector_mode d.usage_support) started
            a.collect_usage cursor

    -- The `match` on what `collect_quota` returns.
    unfoldable pub quota_result :
        Text → Result Text (Option (QuotaReport F)) → QuotaCollectionResult F
    unfolding quota_from_report quota_source_unavailable quota_failed
    quota_result id (ok (some report)) = quota_from_report F finished now report started
    quota_result id (ok none) = quota_source_unavailable F finished now id started
    quota_result id (err code) = quota_failed F finished now id started code

    unfoldable pub collect_quota_report : ProviderAdapter → QuotaCollectionResult F
    unfolding is_supported quota_not_supported quota_result
    collect_quota_report a =
        let d = a.descriptor in
        if not (is_supported d.quota_support)
        then quota_not_supported F finished now d.id started
        else quota_result d.id a.collect_quota
