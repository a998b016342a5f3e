-- ===== src/Application/Quota/Cards.antt =====
-- The loop bodies of `QueryQuotaDashboard::execute` of crates/application/src/quota.rs, and
-- `card_from_report`. Grouping, the sort of the cards and the repositories are left out.
use lnwdeck.Prelude.{
  ℕ, suc, ◌+◌, Bool, ◌&&◌, Option, none, some, List, [], ◌∷◌, any, find, length, is_some,
  if◌then◌else◌, ltb,
}
use lnwdeck.Prelude.Text.{Text, codes, text_eq}
use lnwdeck.Prelude.Maps.{unwrap_or}
use lnwdeck.Domain.Float.{F64}
use lnwdeck.Domain.Usage.{Instant}
use lnwdeck.Domain.Quota.{QuotaReport, stale}
use lnwdeck.Domain.Quota.Report.{is_usable}
use lnwdeck.Runtime.Descriptor.{AdapterDescriptor, support_label, native, local_estimate}
use lnwdeck.Runtime.Registry.{AdapterRegistry, display_name}
use lnwdeck.Storage.Rows.{ProviderStateRow, CollectorRunRow}
use lnwdeck.Application.Quota.{
  ProviderQuotaCard, connection_state_for, card_from_descriptor, connected, transient_error,
  is_some_and,
}

abbrev pub requires_ide : Text
requires_ide = codes "SOURCE_REQUIRES_IDE"

-- The state and the quota run of a descriptor.
unfoldable pub state_of : Text → List ProviderStateRow → Option ProviderStateRow
unfolding text_eq
state_of id states = find (λ s. text_eq s.provider_id id) states

unfoldable pub quota_run_of : Text → List CollectorRunRow → Option CollectorRunRow
unfolding text_eq
quota_run_of id runs =
    find (λ r. text_eq r.provider_id id && text_eq r.collector_mode (codes "quota_collect")) runs

module _ (F : F64) where
  unfoldable pub aged : Bool → QuotaReport F → QuotaReport F
  unfolding is_usable
  aged run_requires_ide report =
      if run_requires_ide && is_usable F report
      then record report { status = stale; error_code = some requires_ide }
      else report

  -- The inner loop, over the reports of one provider.
  unfoldable pub report_cards :
      Instant
      → AdapterDescriptor
      → Option ProviderStateRow
      → Option CollectorRunRow
      → Bool
      → ℕ
      → List (QuotaReport F)
      → List (ProviderQuotaCard F)
  unfolding aged connection_state_for card_from_descriptor text_eq
  report_cards now descriptor state quota_run many index [] = []
  report_cards now descriptor state quota_run many index (stored ∷ rest) =
      let run_requires_ide = is_some_and (λ run. text_eq run.error_code requires_ide) quota_run in
      let report = aged run_requires_ide stored in
      let connection_state = connection_state_for F descriptor state quota_run (some report) in
      card_from_descriptor F now descriptor (some report) connection_state
        (if many then some (index + 1) else none) quota_run
      ∷ report_cards now descriptor state quota_run many (suc index) rest

  -- The body of the loop over the descriptors.
  unfoldable pub descriptor_cards :
      Instant
      → AdapterDescriptor
      → List ProviderStateRow
      → List CollectorRunRow
      → List (QuotaReport F)
      → List (ProviderQuotaCard F)
  unfolding state_of quota_run_of report_cards
  descriptor_cards now descriptor states runs [] =
      let state = state_of descriptor.id states in
      let quota_run = quota_run_of descriptor.id runs in
      card_from_descriptor F now descriptor none
        (connection_state_for F descriptor state quota_run none) none quota_run
      ∷ []
  descriptor_cards now descriptor states runs (report ∷ rest) =
      report_cards now descriptor (state_of descriptor.id states) (quota_run_of descriptor.id runs)
        (ltb 1 (length (report ∷ rest))) 0 (report ∷ rest)

  unfoldable pub card_from_report :
      QuotaReport F → AdapterRegistry F → Option ℕ → ProviderQuotaCard F
  unfolding is_usable display_name support_label
  card_from_report report registry account_index = record {
    provider_id = report.provider_id;
    display_name = unwrap_or report.provider_id (display_name F registry report.provider_id);
    account_index = account_index;
    connection_state = if is_usable F report then connected else transient_error;
    quota_support =
        if any (λ window. is_some window.limit) report.windows
        then support_label native
        else support_label local_estimate;
    status = report.status;
    plan = report.plan;
    source = report.source;
    collected_at = report.collected_at;
    stale_at = report.stale_at;
    error_code = report.error_code;
    windows = report.windows;
  }
