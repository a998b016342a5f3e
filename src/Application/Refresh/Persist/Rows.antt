-- ===== src/Application/Refresh/Persist/Rows.antt =====
-- Ingesting private events and storing a private report leave private rows.
use lnwdeck.Prelude.{
  ℕ, suc, Bool, true, false, not, Option, List, [], ◌∷◌, filter, All, All-append, All-filter,
  Bool-cases, inl, inr, is_nil,
}
use lnwdeck.Prelude.Text.{Text}
use lnwdeck.Domain.Float.{F64}
use lnwdeck.Domain.Usage.{UsageEvent, UsageBatch}
use lnwdeck.Domain.Quota.{QuotaReport, QuotaWindow}
use lnwdeck.Security.PrivacyGuard.Passed.{
  IsPrivate, IsPrivateEvent, IsPrivateReport, IsPrivateWindow,
}
use lnwdeck.Storage.Usage.{
  UsageRow, Ingestion, uncounted, event_row, has_id, ingest_event, ingest_events,
  ingest_event-stored, ingest_event-new, ingest_batch_with_counts, delete_accounts, accounts_of,
  is_replaced, replace_provider_batch,
}
use lnwdeck.Storage.Quotas.{
  ReportRow, WindowRow, QuotaTables, or_empty, report_row, window_rows, store_report, upsert_over,
  upsert_report, stored_row, is_account, is_of,
}
use lnwdeck.Storage.Quotas.Kept.{upsert_over-cases}
use lnwdeck.Application.Refresh.Persist.{Library, ingestion, full_scan_sources}

module _ {F : F64} (L : Library F) where
  abbrev pub Private : Text → Type 0
  Private = IsPrivate F L.is_finite L.rfc3339 L.to_lowercase L.to_uppercase

  abbrev pub PrivateEvent : UsageEvent → Type 0
  PrivateEvent = IsPrivateEvent F L.is_finite L.rfc3339 L.to_lowercase L.to_uppercase

  abbrev pub PrivateReport : QuotaReport F → Type 0
  PrivateReport = IsPrivateReport F L.is_finite L.rfc3339 L.to_lowercase L.to_uppercase

  abbrev PrivateWindow : QuotaWindow F → Type 0
  PrivateWindow = IsPrivateWindow F L.is_finite L.rfc3339 L.to_lowercase L.to_uppercase

  abbrev pub IsPrivateRow : UsageRow → Type 0
  IsPrivateRow r =
      Private r.id
      × Private r.batch_id
      × Private r.provider_id
      × Private r.model
      × Private r.data_source
      × Private r.cost
      × Private r.session_hash
      × Private r.project_hash
      × Private r.account_fingerprint

  abbrev pub IsPrivateReportRow : ReportRow → Type 0
  IsPrivateReportRow r =
      Private r.provider_id
      × Private r.account_fingerprint
      × Private r.plan
      × Private r.source
      × Private (or_empty r.error_code)

  abbrev pub IsPrivateWindowRow : WindowRow F → Type 0
  IsPrivateWindowRow w =
      Private w.provider_id × Private w.account_fingerprint × Private w.window_key × Private w.label

  abbrev pub IsPrivateQuotas : QuotaTables F → Type 0
  IsPrivateQuotas t = All IsPrivateReportRow t.reports × All IsPrivateWindowRow t.windows

  event_row-IsPrivateRow :
      (batch_id : Text) (e : UsageEvent)
      → Private batch_id
      → PrivateEvent e
      → IsPrivateRow (event_row batch_id e)
  unfolding event_row
  event_row-IsPrivateRow batch_id e h
        (id, provider, model, source, cost, session, project, account) =
      (id, h, provider, model, source, cost, session, project, account)

  ingest_event-IsPrivateRow :
      (batch_id : Text) (e : UsageEvent) (t : Ingestion)
      → Private batch_id
      → PrivateEvent e
      → All IsPrivateRow t.rows
      → All IsPrivateRow (ingest_event batch_id e t).rows
  ingest_event-IsPrivateRow batch_id e t b h k = elim (Bool-cases (has_id e.id t.rows)) [
    | inl there ↦ rw (ingest_event-stored batch_id e t there) k
    | inr new ↦ rw (ingest_event-new batch_id e t new) (
        All-append IsPrivateRow t.rows (event_row batch_id e ∷ []) k
          (event_row-IsPrivateRow batch_id e b h, tt))
  ]

  ingest_events-IsPrivateRow :
      (batch_id : Text) (events : List UsageEvent) (t : Ingestion)
      → Private batch_id
      → All PrivateEvent events
      → All IsPrivateRow t.rows
      → All IsPrivateRow (ingest_events batch_id events t).rows
  unfolding ingest_events
  ingest_events-IsPrivateRow batch_id [] t b h k = k
  ingest_events-IsPrivateRow batch_id (e ∷ events) t b (h, hs) k =
      ingest_events-IsPrivateRow batch_id events (ingest_event batch_id e t) b hs
        (ingest_event-IsPrivateRow batch_id e t b h k)

  delete_accounts-All :
      (provider current legacy : Text) (accounts : List Text) (rows : List UsageRow)
      → All IsPrivateRow rows
      → All IsPrivateRow (delete_accounts provider current legacy accounts rows)
  unfolding delete_accounts
  delete_accounts-All provider current legacy [] rows h = h
  delete_accounts-All provider current legacy (account ∷ accounts) rows h =
      let keeps = λ (r : UsageRow). not (is_replaced provider current legacy account r) in
      delete_accounts-All provider current legacy accounts (filter keeps rows)
        (All-filter IsPrivateRow keeps rows h)

  pub ingestion-IsPrivateRow :
      (id : Text) (full_scan : Bool) (batch : UsageBatch) (rows : List UsageRow)
      → Private batch.batch_id
      → All PrivateEvent batch.events
      → All IsPrivateRow rows
      → All IsPrivateRow (ingestion id full_scan batch rows).rows
  unfolding ingestion ingest_batch_with_counts replace_provider_batch
  ingestion-IsPrivateRow id false batch rows b h k =
      ingest_events-IsPrivateRow batch.batch_id batch.events (uncounted rows) b h k
  ingestion-IsPrivateRow id true batch rows b h k =
      let sources = full_scan_sources id in
      let accounts = accounts_of batch.events in
      let kept = delete_accounts id sources.0 sources.1 accounts rows in
      let after = delete_accounts-All id sources.0 sources.1 accounts rows k in
      elim (Bool-cases (is_nil batch.events)) [
        | inl e ↦ rw e k
        | inr e ↦
            rw e (ingest_events-IsPrivateRow batch.batch_id batch.events (uncounted kept) b h after)
      ]

  window_rows-IsPrivateWindowRow :
      (r : QuotaReport F) (id : ℕ) (ws : List (QuotaWindow F))
      → Private r.provider_id
      → Private (or_empty r.account_fingerprint)
      → All PrivateWindow ws
      → All IsPrivateWindowRow (window_rows F r id ws)
  unfolding window_rows
  window_rows-IsPrivateWindowRow r id [] p a h = tt
  window_rows-IsPrivateWindowRow r id (w ∷ ws) p a ((key, label), hs) =
      ((p, a, key, label), window_rows-IsPrivateWindowRow r (suc id) ws p a hs)

  store_report-IsPrivateQuotas :
      (r : QuotaReport F) (t : QuotaTables F)
      → PrivateReport r
      → IsPrivateQuotas t
      → IsPrivateQuotas (store_report F r t)
  unfolding store_report report_row
  store_report-IsPrivateQuotas r t (provider, account, plan, source, code, windows)
        (reports, stored) =
      let other =
        λ (x : ReportRow). not (is_account r.provider_id (or_empty r.account_fingerprint) x) in
      let older = λ (w : WindowRow F).
        not (is_of F r.provider_id (or_empty r.account_fingerprint) r.collected_at w) in
      (
        All-append IsPrivateReportRow (filter other t.reports) (report_row F r ∷ [])
            (All-filter IsPrivateReportRow other t.reports reports)
            ((provider, account, plan, source, code), tt),
        All-append IsPrivateWindowRow (filter older t.windows) (window_rows F r t.next_id r.windows)
            (All-filter IsPrivateWindowRow older t.windows stored)
            (window_rows-IsPrivateWindowRow r t.next_id r.windows provider account windows),
      )

  upsert_over-IsPrivateQuotas :
      (r : QuotaReport F) (t : QuotaTables F) (o : Option ReportRow)
      → PrivateReport r
      → IsPrivateQuotas t
      → IsPrivateQuotas (upsert_over F r t o).0
  upsert_over-IsPrivateQuotas r t o h k = elim (upsert_over-cases F r t o) [
    | inl same ↦ rw same k
    | inr stored ↦ rw stored.0 (store_report-IsPrivateQuotas r t h k)
  ]

  pub upsert_report-IsPrivateQuotas :
      (r : QuotaReport F) (t : QuotaTables F)
      → PrivateReport r
      → IsPrivateQuotas t
      → IsPrivateQuotas (upsert_report F r t).0
  unfolding upsert_report
  upsert_report-IsPrivateQuotas r t h k =
      upsert_over-IsPrivateQuotas r t
        (stored_row F r.provider_id (or_empty r.account_fingerprint) t) h k
