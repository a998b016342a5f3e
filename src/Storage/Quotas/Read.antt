-- ===== src/Storage/Quotas/Read.antt =====
-- What is read back of a report that was stored.
use lnwdeck.Prelude.{
  ℕ, suc, ◌≡◌, if◌then◌else◌, refl, ap, true, not, Option, none, some, List, [], ◌∷◌, map, filter,
  arith, ==_iff, filter-append, filter-filter-not, find-filter-not-append,
}
use mathlib.Core.Option
use lnwdeck.Prelude.Text.{text_eq_refl}
use lnwdeck.Domain.Float.{F64}
use lnwdeck.Domain.Quota.{QuotaReport, QuotaWindow}
use lnwdeck.Storage.Quotas.Columns.{
  parse_status-status_to_str, parse_scope-scope_to_str, parse_kind-kind_to_str,
  parse_confidence-confidence_to_str,
}
use lnwdeck.Storage.Quotas.{
  ReportRow, QuotaTables, inserted, real_column, or_empty, nonempty, is_account, is_of, report_row,
  window_row, window_rows, store_report, upsert_over, upsert_report, stored_row, window_of,
  windows_for, report_of,
}

module _ (F : F64) where
  -- A window after its storing: a percentage that is a NaN is lost.
  abbrev pub without_nan : Option F.Carrier → Option F.Carrier
  without_nan percent = elim percent [ none ↦ none | some x ↦ if F.is_nan x then none else some x ]

  abbrev pub kept_window : QuotaWindow F → QuotaWindow F
  kept_window w = record w {
    used_percent = without_nan w.used_percent;
    remaining_percent = without_nan w.remaining_percent;
  }

  real_column-without_nan :
      (percent : Option F.Carrier) → real_column F percent ≡ without_nan percent
  unfolding real_column
  real_column-without_nan none = refl
  real_column-without_nan (some x) = refl

  window_of-window_row :
      (r : QuotaReport F) (id : ℕ) (w : QuotaWindow F)
      → window_of F (window_row F r id w) ≡ kept_window w
  unfolding window_of window_row
  window_of-window_row r id w = λ i. record w {
    scope = parse_scope-scope_to_str w.scope i;
    kind = parse_kind-kind_to_str w.kind i;
    used_percent = real_column-without_nan w.used_percent i;
    remaining_percent = real_column-without_nan w.remaining_percent i;
    confidence = parse_confidence-confidence_to_str w.confidence i;
  }

  is_of-window_row :
      (r : QuotaReport F) (id : ℕ) (w : QuotaWindow F)
      → is_of F r.provider_id (or_empty r.account_fingerprint) r.collected_at (window_row F r id w)
        ≡ true
  unfolding window_row
  is_of-window_row r id w =
      rw (text_eq_refl r.provider_id, text_eq_refl (or_empty r.account_fingerprint))
        ((==_iff r.collected_at r.collected_at).1 refl)

  windows_of-window_rows :
      (r : QuotaReport F) (id : ℕ) (ws : List (QuotaWindow F))
      → map (window_of F) (
          filter
            (is_of F r.provider_id (or_empty r.account_fingerprint) r.collected_at)
            (window_rows F r id ws))
        ≡ map kept_window ws
  unfolding window_rows
  windows_of-window_rows r id [] = refl
  windows_of-window_rows r id (w ∷ ws) =
      let ih = windows_of-window_rows r (suc id) ws in
      let same = window_of-window_row r id w in
      let found = is_of-window_row r id w in rw found (cc (same, ih))

  upsert_over-inserted :
      (r : QuotaReport F) (t : QuotaTables F) (stored : Option ReportRow)
      → (upsert_over F r t stored).1 ≡ inserted
      → (upsert_over F r t stored).0 ≡ store_report F r t
  unfolding upsert_over
  upsert_over-inserted r t none h = refl
  upsert_over-inserted r t (some row) h = ground arith

  is_account-report_row :
      (r : QuotaReport F)
      → is_account r.provider_id (or_empty r.account_fingerprint) (report_row F r) ≡ true
  unfolding report_row
  is_account-report_row r =
      rw (text_eq_refl r.provider_id, text_eq_refl (or_empty r.account_fingerprint)) refl

  stored_row-store_report :
      (r : QuotaReport F) (t : QuotaTables F)
      → stored_row F r.provider_id (or_empty r.account_fingerprint) (store_report F r t)
        ≡ some (report_row F r)
  unfolding store_report
  stored_row-store_report r t =
      find-filter-not-append (is_account r.provider_id (or_empty r.account_fingerprint)) t.reports
        (report_row F r) (is_account-report_row r)

  windows_for-store_report :
      (r : QuotaReport F) (t : QuotaTables F)
      → windows_for F r.provider_id
          (or_empty r.account_fingerprint)
          r.collected_at
          (store_report F r t)
        ≡ map kept_window r.windows
  unfolding store_report windows_for
  windows_for-store_report r t =
      let its = is_of F r.provider_id (or_empty r.account_fingerprint) r.collected_at in
      rw
        (
          filter-append its (filter (λ w. not (its w)) t.windows)
              (window_rows F r t.next_id r.windows),
          filter-filter-not its t.windows,
        )
        (windows_of-window_rows r t.next_id r.windows)

  report_of-store_report :
      (r : QuotaReport F) (t : QuotaTables F)
      → report_of F (store_report F r t) (report_row F r) ≡ record r {
        account_fingerprint = nonempty (or_empty r.account_fingerprint);
        plan = nonempty (or_empty r.plan);
        windows = map kept_window r.windows;
      }
  unfolding report_of report_row
  report_of-store_report r t =
      rw (windows_for-store_report r t, parse_status-status_to_str r.status) refl

  -- A report whose storing inserted it is read back from the row of its account: every field and
  -- every window is as it was, in order, but an empty fingerprint or plan is read as none, and so is
  -- a percentage that is a NaN.
  pub upsert_report-report_of :
      (r : QuotaReport F) (t : QuotaTables F)
      → (upsert_report F r t).1 ≡ inserted
      → Option.map
          (report_of F (upsert_report F r t).0)
          (stored_row F r.provider_id (or_empty r.account_fingerprint) (upsert_report F r t).0)
        ≡ some (record r {
          account_fingerprint = nonempty (or_empty r.account_fingerprint);
          plan = nonempty (or_empty r.plan);
          windows = map kept_window r.windows;
        })
  unfolding upsert_report
  upsert_report-report_of r t h =
      let stored = stored_row F r.provider_id (or_empty r.account_fingerprint) t in
      let same = upsert_over-inserted r t stored h in
      rw (same, stored_row-store_report r t) (ap some (report_of-store_report r t))
