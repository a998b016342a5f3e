-- ===== src/Storage/Quotas/Kept.antt =====
-- No report that `upsert_report` is given makes the stored one of an account older or worse.
use lnwdeck.Prelude.{
  ◌≤◌, ◌≡◌, ◌⊎◌, refl, sym, Bool, true, false, not, ◌&&◌, Option, none, some, if◌then◌else◌, arith,
  ltb, Bool-cases, inl, inr, &&-true, find-filter-not-append, find-filter-append,
}
use mathlib.Core.Option.{some-injective}
use lnwdeck.Prelude.Text.{Text, text_eq, text_eq_sound, text_eq_refl}
use lnwdeck.Domain.Float.{F64}
use lnwdeck.Domain.Quota.{QuotaReport, QuotaStatus}
use lnwdeck.Domain.Quota.Status.{is_usable, is_error}
use lnwdeck.Storage.Quotas.Columns.{parse_status, parse_status-status_to_str}
use lnwdeck.Storage.Quotas.{
  ReportRow, QuotaTables, or_empty, is_account, report_row, store_report, upsert_over,
  upsert_report, stored_row,
}

-- The second row is at least as new, and no failure over a usable one.
abbrev pub IsNoWorse : ReportRow → ReportRow → Type 0
IsNoWorse old new =
    old.collected_at ≤ new.collected_at
    × (is_usable (parse_status old.status) && is_error (parse_status new.status)) ≡ false

IsNoWorse-refl : (row : ReportRow) → IsNoWorse row row
unfolding is_usable is_error
IsNoWorse-refl row = (omega arith, never (parse_status row.status))
  where
    never : (s : QuotaStatus) → (is_usable s && is_error s) ≡ false
    never s = ground arith

is_account_sound :
    (p a : Text) (x : ReportRow)
    → is_account p a x ≡ true
    → (x.provider_id ≡ p) × (x.account_fingerprint ≡ a)
is_account_sound p a x h =
    let both = &&-true (text_eq x.provider_id p) (text_eq x.account_fingerprint a) h in
    (text_eq_sound x.provider_id p both.0, text_eq_sound x.account_fingerprint a both.1)

is_account-same :
    (p a : Text) (x y : ReportRow)
    → is_account p a x ≡ true
    → is_account p a y ≡ false
    → not (is_account y.provider_id y.account_fingerprint x) ≡ true
is_account-same p a x y h k = elim (Bool-cases (is_account y.provider_id y.account_fingerprint x)) [
  | inl e ↦
      let of_p = is_account_sound p a x h in
      let of_y = is_account_sound y.provider_id y.account_fingerprint x e in
      cc (of_p.0, of_p.1, of_y.0, of_y.1, e, k)
  | inr e ↦ rw e refl
]

module _ (F : F64) where
  is_account-report_row :
      (r : QuotaReport F)
      → is_account r.provider_id (or_empty r.account_fingerprint) (report_row F r) ≡ true
  unfolding report_row
  is_account-report_row r =
      rw (text_eq_refl r.provider_id, text_eq_refl (or_empty r.account_fingerprint)) refl

  -- What is stored for an account after a report of it is stored.
  stored_row-store_report :
      (r : QuotaReport F) (t : QuotaTables F) (p a : Text)
      → stored_row F p a (store_report F r t)
        ≡ (if is_account p a (report_row F r) then some (report_row F r) else stored_row F p a t)
  unfolding store_report report_row
  stored_row-store_report r t p a =
      let its = is_account r.provider_id (or_empty r.account_fingerprint) in
      elim (Bool-cases (is_account p a (report_row F r))) [
        | inl e ↦
            let same = is_account_sound p a (report_row F r) e in
            let found =
              find-filter-not-append its t.reports (report_row F r) (is_account-report_row r) in
            rw (e, sym same.0, sym same.1) found
        | inr e ↦ rw e (
            find-filter-append (is_account p a) (λ x. not (its x)) t.reports (report_row F r)
              (λ x k. is_account-same p a x (report_row F r) k e) e)
      ]

  IsNoWorse-report_row :
      (r : QuotaReport F) (row : ReportRow)
      → (is_error r.status && is_usable (parse_status row.status)) ≡ false
      → ltb r.collected_at row.collected_at ≡ false
      → IsNoWorse row (report_row F r)
  unfolding report_row
  IsNoWorse-report_row r row h k = (
    ground arith,
    rw (parse_status-status_to_str r.status)
        (flip (is_error r.status) (is_usable (parse_status row.status)) h),
  )
    where
      flip : (x y : Bool) → (x && y) ≡ false → (y && x) ≡ false
      flip x y e = ground arith

  -- Storing replaces the row of no better report.
  pub upsert_over-cases :
      (r : QuotaReport F) (t : QuotaTables F) (o : Option ReportRow)
      → ((upsert_over F r t o).0 ≡ t)
        ⊎ (((upsert_over F r t o).0 ≡ store_report F r t)
            × ((old : ReportRow) → o ≡ some old → IsNoWorse old (report_row F r)))
  unfolding upsert_over
  upsert_over-cases r t none = inr (refl, λ old e. ground arith)
  upsert_over-cases r t (some row) =
      elim (Bool-cases (is_error r.status && is_usable (parse_status row.status))) [
        | inl e ↦ inl (rw e refl)
        | inr e ↦ elim (Bool-cases (ltb r.collected_at row.collected_at)) [
          | inl k ↦ inl (rw (e, k) refl)
          | inr k ↦ inr (
            rw (e, k) refl,
            λ old same. rw (sym (some-injective row old same)) (IsNoWorse-report_row r row e k),
          )
        ]
      ]

  -- Whatever report is stored, an account that has a row keeps one. It is no older than the row
  -- before, and it is no failure when that was usable.
  pub stored_row-upsert_report :
      (r : QuotaReport F) (t : QuotaTables F) (p a : Text) (old : ReportRow)
      → stored_row F p a t ≡ some old
      → (new : ReportRow) × (stored_row F p a (upsert_report F r t).0 ≡ some new)
        × IsNoWorse old new
  unfolding upsert_report report_row
  stored_row-upsert_report r t p a old h =
      elim (upsert_over-cases r t (stored_row F r.provider_id (or_empty r.account_fingerprint) t)) [
        | inl e ↦ (old, rw e h, IsNoWorse-refl old)
        | inr stored ↦ elim (Bool-cases (is_account p a (report_row F r))) [
          | inl e ↦ (
            report_row F r,
            rw (stored.0, stored_row-store_report r t p a, e) refl,
            let same = is_account_sound p a (report_row F r) e in
                stored.1 old (rw (same.0, same.1) h),
          )
          | inr e ↦ (old, rw (stored.0, stored_row-store_report r t p a, e) h, IsNoWorse-refl old)
        ]
      ]
