-- ===== src/Storage/Quotas.antt =====
-- crates/storage/src/repositories/quota_repository.rs: the tables `quota_reports` and
-- `quota_windows` as their rows, in the order of their insertion, which is that of their ids. A time
-- is its instant, and a `u64` stays the same through the column's `i64`.
pub mod Columns
pub mod Read
pub mod Kept
use lnwdeck.Prelude.{
  ℕ, suc, ◌+◌, Bool, true, false, not, ◌&&◌, ◌||◌, Option, none, some, List, [], ◌∷◌, ◌++◌, map,
  find, filter, any, is_nil, if◌then◌else◌, ltb, leb, ◌==◌, length,
}
use lnwdeck.Prelude.Text.{Text, codes, text_eq}
use lnwdeck.Domain.Float.{F64}
use lnwdeck.Domain.Usage.{Instant}
use lnwdeck.Domain.Quota.{QuotaReport, QuotaWindow, QuotaStatus}
use lnwdeck.Domain.Quota.Status.{is_usable, is_error}
use lnwdeck.Storage.Quotas.Columns.{
  status_to_str, parse_status, scope_to_str, parse_scope, kind_to_str, parse_kind,
  confidence_to_str, parse_confidence,
}

pub data QuotaUpsert : Type 0 where
  inserted replaced skipped : QuotaUpsert

pub record ReportRow : Type 0 where
  pub provider_id : Text
  pub account_fingerprint : Text
  pub plan : Text
  pub status : Text
  pub source : Text
  pub collected_at : Instant
  pub stale_at : Instant
  pub error_code : Option Text

-- `as_deref().unwrap_or("")`, and back `(!value.is_empty()).then_some(value)`
abbrev pub or_empty : Option Text → Text
or_empty none = []
or_empty (some s) = s

unfoldable pub nonempty : Text → Option Text
nonempty value = if is_nil value then none else some value

abbrev pub is_account : Text → Text → ReportRow → Bool
is_account provider account r =
    text_eq r.provider_id provider && text_eq r.account_fingerprint account

module _ (F : F64) where
  pub record WindowRow : Type 0 where
    pub id : ℕ
    pub provider_id : Text
    pub account_fingerprint : Text
    pub window_key : Text
    pub label : Text
    pub scope : Text
    pub kind : Text
    pub used : ℕ
    pub limit : Option ℕ
    pub remaining : Option ℕ
    pub used_percent : Option F.Carrier
    pub remaining_percent : Option F.Carrier
    pub reset_at : Option Instant
    pub is_unlimited : Bool
    pub confidence : Text
    pub collected_at : Instant

  pub record QuotaTables : Type 0 where
    pub reports : List ReportRow
    pub windows : List WindowRow
    pub next_id : ℕ

  -- `provider_id = ?1 AND account_fingerprint = ?2 AND collected_at = ?3`
  abbrev pub is_of : Text → Text → Instant → WindowRow → Bool
  is_of provider account collected_at w =
      (text_eq w.provider_id provider && text_eq w.account_fingerprint account)
      && w.collected_at == collected_at

  -- The two rows that `upsert_report` inserts.
  unfoldable pub report_row : QuotaReport F → ReportRow
  unfolding status_to_str
  report_row r = record {
    provider_id = r.provider_id;
    account_fingerprint = or_empty r.account_fingerprint;
    plan = or_empty r.plan;
    status = status_to_str r.status;
    source = r.source;
    collected_at = r.collected_at;
    stale_at = r.stale_at;
    error_code = r.error_code;
  }

  -- What SQLite holds of an `f64` in a REAL column: a NaN is NULL.
  unfoldable pub real_column : Option F.Carrier → Option F.Carrier
  real_column none = none
  real_column (some x) = if F.is_nan x then none else some x

  unfoldable pub window_row : QuotaReport F → ℕ → QuotaWindow F → WindowRow
  unfolding scope_to_str kind_to_str confidence_to_str real_column
  window_row r id w = record {
    id = id;
    provider_id = r.provider_id;
    account_fingerprint = or_empty r.account_fingerprint;
    window_key = w.window_key;
    label = w.label;
    scope = scope_to_str w.scope;
    kind = kind_to_str w.kind;
    used = w.used;
    limit = w.limit;
    remaining = w.remaining;
    used_percent = real_column w.used_percent;
    remaining_percent = real_column w.remaining_percent;
    reset_at = w.reset_at;
    is_unlimited = w.is_unlimited;
    confidence = confidence_to_str w.confidence;
    collected_at = r.collected_at;
  }

  -- The loop over the windows.
  unfoldable pub window_rows : QuotaReport F → ℕ → List (QuotaWindow F) → List WindowRow
  unfolding window_row
  window_rows r id [] = []
  window_rows r id (w ∷ ws) = window_row r id w ∷ window_rows r (suc id) ws

  -- The transaction of `upsert_report`.
  unfoldable pub store_report : QuotaReport F → QuotaTables → QuotaTables
  unfolding report_row window_rows text_eq
  store_report r t = record {
    reports =
        filter (λ x. not (is_account r.provider_id (or_empty r.account_fingerprint) x)) t.reports
        ++ report_row r ∷ [];
    windows =
        filter (λ w. not (is_of r.provider_id (or_empty r.account_fingerprint) r.collected_at w))
          t.windows
        ++ window_rows r t.next_id r.windows;
    next_id = t.next_id + length r.windows;
  }

  -- The `match` on the row that is stored for the account.
  unfoldable pub upsert_over :
      QuotaReport F → QuotaTables → Option ReportRow → QuotaTables × QuotaUpsert
  unfolding store_report is_error is_usable parse_status
  upsert_over r t none = (store_report r t, inserted)
  upsert_over r t (some stored) =
      if is_error r.status && is_usable (parse_status stored.status)
      then (t, skipped)
      else if ltb r.collected_at stored.collected_at
      then (t, replaced)
      else (store_report r t, inserted)

  abbrev pub stored_row : Text → Text → QuotaTables → Option ReportRow
  stored_row provider account t = find (is_account provider account) t.reports

  unfoldable pub upsert_report : QuotaReport F → QuotaTables → QuotaTables × QuotaUpsert
  unfolding upsert_over text_eq
  upsert_report r t = upsert_over r t (stored_row r.provider_id (or_empty r.account_fingerprint) t)

  unfoldable pub window_of : WindowRow → QuotaWindow F
  unfolding parse_scope parse_kind parse_confidence
  window_of w = record {
    window_key = w.window_key;
    label = w.label;
    scope = parse_scope w.scope;
    kind = parse_kind w.kind;
    used = w.used;
    limit = w.limit;
    remaining = w.remaining;
    used_percent = w.used_percent;
    remaining_percent = w.remaining_percent;
    reset_at = w.reset_at;
    is_unlimited = w.is_unlimited;
    confidence = parse_confidence w.confidence;
  }

  unfoldable pub windows_for : Text → Text → Instant → QuotaTables → List (QuotaWindow F)
  unfolding window_of text_eq
  windows_for provider account collected_at t =
      map window_of (filter (is_of provider account collected_at) t.windows)

  -- The report of a row, as `latest_report` and `latest_all` build it.
  unfoldable pub report_of : QuotaTables → ReportRow → QuotaReport F
  unfolding nonempty parse_status windows_for
  report_of t row = record {
    provider_id = row.provider_id;
    account_fingerprint = nonempty row.account_fingerprint;
    plan = nonempty row.plan;
    status = parse_status row.status;
    source = row.source;
    collected_at = row.collected_at;
    stale_at = row.stale_at;
    error_code = row.error_code;
    windows = windows_for row.provider_id row.account_fingerprint row.collected_at t;
  }

  -- `status = 'fresh' AND stale_at < ?1`
  unfoldable pub mark_rows : Instant → List ReportRow → List ReportRow
  unfolding text_eq
  mark_rows cutoff [] = []
  mark_rows cutoff (r ∷ rows) =
      (if text_eq r.status (codes "fresh") && ltb r.stale_at cutoff
        then record r { status = codes "stale" }
        else r)
      ∷ mark_rows cutoff rows

  unfoldable pub mark_stale : Instant → QuotaTables → QuotaTables × ℕ
  unfolding mark_rows
  mark_stale cutoff t = (
    record t { reports = mark_rows cutoff t.reports },
    length (filter (λ r. text_eq r.status (codes "fresh") && ltb r.stale_at cutoff) t.reports),
  )

  abbrev pub same_series : WindowRow → WindowRow → Bool
  same_series v w =
      (text_eq v.provider_id w.provider_id && text_eq v.account_fingerprint w.account_fingerprint)
      && text_eq v.window_key w.window_key

  -- The row has the greatest id of its provider, account and window key.
  abbrev pub is_latest : List WindowRow → WindowRow → Bool
  is_latest rows w = not (any (λ v. same_series v w && ltb w.id v.id) rows)

  unfoldable pub prune : Instant → QuotaTables → QuotaTables × ℕ
  unfolding text_eq
  prune before t =
      let goes = λ (w : WindowRow). ltb w.collected_at before && not (is_latest t.windows w) in
      (record t { windows = filter (λ w. not (goes w)) t.windows }, length (filter goes t.windows))
