-- ===== src/Application/Quota/Aged.antt =====
-- What the reading of a stored report promises: its freshness is real, and the legacy reports are
-- hidden.
use lnwdeck.Prelude.{◌≤◌, ◌≡◌, refl, ap, true, not, ◌&&◌, leb, arith, Bool-cases, inl, inr}
use lnwdeck.Domain.Float.{F64}
use lnwdeck.Domain.Usage.{Instant}
use lnwdeck.Domain.Quota.{QuotaReport}
use lnwdeck.Application.Quota.{derive_read_time_status, is_fresh}

module _ (F : F64) where
  -- A stored report is read as fresh exactly when it was stored as fresh and its time is not over;
  -- its windows are the stored ones, and reading it again later from what was read changes nothing more than
  -- reading it later.
  pub derive_read_time_status-later :
      (r : QuotaReport F) (now later : Instant)
      → now ≤ later
      → (is_fresh ((derive_read_time_status F r now).status)
          ≡ (is_fresh r.status && not (leb r.stale_at now)))
        × ((derive_read_time_status F r now).windows ≡ r.windows)
        × (derive_read_time_status F (derive_read_time_status F r now) later
            ≡ derive_read_time_status F r later)
  unfolding derive_read_time_status
  derive_read_time_status-later r now later h = elim (Bool-cases (is_fresh r.status)) [
    | inl e ↦ elim (Bool-cases (leb r.stale_at now)) [
      | inl over ↦
          let over_later : leb r.stale_at later ≡ true = ground arith in
          (rw (e, over) refl, rw (e, over) refl, rw (e, over, over_later) refl)
      | inr open_still ↦
          let same : derive_read_time_status F r now ≡ r = rw (e, open_still) refl in
          (
            rw (e, open_still) e,
            rw (e, open_still) refl,
            ap (λ x. derive_read_time_status F x later) same,
          )
    ]
    | inr e ↦
        let same : derive_read_time_status F r now ≡ r = rw e refl in
        (rw e e, rw e refl, ap (λ x. derive_read_time_status F x later) same)
  ]
