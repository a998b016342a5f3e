-- ===== src/Domain/Quota/Window.antt =====
-- `impl QuotaWindow` of crates/domain/src/quota.rs; an error of `check_invariants` is a constructor.
use lnwdeck.Prelude.{
  ℕ, ◌-◌, Bool, true, false, not, Option, none, some, ◌==◌, Result, ok, err, ◌>>◌, refuse, is_some,
}
use lnwdeck.Prelude.Text.{Text, codes}
use lnwdeck.Domain.Float.{F64, is_percent}
use lnwdeck.Domain.Usage.{Confidence, Instant, high}
use lnwdeck.Domain.Quota.{QuotaWindow, QuotaWindowScope, QuotaKind}

pub data Violation : Type 0 where
  unlimited_with_percentage percentage_out_of_range wrong_sum unlimited_with_limit : Violation
  limit_is_zero wrong_remaining partly_set : Violation

module _ (F : F64) where
  -- `limit` is a `NonZeroU64`; its theorems have `1 ≤ limit`.
  unfoldable pub with_limit :
      Text
      → Text
      → QuotaWindowScope
      → QuotaKind
      → ℕ
      → ℕ
      → Option Instant
      → Confidence
      → QuotaWindow F
  with_limit window_key label scope kind used limit reset_at confidence =
      let used_percent = F.clamp (F.mul (F.div (F.of_u64 used) (F.of_u64 limit)) F.hundred) in
      record {
        window_key = window_key;
        label = label;
        scope = scope;
        kind = kind;
        used = used;
        limit = some limit;
        remaining = some (limit - used);
        used_percent = some used_percent;
        remaining_percent = some (F.sub F.hundred used_percent);
        reset_at = reset_at;
        is_unlimited = false;
        confidence = confidence;
      }

  unfoldable pub from_percent :
      Text
      → Text
      → QuotaWindowScope
      → QuotaKind
      → F.Carrier
      → Option Instant
      → Confidence
      → QuotaWindow F
  from_percent window_key label scope kind used_percent reset_at confidence =
      let used = F.clamp used_percent in
      record {
        window_key = window_key;
        label = label;
        scope = scope;
        kind = kind;
        used = 0;
        limit = none;
        remaining = none;
        used_percent = some used;
        remaining_percent = some (F.sub F.hundred used);
        reset_at = reset_at;
        is_unlimited = false;
        confidence = confidence;
      }

  unfoldable pub usage_only :
      Text → Text → QuotaWindowScope → QuotaKind → ℕ → Option Instant → Confidence → QuotaWindow F
  usage_only window_key label scope kind used reset_at confidence = record {
    window_key = window_key;
    label = label;
    scope = scope;
    kind = kind;
    used = used;
    limit = none;
    remaining = none;
    used_percent = none;
    remaining_percent = none;
    reset_at = reset_at;
    is_unlimited = false;
    confidence = confidence;
  }

  unfoldable pub unlimited : QuotaWindowScope → QuotaKind → QuotaWindow F
  unlimited scope kind = record {
    window_key = codes "unlimited";
    label = codes "Unlimited";
    scope = scope;
    kind = kind;
    used = 0;
    limit = none;
    remaining = none;
    used_percent = none;
    remaining_percent = none;
    reset_at = none;
    is_unlimited = true;
    confidence = high;
  }

  unfoldable pub limit_known : QuotaWindow F → Bool
  limit_known w = is_some w.limit

  -- The checks of a window's percentages, which two arms of `check_invariants` share.
  abbrev pub check_percentages : F.Carrier → F.Carrier → Result Violation (Unit {0})
  check_percentages used_percent remaining_percent = do
    refuse (not (is_percent F used_percent)) percentage_out_of_range
    refuse (F.lt F.tolerance (F.abs (F.sub (F.add used_percent remaining_percent) F.hundred)))
        wrong_sum

  -- The `match` of `check_invariants`, on the four fields.
  unfoldable pub check_fields :
      QuotaWindow F
      → Option ℕ
      → Option ℕ
      → Option F.Carrier
      → Option F.Carrier
      → Result Violation (Unit {0})
  check_fields w none none none none = ok tt
  check_fields w none none (some used_percent) (some remaining_percent) = do
    refuse w.is_unlimited unlimited_with_percentage
    check_percentages used_percent remaining_percent
  check_fields w (some limit) (some remaining) (some used_percent) (some remaining_percent) = do
    refuse w.is_unlimited unlimited_with_limit
    refuse (limit == 0) limit_is_zero
    refuse (not (remaining == (limit - w.used))) wrong_remaining
    check_percentages used_percent remaining_percent
  check_fields w _ _ _ _ = err partly_set

  unfoldable pub check_invariants : QuotaWindow F → Result Violation (Unit {0})
  unfolding check_fields
  check_invariants w = check_fields w w.limit w.remaining w.used_percent w.remaining_percent
