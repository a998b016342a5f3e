-- ===== src/Application/Refresh/Cursors.antt =====
-- Which cursor and which batch a collection gives.
use lnwdeck.Prelude.{
  ◌≡◌, refl, ◌∙◌, Bool, true, false, not, ◌||◌, Option, none, if◌then◌else◌, Result, err,
  Bool-cases, inl, inr,
}
use lnwdeck.Prelude.Text.{Text}
use lnwdeck.Domain.Float.{F64}
use lnwdeck.Runtime.Adapter.{ProviderAdapter}
use lnwdeck.Domain.Usage.{UsageBatch}
use lnwdeck.Runtime.Descriptor.{is_supported}
use lnwdeck.Runtime.Collection.{not_supported_code}
use lnwdeck.Runtime.Adapter.Collected.{batch_of, collect_usage_with_cursor-recorded}
use lnwdeck.Application.Refresh.{Readings, collect_one, is_absent, is_full_scan}

supported_batch :
    (supported : Bool) (call : Result Text UsageBatch)
    → batch_of (if supported then call else err not_supported_code)
      ≡ (if not supported then none else batch_of call)
supported_batch true call = refl
supported_batch false call = refl

module _ (F : F64) where
  -- There is no next cursor where detection finds the source neither detected nor existing, and for
  -- the two providers that are scanned in full; else it is the given one. There is no batch
  -- where the source is not there or the usage channel is unsupported; else it is what
  -- `collect_usage` returns, if that is not an error.
  pub collect_one-next_cursor :
      (u q : Readings) (a : ProviderAdapter F) (cursor fingerprint : Option Text)
      → let c = collect_one F u q a cursor fingerprint in
        (c.usage.next_cursor
          ≡ (if is_absent a.detect || is_full_scan a.descriptor.id then none else cursor))
        × (c.usage.batch ≡ (
            if is_absent a.detect || not (is_supported a.descriptor.usage_support)
            then none
            else batch_of a.collect_usage))
  unfolding collect_one
  collect_one-next_cursor u q a cursor fingerprint =
      let given = if is_full_scan a.descriptor.id then none else cursor in
      let usage = collect_usage_with_cursor-recorded F u.started u.finished u.now a given in
      elim (Bool-cases (is_absent a.detect)) [
        | inl e ↦ rw e (refl, refl)
        | inr e ↦ rw e (
          usage.4,
          usage.0 ∙ supported_batch (is_supported a.descriptor.usage_support) a.collect_usage,
        )
      ]
