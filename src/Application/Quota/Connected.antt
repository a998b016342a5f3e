-- ===== src/Application/Quota/Connected.antt =====
-- When a provider is shown as connected, and what a card shows of one that is not.
use lnwdeck.Prelude.{
  ◌≡◌, refl, ap, Bool, true, false, not, ◌&&◌, Option, none, some, [], ◌∷◌, if◌then◌else◌, arith,
  ◌⊎◌, inl, inr, is_nil,
}
use lnwdeck.Prelude.Text.{Text, codes}
use lnwdeck.Domain.Float.{F64}
use lnwdeck.Domain.Quota.{QuotaReport}
use lnwdeck.Domain.Quota.Report.{is_usable}
use lnwdeck.Runtime.Descriptor.{AdapterDescriptor, is_supported}
use lnwdeck.Storage.Rows.{ProviderStateRow, CollectorRunRow}
use lnwdeck.Application.Quota.{
  ProviderConnectionState, connected, not_detected, not_configured, permission_required,
  auth_expired, rate_limited, transient_error, not_supported, connection_state_for,
  connection_error_code, state_of_code, state_of_source, is_one_of, is_some_and, is_none_or,
  is_present, is_absent, absence_codes,
}

-- The `match` of `state_of_code` with its tests as arguments: only one arm says connected.
decided :
    (unconfigured denied expired limited missing absent needs_ide usable other : Bool)
    → (if unconfigured
        then some not_configured
        else if denied
        then some permission_required
        else if expired
        then some auth_expired
        else if limited
        then some rate_limited
        else if missing
        then (if absent then some not_detected else some transient_error)
        else if needs_ide && usable
        then some connected
        else if other
        then some transient_error
        else none)
      ≡ some connected
    → usable ≡ true
decided true _ _ _ _ _ _ _ _ h = cc
decided false true _ _ _ _ _ _ _ h = cc
decided false false true _ _ _ _ _ _ h = cc
decided false false false true _ _ _ _ _ h = cc
decided false false false false true true _ _ _ h = cc
decided false false false false true false _ _ _ h = cc
decided false false false false false _ needs_ide true other h = refl
decided false false false false false _ true false true h = cc
decided false false false false false _ true false false h = cc
decided false false false false false _ false false true h = cc
decided false false false false false _ false false false h = cc

module _ (F : F64) where
  -- The source of the provider is there, or a usable report is.
  abbrev pub Evidence : Option ProviderStateRow → Option (QuotaReport F) → Type 0
  Evidence state report =
      (is_some_and is_present state ≡ true) ⊎ (is_some_and (is_usable F) report ≡ true)

  state_of_code-connected :
      (state : Option ProviderStateRow) (report : Option (QuotaReport F)) (code : Option Text)
      → state_of_code F state report code ≡ some connected
      → is_some_and (is_usable F) report ≡ true
  unfolding state_of_code
  state_of_code-connected state report none h = cc
  state_of_code-connected state report (some code) h =
      decided (is_one_of (codes "NOT_CONFIGURED" ∷ []) code)
        (is_one_of (codes "PERMISSION_DENIED" ∷ codes "ACCESS_DENIED" ∷ []) code)
        (is_one_of (codes "AUTH_EXPIRED" ∷ codes "AUTH_FAILED" ∷ codes "TOKEN_EXPIRED" ∷ []) code)
        (is_one_of (codes "RATE_LIMITED" ∷ codes "RATE_LIMIT" ∷ []) code)
        (is_one_of (codes "SOURCE_UNAVAILABLE" ∷ codes "NOT_INSTALLED" ∷ []) code)
        (is_none_or is_absent state) (is_one_of (codes "SOURCE_REQUIRES_IDE" ∷ []) code)
        (is_some_and (is_usable F) report)
        (not (is_nil code)
          && not (is_one_of (codes "NOT_SUPPORTED" ∷ codes "UNSUPPORTED" ∷ []) code))
        h

  state_of_source-connected :
      (d : AdapterDescriptor) (state : Option ProviderStateRow) (report : Option (QuotaReport F))
      → state_of_source F d state report ≡ connected
      → Evidence state report
  unfolding state_of_source
  state_of_source-connected d state report h = ground arith

  -- The two early returns and the `match` of `connection_state_for`, with its parts as arguments.
  resolved :
      (source_absent supported : Bool) (of_code : Option ProviderConnectionState)
      (of_source : ProviderConnectionState)
      → (if source_absent
          then not_detected
          else if not supported
          then not_supported
          else elim of_code [ some c ↦ c | none ↦ of_source ])
        ≡ connected
      → (supported ≡ true) × ((of_code ≡ some connected) ⊎ (of_source ≡ connected))
  resolved true supported of_code of_source h = cc
  resolved false false of_code of_source h = cc
  resolved false true none of_source h = (refl, inr h)
  resolved false true (some c) of_source h = (refl, inl (ap some h))

  -- A provider is shown as connected only where its quota channel is supported, and its source was
  -- detected or exists or the report is usable.
  pub connection_state_for-connected :
      (d : AdapterDescriptor) (state : Option ProviderStateRow) (run : Option CollectorRunRow)
      (report : Option (QuotaReport F))
      → connection_state_for F d state run report ≡ connected
      → (is_supported d.quota_support ≡ true) × Evidence state report
  unfolding connection_state_for
  connection_state_for-connected d state run report h =
      let source_absent =
        is_none_or is_absent state
        && is_none_or (λ value. is_some_and (is_one_of absence_codes) value.error_code) report in
      let of_code = state_of_code F state report (connection_error_code F state run report) in
      let (supported, why) =
        resolved source_absent (is_supported d.quota_support) of_code
          (state_of_source F d state report) h in
      (
        supported,
        elim why [
          | inl c ↦
              inr
                (state_of_code-connected state report (connection_error_code F state run report) c)
          | inr c ↦ state_of_source-connected d state report c
        ],
      )
