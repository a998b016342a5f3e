-- ===== src/Application/Quota/Honest.antt =====
-- What the cards of a provider show of its stored reports.
use lnwdeck.Prelude.{
  ℕ, suc, max, ◌+◌, ◌≡◌, refl, ap, ◌∙◌, Bool, true, false, Option, none, some, List, [], ◌∷◌,
  if◌then◌else◌, arith, ◌⊎◌, inl, inr, All, length, ltb, is_some,
}
use lnwdeck.Prelude.Text.{Text, text_eq}
use lnwdeck.Domain.Float.{F64}
use lnwdeck.Domain.Usage.{Instant}
use lnwdeck.Domain.Quota.{QuotaReport, unavailable}
use lnwdeck.Runtime.Descriptor.{AdapterDescriptor, is_supported}
use lnwdeck.Storage.Rows.{ProviderStateRow, CollectorRunRow}
use lnwdeck.Application.Quota.{
  ProviderConnectionState, ProviderQuotaCard, connected, not_detected, not_configured,
  permission_required, auth_expired, rate_limited, transient_error, not_supported,
  connection_state_for, is_some_and, non_empty, or_else, is_connected, card_from_descriptor,
  card_from_effective, effective_report, state_error_code,
}
use lnwdeck.Application.Quota.Cards.{
  aged, report_cards, descriptor_cards, requires_ide, state_of, quota_run_of,
}
use lnwdeck.Application.Quota.Connected.{connection_state_for-connected}

is_connected-or_code :
    (c : ProviderConnectionState)
    → (c ≡ connected) ⊎ ((is_connected c ≡ false) × (is_some (state_error_code c) ≡ true))
unfolding state_error_code
is_connected-or_code connected = inl refl
is_connected-or_code not_detected = inr (refl, refl)
is_connected-or_code not_configured = inr (refl, refl)
is_connected-or_code permission_required = inr (refl, refl)
is_connected-or_code auth_expired = inr (refl, refl)
is_connected-or_code rate_limited = inr (refl, refl)
is_connected-or_code transient_error = inr (refl, refl)
is_connected-or_code not_supported = inr (refl, refl)

is_some-or_else :
    (first second : Option Text) → is_some second ≡ true → is_some (or_else first second) ≡ true
is_some-or_else none second h = h
is_some-or_else (some x) second h = refl

module _ (F : F64) where
  -- A card that shows nothing of a report, and gives a reason.
  abbrev pub IsBlank : ProviderQuotaCard F → Type 0
  IsBlank card =
      (card.windows ≡ [])
      × (card.status ≡ unavailable)
      × (card.plan ≡ none)
      × (is_some card.error_code ≡ true)

  abbrev pub IsHonest : AdapterDescriptor → ProviderQuotaCard F → Type 0
  IsHonest d card =
      (card.provider_id ≡ d.id)
      × (((card.connection_state ≡ connected) × (is_supported d.quota_support ≡ true))
          ⊎ IsBlank card)

  card_from_effective-state :
      (now : Instant) (d : AdapterDescriptor) (report : Option (QuotaReport F))
      (c : ProviderConnectionState) (index : Option ℕ) (run : Option CollectorRunRow)
      → ((card_from_effective F now d report c index run).connection_state ≡ c)
        × ((card_from_effective F now d report c index run).provider_id ≡ d.id)
  unfolding card_from_effective
  card_from_effective-state now d none c index run = (refl, refl)
  card_from_effective-state now d (some report) c index run = (refl, refl)

  card_from_descriptor-IsHonest :
      (now : Instant) (d : AdapterDescriptor) (state : Option ProviderStateRow)
      (report : Option (QuotaReport F)) (index : Option ℕ) (run : Option CollectorRunRow)
      → IsHonest d (
          card_from_descriptor F now d report (connection_state_for F d state run report) index run)
  unfolding card_from_descriptor
  card_from_descriptor-IsHonest now d state report index run =
      let c = connection_state_for F d state run report in
      let (kept, id) = card_from_effective-state now d (effective_report F report c) c index run in
      (
        id,
        elim (is_connected-or_code c) [
          | inl e ↦ inl (kept ∙ e, (connection_state_for-connected F d state run report e).0)
          | inr (e, code) ↦ inr (
              rw (effective_report, e)
                (
                  refl,
                  refl,
                  refl,
                  is_some-or_else (elim run [ none ↦ none | some r ↦ non_empty r.error_code ])
                      (state_error_code c) code,
                ))
        ],
      )

  report_cards-IsHonest :
      (now : Instant) (d : AdapterDescriptor) (state : Option ProviderStateRow)
      (run : Option CollectorRunRow) (many : Bool) (index : ℕ) (reports : List (QuotaReport F))
      → All (IsHonest d) (report_cards F now d state run many index reports)
        × (length (report_cards F now d state run many index reports) ≡ length reports)
  unfolding report_cards
  report_cards-IsHonest now d state run many index [] = (tt, refl)
  report_cards-IsHonest now d state run many index (stored ∷ rest) =
      let shown = aged F (is_some_and (λ r. text_eq r.error_code requires_ide) run) stored in
      let (honest, count) = report_cards-IsHonest now d state run many (suc index) rest in
      (
        (
          card_from_descriptor-IsHonest now d state (some shown)
              (if many then some (index + 1) else none) run,
          honest,
        ),
        ap suc count,
      )

  -- A provider has one card for each of its reports, and one if it has none. Each card is the
  -- provider's; it is connected, and then the quota channel is supported, or else it shows no windows
  -- and no plan, is unavailable, and has an error code.
  pub descriptor_cards-IsHonest :
      (now : Instant) (d : AdapterDescriptor) (states : List ProviderStateRow)
      (runs : List CollectorRunRow) (reports : List (QuotaReport F))
      → All (IsHonest d) (descriptor_cards F now d states runs reports)
        × (length (descriptor_cards F now d states runs reports) ≡ max 1 (length reports))
  unfolding descriptor_cards
  descriptor_cards-IsHonest now d states runs [] = (
    (
      card_from_descriptor-IsHonest now d (state_of d.id states) none none (quota_run_of d.id runs),
      tt,
    ),
    refl,
  )
  descriptor_cards-IsHonest now d states runs (report ∷ rest) =
      let (honest, count) =
        report_cards-IsHonest now d (state_of d.id states) (quota_run_of d.id runs)
          (ltb 1 (length (report ∷ rest))) 0 (report ∷ rest) in
      (honest, count ∙ (omega arith))
