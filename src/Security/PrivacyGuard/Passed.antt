-- ===== src/Security/PrivacyGuard/Passed.antt =====
-- The texts of a usage batch and of a quota report that passed the guard.
use lnwdeck.Prelude.{
  ◌≡◌, ◌⊎◌, refl, inl, inr, Bool, Option, none, some, List, [], ◌∷◌, All, All-map, ok,
}
use lnwdeck.Prelude.Text.{Text}
use lnwdeck.Json.{Value, null, bool, number, string, array, object, Fields, end, field}
use lnwdeck.Domain.Float.{F64}
use lnwdeck.Domain.Usage.{Instant, UsageEvent, UsageBatch}
use lnwdeck.Domain.Quota.{QuotaReport, QuotaWindow}
use lnwdeck.Domain.Serialized.{
  items_of, optional, event_value, batch_value, window_value, report_value,
}
use lnwdeck.Storage.Quotas.{or_empty}
use lnwdeck.Security.PrivacyGuard.{validate_value, validate_items, validate_fields}
use lnwdeck.Security.PrivacyGuard.Clean.{
  IsClean, validate_string-IsClean, items_parts, fields_parts,
}
use lnwdeck.Security.PrivacyGuard.Batches.{validate_usage_batch, validate_quota_report}

module _ (F : F64) (is_finite : F.Carrier → Bool) (rfc3339 : Instant → Text)
    (lower upper : Text → Text) where
  -- The text is empty, or the guard finds nothing in it.
  abbrev pub IsPrivate : Text → Type 0
  IsPrivate s = (s ≡ []) ⊎ IsClean lower upper s

  abbrev Passes : Fields F.Carrier → Type 0
  Passes end = Unit
  Passes (field k v fields) = (validate_value lower upper v ≡ ok tt) × Passes fields

  fields-Passes :
      (fields : Fields F.Carrier) → validate_fields lower upper fields ≡ ok tt → Passes fields
  fields-Passes end h = tt
  fields-Passes (field k v fields) h =
      let parts = (fields_parts lower upper k v fields).0 h in
      (parts.1, fields-Passes fields parts.2)

  abbrev text_value : Text → Value F.Carrier
  text_value s = string s

  string-IsPrivate : (s : Text) → validate_value lower upper (text_value s) ≡ ok tt → IsPrivate s
  unfolding validate_value
  string-IsPrivate s h = inr ((validate_string-IsClean lower upper s).0 h)

  optional-IsPrivate :
      (o : Option Text)
      → validate_value lower upper (optional F is_finite rfc3339 string o) ≡ ok tt
      → IsPrivate (or_empty o)
  optional-IsPrivate none h = inl refl
  optional-IsPrivate (some s) h = string-IsPrivate s h

  module _ {ℓ} {A : Type ℓ} (value : A → Value F.Carrier) where
    items-All :
        (xs : List A)
        → validate_items lower upper (items_of F is_finite rfc3339 value xs) ≡ ok tt
        → All (λ x. validate_value lower upper (value x) ≡ ok tt) xs
    items-All [] h = tt
    items-All (x ∷ xs) h =
        let parts =
          (items_parts lower upper (value x) (items_of F is_finite rfc3339 value xs)).0 h in
        (parts.0, items-All xs parts.1)

  -- What the guard checked of a value: its fields or its items.
  abbrev Parts : Value F.Carrier → Type 0
  Parts (object fields) = Passes fields
  Parts (array items) = validate_items lower upper items ≡ ok tt
  Parts _ = Unit

  value-Parts : (v : Value F.Carrier) → validate_value lower upper v ≡ ok tt → Parts v
  unfolding validate_value
  value-Parts (object fields) h = fields-Passes fields h
  value-Parts (array items) h = h
  value-Parts (string s) h = tt
  value-Parts (number n) h = tt
  value-Parts (bool b) h = tt
  value-Parts null h = tt

  abbrev array_of {ℓ} : {A : Type ℓ} → (A → Value F.Carrier) → List A → Value F.Carrier
  array_of value xs = array (items_of F is_finite rfc3339 value xs)

  abbrev pub IsPrivateEvent : UsageEvent → Type 0
  IsPrivateEvent e =
      IsPrivate e.id
      × IsPrivate e.provider_id
      × IsPrivate e.model
      × IsPrivate e.data_source
      × IsPrivate e.cost
      × IsPrivate (or_empty e.session_hash)
      × IsPrivate (or_empty e.project_hash)
      × IsPrivate (or_empty e.account_fingerprint)

  event-IsPrivateEvent :
      (e : UsageEvent)
      → validate_value lower upper (event_value F is_finite rfc3339 e) ≡ ok tt
      → IsPrivateEvent e
  unfolding event_value
  event-IsPrivateEvent e h =
      let (
        id,
        (
          t,
          (
            provider,
            (
              model,
              (
                i,
                (c, (w, (o, (r, (conf, (source, (cost, (session, (project, (account, last)))))))))),
              ),
            ),
          ),
        ),
      ) =
        value-Parts (event_value F is_finite rfc3339 e) h in
      (
        string-IsPrivate e.id id,
        string-IsPrivate e.provider_id provider,
        string-IsPrivate e.model model,
        string-IsPrivate e.data_source source,
        string-IsPrivate e.cost cost,
        optional-IsPrivate e.session_hash session,
        optional-IsPrivate e.project_hash project,
        optional-IsPrivate e.account_fingerprint account,
      )

  -- Each event of a batch that passed the guard is private.
  pub validate_usage_batch-IsPrivateEvent :
      (batch : UsageBatch)
      → validate_usage_batch F is_finite rfc3339 lower upper batch ≡ ok tt
      → IsPrivate batch.batch_id × All IsPrivateEvent batch.events
  unfolding validate_usage_batch batch_value
  validate_usage_batch-IsPrivateEvent batch h =
      let (events, (id, last)) = value-Parts (batch_value F is_finite rfc3339 batch) h in
      let value = event_value F is_finite rfc3339 in
      let each = items-All value batch.events (value-Parts (array_of value batch.events) events) in
      (string-IsPrivate batch.batch_id id, All-map event-IsPrivateEvent batch.events each)

  abbrev pub IsPrivateWindow : QuotaWindow F → Type 0
  IsPrivateWindow w = IsPrivate w.window_key × IsPrivate w.label

  abbrev pub IsPrivateReport : QuotaReport F → Type 0
  IsPrivateReport r =
      IsPrivate r.provider_id
      × IsPrivate (or_empty r.account_fingerprint)
      × IsPrivate (or_empty r.plan)
      × IsPrivate r.source
      × IsPrivate (or_empty r.error_code)
      × All IsPrivateWindow r.windows

  window-IsPrivateWindow :
      (w : QuotaWindow F)
      → validate_value lower upper (window_value F is_finite rfc3339 w) ≡ ok tt
      → IsPrivateWindow w
  unfolding window_value
  window-IsPrivateWindow w h =
      let (key, (label, rest)) = value-Parts (window_value F is_finite rfc3339 w) h in
      (string-IsPrivate w.window_key key, string-IsPrivate w.label label)

  pub validate_quota_report-IsPrivateReport :
      (r : QuotaReport F)
      → validate_quota_report F is_finite rfc3339 lower upper r ≡ ok tt
      → IsPrivateReport r
  unfolding validate_quota_report report_value
  validate_quota_report-IsPrivateReport r h =
      let (provider, (account, (plan, (status, (source, (t, (u, (code, (windows, last))))))))) =
        value-Parts (report_value F is_finite rfc3339 r) h in
      let value = window_value F is_finite rfc3339 in
      let each = items-All value r.windows (value-Parts (array_of value r.windows) windows) in
      (
        string-IsPrivate r.provider_id provider,
        optional-IsPrivate r.account_fingerprint account,
        optional-IsPrivate r.plan plan,
        string-IsPrivate r.source source,
        optional-IsPrivate r.error_code code,
        All-map window-IsPrivateWindow r.windows each,
      )
