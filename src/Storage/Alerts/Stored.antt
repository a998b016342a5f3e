-- ===== src/Storage/Alerts/Stored.antt =====
-- The texts under which kinds and severities are stored.
use lnwdeck.Prelude.{◌≡◌, ◌↔◌, refl, true, some, arith}
use lnwdeck.Prelude.Text.{Text, codes, text_eq, text_eq_sound}
use lnwdeck.Storage.Alerts.{
  AlertKind, AlertSeverity, quota_threshold, collector_error, auth_expired, rate_limited,
  budget_warning, budget_exceeded, info, warning, critical, kind_as_str, parse_kind,
  severity_as_str, parse_severity,
}

kind_back : (k : AlertKind) → parse_kind (kind_as_str k) ≡ some k
unfolding parse_kind kind_as_str
kind_back quota_threshold = refl
kind_back collector_error = refl
kind_back auth_expired = refl
kind_back rate_limited = refl
kind_back budget_warning = refl
kind_back budget_exceeded = refl

severity_back : (s : AlertSeverity) → parse_severity (severity_as_str s) ≡ some s
unfolding parse_severity severity_as_str
severity_back info = refl
severity_back warning = refl
severity_back critical = refl

kind_text : (value : Text) (k : AlertKind) → parse_kind value ≡ some k → value ≡ kind_as_str k
unfolding parse_kind kind_as_str
kind_text value quota_threshold h =
    let t : text_eq value (codes "quota_threshold") ≡ true = ground arith in
    text_eq_sound value (codes "quota_threshold") t
kind_text value collector_error h =
    let t : text_eq value (codes "collector_error") ≡ true = ground arith in
    text_eq_sound value (codes "collector_error") t
kind_text value auth_expired h =
    let t : text_eq value (codes "auth_expired") ≡ true = ground arith in
    text_eq_sound value (codes "auth_expired") t
kind_text value rate_limited h =
    let t : text_eq value (codes "rate_limited") ≡ true = ground arith in
    text_eq_sound value (codes "rate_limited") t
kind_text value budget_warning h =
    let t : text_eq value (codes "budget_warning") ≡ true = ground arith in
    text_eq_sound value (codes "budget_warning") t
kind_text value budget_exceeded h =
    let t : text_eq value (codes "budget_exceeded") ≡ true = ground arith in
    text_eq_sound value (codes "budget_exceeded") t

severity_text :
    (value : Text) (s : AlertSeverity) → parse_severity value ≡ some s → value ≡ severity_as_str s
unfolding parse_severity severity_as_str
severity_text value info h =
    let t : text_eq value (codes "info") ≡ true = ground arith in
    text_eq_sound value (codes "info") t
severity_text value warning h =
    let t : text_eq value (codes "warning") ≡ true = ground arith in
    text_eq_sound value (codes "warning") t
severity_text value critical h =
    let t : text_eq value (codes "critical") ≡ true = ground arith in
    text_eq_sound value (codes "critical") t

-- A stored text is parsed as a kind, or as a severity, exactly when it is the text under which that
-- one is stored.
pub parse_kind-kind_as_str :
    (value : Text)
    → ((k : AlertKind) → (parse_kind value ≡ some k) ↔ (value ≡ kind_as_str k))
      × ((s : AlertSeverity) → (parse_severity value ≡ some s) ↔ (value ≡ severity_as_str s))
parse_kind-kind_as_str value = (
  λ k. (kind_text value k, λ e. rw e (kind_back k)),
  λ s. (severity_text value s, λ e. rw e (severity_back s)),
)
