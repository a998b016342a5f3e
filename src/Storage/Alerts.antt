-- ===== src/Storage/Alerts.antt =====
-- crates/storage/src/repositories/alert_repository.rs: the table `alerts` as its rows and the next
-- id that it gives, and a function for each statement. A time is its instant, `Utc::now()` an
-- argument, and a failure of the database is left out.
pub mod Open
pub mod Reopened
pub mod Distinct
pub mod Stored
use lnwdeck.Prelude.{
  ℕ, suc, ◌+◌, ◌≡◌, Bool, true, false, not, ◌&&◌, ◌||◌, Option, none, some, List, [], ◌∷◌, ◌++◌,
  map, find, filter, any, length, take, is_some, is_nil, if◌then◌else◌, ltb, min, max, ◌==◌,
}
use lnwdeck.Prelude.Text.{Text, codes, text_eq}
use lnwdeck.Domain.Usage.{Instant}

pub data AlertKind : Type 0 where
  quota_threshold collector_error auth_expired rate_limited budget_warning budget_exceeded :
      AlertKind

unfoldable pub kind_as_str : AlertKind → Text
kind_as_str quota_threshold = codes "quota_threshold"
kind_as_str collector_error = codes "collector_error"
kind_as_str auth_expired = codes "auth_expired"
kind_as_str rate_limited = codes "rate_limited"
kind_as_str budget_warning = codes "budget_warning"
kind_as_str budget_exceeded = codes "budget_exceeded"

unfoldable pub parse_kind : Text → Option AlertKind
unfolding text_eq
parse_kind value =
    if text_eq value (codes "quota_threshold")
    then some quota_threshold
    else if text_eq value (codes "collector_error")
    then some collector_error
    else if text_eq value (codes "auth_expired")
    then some auth_expired
    else if text_eq value (codes "rate_limited")
    then some rate_limited
    else if text_eq value (codes "budget_warning")
    then some budget_warning
    else if text_eq value (codes "budget_exceeded")
    then some budget_exceeded
    else none

pub data AlertSeverity : Type 0 where
  info warning critical : AlertSeverity

unfoldable pub severity_as_str : AlertSeverity → Text
severity_as_str info = codes "info"
severity_as_str warning = codes "warning"
severity_as_str critical = codes "critical"

unfoldable pub parse_severity : Text → Option AlertSeverity
unfolding text_eq
parse_severity value =
    if text_eq value (codes "info")
    then some info
    else if text_eq value (codes "warning")
    then some warning
    else if text_eq value (codes "critical")
    then some critical
    else none

pub record AlertRow : Type 0 where
  pub id : ℕ
  pub alert_key : Text
  pub kind : AlertKind
  pub severity : AlertSeverity
  pub provider_id : Text
  pub title : Text
  pub detail : Text
  pub error_code : Text
  pub first_seen_at : Instant
  pub last_seen_at : Instant
  pub occurrences : ℕ
  pub acknowledged_at : Option Instant
  pub resolved_at : Option Instant

pub record AlertObservation : Type 0 where
  pub alert_key : Text
  pub kind : AlertKind
  pub severity : AlertSeverity
  pub provider_id : Text
  pub title : Text
  pub detail : Text
  pub error_code : Text

-- The rows in the order of their insertion.
pub record AlertTable : Type 0 where
  pub rows : List AlertRow
  pub next_id : ℕ

abbrev pub is_open : AlertRow → Bool
is_open r = not (is_some r.resolved_at)

abbrev pub is_unread : AlertRow → Bool
is_unread r = not (is_some r.acknowledged_at)

abbrev pub has_key : Text → AlertRow → Bool
has_key key r = text_eq r.alert_key key

-- `UPDATE … WHERE`: the rows, and how many it changed.
unfoldable pub update_where :
    (AlertRow → Bool) → (AlertRow → AlertRow) → List AlertRow → List AlertRow
update_where p change [] = []
update_where p change (r ∷ rows) = (if p r then change r else r) ∷ update_where p change rows

abbrev pub count_where : (AlertRow → Bool) → List AlertRow → ℕ
count_where p rows = length (filter p rows)

-- The row that an observation makes of one with its key.
abbrev pub observed_again : Instant → AlertObservation → Bool → AlertRow → AlertRow
observed_again now o was_resolved r = record r {
  kind = o.kind;
  severity = o.severity;
  provider_id = o.provider_id;
  title = o.title;
  detail = o.detail;
  error_code = o.error_code;
  last_seen_at = now;
  occurrences = r.occurrences + 1;
  resolved_at = none;
  acknowledged_at = if was_resolved then none else r.acknowledged_at;
}

abbrev pub observed_first : Instant → AlertObservation → ℕ → AlertRow
observed_first now o id = record {
  id = id;
  alert_key = o.alert_key;
  kind = o.kind;
  severity = o.severity;
  provider_id = o.provider_id;
  title = o.title;
  detail = o.detail;
  error_code = o.error_code;
  first_seen_at = now;
  last_seen_at = now;
  occurrences = 1;
  acknowledged_at = none;
  resolved_at = none;
}

-- The `match` on the row that the query found.
unfoldable pub observe_existing :
    Instant → AlertObservation → AlertTable → Option AlertRow → AlertTable × ℕ
unfolding update_where
observe_existing now o t none = (
  record { rows = t.rows ++ observed_first now o t.next_id ∷ []; next_id = suc t.next_id },
  t.next_id,
)
observe_existing now o t (some existing) =
    let was_resolved = is_some existing.resolved_at in
    (
      record t {
        rows = update_where (λ r. r.id == existing.id) (observed_again now o was_resolved) t.rows;
      },
      existing.id,
    )

unfoldable pub observe : Instant → AlertObservation → AlertTable → AlertTable × ℕ
unfolding observe_existing text_eq
observe now o t = observe_existing now o t (find (has_key o.alert_key) t.rows)

abbrev pub is_missing : List Text → AlertRow → Bool
is_missing active_keys r = is_open r && not (any (text_eq r.alert_key) active_keys)

unfoldable pub resolve_missing : Instant → List Text → AlertTable → AlertTable × ℕ
unfolding update_where text_eq
resolve_missing now active_keys t =
    let changed = if is_nil active_keys then is_open else is_missing active_keys in
    (
      record t { rows = update_where changed (λ r. record r { resolved_at = some now }) t.rows },
      count_where changed t.rows,
    )

unfoldable pub acknowledge : Instant → ℕ → AlertTable → AlertTable × Bool
unfolding update_where
acknowledge now id t =
    let changed = λ (r : AlertRow). r.id == id && is_unread r in
    (
      record t {
        rows = update_where changed (λ r. record r { acknowledged_at = some now }) t.rows;
      },
      ltb 0 (count_where changed t.rows),
    )

unfoldable pub acknowledge_all_open : Instant → AlertTable → AlertTable × ℕ
unfolding update_where
acknowledge_all_open now t =
    let changed = λ (r : AlertRow). is_open r && is_unread r in
    (
      record t {
        rows = update_where changed (λ r. record r { acknowledged_at = some now }) t.rows;
      },
      count_where changed t.rows,
    )

unfoldable pub unacknowledged_open_count : AlertTable → ℕ
unacknowledged_open_count t = count_where (λ r. is_open r && is_unread r) t.rows

-- `resolved_at IS NOT NULL AND resolved_at < ?1`
abbrev pub is_resolved_before : Instant → Option Instant → Bool
is_resolved_before before none = false
is_resolved_before before (some at) = ltb at before

unfoldable pub prune_resolved : Instant → AlertTable → AlertTable × ℕ
prune_resolved before t = (
  record t { rows = filter (λ r. not (is_resolved_before before r.resolved_at)) t.rows },
  count_where (λ r. is_resolved_before before r.resolved_at) t.rows,
)

-- `ORDER BY last_seen_at DESC, id DESC`
abbrev pub comes_before : AlertRow → AlertRow → Bool
comes_before r s =
    ltb s.last_seen_at r.last_seen_at || (r.last_seen_at == s.last_seen_at && ltb s.id r.id)

unfoldable pub insert_sorted : AlertRow → List AlertRow → List AlertRow
insert_sorted r [] = r ∷ []
insert_sorted r (s ∷ rows) =
    let later = insert_sorted r rows in if comes_before r s then r ∷ s ∷ rows else s ∷ later

unfoldable pub sort_rows : List AlertRow → List AlertRow
unfolding insert_sorted
sort_rows [] = []
sort_rows (r ∷ rows) = insert_sorted r (sort_rows rows)

unfoldable pub open_alerts : AlertTable → List AlertRow
unfolding sort_rows
open_alerts t = sort_rows (filter is_open t.rows)

unfoldable pub history : ℕ → AlertTable → List AlertRow
unfolding sort_rows
history limit t = take (max 1 (min limit 500)) (sort_rows t.rows)
