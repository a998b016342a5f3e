-- ===== src/Storage/Alerts/Reopened.antt =====
-- What an observation makes of the row with its key.
use lnwdeck.Prelude.{
  ◌≡◌, ◌+◌, ap, ◌∙◌, if◌then◌else◌, refl, Bool, true, none, some, List, [], ◌∷◌, ◌++◌, find,
  is_some, ◌==◌, ==_iff, arith, Bool-cases, Option-cases, inl, inr, Option,
}
use lnwdeck.Prelude.Text.{Text, text_eq, text_eq_refl}
use lnwdeck.Domain.Usage.{Instant}
use lnwdeck.Storage.Alerts.{
  AlertRow, AlertTable, AlertObservation, has_key, update_where, observed_again, observed_first,
  observe,
}

find-updated :
    (now : Instant) (o : AlertObservation) (was : Bool) (found : AlertRow) (rows : List AlertRow)
    → find (has_key o.alert_key) rows ≡ some found
    → find
        (has_key o.alert_key)
        (update_where (λ r. r.id == found.id) (observed_again now o was) rows)
      ≡ some (observed_again now o was found)
unfolding update_where
find-updated now o was found [] h = cc
find-updated now o was found (r ∷ rows) h = elim (Bool-cases (text_eq r.alert_key o.alert_key)) [
  | inl e ↦
      let same : r ≡ found = ground arith in
      let ids : (r.id == r.id) ≡ true = (==_iff r.id r.id).1 refl in rw (← same) (ground arith)
  | inr e ↦ ground (arith, find-updated now o was found rows)
]

find-appended :
    (key : Text) (rows : List AlertRow) (r : AlertRow)
    → find (has_key key) rows ≡ none
    → text_eq r.alert_key key ≡ true
    → find (has_key key) (rows ++ r ∷ []) ≡ some r
find-appended key [] r h e = ground arith
find-appended key (x ∷ rows) r h e = ground (arith, find-appended key rows r)

-- The acknowledgement that an observation leaves: none on an alert that was resolved.
abbrev pub still_acknowledged : Option Instant → Option Instant → Option Instant
still_acknowledged none acknowledged_at = acknowledged_at
still_acknowledged (some resolved_at) acknowledged_at = none

-- The row of an observation's key after it, by the row before it.
abbrev pub row_after : Instant → AlertObservation → AlertTable → Option AlertRow → AlertRow
row_after now o t none = record {
  id = t.next_id;
  alert_key = o.alert_key;
  kind = o.kind;
  severity = o.severity;
  provider_id = o.provider_id;
  title = o.title;
  detail = o.detail;
  error_code = o.error_code;
  first_seen_at = now;
  last_seen_at = now;
  occurrences = 1;
  acknowledged_at = none;
  resolved_at = none;
}
row_after now o t (some r) = record {
  id = r.id;
  alert_key = r.alert_key;
  kind = o.kind;
  severity = o.severity;
  provider_id = o.provider_id;
  title = o.title;
  detail = o.detail;
  error_code = o.error_code;
  first_seen_at = r.first_seen_at;
  last_seen_at = now;
  occurrences = r.occurrences + 1;
  acknowledged_at = still_acknowledged r.resolved_at r.acknowledged_at;
  resolved_at = none;
}

observed_again-row_after :
    (now : Instant) (o : AlertObservation) (t : AlertTable) (r : AlertRow)
    → observed_again now o (is_some r.resolved_at) r ≡ row_after now o t (some r)
observed_again-row_after now o t r = λ i. record r {
  kind = o.kind;
  severity = o.severity;
  provider_id = o.provider_id;
  title = o.title;
  detail = o.detail;
  error_code = o.error_code;
  last_seen_at = now;
  occurrences = r.occurrences + 1;
  acknowledged_at = kept r.resolved_at i;
  resolved_at = none;
}
  where
    kept :
        (resolved_at : Option Instant)
        → (if is_some resolved_at then none else r.acknowledged_at)
          ≡ still_acknowledged resolved_at r.acknowledged_at
    kept none = refl
    kept (some at) = refl

-- An observation with a new key inserts an open row, seen once and now, with the next id. With the
-- key of a row, it leaves that row under its id and first time, with the observation's columns, open,
-- seen now and once more; it is acknowledged as before if it was open, and not if it was resolved.
pub find-observe :
    (now : Instant) (o : AlertObservation) (t : AlertTable)
    → find (has_key o.alert_key) ((observe now o t).0.rows)
      ≡ some (row_after now o t (find (has_key o.alert_key) t.rows))
unfolding observe
find-observe now o t = elim (Option-cases (find (has_key o.alert_key) t.rows)) [
  | inl e ↦ rw e (
      find-appended o.alert_key t.rows (observed_first now o t.next_id) e
        (text_eq_refl o.alert_key))
  | inr (r, e) ↦ rw e (
      find-updated now o (is_some r.resolved_at) r t.rows e
      ∙ ap some (observed_again-row_after now o t r))
]
