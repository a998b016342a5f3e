-- ===== src/Application/Alerts.antt =====
-- crates/application/src/alerts.rs: the evaluation of the conditions that hold, and its view. The
-- conditions themselves, each with the time at which it is recorded, are an argument.
pub mod Evaluated
use lnwdeck.Prelude.{ℕ, Bool, true, false, List, [], ◌∷◌, map, length}
use lnwdeck.Prelude.Text.{Text}
use lnwdeck.Domain.Usage.{Instant}
use lnwdeck.Storage.Alerts.{
  AlertTable, AlertRow, AlertObservation, AlertSeverity, critical, observe, resolve_missing,
  open_alerts, history, count_where, is_unread,
}

abbrev pub is_critical : AlertSeverity → Bool
is_critical critical = true
is_critical _ = false

pub record AlertsView : Type 0 where
  pub generated_at : Instant
  pub open_rows : List AlertRow
  pub history_rows : List AlertRow
  pub open_count : ℕ
  pub critical_count : ℕ
  pub unacknowledged_count : ℕ

unfoldable pub view : Instant → AlertTable → AlertsView
unfolding open_alerts history
view now t = record {
  generated_at = now;
  open_rows = open_alerts t;
  history_rows = history 100 t;
  open_count = length (open_alerts t);
  critical_count = count_where (λ alert. is_critical alert.severity) (open_alerts t);
  unacknowledged_count = count_where is_unread (open_alerts t);
}

-- The loop of `execute`.
unfoldable pub observe_all : List (Instant × AlertObservation) → AlertTable → AlertTable
unfolding observe
observe_all [] t = t
observe_all ((now, o) ∷ observations) t = observe_all observations (observe now o t).0

abbrev pub active_keys : List (Instant × AlertObservation) → List Text
active_keys observations = map (λ o. o.1.alert_key) observations

unfoldable pub execute :
    Instant → List (Instant × AlertObservation) → AlertTable → AlertTable × AlertsView
unfolding observe_all resolve_missing view
execute now observations t =
    let after = (resolve_missing now (active_keys observations) (observe_all observations t)).0 in
    (after, view now after)
