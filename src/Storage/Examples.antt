-- ===== src/Storage/Examples.antt =====
-- The theorems on the alerts, the budgets, the usage events and the quotas at concrete tables.
use lnwdeck.Prelude.{
  ℕ, ◌+◌, ◌++◌, true, none, length, List, ◌≡◌, refl, some, [], ◌∷◌, find, Bool, Option, ◌⊎◌, ok,
  err,
}
use lnwdeck.Prelude.Text.{codes, text_eq}
use mathlib.Core.Option
use lnwdeck.Prelude.Text.{Text}
use lnwdeck.Domain.Quota.Window.{with_limit}
use lnwdeck.Domain.Examples.{whole, weekly_window}
use lnwdeck.Domain.Usage.{UsageEvent, UsageBatch, high}
use lnwdeck.Domain.Quota.{QuotaReport, fresh, error}
use lnwdeck.Storage.Usage.{
  UsageRow, event_row, has_id, ingest_batch_with_counts, replace_provider_batch,
}
use lnwdeck.Storage.Usage.Counted.{has_distinct_ids, ingest_batch_with_counts-IsCounted}
use lnwdeck.Storage.Usage.Again.{ingest_batch_with_counts-again}
use lnwdeck.Storage.Usage.Replaced.{kept_rows, added_rows, replace_provider_batch-kept_rows}
use lnwdeck.Storage.Quotas.{
  QuotaTables, ReportRow, nonempty, report_row, report_of, stored_row, upsert_report, store_report,
}
use lnwdeck.Storage.Quotas.Read.{upsert_report-report_of}
use lnwdeck.Storage.Quotas.Kept.{IsNoWorse, stored_row-upsert_report}
use lnwdeck.Storage.Budgets.{BudgetRow, BudgetError, StoredBudget, provider, monthly, upsert}
use lnwdeck.Storage.Budgets.Kept.{key_of, Holds}
use lnwdeck.Storage.Budgets.Stored.{IsUsable, upsert-Holds}
use lnwdeck.Storage.Alerts.{
  AlertTable, AlertObservation, rate_limited, warning, has_key, observe, resolve_missing,
  observed_first,
}
use lnwdeck.Storage.Alerts.Reopened.{find-observe}
use lnwdeck.Storage.Alerts.Distinct.{IsTable, created, observed, resolved, reached-IsTable}

abbrev pub rate_observation : AlertObservation
rate_observation = record {
  alert_key = codes "rate:glm:default";
  kind = rate_limited;
  severity = warning;
  provider_id = codes "glm";
  title = codes "GLM is rate limited";
  detail = codes "the provider refused further requests for now";
  error_code = codes "RATE_LIMITED";
}

abbrev pub empty_table : AlertTable
empty_table = record { rows = []; next_id = 1 }

-- Seen at 5, and resolved at 6.
abbrev resolved_table : AlertTable
resolved_table = record {
  rows = record (observed_first 5 rate_observation 1) { resolved_at = some 6 } ∷ [];
  next_id = 2;
}

reached_steps : (resolve_missing 6 [] (observe 5 rate_observation empty_table).0).0 ≡ resolved_table
unfolding resolve_missing observe
reached_steps = refl

reached-IsTable_example :
    IsTable (resolve_missing 6 [] (observe 5 rate_observation empty_table).0).0
reached-IsTable_example =
    reached-IsTable (resolve_missing 6 [] (observe 5 rate_observation empty_table).0).0 (
      resolved 6 [] (observe 5 rate_observation empty_table).0
        (observed 5 rate_observation empty_table created))

find-observe_example :
    find (has_key (codes "rate:glm:default")) ((observe 9 rate_observation resolved_table).0.rows)
    ≡ some (record (observed_first 5 rate_observation 1) { last_seen_at = 9; occurrences = 2 })
unfolding text_eq
find-observe_example = find-observe 9 rate_observation resolved_table

abbrev pub event_of : Text → UsageEvent
event_of id = record {
  id = id;
  timestamp = 5;
  provider_id = codes "openai_codex";
  model = codes "gpt-5";
  tokens_input = 100;
  tokens_cached = 0;
  tokens_cache_write = 0;
  tokens_output = 7;
  tokens_reasoning = 0;
  confidence = high;
  data_source = codes "local_jsonl_v2";
  cost = codes "0";
  session_hash = none;
  project_hash = none;
  account_fingerprint = some (codes "f1");
}

-- The second event is in the table.
abbrev pub batch_of_two : UsageBatch
batch_of_two = record {
  events = event_of (codes "e2") ∷ event_of (codes "e1") ∷ [];
  batch_id = codes "b2";
}

abbrev pub stored_events : List UsageRow
stored_events = event_row (codes "b1") (event_of (codes "e1")) ∷ []

ingest_batch_with_counts-one : (ingest_batch_with_counts batch_of_two stored_events).duplicates ≡ 1
unfolding ingest_batch_with_counts has_id text_eq event_row
ingest_batch_with_counts-one = refl

ingest_batch_with_counts-IsCounted_example :
    ((ingest_batch_with_counts batch_of_two stored_events).inserted
        + (ingest_batch_with_counts batch_of_two stored_events).duplicates
      ≡ 2)
    × (length (ingest_batch_with_counts batch_of_two stored_events).rows
        ≡ 1 + (ingest_batch_with_counts batch_of_two stored_events).inserted)
    × (has_distinct_ids (ingest_batch_with_counts batch_of_two stored_events).rows ≡ true)
unfolding has_distinct_ids
ingest_batch_with_counts-IsCounted_example =
    ingest_batch_with_counts-IsCounted batch_of_two stored_events refl

ingest_batch_with_counts-again_example :
    ingest_batch_with_counts batch_of_two (ingest_batch_with_counts batch_of_two stored_events).rows
    ≡ record {
      rows = (ingest_batch_with_counts batch_of_two stored_events).rows;
      inserted = 0;
      duplicates = 2;
    }
ingest_batch_with_counts-again_example = ingest_batch_with_counts-again batch_of_two stored_events

replace_provider_batch-kept_rows_example :
    let done =
      replace_provider_batch batch_of_two
        (codes "openai_codex")
        (codes "local_jsonl_v2")
        (codes "local_jsonl")
        stored_events in
    let kept =
      kept_rows batch_of_two
        (codes "openai_codex")
        (codes "local_jsonl_v2" ∷ codes "local_jsonl" ∷ [])
        stored_events in
    (done.rows ≡ kept ++ added_rows batch_of_two kept)
    × (done.inserted ≡ length (added_rows batch_of_two kept))
    × (done.duplicates ≡ 0)
replace_provider_batch-kept_rows_example =
    replace_provider_batch-kept_rows batch_of_two (codes "openai_codex") (codes "local_jsonl_v2")
      (codes "local_jsonl") stored_events

-- A report at 9 over one at 5, and a failure at 12.
abbrev report_at : ℕ → QuotaReport whole
report_at t = record {
  provider_id = codes "glm";
  account_fingerprint = none;
  plan = some (codes "pro");
  status = fresh;
  source = codes "provider_api";
  collected_at = t;
  stale_at = 100;
  error_code = none;
  windows = weekly_window ∷ [];
}

abbrev quotas_at_5 : QuotaTables whole
quotas_at_5 = store_report whole (report_at 5) (record { reports = []; windows = []; next_id = 1 })

upsert_report-report_of_example :
    Option.map
      (report_of whole (upsert_report whole (report_at 9) quotas_at_5).0)
      (stored_row whole (codes "glm") [] (upsert_report whole (report_at 9) quotas_at_5).0)
    ≡ some (report_at 9)
unfolding upsert_report nonempty with_limit
upsert_report-report_of_example = upsert_report-report_of whole (report_at 9) quotas_at_5 refl

stored_row-upsert_report_example :
    let failed = record (report_at 12) { status = error } in
    (new : ReportRow) × (stored_row whole
        (codes "glm")
        []
        (upsert_report whole failed quotas_at_5).0
      ≡ some new)
    × IsNoWorse (report_row whole (report_at 5)) new
unfolding store_report
stored_row-upsert_report_example =
    stored_row-upsert_report whole (record (report_at 12) { status = error }) quotas_at_5
      (codes "glm") [] (report_row whole (report_at 5)) refl

abbrev monthly_budget : BudgetRow
monthly_budget = record {
  id = 0;
  scope = provider (codes "glm");
  period = monthly;
  cost_limit = codes " 20 ";
  token_limit = none;
  warn_percent = 80;
  enabled = true;
  created_at = 0;
  updated_at = 0;
}

abbrev read_dollars : Text → Option (Option ℕ)
read_dollars s = some (some 20)

abbrev is_finite : Option ℕ → Bool
is_finite x = true

upsert-Holds_example :
    ((e : BudgetError) × (upsert whole read_dollars is_finite monthly_budget 5 1 [] ≡ ([], err e)))
    ⊎ ((r : StoredBudget) × IsUsable whole read_dollars is_finite monthly_budget
        × (find
              (key_of monthly_budget)
              (upsert whole read_dollars is_finite monthly_budget 5 1 []).0
            ≡ some r)
        × Holds monthly_budget 5 r
        × ((upsert whole read_dollars is_finite monthly_budget 5 1 []).1 ≡ ok r.id))
upsert-Holds_example = upsert-Holds whole read_dollars is_finite monthly_budget 5 1 []
