-- ===== src/Storage/Budgets.antt =====
-- crates/storage/src/repositories/budget_repository.rs: the table `budgets` as its rows. A time is its
-- instant; the parser of floats is a parameter, and a database that fails is left out.
pub mod Kept
pub mod Stored
use lnwdeck.Prelude.{
  ℕ, ◌≡◌, refl, Bool, true, false, not, ◌&&◌, ◌||◌, Option, none, some, List, [], ◌∷◌, filter, find,
  length, is_some, is_nil, if◌then◌else◌, ltb, leb, ◌==◌, min, max, Result, ok, err, ◌>>=◌, ◌>>◌,
  refuse,
}
use lnwdeck.Prelude.Text.{Text, codes, text_eq, trim}
use lnwdeck.Domain.Float.{F64}
use lnwdeck.Domain.Usage.{Instant}

pub data BudgetPeriod : Type 0 where
  daily weekly monthly : BudgetPeriod

unfoldable pub period_as_str : BudgetPeriod → Text
period_as_str daily = codes "daily"
period_as_str weekly = codes "weekly"
period_as_str monthly = codes "monthly"

unfoldable pub parse_period : Text → Option BudgetPeriod
unfolding text_eq
parse_period value =
    if text_eq value (codes "daily")
    then some daily
    else if text_eq value (codes "weekly")
    then some weekly
    else if text_eq value (codes "monthly")
    then some monthly
    else none

pub data BudgetScope : Type 0 where
  global : BudgetScope
  provider : Text → BudgetScope

unfoldable pub parts : BudgetScope → Text × Text
parts global = (codes "global", [])
parts (provider id) = (codes "provider", id)

unfoldable pub from_parts : Text → Text → BudgetScope
unfolding text_eq
from_parts scope provider_id =
    if text_eq scope (codes "provider") then provider provider_id else global

pub record BudgetRow : Type 0 where
  pub id : ℕ
  pub scope : BudgetScope
  pub period : BudgetPeriod
  pub cost_limit : Text
  pub token_limit : Option ℕ
  pub warn_percent : ℕ
  pub enabled : Bool
  pub created_at : Instant
  pub updated_at : Instant

-- A row of the table.
pub record StoredBudget : Type 0 where
  pub id : ℕ
  pub scope : Text
  pub provider_id : Text
  pub period : Text
  pub cost_limit : Text
  pub token_limit : Option ℕ
  pub warn_percent : ℕ
  pub enabled : Bool
  pub created_at : Instant
  pub updated_at : Instant

pub data BudgetError : Type 0 where
  no_limit invalid_cost invalid_token_limit invalid_warn_percent missing_provider storage :
      BudgetError

abbrev pub is_nameless : BudgetScope → Bool
is_nameless global = false
is_nameless (provider id) = is_nil (trim id)

abbrev pub is_zero : Option ℕ → Bool
is_zero none = false
is_zero (some limit) = limit == 0

-- `scope = ?1 AND provider_id = ?2 AND period = ?3`
abbrev pub has_key : Text → Text → Text → StoredBudget → Bool
has_key scope provider_id period r =
    (text_eq r.scope scope && text_eq r.provider_id provider_id) && text_eq r.period period

-- The row that is inserted, and what a conflict makes of the row with the key.
unfoldable pub inserted_row : BudgetRow → Instant → ℕ → StoredBudget
unfolding parts period_as_str trim
inserted_row b now id = record {
  id = id;
  scope = (parts b.scope).0;
  provider_id = (parts b.scope).1;
  period = period_as_str b.period;
  cost_limit = trim b.cost_limit;
  token_limit = b.token_limit;
  warn_percent = b.warn_percent;
  enabled = b.enabled;
  created_at = now;
  updated_at = now;
}

unfoldable pub updated_row : BudgetRow → Instant → StoredBudget → StoredBudget
unfolding trim
updated_row b now r = record r {
  cost_limit = trim b.cost_limit;
  token_limit = b.token_limit;
  warn_percent = b.warn_percent;
  enabled = b.enabled;
  updated_at = now;
}

-- `id` is the one that the database gives a new row.
unfoldable pub upsert_row : BudgetRow → Instant → ℕ → List StoredBudget → List StoredBudget
unfolding inserted_row updated_row parts period_as_str text_eq
upsert_row b now id [] = inserted_row b now id ∷ []
upsert_row b now id (r ∷ rows) =
    let rest = upsert_row b now id rows in
    if has_key (parts b.scope).0 (parts b.scope).1 (period_as_str b.period) r
    then updated_row b now r ∷ rows
    else r ∷ rest

unfoldable pub map_budget : StoredBudget → BudgetRow
unfolding from_parts parse_period
map_budget r = record {
  id = r.id;
  scope = from_parts r.scope r.provider_id;
  period = elim (parse_period r.period) [ some period ↦ period | none ↦ monthly ];
  cost_limit = r.cost_limit;
  token_limit = r.token_limit;
  warn_percent = min 100 (max 1 r.warn_percent);
  enabled = r.enabled;
  created_at = r.created_at;
  updated_at = r.updated_at;
}

unfoldable pub get : ℕ → List StoredBudget → Option BudgetRow
unfolding map_budget
get id rows = elim (find (λ r. r.id == id) rows) [ some r ↦ some (map_budget r) | none ↦ none ]

unfoldable pub delete : ℕ → List StoredBudget → List StoredBudget × Bool
delete id rows =
    (filter (λ r. not (r.id == id)) rows, ltb 0 (length (filter (λ r. r.id == id) rows)))

-- The id that the query by the key reads.
unfoldable pub id_of : Option StoredBudget → Result BudgetError ℕ
id_of none = err storage
id_of (some r) = ok r.id

module _ (F : F64) (parse : Text → Option F.Carrier) (is_finite : F.Carrier → Bool) where
  unfoldable pub is_bad_cost : Text → Bool
  is_bad_cost cost_limit = elim (parse cost_limit) [
    | none ↦ true
    | some parsed ↦ not (is_finite parsed) || F.le parsed F.nought
  ]

  unfoldable pub check_budget : BudgetRow → Result BudgetError (Unit {0})
  unfolding trim is_bad_cost
  check_budget b = do
    refuse (is_nil (trim b.cost_limit) && not (is_some b.token_limit)) no_limit
    refuse (not (is_nil (trim b.cost_limit)) && is_bad_cost (trim b.cost_limit)) invalid_cost
    refuse (is_zero b.token_limit) invalid_token_limit
    refuse (b.warn_percent == 0 || ltb 100 b.warn_percent) invalid_warn_percent
    refuse (is_nameless b.scope) missing_provider

  unfoldable pub upsert_checked :
      BudgetRow
      → Instant
      → ℕ
      → List StoredBudget
      → Result BudgetError (Unit {0})
      → List StoredBudget × Result BudgetError ℕ
  unfolding upsert_row parts period_as_str text_eq
  upsert_checked b now id rows (err e) = (rows, err e)
  upsert_checked b now id rows (ok t) =
      let stored = upsert_row b now id rows in
      (
        stored,
        id_of (find (has_key (parts b.scope).0 (parts b.scope).1 (period_as_str b.period)) stored),
      )

  unfoldable pub upsert :
      BudgetRow → Instant → ℕ → List StoredBudget → List StoredBudget × Result BudgetError ℕ
  unfolding upsert_checked check_budget
  upsert b now id rows = upsert_checked b now id rows (check_budget b)
