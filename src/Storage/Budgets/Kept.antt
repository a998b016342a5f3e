-- ===== src/Storage/Budgets/Kept.antt =====
-- The row that an upsert leaves for a budget's key.
use lnwdeck.Prelude.{
  ℕ, ◌≤◌, ◌≡◌, refl, Bool, true, ◌&&◌, none, some, List, [], ◌∷◌, find, min, max, Bool-cases,
  &&-true, inl, inr, arith,
}
use lnwdeck.Prelude.Text.{Text, text_eq, text_eq_refl, text_eq_sound, trim}
use lnwdeck.Domain.Usage.{Instant}
use lnwdeck.Storage.Budgets.{
  BudgetPeriod, BudgetScope, BudgetRow, StoredBudget, daily, weekly, monthly, global, provider,
  parts, from_parts, period_as_str, parse_period, has_key, inserted_row, updated_row, upsert_row,
  map_budget,
}

from_parts-parts : (s : BudgetScope) → from_parts (parts s).0 (parts s).1 ≡ s
unfolding from_parts parts
from_parts-parts global = refl
from_parts-parts (provider id) = refl

parse_period-period_as_str : (p : BudgetPeriod) → parse_period (period_as_str p) ≡ some p
unfolding parse_period period_as_str
parse_period-period_as_str daily = refl
parse_period-period_as_str weekly = refl
parse_period-period_as_str monthly = refl

abbrev pub key_of : BudgetRow → StoredBudget → Bool
key_of b = has_key (parts b.scope).0 (parts b.scope).1 (period_as_str b.period)

-- The row holds the budget, under its id and with its times.
abbrev pub Holds : BudgetRow → Instant → StoredBudget → Type 0
Holds b now r =
    (key_of b r ≡ true)
    × (map_budget r ≡ record b {
      id = r.id;
      cost_limit = trim b.cost_limit;
      created_at = r.created_at;
      updated_at = now;
    })

stored_columns :
    (b : BudgetRow) (scope provider_id period : Text)
    → scope ≡ (parts b.scope).0
    → provider_id ≡ (parts b.scope).1
    → period ≡ period_as_str b.period
    → (from_parts scope provider_id ≡ b.scope)
      × ((elim (parse_period period) [ some p ↦ p | none ↦ monthly ]) ≡ b.period)
stored_columns b scope provider_id period s p d =
    (rw (s, p) (from_parts-parts b.scope), rw (d, parse_period-period_as_str b.period) refl)

inserted_row-Holds :
    (b : BudgetRow) (now : Instant) (id : ℕ)
    → 1 ≤ b.warn_percent
    → b.warn_percent ≤ 100
    → Holds b now (inserted_row b now id)
unfolding inserted_row map_budget
inserted_row-Holds b now id low high =
    let key = (parts b.scope) in
    let columns = stored_columns b key.0 key.1 (period_as_str b.period) refl refl refl in
    let warn : min 100 (max 1 b.warn_percent) ≡ b.warn_percent = omega arith in
    (
      rw (text_eq_refl key.0, text_eq_refl key.1, text_eq_refl (period_as_str b.period)) refl,
      λ i. record b {
        id = id;
        scope = columns.0 i;
        period = columns.1 i;
        cost_limit = trim b.cost_limit;
        warn_percent = warn i;
        created_at = now;
        updated_at = now;
      },
    )

has_key_sound :
    (scope provider_id period : Text) (r : StoredBudget)
    → has_key scope provider_id period r ≡ true
    → (r.scope ≡ scope) × (r.provider_id ≡ provider_id) × (r.period ≡ period)
has_key_sound scope provider_id period r h =
    let outer =
      &&-true (text_eq r.scope scope && text_eq r.provider_id provider_id) (text_eq r.period period)
        h in
    let inner = &&-true (text_eq r.scope scope) (text_eq r.provider_id provider_id) outer.0 in
    (
      text_eq_sound r.scope scope inner.0,
      text_eq_sound r.provider_id provider_id inner.1,
      text_eq_sound r.period period outer.1,
    )

updated_row-Holds :
    (b : BudgetRow) (now : Instant) (r : StoredBudget)
    → 1 ≤ b.warn_percent
    → b.warn_percent ≤ 100
    → key_of b r ≡ true
    → Holds b now (updated_row b now r)
unfolding updated_row map_budget
updated_row-Holds b now r low high h =
    let same = has_key_sound (parts b.scope).0 (parts b.scope).1 (period_as_str b.period) r h in
    let columns = stored_columns b r.scope r.provider_id r.period same.0 same.1 same.2 in
    let warn : min 100 (max 1 b.warn_percent) ≡ b.warn_percent = omega arith in
    (
      h,
      λ i. record b {
        id = r.id;
        scope = columns.0 i;
        period = columns.1 i;
        cost_limit = trim b.cost_limit;
        warn_percent = warn i;
        created_at = r.created_at;
        updated_at = now;
      },
    )

-- The first row with the budget's key holds it.
pub upsert_row-Holds :
    (b : BudgetRow) (now : Instant) (id : ℕ) (rows : List StoredBudget)
    → 1 ≤ b.warn_percent
    → b.warn_percent ≤ 100
    → (r : StoredBudget) × (find (key_of b) (upsert_row b now id rows) ≡ some r) × Holds b now r
unfolding upsert_row
upsert_row-Holds b now id [] low high =
    let holds = inserted_row-Holds b now id low high in
    (inserted_row b now id, rw holds.0 refl, holds)
upsert_row-Holds b now id (r ∷ rows) low high =
    let (found, at, later) = upsert_row-Holds b now id rows low high in
    elim (Bool-cases (key_of b r)) [
      | inl e ↦
          let holds = updated_row-Holds b now r low high e in
          (updated_row b now r, rw e (rw holds.0 refl), holds)
      | inr e ↦ (found, rw (e, e) at, later)
    ]
