-- ===== src/Storage/Budgets/Stored.antt =====
-- What `upsert` accepts, and that it is read back.
use lnwdeck.Prelude.{
  ℕ, ◌≤◌, ◌≡◌, ap, ◌∙◌, ◌⊎◌, Bool, true, false, not, ◌&&◌, ◌||◌, Option, some, List, find, is_some,
  is_nil, ltb, ◌==◌, ok, err, ◌>>◌, refuse, Result-cases, inl, inr, arith,
}
use lnwdeck.Prelude.Text.{Text, trim}
use lnwdeck.Domain.Float.{F64}
use lnwdeck.Domain.Usage.{Instant}
use lnwdeck.Storage.Budgets.{
  BudgetRow, StoredBudget, BudgetError, is_zero, is_nameless, is_bad_cost, check_budget, upsert,
  upsert_checked, id_of,
}
use lnwdeck.Storage.Budgets.Kept.{key_of, Holds, upsert_row-Holds}

-- Five checks in a row.
five_checks :
    {E : Type 0} (a b c d e : Bool) (e1 e2 e3 e4 e5 : E)
    → ((do refuse a e1; refuse b e2; refuse c e3; refuse d e4; refuse e e5) ≡ ok tt)
    → (a ≡ false) × (b ≡ false) × (c ≡ false) × (d ≡ false) × (e ≡ false)
five_checks a b c d e e1 e2 e3 e4 e5 h = ground arith

warn_bounds : (w : ℕ) → (w == 0 || ltb 100 w) ≡ false → (1 ≤ w) × (w ≤ 100)
warn_bounds w h = ground arith

has_limit : (a b : Bool) → (a && not b) ≡ false → (not a || b) ≡ true
has_limit a b h = ground arith

module _ (F : F64) (parse : Text → Option F.Carrier) (is_finite : F.Carrier → Bool) where
  -- The budget has a limit, none of its limits is unusable, and its threshold and provider are given.
  abbrev pub IsUsable : BudgetRow → Type 0
  IsUsable b =
      ((not (is_nil (trim b.cost_limit)) || is_some b.token_limit) ≡ true)
      × ((not (is_nil (trim b.cost_limit)) && is_bad_cost F parse is_finite (trim b.cost_limit))
          ≡ false)
      × (is_zero b.token_limit ≡ false)
      × (1 ≤ b.warn_percent)
      × (b.warn_percent ≤ 100)
      × (is_nameless b.scope ≡ false)

  check_budget-IsUsable : (b : BudgetRow) → check_budget F parse is_finite b ≡ ok tt → IsUsable b
  unfolding check_budget
  check_budget-IsUsable b h =
      let checks =
        five_checks (is_nil (trim b.cost_limit) && not (is_some b.token_limit))
          (not (is_nil (trim b.cost_limit)) && is_bad_cost F parse is_finite (trim b.cost_limit))
          (is_zero b.token_limit) (b.warn_percent == 0 || ltb 100 b.warn_percent)
          (is_nameless b.scope) _ _ _ _ _ h in
      let bounds = warn_bounds b.warn_percent checks.3 in
      (
        has_limit (is_nil (trim b.cost_limit)) (is_some b.token_limit) checks.0,
        checks.1,
        checks.2,
        bounds.0,
        bounds.1,
        checks.4,
      )

  -- A budget is refused, and nothing is stored; or it is usable, and the row of its key, whose id is
  -- returned, is read back as the budget, with the cost limit trimmed, the time of the update and
  -- the row's own id and time of creation.
  pub upsert-Holds :
      (b : BudgetRow) (now : Instant) (id : ℕ) (rows : List StoredBudget)
      → ((e : BudgetError) × (upsert F parse is_finite b now id rows ≡ (rows, err e)))
        ⊎ ((r : StoredBudget) × IsUsable b
            × (find (key_of b) (upsert F parse is_finite b now id rows).0 ≡ some r)
            × Holds b now r
            × ((upsert F parse is_finite b now id rows).1 ≡ ok r.id))
  unfolding upsert upsert_checked id_of
  upsert-Holds b now id rows = elim (Result-cases (check_budget F parse is_finite b)) [
    | inr (e, refused) ↦ inl (e, ap (upsert_checked F parse is_finite b now id rows) refused)
    | inl (t, passed) ↦
        let usable = check_budget-IsUsable b passed in
        let (r, at, holds) = upsert_row-Holds b now id rows usable.3 usable.4 in
        let stored = ap (upsert_checked F parse is_finite b now id rows) passed in
        inr (
          r,
          usable,
          ap (λ x. find (key_of b) x.0) stored ∙ at,
          holds,
          ap (λ x. x.1) stored ∙ ap id_of at,
        )
  ]
