-- ===== src/Domain/Quota/Consistent.antt =====
-- Which windows pass `check_invariants`, and that the constructors' windows do.
use lnwdeck.Prelude.{
  ℕ, ◌-◌, ◌≤◌, ◌≡◌, refl, true, false, Option, none, some, ok, ◌⊎◌, inl, inr, ◌↔◌, arith,
  Bool-cases,
}
use lnwdeck.Prelude.Text.{Text}
use lnwdeck.Domain.Float.{F64, is_percent, distance, Ieee754, NanLaws}
use lnwdeck.Domain.Usage.{Confidence, Instant}
use lnwdeck.Domain.Quota.{QuotaWindow, QuotaWindowScope, QuotaKind}
use lnwdeck.Domain.Quota.Window.{
  with_limit, from_percent, check_fields, check_invariants, check_percentages,
}

module _ (F : F64) where
  -- The used share is a percentage, and the distance of the shares from 100 is not greater than the
  -- tolerance.
  abbrev pub AddUp : F.Carrier → F.Carrier → Type 0
  AddUp x y =
      (is_percent F x ≡ true) × (F.lt F.tolerance (F.abs (F.sub (F.add x y) F.hundred)) ≡ false)

  -- What agrees in the fields, by what is asked of the percentages.
  module _ (Shares : F.Carrier → F.Carrier → Type 0) where
    abbrev pub Known : QuotaWindow F → ℕ → ℕ → F.Carrier → F.Carrier → Type 0
    Known w l r x y = (w.is_unlimited ≡ false) × (1 ≤ l) × (r ≡ l - w.used) × Shares x y

    abbrev pub FieldsAgree :
        QuotaWindow F → Option ℕ → Option ℕ → Option F.Carrier → Option F.Carrier → Type 0
    FieldsAgree w l r u q =
        ((l ≡ none) × (r ≡ none) × (u ≡ none) × (q ≡ none))
        ⊎ (((x : F.Carrier) × (y : F.Carrier) × (l ≡ none)
              × (r ≡ none)
              × (u ≡ some x)
              × (q ≡ some y)
              × (w.is_unlimited ≡ false)
              × Shares x y)
            ⊎ ((n : ℕ) × (m : ℕ) × (x : F.Carrier) × (y : F.Carrier) × (l ≡ some n)
                × (r ≡ some m)
                × (u ≡ some x)
                × (q ≡ some y)
                × Known w n m x y))

  check_percentages-AddUp : (x y : F.Carrier) → (check_percentages F x y ≡ ok tt) ↔ AddUp x y
  check_percentages-AddUp x y = ground arith

  check_fields-FieldsAgree :
      (w : QuotaWindow F) (l r : Option ℕ) (u q : Option F.Carrier)
      → (check_fields F w l r u q ≡ ok tt) ↔ FieldsAgree AddUp w l r u q
  unfolding check_fields
  check_fields-FieldsAgree w none none none none = ground arith
  check_fields-FieldsAgree w none none none (some q) = ground arith
  check_fields-FieldsAgree w none none (some u) none = ground arith
  check_fields-FieldsAgree w none none (some u) (some q) = ground arith
  check_fields-FieldsAgree w none (some r) none none = ground arith
  check_fields-FieldsAgree w none (some r) none (some q) = ground arith
  check_fields-FieldsAgree w none (some r) (some u) none = ground arith
  check_fields-FieldsAgree w none (some r) (some u) (some q) = ground arith
  check_fields-FieldsAgree w (some l) none none none = ground arith
  check_fields-FieldsAgree w (some l) none none (some q) = ground arith
  check_fields-FieldsAgree w (some l) none (some u) none = ground arith
  check_fields-FieldsAgree w (some l) none (some u) (some q) = ground arith
  check_fields-FieldsAgree w (some l) (some r) none none = ground arith
  check_fields-FieldsAgree w (some l) (some r) none (some q) = ground arith
  check_fields-FieldsAgree w (some l) (some r) (some u) none = ground arith
  check_fields-FieldsAgree w (some l) (some r) (some u) (some q) = ground arith

  check_invariants-FieldsAgree :
      (w : QuotaWindow F)
      → (check_invariants F w ≡ ok tt)
        ↔ FieldsAgree AddUp w w.limit w.remaining w.used_percent w.remaining_percent
  unfolding check_invariants
  check_invariants-FieldsAgree w =
      check_fields-FieldsAgree w w.limit w.remaining w.used_percent w.remaining_percent

  -- The used share is a percentage; the remaining share is a NaN, or the two are within the
  -- tolerance of 100.
  abbrev pub AreShares : F.Carrier → F.Carrier → Type 0
  AreShares x y =
      (is_percent F x ≡ true)
      × ((F.is_nan y ≡ true) ⊎ ((F.is_nan y ≡ false) × (F.le (distance F x y) F.tolerance ≡ true)))

  AddUp-AreShares : NanLaws F → (x y : F.Carrier) → AddUp x y ↔ AreShares x y
  AddUp-AreShares laws x y = (there, back)
    where
      there : AddUp x y → AreShares x y
      there (percent, near) = elim (Bool-cases (F.is_nan y)) [
        | inl nan ↦ (percent, inl nan)
        | inr number ↦
            let compared = laws.compared_distance x y percent number in
            (percent, inr (number, ground arith))
      ]

      back : AreShares x y → AddUp x y
      back (percent, inl nan) = (percent, laws.nan_distance x y nan)
      back (percent, inr (number, near)) =
          let compared = laws.compared_distance x y percent number in (percent, ground arith)

  FieldsAgree-map :
      (P Q : F.Carrier → F.Carrier → Type 0) (w : QuotaWindow F) (l r : Option ℕ)
      (u q : Option F.Carrier)
      → ((x y : F.Carrier) → P x y → Q x y)
      → FieldsAgree P w l r u q
      → FieldsAgree Q w l r u q
  FieldsAgree-map P Q w l r u q f (inl absent) = inl absent
  FieldsAgree-map P Q w l r u q f (inr (inl (x, y, el, er, eu, eq, limited, shares))) =
      inr (inl (x, y, el, er, eu, eq, limited, f x y shares))
  FieldsAgree-map P Q w l r u q f (inr (inr (n, m, x, y, el, er, eu, eq, known))) =
      inr (inr (n, m, x, y, el, er, eu, eq, (known.0, known.1, known.2, f x y known.3)))

  abbrev pub IsConsistent : QuotaWindow F → Type 0
  IsConsistent w = FieldsAgree AreShares w w.limit w.remaining w.used_percent w.remaining_percent

  -- A window passes the checks exactly when it has none of a limit, a remaining amount and
  -- percentages; or percentages and no limit; or all of them, where the limit is positive and the
  -- remaining amount is the limit less what is used. In the last two cases it is not unlimited, its
  -- used share is from 0 to 100, and its remaining share is a NaN or adds up with it to 100, within
  -- the tolerance. A NaN compares as in IEEE 754.
  pub check_invariants-IsConsistent :
      NanLaws F → (w : QuotaWindow F) → (check_invariants F w ≡ ok tt) ↔ IsConsistent w
  check_invariants-IsConsistent laws w =
      let agree = check_invariants-FieldsAgree w in
      let l = w.limit in
      let r = w.remaining in
      let u = w.used_percent in
      let q = w.remaining_percent in
      (
        λ h.
            FieldsAgree-map AddUp AreShares w l r u q (λ x y. (AddUp-AreShares laws x y).0)
              (agree.0 h),
        λ h.
            agree.1
              (FieldsAgree-map AreShares AddUp w l r u q (λ x y. (AddUp-AreShares laws x y).1) h),
      )

  module _ (laws : Ieee754 F) where
    clamp-AddUp :
        (x : F.Carrier) → F.is_nan x ≡ false → AddUp (F.clamp x) (F.sub F.hundred (F.clamp x))
    clamp-AddUp x h =
        let in_range = laws.clamp_in_range x h in
        (in_range, laws.complement_close (F.clamp x) in_range)

    -- The window of a positive limit passes the checks, whatever is used of it.
    pub check_invariants-with_limit :
        (key label : Text) (scope : QuotaWindowScope) (kind : QuotaKind) (used limit : ℕ)
        (reset_at : Option Instant) (confidence : Confidence)
        → 1 ≤ limit
        → check_invariants F (with_limit F key label scope kind used limit reset_at confidence)
          ≡ ok tt
    unfolding with_limit
    check_invariants-with_limit key label scope kind used limit reset_at confidence positive =
        let ratio = F.mul (F.div (F.of_u64 used) (F.of_u64 limit)) F.hundred in
        let w = with_limit F key label scope kind used limit reset_at confidence in
        (check_invariants-FieldsAgree w).1 (
          inr (
            inr (
              limit,
              limit - used,
              F.clamp ratio,
              F.sub F.hundred (F.clamp ratio),
              refl,
              refl,
              refl,
              refl,
              (refl, positive, refl, clamp-AddUp ratio (laws.ratio_is_number used limit positive)),
            )))

    -- The window of a published percentage passes the checks exactly when that is not a NaN.
    pub check_invariants-from_percent :
        (key label : Text) (scope : QuotaWindowScope) (kind : QuotaKind) (percent : F.Carrier)
        (reset_at : Option Instant) (confidence : Confidence)
        → (check_invariants F (from_percent F key label scope kind percent reset_at confidence)
            ≡ ok tt)
          ↔ (F.is_nan percent ≡ false)
    unfolding from_percent check_invariants check_fields
    check_invariants-from_percent key label scope kind percent reset_at confidence =
        elim (Bool-cases (F.is_nan percent)) [
          | inl h ↦
              let unordered = laws.nan_unordered (F.clamp percent) (laws.clamp_nan percent h) in
              ground arith
          | inr h ↦ let agree = clamp-AddUp percent h in ground arith
        ]
