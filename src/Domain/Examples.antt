-- ===== src/Domain/Examples.antt =====
-- Whole numbers in place of floats, and the theorems on quota windows and reports at concrete ones.
use lnwdeck.Prelude.{
  ℕ, ◌+◌, ◌-◌, ◌*◌, ◌/◌, ◌≤◌, ◌≡◌, ◌↔◌, min, refl, Bool, true, false, not, Option, none, some, leb,
  ltb, ◌==◌, if◌then◌else◌, ok, arith,
}
use lnwdeck.Prelude.Text.{codes}
use lnwdeck.Domain.Float.{F64, is_percent, distance, Ieee754, NanLaws}
use lnwdeck.Domain.Usage.{high}
use lnwdeck.Domain.Quota.{QuotaWindow, weekly, tokens}
use lnwdeck.Domain.Quota.Window.{with_limit, check_invariants}
use lnwdeck.Domain.Quota.Consistent.{
  IsConsistent, check_invariants-IsConsistent, check_invariants-with_limit,
}

abbrev pub lift : (ℕ → ℕ → ℕ) → Option ℕ → Option ℕ → Option ℕ
lift f (some a) (some b) = some (f a b)
lift f _ _ = none

abbrev pub test : (ℕ → ℕ → Bool) → Option ℕ → Option ℕ → Bool
test f (some a) (some b) = f a b
test f _ _ = false

abbrev pub quotient : Option ℕ → Option ℕ → Option ℕ
quotient (some a) (some b) = if b == 0 then none else some (a / b)
quotient _ _ = none

abbrev pub clamped : Option ℕ → Option ℕ
clamped none = none
clamped (some x) = some (min x 100)

abbrev pub is_none : Option ℕ → Bool
is_none none = true
is_none (some x) = false

-- NaN is `none`; there are no negative numbers.
abbrev pub whole : F64
whole = record {
  Carrier = Option ℕ;
  of_u64 = some;
  add = lift (λ a b. a + b);
  sub = lift (λ a b. a - b);
  mul = lift (λ a b. a * b);
  div = quotient;
  abs = λ x. x;
  le = test leb;
  lt = test ltb;
  clamp = clamped;
  is_nan = is_none;
  nought = some 0;
  hundred = some 100;
  tolerance = some 0;
}

whole-clamp_in_range : (x : Option ℕ) → is_none x ≡ false → is_percent whole (clamped x) ≡ true
whole-clamp_in_range none h = cc
whole-clamp_in_range (some x) h = ground arith

whole-clamp_nan : (x : Option ℕ) → is_none x ≡ true → is_none (clamped x) ≡ true
whole-clamp_nan none h = refl
whole-clamp_nan (some x) h = cc

whole-nan_unordered : (x : Option ℕ) → is_none x ≡ true → is_percent whole x ≡ false
whole-nan_unordered none h = refl
whole-nan_unordered (some x) h = cc

whole-ratio_is_number :
    (a b : ℕ)
    → 1 ≤ b
    → is_none (lift (λ x y. x * y) (quotient (some a) (some b)) (some 100)) ≡ false
whole-ratio_is_number a b h = ground arith

whole-complement_close :
    (x : Option ℕ)
    → is_percent whole x ≡ true
    → test ltb
        (some 0)
        (lift (λ a b. a - b) (lift (λ a b. a + b) x (lift (λ a b. a - b) (some 100) x)) (some 100))
      ≡ false
whole-complement_close none h = refl
whole-complement_close (some x) h = ground arith

pub whole_laws : Ieee754 whole
whole_laws = record {
  clamp_in_range = whole-clamp_in_range;
  clamp_nan = whole-clamp_nan;
  nan_unordered = whole-nan_unordered;
  ratio_is_number = whole-ratio_is_number;
  complement_close = whole-complement_close;
}

abbrev pub weekly_window : QuotaWindow whole
weekly_window = with_limit whole (codes "7d") (codes "7-day") weekly tokens 3000 5000 none high

whole-nan_distance :
    (x y : Option ℕ) → is_none y ≡ true → whole.lt whole.tolerance (distance whole x y) ≡ false
whole-nan_distance none none h = refl
whole-nan_distance (some x) none h = refl
whole-nan_distance x (some y) h = cc

whole-compared_distance :
    (x y : Option ℕ)
    → is_percent whole x ≡ true
    → is_none y ≡ false
    → whole.lt whole.tolerance (distance whole x y)
      ≡ not (whole.le (distance whole x y) whole.tolerance)
whole-compared_distance none y p h = cc
whole-compared_distance (some x) none p h = cc
whole-compared_distance (some x) (some y) p h = ground arith

whole_nan_laws : NanLaws whole
whole_nan_laws = record {
  nan_distance = whole-nan_distance;
  compared_distance = whole-compared_distance;
}

check_invariants-IsConsistent_example :
    (check_invariants whole weekly_window ≡ ok tt) ↔ IsConsistent whole weekly_window
check_invariants-IsConsistent_example =
    check_invariants-IsConsistent whole whole_nan_laws weekly_window

check_invariants-with_limit_example : check_invariants whole weekly_window ≡ ok tt
check_invariants-with_limit_example =
    check_invariants-with_limit whole whole_laws (codes "7d") (codes "7-day") weekly tokens 3000
      5000 none high (omega arith)
