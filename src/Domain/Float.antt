-- ===== src/Domain/Float.antt =====
-- What the code does with an `f64`: an interface, whose operations are those of Rust's `f64`, and
-- the laws of IEEE 754 arithmetic that the code relies on.
use lnwdeck.Prelude.{ℕ, ◌≤◌, ◌≡◌, Bool, true, false, not, ◌&&◌}

pub record F64 : Type 1 where
  pub Carrier : Type 0
  pub of_u64 : ℕ → Carrier
  pub add : Carrier → Carrier → Carrier
  pub sub : Carrier → Carrier → Carrier
  pub mul : Carrier → Carrier → Carrier
  pub div : Carrier → Carrier → Carrier
  pub abs : Carrier → Carrier
  pub le : Carrier → Carrier → Bool
  pub lt : Carrier → Carrier → Bool
  -- `x.clamp(0.0, 100.0)`
  pub clamp : Carrier → Carrier
  pub is_nan : Carrier → Bool
  pub nought : Carrier
  pub hundred : Carrier
  -- `f64::EPSILON * 100.0`
  pub tolerance : Carrier

module _ (F : F64) where
  -- `(0.0..=100.0).contains(&x)`
  abbrev pub is_percent : F.Carrier → Bool
  is_percent x = F.le F.nought x && F.le x F.hundred

  -- A clamped number is in the range, and clamping leaves a NaN, which is in no range; a quotient
  -- of integers by a positive one, times 100, is not a NaN; and 100 less a number of the range
  -- adds up with it to 100, up to the tolerance.
  pub record Ieee754 : Type 0 where
    pub clamp_in_range : (x : F.Carrier) → F.is_nan x ≡ false → is_percent (F.clamp x) ≡ true
    pub clamp_nan : (x : F.Carrier) → F.is_nan x ≡ true → F.is_nan (F.clamp x) ≡ true
    pub nan_unordered : (x : F.Carrier) → F.is_nan x ≡ true → is_percent x ≡ false
    pub ratio_is_number :
        (a b : ℕ) → 1 ≤ b → F.is_nan (F.mul (F.div (F.of_u64 a) (F.of_u64 b)) F.hundred) ≡ false
    pub complement_close :
        (x : F.Carrier)
        → is_percent x ≡ true
        → F.lt F.tolerance (F.abs (F.sub (F.add x (F.sub F.hundred x)) F.hundred)) ≡ false

  -- How far two numbers are from adding up to 100.
  abbrev pub distance : F.Carrier → F.Carrier → F.Carrier
  distance x y = F.abs (F.sub (F.add x y) F.hundred)

  -- A sum with a NaN is one, and a NaN is not greater than the tolerance; the distance of a
  -- percentage and a number that is no NaN is a number, which is greater than the tolerance or not.
  pub record NanLaws : Type 0 where
    pub nan_distance :
        (x y : F.Carrier) → F.is_nan y ≡ true → F.lt F.tolerance (distance x y) ≡ false
    pub compared_distance :
        (x y : F.Carrier)
        → is_percent x ≡ true
        → F.is_nan y ≡ false
        → F.lt F.tolerance (distance x y) ≡ not (F.le (distance x y) F.tolerance)
