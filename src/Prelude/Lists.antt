-- ===== src/Prelude/Lists.antt =====
-- List functions over the native numbers, under the library's names.
use Prim.Native.Nat.{ℕ, zero, suc, ◌+◌, ◌≤◌}
use mathlib.Core.Path.{◌≡◌, refl, ap}
use mathlib.Core.Logic.{inl, inr}
use mathlib.Core.Bool.{Bool, true, false, not, ◌&&◌, ◌||◌}
use mathlib.Core.Option.{Option, none, some}
use mathlib.Core.List.{List, [], ◌∷◌, ◌++◌}
use native.Mathlib.Omega.{arith}
use lnwdeck.Prelude.Tests.{if◌then◌else◌, Bool-cases}

module _ {ℓ} {A : Type ℓ} where
  abbrev pub length : List A → ℕ
  length [] = 0
  length (x ∷ xs) = suc (length xs)

  abbrev pub get_elem? : List A → ℕ → Option A
  get_elem? [] i = none
  get_elem? (x ∷ xs) zero = some x
  get_elem? (x ∷ xs) (suc i) = get_elem? xs i

  abbrev pub take : ℕ → List A → List A
  take zero xs = []
  take (suc n) [] = []
  take (suc n) (x ∷ xs) = x ∷ take n xs

  abbrev pub drop : ℕ → List A → List A
  drop zero xs = xs
  drop (suc n) [] = []
  drop (suc n) (x ∷ xs) = drop n xs

  abbrev pub is_nil : List A → Bool
  is_nil [] = true
  is_nil (x ∷ xs) = false

  abbrev pub is_some : Option A → Bool
  is_some none = false
  is_some (some x) = true

  -- `iter().any`, `iter().all`, `iter().find`, `iter().filter` of a Boolean test
  abbrev pub any : (A → Bool) → List A → Bool
  any p [] = false
  any p (x ∷ xs) = p x || any p xs

  abbrev pub all : (A → Bool) → List A → Bool
  all p [] = true
  all p (x ∷ xs) = p x && all p xs

  abbrev pub find : (A → Bool) → List A → Option A
  find p [] = none
  find p (x ∷ xs) = if p x then some x else find p xs

  abbrev pub filter : (A → Bool) → List A → List A
  filter p [] = []
  filter p (x ∷ xs) = if p x then x ∷ filter p xs else filter p xs

  abbrev pub All {κ} : (A → Type κ) → List A → Type κ
  All P [] = Unit
  All P (x ∷ xs) = P x × All P xs

  pub length-append : (xs ys : List A) → length (xs ++ ys) ≡ length xs + length ys
  length-append [] ys = omega arith
  length-append (x ∷ xs) ys = omega (arith, length-append xs ys)

  pub length-drop-le : (n : ℕ) (xs : List A) → length (drop n xs) ≤ length xs
  length-drop-le zero xs = omega arith
  length-drop-le (suc n) [] = omega arith
  length-drop-le (suc n) (x ∷ xs) = omega (arith, length-drop-le n xs)

  pub length-filter-le : (p : A → Bool) (xs : List A) → length (filter p xs) ≤ length xs
  length-filter-le p [] = omega arith
  length-filter-le p (x ∷ xs) = ground (arith, length-filter-le p xs)

  pub filter-append :
      (p : A → Bool) (xs ys : List A) → filter p (xs ++ ys) ≡ filter p xs ++ filter p ys
  filter-append p [] ys = refl
  filter-append p (x ∷ xs) ys =
      let ih = filter-append p xs ys in
      elim (Bool-cases (p x)) [ inl e ↦ rw e (ap (λ l. x ∷ l) ih) | inr e ↦ rw e ih ]

  -- What a filter dropped it does not find.
  pub filter-filter-not : (p : A → Bool) (xs : List A) → filter p (filter (λ x. not (p x)) xs) ≡ []
  filter-filter-not p [] = refl
  filter-filter-not p (x ∷ xs) =
      let ih = filter-filter-not p xs in
      elim (Bool-cases (p x)) [ inl e ↦ rw e ih | inr e ↦ rw (e, e) ih ]

  pub find-filter-not-append :
      (p : A → Bool) (xs : List A) (y : A)
      → p y ≡ true
      → find p (filter (λ x. not (p x)) xs ++ y ∷ []) ≡ some y
  find-filter-not-append p [] y h = rw h refl
  find-filter-not-append p (x ∷ xs) y h =
      let ih = find-filter-not-append p xs y h in
      elim (Bool-cases (p x)) [ inl e ↦ rw e ih | inr e ↦ rw (e, e) ih ]

  -- A search whose matches a filter keeps finds the same, also with a row at the end that it skips.
  pub find-filter-append :
      (p q : A → Bool) (xs : List A) (y : A)
      → ((x : A) → p x ≡ true → q x ≡ true)
      → p y ≡ false
      → find p (filter q xs ++ y ∷ []) ≡ find p xs
  find-filter-append p q [] y keeps h = rw h refl
  find-filter-append p q (x ∷ xs) y keeps h =
      let ih = find-filter-append p q xs y keeps h in
      elim (Bool-cases (p x)) [
        | inl e ↦ let kept = keeps x e in rw (kept, e) refl
        | inr e ↦ elim (Bool-cases (q x)) [ inl k ↦ rw (k, e) ih | inr k ↦ rw (k, e) ih ]
      ]

  pub filter-true : (p : A → Bool) (xs : List A) → ((x : A) → p x ≡ true) → filter p xs ≡ xs
  filter-true p [] h = refl
  filter-true p (x ∷ xs) h = rw (h x) (ap (λ l. x ∷ l) (filter-true p xs h))

  -- What two filters in a row drop.
  pub filter-not-filter-not :
      (p q : A → Bool) (xs : List A)
      → filter (λ x. not (q x)) (filter (λ x. not (p x)) xs) ≡ filter (λ x. not (p x || q x)) xs
  filter-not-filter-not p q [] = refl
  filter-not-filter-not p q (x ∷ xs) =
      let ih = filter-not-filter-not p q xs in
      elim (Bool-cases (p x)) [
        | inl e ↦ rw e ih
        | inr e ↦ elim (Bool-cases (q x)) [
          | inl k ↦ rw (e, k) ih
          | inr k ↦ rw (e, k) (ap (λ l. x ∷ l) ih)
        ]
      ]

  pub All-map {κ μ} :
      {P : A → Type κ} {Q : A → Type μ} (step : (x : A) → P x → Q x) (xs : List A)
      → All P xs
      → All Q xs
  All-map step [] h = tt
  All-map step (x ∷ xs) (h, hs) = (step x h, All-map step xs hs)

  pub All-append {κ} : (P : A → Type κ) (xs ys : List A) → All P xs → All P ys → All P (xs ++ ys)
  All-append P [] ys h k = k
  All-append P (x ∷ xs) ys (h, hs) k = (h, All-append P xs ys hs k)

  pub All-filter {κ} :
      (P : A → Type κ) (p : A → Bool) (xs : List A) → All P xs → All P (filter p xs)
  All-filter P p [] h = tt
  All-filter P p (x ∷ xs) (h, hs) =
      let ih = All-filter P p xs hs in
      elim (Bool-cases (p x)) [ inl e ↦ rw e (h, ih) | inr e ↦ rw e ih ]
