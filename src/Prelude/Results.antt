-- ===== src/Prelude/Results.antt =====
-- Rust's `Result<A, E>`, with `?` as the bind of a `do` block.
use mathlib.Core.Path.{◌≡◌, Path, refl, ap}
use mathlib.Core.Logic.{◌↔◌, ◌⊎◌, inl, inr}
use mathlib.Core.Bool.{Bool, true, false}

pub data Result {ℓ κ} (E : Type ℓ) (A : Type κ) : Type (ℓ ⊔ κ) where
  ok : A → Result E A
  err : E → Result E A

infixl 5 ◌>>=◌ ◌>>◌
abbrev pub ◌>>=◌ {ℓ κ μ} :
    {E : Type ℓ} {T : Type κ} {U : Type μ} → Result E T → (T → Result E U) → Result E U
err e >>= next = err e
ok t >>= next = next t

abbrev pub ◌>>◌ {ℓ κ} : {E : Type ℓ} {U : Type κ} → Result E (Unit {0}) → Result E U → Result E U
check >> rest = check >>= λ _. rest

-- `if bad { return Err(e) }`
abbrev pub refuse {ℓ} : {E : Type ℓ} → Bool → E → Result E (Unit {0})
refuse true e = err e
refuse false e = ok tt

-- A chain that ends in `ok u` went through a value of its first step.
abbrev pub Through {ℓ κ μ} :
    {E : Type ℓ} {T : Type κ} {U : Type μ} → Result E T → (T → Result E U) → U → Type (ℓ ⊔ κ ⊔ μ)
Through {T} first next u = (t : T) × (first ≡ ok t) × (next t ≡ ok u)

pub ok_injective {ℓ κ} :
    {E : Type ℓ} {T : Type κ} {a b : T} → Path (Result E T) (ok a) (ok b) → a ≡ b
ok_injective {E} {T} {a} h = ap (value_or a) h
  where
    value_or : T → Result E T → T
    value_or default (ok t) = t
    value_or default (err e) = default

-- To split on a computed result and keep the equation.
pub Result-cases {ℓ κ} :
    {E : Type ℓ} {T : Type κ} (r : Result E T) → ((t : T) × (r ≡ ok t)) ⊎ ((e : E) × (r ≡ err e))
Result-cases (ok t) = inl (t, refl)
Result-cases (err e) = inr (e, refl)

pub bind-ok {ℓ κ μ} :
    {E : Type ℓ} {T : Type κ} {U : Type μ} (first : Result E T) (next : T → Result E U) {u : U}
    → (first >>= next) ≡ ok u
    → Through first next u
bind-ok (err e) next h = cc
bind-ok (ok t) next h = (t, refl, h)

pub refuse-ok {ℓ} : {E : Type ℓ} (b : Bool) (e : E) {u : Unit {0}} → refuse b e ≡ ok u → b ≡ false
refuse-ok true e h = cc
refuse-ok false e h = refl

-- Two checks in a row.
pub both_ok {ℓ} :
    {E : Type ℓ} (first second : Result E (Unit {0}))
    → ((first >> second) ≡ ok tt) ↔ ((first ≡ ok tt) × (second ≡ ok tt))
both_ok (ok tt) second = (λ h. (refl, h), λ h. h.1)
both_ok (err e) second = (λ h. cc, λ h. cc)
