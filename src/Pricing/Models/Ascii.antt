-- ===== src/Pricing/Models/Ascii.antt =====
-- On ASCII names nothing is cut inside a character.
use lnwdeck.Prelude.{
  ℕ, ◌-◌, ◌≡◌, refl, Bool, true, false, ◌||◌, Option, none, some, [], ◌∷◌, all, length, ltb, leb,
  ◌==◌, Result, ok, err, ◌>>=◌, Bool-cases, inl, inr, &&-true, arith,
}
use lnwdeck.Prelude.Text.{Text, utf8_char}
use lnwdeck.Pricing.Models.{
  Panic, Cut, short, inside, between, after_char, cut_bytes, date_after, is_date_at, date_or,
  find_date, strip_date_suffix,
}

abbrev pub is_ascii : Text → Bool
is_ascii s = all (λ c. ltb c 128) s

abbrev is_inside : Cut → Bool
is_inside inside = true
is_inside short = false
is_inside (between front rest) = false

ascii-one_byte : (c : ℕ) → ltb c 128 ≡ true → length (utf8_char c) ≡ 1
unfolding utf8_char
ascii-one_byte c h = ground arith

is_inside-after_char : (c : ℕ) (cut : Cut) → is_inside (after_char c cut) ≡ is_inside cut
is_inside-after_char c short = refl
is_inside-after_char c inside = refl
is_inside-after_char c (between front rest) = refl

cut_bytes-ascii : (n : ℕ) (s : Text) → is_ascii s ≡ true → is_inside (cut_bytes n s) ≡ false
unfolding cut_bytes
cut_bytes-ascii n [] h = elim (Bool-cases (n == 0)) [ inl e ↦ rw e refl | inr e ↦ rw e refl ]
cut_bytes-ascii n (c ∷ s) h =
    let (one, others) = &&-true (ltb c 128) (is_ascii s) h in
    let w = length (utf8_char c) in
    let rest = cut_bytes-ascii (n - w) s others in
    elim (Bool-cases (n == 0)) [
      | inl e ↦ rw e refl
      | inr e ↦
          let fits : leb w n ≡ true = rw (ascii-one_byte c one) (ground (arith, e)) in
          rw (e, fits, is_inside-after_char c (cut_bytes (n - w) s)) rest
    ]

-- The result is a value.
abbrev IsOk : {A : Type 0} → Result Panic A → Type 0
IsOk (ok a) = Unit
IsOk (err e) = ⊥

date_after-IsOk : (cut : Cut) → is_inside cut ≡ false → IsOk (date_after cut)
unfolding date_after
date_after-IsOk short h = tt
date_after-IsOk inside h = cc
date_after-IsOk (between digits after) h = tt

is_date_at-IsOk : (c : ℕ) (s : Text) → is_ascii s ≡ true → IsOk (is_date_at c s)
unfolding is_date_at
is_date_at-IsOk c s h = elim (Bool-cases (c == b'-' || c == b'@')) [
  | inl e ↦ rw e (date_after-IsOk (cut_bytes 8 s) (cut_bytes-ascii 8 s h))
  | inr e ↦ rw e tt
]

bind-IsOk :
    {A B : Type 0} (r : Result Panic A) (next : A → Result Panic B)
    → IsOk r
    → ((a : A) → IsOk (next a))
    → IsOk (r >>= next)
bind-IsOk (ok a) next h k = k a
bind-IsOk (err e) next h k = elim h [ ]

date_or-IsOk :
    (c : ℕ) (s : Text) (later : Option Text) → is_ascii s ≡ true → IsOk (date_or c s later)
unfolding date_or
date_or-IsOk c s (some front) h = tt
date_or-IsOk c s none h = bind-IsOk (is_date_at c s) _ (is_date_at-IsOk c s h) (λ here. tt)

find_date-IsOk : (s : Text) → is_ascii s ≡ true → IsOk (find_date s)
unfolding find_date
find_date-IsOk [] h = tt
find_date-IsOk (c ∷ s) h =
    let (one, others) = &&-true (ltb c 128) (is_ascii s) h in
    bind-IsOk (find_date s) (date_or c s) (find_date-IsOk s others)
      (λ later. date_or-IsOk c s later others)

-- `strip_date_suffix` returns on every ASCII name.
pub strip_date_suffix-returns :
    (model : Text) → is_ascii model ≡ true → (left : Text) × (strip_date_suffix model ≡ ok left)
unfolding strip_date_suffix
strip_date_suffix-returns model h = of_search (find_date model) (find_date-IsOk model h)
  where
    of_search :
        (r : Result Panic (Option Text))
        → IsOk r
        → (left : Text) × ((r >>= λ found. elim found [ some front ↦ ok front | none ↦ ok model ])
            ≡ ok left)
    of_search (err e) k = elim k [ ]
    of_search (ok none) k = (model, refl)
    of_search (ok (some front)) k = (front, refl)
