-- ===== src/Pricing/Models/Dated.antt =====
-- What `strip_date_suffix` takes away, and when it does not panic.
use lnwdeck.Prelude.{
  ℕ, suc, ◌≤◌, ◌-◌, ◌≡◌, ◌⊎◌, refl, ap, sym, ◌∙◌, Bool, true, false, ◌||◌, Option, none, some, [],
  ◌∷◌, ◌++◌, all, is_nil, length, if◌then◌else◌, leb, ◌==◌, Result, ok, err, ◌>>=◌, bind-ok,
  Bool-cases, ok_injective, inl, inr, &&-true, arith,
}
use mathlib.Core.Option.{some-injective}
use lnwdeck.Prelude.Text.{Text, codes, utf8_char, is_ascii_digit, starts_with}
use lnwdeck.Pricing.Models.{
  Panic, Cut, short, inside, between, after_char, cut_bytes, date_after, is_date_at, date_or,
  find_date, strip_date_suffix,
}

digit-one_byte : (c : ℕ) → is_ascii_digit c ≡ true → length (utf8_char c) ≡ 1
unfolding utf8_char
digit-one_byte c h = ground arith

after_char-between :
    (c : ℕ) (cut : Cut) (front rest : Text)
    → after_char c cut ≡ between front rest
    → (more : Text) × (front ≡ c ∷ more) × (cut ≡ between more rest)
after_char-between c short front rest h = cc
after_char-between c inside front rest h = cc
after_char-between c (between more r) front rest h = (more, cc, cc)

cut_step-between :
    (n w c : ℕ) (s : Text) (cut : Cut) (front rest : Text)
    → (if n == 0 then between [] (c ∷ s) else if leb w n then after_char c cut else inside)
      ≡ between front rest
    → ((n ≡ 0) × (front ≡ []) × (rest ≡ c ∷ s))
      ⊎ ((w ≤ n) × (after_char c cut ≡ between front rest))
cut_step-between n w c s cut front rest h = ground arith

cut_bytes-between :
    (n : ℕ) (s front rest : Text)
    → cut_bytes n s ≡ between front rest
    → (s ≡ front ++ rest) × (all is_ascii_digit front ≡ true → length front ≡ n)
unfolding cut_bytes
cut_bytes-between n [] front rest h = ground arith
cut_bytes-between n (c ∷ s) front rest h =
    let w = length (utf8_char c) in
    elim (cut_step-between n w c s (cut_bytes (n - w) s) front rest h) [
      | inl (zeroth, nothing, all_left) ↦
          (rw (nothing, all_left) refl, λ digits. rw nothing (sym zeroth))
      | inr (fits, after) ↦
          let (more, first, later) = after_char-between c (cut_bytes (n - w) s) front rest after in
          let (split, counted) = cut_bytes-between (n - w) s more rest later in
          (
            rw first (ap (λ l. c ∷ l) split),
            λ digits. rw first (
                let both =
                  &&-true (is_ascii_digit c) (all is_ascii_digit more)
                    (sym (ap (all is_ascii_digit) first) ∙ digits) in
                omega (arith, digit-one_byte c both.0, counted both.1, fits)),
          )
    ]

-- `c` and the text after it are a date suffix: a dash or an at sign, eight digits, and then nothing or
-- a dash.
abbrev pub IsDate : ℕ → Text → Type 0
IsDate c s =
    ((c == b'-' || c == b'@') ≡ true)
    × ((digits : Text) × (after : Text) × (s ≡ digits ++ after)
        × (length digits ≡ 8)
        × (all is_ascii_digit digits ≡ true)
        × ((is_nil after || starts_with (codes "-") after) ≡ true))

-- No date suffix begins anywhere in the text.
abbrev pub NoDate : Text → Type 0
NoDate [] = Unit
NoDate (c ∷ s) = (¬ IsDate c s) × NoDate s

is_date_at-IsDate : (c : ℕ) (s : Text) → is_date_at c s ≡ ok true → IsDate c s
unfolding is_date_at
is_date_at-IsDate c s h = elim (Bool-cases (c == b'-' || c == b'@')) [
  | inl e ↦ (e, of_cut (cut_bytes 8 s) refl (sym (chosen e) ∙ h))
  | inr e ↦ absurd (cc (sym (left_alone e) ∙ h))
]
  where
    chosen : (c == b'-' || c == b'@') ≡ true → is_date_at c s ≡ date_after (cut_bytes 8 s)
    chosen e = rw e refl

    left_alone : (c == b'-' || c == b'@') ≡ false → is_date_at c s ≡ ok false
    left_alone e = rw e refl

    of_cut :
        (cut : Cut)
        → cut_bytes 8 s ≡ cut
        → date_after cut ≡ ok true
        → (digits : Text) × (after : Text) × (s ≡ digits ++ after)
          × (length digits ≡ 8)
          × (all is_ascii_digit digits ≡ true)
          × ((is_nil after || starts_with (codes "-") after) ≡ true)
    of_cut short k g = cc
    of_cut inside k g = cc
    of_cut (between digits after) k g =
        let (split, counted) = cut_bytes-between 8 s digits after k in
        let both =
          &&-true (all is_ascii_digit digits) (is_nil after || starts_with (codes "-") after) cc in
        (digits, after, split, counted both.0, both.0, both.1)

cut_step-one_byte :
    (n w c : ℕ) (s : Text) (cut : Cut)
    → w ≡ 1
    → (if suc n == 0
        then between [] (c ∷ s)
        else if leb w (suc n)
        then after_char c cut
        else inside)
      ≡ after_char c cut
cut_step-one_byte n w c s cut h = ground arith

-- A run of ASCII digits is cut off whole.
cut_bytes-digits :
    (digits after : Text)
    → all is_ascii_digit digits ≡ true
    → cut_bytes (length digits) (digits ++ after) ≡ between digits after
unfolding cut_bytes
cut_bytes-digits [] [] h = refl
cut_bytes-digits [] (c ∷ after) h = refl
cut_bytes-digits (d ∷ digits) after h =
    let both = &&-true (is_ascii_digit d) (all is_ascii_digit digits) h in
    let one = digit-one_byte d both.0 in
    let n = length digits in
    let less : suc n - 1 ≡ n = omega arith in
    let s = digits ++ after in
    cut_step-one_byte n (length (utf8_char d)) d s (cut_bytes (suc n - length (utf8_char d)) s) one
    ∙ ap (λ w. after_char d (cut_bytes (suc n - w) s)) one
    ∙ ap (λ k. after_char d (cut_bytes k s)) less
    ∙ ap (after_char d) (cut_bytes-digits digits after both.1)

IsDate-is_date_at : (c : ℕ) (s : Text) → IsDate c s → is_date_at c s ≡ ok true
unfolding is_date_at date_after
IsDate-is_date_at c s (marked, (digits, after, split, eight, numeric, ended)) =
    let cut : cut_bytes 8 (digits ++ after) ≡ between digits after =
      ap (λ n. cut_bytes n (digits ++ after)) (sym eight) ∙ cut_bytes-digits digits after numeric in
    rw (marked, split, cut) (rw (numeric, ended) refl)

no-IsDate_here : (c : ℕ) (s : Text) → is_date_at c s ≡ ok false → ¬ IsDate c s
no-IsDate_here c s h date = let found = IsDate-is_date_at c s date in absurd (cc (sym found ∙ h))

-- What the search says: the text before the last date suffix, or that there is none.
abbrev Found : Text → Option Text → Type 0
Found s none = NoDate s
Found s (some front) =
    (c : ℕ) × (rest : Text) × (s ≡ front ++ c ∷ rest) × IsDate c rest × NoDate rest

date_or-Found :
    (c : ℕ) (s : Text) (later o : Option Text)
    → Found s later
    → date_or c s later ≡ ok o
    → Found (c ∷ s) o
unfolding date_or
date_or-Found c s (some front) none f h = cc
date_or-Found c s (some front) (some g) (d, rest, split, date, none_after) h =
    let same : c ∷ front ≡ g = some-injective (c ∷ front) g (ok_injective h) in
    (d, rest, ap (λ l. c ∷ l) split ∙ ap (λ l. l ++ d ∷ rest) same, date, none_after)
date_or-Found c s none o f h = here (is_date_at c s) refl h
  where
    here :
        (r : Result Panic Bool)
        → is_date_at c s ≡ r
        → (r >>= λ b. ok (if b then some [] else none)) ≡ ok o
        → Found (c ∷ s) o
    here (err e) k g = cc
    here (ok true) k g = rw (sym (ok_injective g)) (c, s, refl, is_date_at-IsDate c s k, f)
    here (ok false) k g = rw (sym (ok_injective g)) (no-IsDate_here c s k, f)

find_date-Found : (s : Text) (o : Option Text) → find_date s ≡ ok o → Found s o
unfolding find_date
find_date-Found [] none h = tt
find_date-Found [] (some front) h = cc
find_date-Found (c ∷ s) o h =
    let (later, found, step) = bind-ok (find_date s) (date_or c s) h in
    date_or-Found c s later o (find_date-Found s later found) step

-- What is left of a model's name is the name, and no date suffix begins anywhere in it; or it is what
-- stands before a date suffix, the last of the name, with whatever follows the suffix.
pub strip_date_suffix-IsDate :
    (model left : Text)
    → strip_date_suffix model ≡ ok left
    → ((left ≡ model) × NoDate model)
      ⊎ ((c : ℕ) × (rest : Text) × (model ≡ left ++ c ∷ rest) × IsDate c rest × NoDate rest)
unfolding strip_date_suffix
strip_date_suffix-IsDate model left h = of_search (find_date model) refl h
  where
    of_search :
        (r : Result Panic (Option Text))
        → find_date model ≡ r
        → (r >>= λ found. elim found [ some front ↦ ok front | none ↦ ok model ]) ≡ ok left
        → ((left ≡ model) × NoDate model)
          ⊎ ((c : ℕ) × (rest : Text) × (model ≡ left ++ c ∷ rest) × IsDate c rest × NoDate rest)
    of_search (err e) k g = cc
    of_search (ok none) k g = inl (sym (ok_injective g), find_date-Found model none k)
    of_search (ok (some front)) k g =
        rw (sym (ok_injective g)) (inr (find_date-Found model (some front) k))
