-- ===== src/Pets/Ids/Slug.antt =====
-- The grammars that the comments on `is_pet_id` and `is_kind` state, and that the functions decide.
use lnwdeck.Prelude.{
  ℕ, suc, ◌≤◌, ◌<◌, ◌≡◌, ◌↔◌, ◌⊎◌, inl, inr, refl, ap, true, false, List, [], ◌∷◌, ◌++◌, arith, ltb,
  length, all, All, &&-true,
}
use lnwdeck.Prelude.Text.{Text, utf8, is_ascii_lowercase}
use lnwdeck.Prelude.Text.Ascii.{IsAscii, utf8-IsAscii, utf8_of_IsAscii}
use lnwdeck.Pets.Ids.{alnum, slug_byte, last, is_pet_id_bytes, is_pet_id, is_kind_bytes, is_kind}

-- A middle part of `[a-z0-9-]*`, and the character `[a-z0-9]` that ends it.
abbrev pub Tail : Text → Type 0
Tail s =
    (middle : Text) × (z : ℕ) × (s ≡ middle ++ z ∷ [])
    × (length middle ≤ 62)
    × All (λ c. slug_byte c ≡ true) middle
    × (alnum z ≡ true)

-- `[a-z0-9](?:[a-z0-9-]{0,62}[a-z0-9])?`
abbrev pub IsSlug : Text → Type 0
IsSlug [] = ⊥
IsSlug (a ∷ s) = (alnum a ≡ true) × ((s ≡ []) ⊎ Tail s)

pub slug_byte-ascii : (c : ℕ) → slug_byte c ≡ true → c < 128
slug_byte-ascii c h = ground arith

all-slug_byte-IsAscii : (s : Text) → all slug_byte s ≡ true → IsAscii s
all-slug_byte-IsAscii [] h = tt
all-slug_byte-IsAscii (c ∷ s) h =
    let (hc, hs) = &&-true (slug_byte c) (all slug_byte s) h in
    (slug_byte-ascii c hc, all-slug_byte-IsAscii s hs)

-- A nonempty text of such characters splits into its middle and its end.
split_last :
    (c : ℕ) (s : Text)
    → all slug_byte (c ∷ s) ≡ true
    → (middle : Text) × (c ∷ s ≡ middle ++ last c s ∷ [])
      × (length middle ≡ length s)
      × All (λ b. slug_byte b ≡ true) middle
split_last c [] h = ([], refl, refl, tt)
split_last c (d ∷ s) h =
    let (hc, hs) = &&-true (slug_byte c) (all slug_byte (d ∷ s)) h in
    let (middle, e, l, m) = split_last d s hs in
    (c ∷ middle, ap (λ (t : Text). c ∷ t) e, omega arith, (hc, m))

is_pet_id_bytes-IsSlug : (s : List ℕ) → is_pet_id_bytes s ≡ true → IsSlug s
unfolding is_pet_id_bytes
is_pet_id_bytes-IsSlug [] h = cc
is_pet_id_bytes-IsSlug (a ∷ []) h = (ground arith, inl refl)
is_pet_id_bytes-IsSlug (a ∷ c ∷ s) h =
    let parts : (alnum a ≡ true)
        × (alnum (last c s) ≡ true)
        × (all slug_byte (c ∷ s) ≡ true)
        × (length s ≤ 62) =
      ground arith in
    let (middle, e, l, m) = split_last c s parts.2 in
    (parts.0, inr (middle, last c s, e, omega arith, m, parts.1))

last-append : (c : ℕ) (middle : List ℕ) (z : ℕ) → last c (middle ++ z ∷ []) ≡ z
last-append c [] z = refl
last-append c (d ∷ middle) z = last-append d middle z

all-append_one :
    (middle : List ℕ) (z : ℕ)
    → All (λ c. slug_byte c ≡ true) middle
    → slug_byte z ≡ true
    → all slug_byte (middle ++ z ∷ []) ≡ true
all-append_one [] z m h = rw h
all-append_one (c ∷ middle) z (hc, m) h = rw hc (all-append_one middle z m h)

length-append_one : (middle : List ℕ) (z : ℕ) → length (middle ++ z ∷ []) ≡ suc (length middle)
length-append_one [] z = refl
length-append_one (c ∷ middle) z = omega (arith, length-append_one middle z)

alnum-slug_byte : (c : ℕ) → alnum c ≡ true → slug_byte c ≡ true
alnum-slug_byte c h = ground arith

IsSlug-is_pet_id_bytes : (s : List ℕ) → IsSlug s → is_pet_id_bytes s ≡ true
unfolding is_pet_id_bytes
IsSlug-is_pet_id_bytes [] h = absurd h
IsSlug-is_pet_id_bytes (a ∷ s) (ha, inl e) = rw (e, ha)
IsSlug-is_pet_id_bytes (a ∷ s) (ha, inr (middle, z, e, l, m, hz)) =
    let rest = all-append_one middle z m (alnum-slug_byte z hz) in
    let len = length-append_one middle z in
    let short : ltb 64 (suc (length (middle ++ z ∷ []))) ≡ false = ground arith in
    rw (e, short, ha, last-append a middle z, hz, rest)

is_pet_id_bytes-IsAscii : (s : List ℕ) → is_pet_id_bytes s ≡ true → IsAscii s
unfolding is_pet_id_bytes
is_pet_id_bytes-IsAscii [] h = tt
is_pet_id_bytes-IsAscii (a ∷ s) h =
    let every : all slug_byte (a ∷ s) ≡ true = ground arith in all-slug_byte-IsAscii (a ∷ s) every

pub IsSlug-IsAscii : (s : Text) → IsSlug s → IsAscii s
IsSlug-IsAscii s h = is_pet_id_bytes-IsAscii s (IsSlug-is_pet_id_bytes s h)

-- The function accepts exactly the texts of the grammar `[a-z0-9](?:[a-z0-9-]{0,62}[a-z0-9])?`.
pub is_pet_id-IsSlug : (id : Text) → is_pet_id id ≡ true ↔ IsSlug id
unfolding is_pet_id
is_pet_id-IsSlug id = (
  λ h.
      rw (utf8-IsAscii id (is_pet_id_bytes-IsAscii (utf8 id) h)) at
        (is_pet_id_bytes-IsSlug (utf8 id) h),
  λ h. rw (utf8_of_IsAscii id (IsSlug-IsAscii id h)) (IsSlug-is_pet_id_bytes id h),
)

-- `[a-z][a-z0-9-]{0,39}`
abbrev pub IsKindLabel : Text → Type 0
IsKindLabel [] = ⊥
IsKindLabel (a ∷ s) =
    (is_ascii_lowercase a ≡ true) × (length s ≤ 39) × All (λ c. slug_byte c ≡ true) s

all-All : (s : List ℕ) → all slug_byte s ≡ true → All (λ c. slug_byte c ≡ true) s
all-All [] h = tt
all-All (c ∷ s) h = let (hc, hs) = &&-true (slug_byte c) (all slug_byte s) h in (hc, all-All s hs)

All-all : (s : List ℕ) → All (λ c. slug_byte c ≡ true) s → all slug_byte s ≡ true
All-all [] h = refl
All-all (c ∷ s) (hc, hs) = rw hc (All-all s hs)

is_kind_bytes-IsKindLabel : (s : List ℕ) → is_kind_bytes s ≡ true → IsKindLabel s
unfolding is_kind_bytes
is_kind_bytes-IsKindLabel [] h = cc
is_kind_bytes-IsKindLabel (a ∷ s) h =
    let every : all slug_byte s ≡ true = ground arith in
    (ground arith, ground arith, all-All s every)

IsKindLabel-is_kind_bytes : (s : List ℕ) → IsKindLabel s → is_kind_bytes s ≡ true
unfolding is_kind_bytes
IsKindLabel-is_kind_bytes [] h = absurd h
IsKindLabel-is_kind_bytes (a ∷ s) (ha, short, hs) = ground (arith, All-all s hs)

is_kind_bytes-IsAscii : (s : List ℕ) → is_kind_bytes s ≡ true → IsAscii s
unfolding is_kind_bytes
is_kind_bytes-IsAscii [] h = tt
is_kind_bytes-IsAscii (a ∷ s) h =
    let every : all slug_byte (a ∷ s) ≡ true = ground arith in all-slug_byte-IsAscii (a ∷ s) every

-- `is_kind` accepts exactly the texts of the grammar `[a-z][a-z0-9-]{0,39}`.
pub is_kind-IsKindLabel : (value : Text) → is_kind value ≡ true ↔ IsKindLabel value
unfolding is_kind
is_kind-IsKindLabel value = (
  λ h.
      rw (utf8-IsAscii value (is_kind_bytes-IsAscii (utf8 value) h)) at
        (is_kind_bytes-IsKindLabel (utf8 value) h),
  λ h.
      rw (utf8_of_IsAscii value (is_kind_bytes-IsAscii value (IsKindLabel-is_kind_bytes value h)))
        (IsKindLabel-is_kind_bytes value h),
)

pub IsSlug-slug_bytes : (s : Text) → IsSlug s → All (λ c. slug_byte c ≡ true) s
unfolding is_pet_id_bytes
IsSlug-slug_bytes [] h = tt
IsSlug-slug_bytes (a ∷ s) h =
    all-All (a ∷ s) (let k = IsSlug-is_pet_id_bytes (a ∷ s) h in ground arith)

pub IsKindLabel-slug_bytes : (s : Text) → IsKindLabel s → All (λ c. slug_byte c ≡ true) s
IsKindLabel-slug_bytes [] h = tt
IsKindLabel-slug_bytes (a ∷ s) (ha, short, hs) = (ground arith, hs)
