-- ===== src/Pets/Ids.antt =====
-- `is_pet_id` and `is_kind` of apps/desktop/src-tauri/src/pets.rs. Both look at the bytes of a text.
pub mod Slug
use lnwdeck.Prelude.{
  ℕ, suc, ◌+◌, ◌≤◌, ◌≡◌, Bool, true, false, not, ◌&&◌, ◌||◌, List, [], ◌∷◌, ltb, leb, ◌==◌,
  if◌then◌else◌, length, all,
}
use lnwdeck.Prelude.Text.{Text, utf8, is_ascii_lowercase, is_ascii_digit}

abbrev pub alnum : ℕ → Bool
alnum b = is_ascii_lowercase b || is_ascii_digit b

abbrev pub slug_byte : ℕ → Bool
slug_byte b = alnum b || b == b'-'

-- `bytes[bytes.len() - 1]` of the bytes `b ∷ bs`
abbrev pub last : ℕ → List ℕ → ℕ
last b [] = b
last b (c ∷ cs) = last c cs

unfoldable pub is_pet_id_bytes : List ℕ → Bool
is_pet_id_bytes [] = false
is_pet_id_bytes (b ∷ bs) =
    if ltb 64 (length (b ∷ bs))
    then false
    else if not (alnum b) || not (alnum (last b bs))
    then false
    else all slug_byte (b ∷ bs)

unfoldable pub is_pet_id : Text → Bool
unfolding is_pet_id_bytes
is_pet_id id = is_pet_id_bytes (utf8 id)

unfoldable pub is_kind_bytes : List ℕ → Bool
is_kind_bytes [] = false
is_kind_bytes (b ∷ bs) =
    if ltb 40 (length (b ∷ bs))
    then false
    else if not (is_ascii_lowercase b)
    then false
    else all slug_byte (b ∷ bs)

unfoldable pub is_kind : Text → Bool
unfolding is_kind_bytes
is_kind value = is_kind_bytes (utf8 value)
