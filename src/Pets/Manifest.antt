-- ===== src/Pets/Manifest.antt =====
-- `PetManifest` and `normalize_manifest` of apps/desktop/src-tauri/src/pets.rs. `to_lowercase` is
-- `str::to_lowercase`, Unicode's mapping; what is used of it is `LowersAscii`.
pub mod Accepted
pub mod Stored
use lnwdeck.Prelude.{
  ℕ, ◌+◌, ◌^◌, ◌≤◌, ◌≡◌, Bool, true, false, not, ◌&&◌, ◌||◌, Option, none, some, List, [], ◌∷◌, ltb,
  ◌==◌, if◌then◌else◌, length, All, Result, ok, err, ◌>>=◌, ◌>>◌, refuse,
}
use lnwdeck.Prelude.Text.{Text, len, codes, text_eq, utf8, trim, to_ascii_lowercase}
use lnwdeck.Prelude.Text.Ascii.{IsAscii}
use lnwdeck.Json.{Value, object, string, number, unsigned, null, get}
use lnwdeck.Pets.Ids.{is_pet_id, is_kind}

-- `str::to_lowercase` on a text of ASCII characters
abbrev pub LowersAscii : (Text → Text) → Type 0
LowersAscii to_lowercase = (s : Text) → IsAscii s → to_lowercase s ≡ to_ascii_lowercase s

pub record PetManifest : Type 0 where
  pub id : Text
  pub display_name : Text
  pub description : Text
  pub spritesheet_path : Text
  pub sprite_version_number : ℕ
  pub kind : Option Text

pub data ManifestError : Type 0 where
  not_an_object version_not_a_number version_out_of_range bad_id bad_display_name : ManifestError
  bad_description bad_spritesheet_path bad_kind bad_version : ManifestError

abbrev pub pet_spritesheet : Text
pet_spritesheet = codes "spritesheet.webp"

abbrev pub is_empty : Text → Bool
is_empty [] = true
is_empty (c ∷ s) = false

module _ {F : Type 0} where
  unfoldable pub is_object : Value F → Bool
  is_object (object fields) = true
  is_object _ = false

  -- `.and_then(|v| v.as_str()).map(trim).unwrap_or_default()`
  unfoldable pub trimmed : Option (Value F) → Text
  trimmed (some (string s)) = trim s
  trimmed _ = []

  unfoldable pub read_str : Value F → Text → Text
  unfolding get trimmed
  read_str value key = trimmed (get key value)

  -- `as_u64` and the conversion to `u32`; 1 where the key is missing
  unfoldable pub sprite_version : Option (Value F) → Result ManifestError ℕ
  sprite_version none = ok 1
  sprite_version (some (number (unsigned n))) =
      if ltb n (2 ^ 32) then ok n else err version_out_of_range
  sprite_version (some _) = err version_not_a_number

  abbrev pub is_provided : Option (Value F) → Bool
  is_provided none = false
  is_provided (some v) = true

-- `(!kind.is_empty()).then_some(kind)`
abbrev pub kind_of : Text → Option Text
kind_of [] = none
kind_of (c ∷ s) = some (c ∷ s)

-- The checks of the fields once they are read, in the source's order.
unfoldable pub check_fields :
    Text → Text → Text → Text → Text → Bool → ℕ → Result ManifestError PetManifest
check_fields id display_name description spritesheet_path kind version_provided version = do
  refuse (not (is_pet_id id)) bad_id
  refuse (is_empty display_name || ltb 80 (len display_name)) bad_display_name
  refuse (is_empty description || ltb 280 (len description)) bad_description
  refuse (not (text_eq spritesheet_path pet_spritesheet)) bad_spritesheet_path
  refuse (not (is_empty kind) && not (is_kind kind)) bad_kind
  refuse (version_provided && (not (version == 1) && not (version == 2))) bad_version
  ok (record {
    id = id;
    display_name = display_name;
    description = description;
    spritesheet_path = pet_spritesheet;
    sprite_version_number = version;
    kind = kind_of kind;
  })

module _ {F : Type 0} (to_lowercase : Text → Text) where
  unfoldable pub normalize_manifest : Value F → Result ManifestError PetManifest
  unfolding is_object read_str sprite_version check_fields
  normalize_manifest value = do
    refuse (not (is_object value)) not_an_object
    let id = to_lowercase (read_str value (codes "id"))
    let kind = to_lowercase (read_str value (codes "kind"))
    let version_field = get (codes "spriteVersionNumber") value
    version ← sprite_version version_field
    check_fields id (read_str value (codes "displayName")) (read_str value (codes "description"))
        (read_str value (codes "spritesheetPath")) kind (is_provided version_field) version
