-- ===== src/Pets/Zip.antt =====
-- `read_zip_entries` and `validate_package_zip` of apps/desktop/src-tauri/src/pets.rs. The crates that
-- decode a zip archive and parse JSON are parameters: `open_archive` gives the archive's entries by
-- index, `none` for one that cannot be read, and `parse` is `serde_json::from_slice`.
pub mod Entries
pub mod Accepted
use lnwdeck.Prelude.{
  ℕ, ◌+◌, ◌*◌, ◌/◌, ◌%◌, ◌^◌, ◌≡◌, Bool, true, false, not, ◌&&◌, ◌||◌, Option, none, some, List, [],
  ◌∷◌, ltb, ◌==◌, if◌then◌else◌, length, Result, ok, err, ◌>>=◌, ◌>>◌, refuse,
}
use lnwdeck.Prelude.Text.{Text, codes, text_eq}
use lnwdeck.Json.{Value}
use lnwdeck.Pets.Manifest.{PetManifest, ManifestError, pet_spritesheet, normalize_manifest}
use lnwdeck.Pets.Webp.Package.{
  PackageError, Verdict, accepted, refused, crashed, max_spritesheet_bytes, validate_package,
}

abbrev pub pet_manifest : Text
pet_manifest = codes "pet.json"

abbrev pub max_package_bytes : ℕ
max_package_bytes = 12 * 1024 * 1024

abbrev pub max_manifest_bytes : ℕ
max_manifest_bytes = 16 * 1024

-- A file of the archive; `read_upto n` are its first `n` bytes, `none` if reading fails.
pub record Entry : Type 0 where
  pub name : Text
  pub unix_mode : Option ℕ
  pub size : ℕ
  pub read_upto : ℕ → Option (List ℕ)

pub data ZipError : Type 0 where
  bad_package_size invalid_archive duplicate_manifest duplicate_spritesheet : ZipError
  unexpected_entry symbolic_link bad_entry_size unreadable too_large incomplete : ZipError

-- The two variables of the loop.
pub record Found : Type 0 where
  pub manifest : Option (List ℕ)
  pub spritesheet : Option (List ℕ)

abbrev pub is_some : Option (List ℕ) → Bool
is_some none = false
is_some (some x) = true

-- `mode & 0o170000 == 0o120000`: the four bits from 2^12 on are 0o12.
unfoldable pub is_symlink : Option ℕ → Bool
is_symlink none = false
is_symlink (some mode) = mode / 2 ^ 12 % 2 ^ 4 == 10

unfoldable pub limit_of : Text → Found → Result ZipError ℕ
limit_of name found =
    if text_eq name pet_manifest
    then (if is_some found.manifest then err duplicate_manifest else ok max_manifest_bytes)
    else if text_eq name pet_spritesheet
    then (if is_some found.spritesheet then err duplicate_spritesheet else ok max_spritesheet_bytes)
    else err unexpected_entry

abbrev pub of_option : {A : Type 0} → ZipError → Option A → Result ZipError A
of_option e none = err e
of_option e (some a) = ok a

-- The checks of one file, up to its content.
unfoldable pub read_content : Entry → ℕ → Result ZipError (List ℕ)
unfolding is_symlink
read_content file limit = do
  refuse (is_symlink file.unix_mode) symbolic_link
  refuse (file.size == 0 || ltb limit file.size) bad_entry_size
  content ← of_option unreadable (file.read_upto (limit + 1))
  refuse (ltb limit (length content)) too_large
  ok content

abbrev pub store : Text → List ℕ → Found → Found
store name content found =
    if text_eq name pet_manifest
    then record found { manifest = some content }
    else record found { spritesheet = some content }

-- One round of the loop.
unfoldable pub read_entry : Option Entry → Found → Result ZipError Found
unfolding limit_of read_content
read_entry none found = err invalid_archive
read_entry (some file) found = do
  limit ← limit_of file.name found
  content ← read_content file limit
  ok (store file.name content found)

unfoldable pub read_entries : List (Option Entry) → Found → Result ZipError Found
unfolding read_entry
read_entries [] found = ok found
read_entries (e ∷ es) found = do found' ← read_entry e found; read_entries es found'

abbrev pub both : Found → Result ZipError (List ℕ × List ℕ)
both found = do
  manifest ← of_option incomplete found.manifest
  spritesheet ← of_option incomplete found.spritesheet
  ok (manifest, spritesheet)

module _ (open_archive : List ℕ → Option (List (Option Entry))) where
  unfoldable pub read_zip_entries : List ℕ → Result ZipError (List ℕ × List ℕ)
  unfolding read_entries
  read_zip_entries bytes = do
    refuse (length bytes == 0 || ltb max_package_bytes (length bytes)) bad_package_size
    archive ← of_option invalid_archive (open_archive bytes)
    found ← read_entries archive (record { manifest = none; spritesheet = none })
    both found

pub data PetError : Type 0 where
  zip : ZipError → PetError
  manifest_size manifest_json : PetError
  manifest : ManifestError → PetError
  rejected : PackageError → PetError
  crash : PetError

abbrev pub wrap : {E A : Type 0} → (E → PetError) → Result E A → Result PetError A
wrap f (ok a) = ok a
wrap f (err e) = err (f e)

abbrev pub verdict : Verdict → Result PetError (Unit {0})
verdict accepted = ok tt
verdict (refused e) = err (rejected e)
verdict crashed = err crash

abbrev pub parsed : {A : Type 0} → Option A → Result PetError A
parsed none = err manifest_json
parsed (some v) = ok v

module _ {F : Type 0} (open_archive : List ℕ → Option (List (Option Entry)))
    (parse : List ℕ → Option (Value F)) (to_lowercase : Text → Text) where
  unfoldable pub validate_package_zip : List ℕ → Result PetError PetManifest
  validate_package_zip bytes = do
    (manifest_bytes, spritesheet) ← wrap zip (read_zip_entries open_archive bytes)
    refuse (length manifest_bytes == 0 || ltb max_manifest_bytes (length manifest_bytes))
        manifest_size
    value ← parsed (parse manifest_bytes)
    m ← wrap manifest (normalize_manifest to_lowercase value)
    verdict (validate_package m.sprite_version_number spritesheet)
    ok m
