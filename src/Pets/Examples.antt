-- ===== src/Pets/Examples.antt =====
-- Runs of the pet store's functions on concrete packages, manifests and URLs.
use lnwdeck.Prelude.{
  ℕ, ◌≤◌, ◌≡◌, ◌↔◌, refl, true, false, Option, some, List, [], ◌∷◌, ◌++◌, arith, length, take, ok,
}
use lnwdeck.Prelude.Text.{Text, codes, text_eq, utf8, trim, to_ascii_lowercase}
use lnwdeck.Json.{Value}
use lnwdeck.Pets.Ids.{is_pet_id, is_kind}
use lnwdeck.Pets.Ids.Slug.{IsSlug, is_pet_id-IsSlug}
use lnwdeck.Pets.Manifest.{PetManifest, LowersAscii, pet_spritesheet, normalize_manifest}
use lnwdeck.Pets.Manifest.Accepted.{IsNormal, normalize_manifest-IsNormal}
use lnwdeck.Pets.Manifest.Stored.{to_value, normalize_manifest-to_value}
use lnwdeck.Pets.Webp
use lnwdeck.Pets.Webp.{read_webp_dimensions}
use lnwdeck.Pets.Webp.Total.{Returns, read_webp_dimensions-Returns}
use lnwdeck.Pets.Webp.Encoded.{fake_webp, read_webp_dimensions-fake_webp}
use lnwdeck.Pets.Webp.Package.{validate_package, VersionSize}
use lnwdeck.Pets.Zip.{
  Entry, pet_manifest, max_package_bytes, read_zip_entries, validate_package_zip,
}
use lnwdeck.Pets.Zip.Entries.{Placed, read_zip_entries-Placed}
use lnwdeck.Pets.Zip.Accepted.{validate_package_zip-ok}
use lnwdeck.Pets.Url.{pet_id_from_codex_pets_url, codex_pets_download_url}
use lnwdeck.Pets.Url.Official.{AtHost, pet_id_from_codex_pets_url-AtHost}
use lnwdeck.Pets.Url.Download.{pet_id_from_codex_pets_url-forms}

abbrev sheet : List ℕ
sheet = fake_webp 1536 1872

sheet_dimensions : read_webp_dimensions sheet ≡ Webp.ok (1536, 1872)
unfolding read_webp_dimensions
sheet_dimensions = refl

-- A chunk that claims more bytes than the file has, and a file that is too short.
webp_errors :
    (read_webp_dimensions (take 20 sheet) ≡ Webp.err Webp.not_webp)
    × (read_webp_dimensions (
          codes "RIFF"
          ++ ((22 ∷ 0 ∷ 0 ∷ 0 ∷ [])
              ++ (codes "WEBPVP8X"
                  ++ ((99 ∷ 0 ∷ 0 ∷ 0 ∷ 0 ∷ 0 ∷ 0 ∷ 0 ∷ 0 ∷ 0 ∷ 0 ∷ 0 ∷ 0 ∷ 0 ∷ [])))))
        ≡ Webp.err Webp.truncated)
unfolding read_webp_dimensions
webp_errors = (refl, refl)

read_webp_dimensions-Returns_example : Returns (read_webp_dimensions sheet)
read_webp_dimensions-Returns_example = read_webp_dimensions-Returns sheet (omega arith)

read_webp_dimensions-fake_webp_example :
    read_webp_dimensions (fake_webp 1536 2288) ≡ Webp.ok (1536, 2288)
read_webp_dimensions-fake_webp_example =
    read_webp_dimensions-fake_webp 1536 2288 (omega arith) (omega arith) (omega arith) (omega arith)

is_pet_id-IsSlug_example : is_pet_id (codes "old-bai") ≡ true ↔ IsSlug (codes "old-bai")
is_pet_id-IsSlug_example = is_pet_id-IsSlug (codes "old-bai")

pet_ids :
    (is_pet_id (codes "pet-123") ≡ true)
    × (is_pet_id (codes "pet-") ≡ false)
    × (is_pet_id (codes "Pet") ≡ false)
    × (is_pet_id (codes "é") ≡ false)
unfolding is_pet_id utf8
pet_ids = (refl, refl, refl, refl)

-- The floats of this JSON are numbers; `to_ascii_lowercase` serves as `to_lowercase`.
abbrev lowers : LowersAscii to_ascii_lowercase
lowers s h = refl

abbrev youyou : PetManifest
youyou = record {
  id = codes "youyou";
  display_name = codes "You You";
  description = codes "A test pet";
  spritesheet_path = pet_spritesheet;
  sprite_version_number = 1;
  kind = some (codes "cat");
}

abbrev youyou_json : Value ℕ
youyou_json = to_value youyou

normalized : normalize_manifest to_ascii_lowercase youyou_json ≡ ok youyou
unfolding normalize_manifest to_value trim to_ascii_lowercase is_pet_id is_kind utf8 text_eq
normalized = refl

normalize_manifest-IsNormal_example : IsNormal youyou
normalize_manifest-IsNormal_example =
    normalize_manifest-IsNormal to_ascii_lowercase youyou_json youyou normalized

normalize_manifest-to_value_example :
    normalize_manifest to_ascii_lowercase (to_value {F = ℕ} youyou) ≡ ok youyou
normalize_manifest-to_value_example =
    normalize_manifest-to_value ℕ to_ascii_lowercase lowers youyou
      normalize_manifest-IsNormal_example

-- An archive of two files; the crates are stood in for by functions that ignore the bytes.
abbrev file : Text → List ℕ → Option Entry
file name content = some (record {
  name = name;
  unix_mode = some 33188;
  size = length content;
  read_upto = λ n. some (take n content);
})

abbrev package_bytes : List ℕ
package_bytes = 80 ∷ 75 ∷ []

abbrev open_archive : List ℕ → Option (List (Option Entry))
open_archive bytes = some (file pet_spritesheet sheet ∷ file pet_manifest (codes "{}") ∷ [])

abbrev parse : List ℕ → Option (Value ℕ)
parse bytes = some youyou_json

read_files : read_zip_entries open_archive package_bytes ≡ ok (codes "{}", sheet)
unfolding read_zip_entries text_eq
read_files = refl

read_zip_entries-Placed_example :
    (1 ≤ length package_bytes)
    × (length package_bytes ≤ max_package_bytes)
    × ((a : Option Entry) × (b : Option Entry) × (open_archive package_bytes ≡ some (a ∷ b ∷ []))
        × Placed a b (codes "{}") sheet)
read_zip_entries-Placed_example =
    read_zip_entries-Placed open_archive package_bytes (codes "{}") sheet read_files

validated : validate_package_zip open_archive parse to_ascii_lowercase package_bytes ≡ ok youyou
unfolding validate_package_zip read_zip_entries normalize_manifest validate_package
    read_webp_dimensions to_value trim to_ascii_lowercase is_pet_id is_kind utf8 text_eq
validated = refl

validate_package_zip-ok_example :
    IsNormal youyou
    × ((json : List ℕ) × (s : List ℕ) × (value : Value ℕ) × (read_zip_entries open_archive
            package_bytes
          ≡ ok (json, s))
        × (parse json ≡ some value)
        × (normalize_manifest to_ascii_lowercase value ≡ ok youyou)
        × ((d : ℕ × ℕ) × (read_webp_dimensions s ≡ Webp.ok d) × VersionSize 1 d))
validate_package_zip-ok_example =
    validate_package_zip-ok open_archive parse to_ascii_lowercase package_bytes youyou validated

abbrev page : Text
page = codes " HTTPS://Codex-Pets.net/#/pets/YouYou "

page_id : pet_id_from_codex_pets_url to_ascii_lowercase page ≡ ok (codes "youyou")
unfolding pet_id_from_codex_pets_url trim to_ascii_lowercase is_pet_id utf8
page_id = refl

pet_id_from_codex_pets_url-AtHost_example : IsSlug (codes "youyou") × AtHost (trim page)
pet_id_from_codex_pets_url-AtHost_example =
    pet_id_from_codex_pets_url-AtHost to_ascii_lowercase page (codes "youyou") page_id

pet_id_from_codex_pets_url-forms_example :
    (pet_id_from_codex_pets_url to_ascii_lowercase (codex_pets_download_url (codes "a-ti"))
      ≡ ok (codes "a-ti"))
    × (pet_id_from_codex_pets_url to_ascii_lowercase
          (codes "https://codex-pets.net/api/pets/" ++ codes "a-ti")
        ≡ ok (codes "a-ti"))
    × (pet_id_from_codex_pets_url to_ascii_lowercase
          (codes "https://codex-pets.net/#/pets/" ++ codes "a-ti")
        ≡ ok (codes "a-ti"))
pet_id_from_codex_pets_url-forms_example =
    pet_id_from_codex_pets_url-forms to_ascii_lowercase lowers (codes "a-ti")
      (unfold is_pet_id utf8 in refl)
