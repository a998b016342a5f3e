-- ===== src/Pets/Webp/Package.antt =====
-- `validate_package`: a spritesheet is accepted by its size and its dimensions.
use lnwdeck.Prelude.{
  ℕ, ◌*◌, ◌≤◌, ◌≡◌, ◌↔◌, ◌⊎◌, refl, not, ◌&&◌, ◌||◌, List, arith, ltb, ◌==◌, if◌then◌else◌, length,
}
use lnwdeck.Pets.Webp.{Outcome, WebpError, ok, err, panic, diverge, read_webp_dimensions}

abbrev pub max_spritesheet_bytes : ℕ
max_spritesheet_bytes = 10 * 1024 * 1024

abbrev pub spritesheet_width : ℕ
spritesheet_width = 1536

abbrev pub spritesheet_height_v1 : ℕ
spritesheet_height_v1 = 1872

abbrev pub spritesheet_height_v2 : ℕ
spritesheet_height_v2 = 2288

pub data PackageError : Type 0 where
  missing_or_too_large unsupported_version wrong_size : PackageError
  webp : WebpError → PackageError

-- `none` for a panic or a loop without end, which `read_webp_dimensions-Returns` excludes.
pub data Verdict : Type 0 where
  accepted : Verdict
  refused : PackageError → Verdict
  crashed : Verdict

abbrev expected_height : ℕ → ℕ
expected_height version = if version == 1 then spritesheet_height_v1 else spritesheet_height_v2

-- The checks after the dimensions are read.
unfoldable pub check_dimensions : ℕ → ℕ × ℕ → Verdict
check_dimensions version (width, height) =
    if not (version == 1) && not (version == 2)
    then refused unsupported_version
    else if not (width == spritesheet_width) || not (height == expected_height version)
    then refused wrong_size
    else accepted

-- The `?` on `read_webp_dimensions`, and the checks.
unfoldable pub judge : ℕ → Outcome (ℕ × ℕ) → Verdict
unfolding check_dimensions
judge version (ok dimensions) = check_dimensions version dimensions
judge version (err e) = refused (webp e)
judge version panic = crashed
judge version diverge = crashed

-- The manifest enters by its `sprite_version_number`.
unfoldable pub validate_package : ℕ → List ℕ → Verdict
unfolding judge
validate_package version spritesheet =
    if length spritesheet == 0 || ltb max_spritesheet_bytes (length spritesheet)
    then refused missing_or_too_large
    else judge version (read_webp_dimensions spritesheet)

-- The dimensions that a version of the manifest asks for.
abbrev pub VersionSize : ℕ → ℕ × ℕ → Type 0
VersionSize version d =
    (d.0 ≡ spritesheet_width)
    × (((version ≡ 1) × (d.1 ≡ spritesheet_height_v1))
        ⊎ ((version ≡ 2) × (d.1 ≡ spritesheet_height_v2)))

check_dimensions-accepted :
    (version : ℕ) (d : ℕ × ℕ) → check_dimensions version d ≡ accepted → VersionSize version d
unfolding check_dimensions
check_dimensions-accepted version (w, h) e = ground arith

check_dimensions-VersionSize :
    (version : ℕ) (d : ℕ × ℕ) → VersionSize version d → check_dimensions version d ≡ accepted
unfolding check_dimensions
check_dimensions-VersionSize version (w, h) v = ground arith

judge-accepted :
    (version : ℕ) (r : Outcome (ℕ × ℕ))
    → judge version r ≡ accepted
    → (d : ℕ × ℕ) × (r ≡ ok d) × VersionSize version d
unfolding judge
judge-accepted version (ok d) e = (d, refl, check_dimensions-accepted version d e)
judge-accepted version (err x) e = cc
judge-accepted version panic e = cc
judge-accepted version diverge e = cc

-- A sheet is accepted exactly when it is not empty and within the limit, its version is 1 or 2, and
-- its header gives the width 1536 and that version's height, 1872 or 2288.
pub validate_package-accepted :
    (version : ℕ) (sheet : List ℕ)
    → validate_package version sheet ≡ accepted
      ↔ (1 ≤ length sheet)
        × (length sheet ≤ max_spritesheet_bytes)
        × ((d : ℕ × ℕ) × (read_webp_dimensions sheet ≡ ok d) × VersionSize version d)
unfolding validate_package
validate_package-accepted version sheet = (there, back)
  where
    size_ok :
        validate_package version sheet ≡ accepted
        → (1 ≤ length sheet)
          × (length sheet ≤ max_spritesheet_bytes)
          × (judge version (read_webp_dimensions sheet) ≡ accepted)
    size_ok e = ground arith

    there :
        validate_package version sheet ≡ accepted
        → (1 ≤ length sheet)
          × (length sheet ≤ max_spritesheet_bytes)
          × ((d : ℕ × ℕ) × (read_webp_dimensions sheet ≡ ok d) × VersionSize version d)
    there e =
        let (some_bytes, few, j) = size_ok e in
        (some_bytes, few, judge-accepted version (read_webp_dimensions sheet) j)

    back :
        (1 ≤ length sheet)
          × (length sheet ≤ max_spritesheet_bytes)
          × ((d : ℕ × ℕ) × (read_webp_dimensions sheet ≡ ok d) × VersionSize version d)
        → validate_package version sheet ≡ accepted
    back (some_bytes, few, (d, e, v)) = ground (arith, check_dimensions-VersionSize version d v)
