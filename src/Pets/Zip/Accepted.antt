-- ===== src/Pets/Zip/Accepted.antt =====
-- What a package is like that `validate_package_zip` accepts.
use mathlib.Core.Path.{subst}
use lnwdeck.Prelude.{
  ℕ, ◌≡◌, refl, ◌||◌, Option, none, some, List, arith, ltb, ◌==◌, length, Result, ok, err, refuse,
  bind-ok,
}
use lnwdeck.Prelude.Text.{Text}
use lnwdeck.Json.{Value}
use lnwdeck.Pets.Manifest.{PetManifest, normalize_manifest}
use lnwdeck.Pets.Manifest.Accepted.{IsNormal, normalize_manifest-IsNormal}
use lnwdeck.Pets.Webp
use lnwdeck.Pets.Webp.{read_webp_dimensions}
use lnwdeck.Pets.Webp.Package.{
  Verdict, accepted, refused, crashed, validate_package, VersionSize, validate_package-accepted,
}
use lnwdeck.Pets.Zip.{
  Entry, PetError, zip, manifest, manifest_size, max_manifest_bytes, wrap, verdict, parsed,
  read_zip_entries, validate_package_zip,
}

wrap-ok : {E A : Type 0} (f : E → PetError) (r : Result E A) (a : A) → wrap f r ≡ ok a → r ≡ ok a
wrap-ok f (ok b) a h = ground arith
wrap-ok f (err e) a h = cc

parsed-ok : {A : Type 0} (o : Option A) (a : A) → parsed o ≡ ok a → o ≡ some a
parsed-ok none a h = cc
parsed-ok (some b) a h = ground arith

verdict-ok : (v : Verdict) (u : Unit {0}) → verdict v ≡ ok u → v ≡ accepted
verdict-ok accepted u h = refl
verdict-ok (refused e) u h = cc
verdict-ok crashed u h = cc

module _ {F : Type 0} (open_archive : List ℕ → Option (List (Option Entry)))
    (parse : List ℕ → Option (Value F)) (to_lowercase : Text → Text) where
  -- The manifest of an accepted package is normal and is what the archive's `pet.json` parses and
  -- normalizes to, and the archive's spritesheet has the dimensions of the manifest's version.
  pub validate_package_zip-ok :
      (bytes : List ℕ) (m : PetManifest)
      → validate_package_zip open_archive parse to_lowercase bytes ≡ ok m
      → IsNormal m
        × ((json : List ℕ) × (sheet : List ℕ) × (value : Value F) × (read_zip_entries open_archive
                bytes
              ≡ ok (json, sheet))
            × (parse json ≡ some value)
            × (normalize_manifest to_lowercase value ≡ ok m)
            × ((d : ℕ × ℕ) × (read_webp_dimensions sheet ≡ Webp.ok d)
                × VersionSize m.sprite_version_number d))
  unfolding validate_package_zip
  validate_package_zip-ok bytes m h =
      let (files, ez, h1) = bind-ok (wrap zip (read_zip_entries open_archive bytes)) _ h in
      let json = files.0 in
      let sheet = files.1 in
      let (u, eu, h2) =
        bind-ok (refuse (length json == 0 || ltb max_manifest_bytes (length json)) manifest_size) _
          h1 in
      let (value, ev, h3) = bind-ok (parsed (parse json)) _ h2 in
      let (n, en, h4) = bind-ok (wrap manifest (normalize_manifest to_lowercase value)) _ h3 in
      let (w, ew, h5) = bind-ok (verdict (validate_package n.sprite_version_number sheet)) _ h4 in
      let same : n ≡ m = cc in
      let (normal, fits) =
        subst
          (λ (x : PetManifest).
            (normalize_manifest to_lowercase value ≡ ok x)
            × (validate_package x.sprite_version_number sheet ≡ accepted))
          same (wrap-ok manifest _ n en, verdict-ok _ w ew) in
      (
        normalize_manifest-IsNormal to_lowercase value m normal,
        (
          json,
          sheet,
          value,
          wrap-ok zip _ files ez,
          parsed-ok (parse json) value ev,
          normal,
          ((validate_package-accepted m.sprite_version_number sheet).0 fits).2,
        ),
      )
