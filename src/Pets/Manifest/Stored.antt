-- ===== src/Pets/Manifest/Stored.antt =====
-- A stored manifest is read back as it was: `install_pet` writes what `serde` makes of the
-- `PetManifest` and `load_pet_dir` normalizes it again.
use lnwdeck.Prelude.{
  ℕ, ◌+◌, ◌^◌, ◌≡◌, ◌⊎◌, ◌∙◌, inl, inr, refl, ap, true, false, ◌&&◌, Option, none, some, [], ◌∷◌,
  arith, ltb, if◌then◌else◌, All, leb, ok,
}
use lnwdeck.Prelude.Text.{Text, codes, text_eq_refl, trim, to_ascii_lowercase, is_whitespace}
use lnwdeck.Prelude.Text.Ascii.{IsAscii}
use lnwdeck.Prelude.Text.Trim.{trim_of_black}
use lnwdeck.Json.{Value, Fields, object, field, end, string, number, unsigned, get}
use lnwdeck.Pets.Ids.{is_kind, slug_byte}
use lnwdeck.Pets.Ids.Slug.{
  is_pet_id-IsSlug, is_kind-IsKindLabel, IsSlug-slug_bytes, IsKindLabel-slug_bytes, slug_byte-ascii,
}
use lnwdeck.Pets.Manifest.{
  LowersAscii, PetManifest, pet_spritesheet, is_empty, kind_of, trimmed, check_fields,
  normalize_manifest,
}
use lnwdeck.Pets.Manifest.Accepted.{IsNormal, IsKind}

module _ {F : Type 0} where
  -- `#[serde(skip_serializing_if = "Option::is_none")]`
  abbrev kind_field : Option Text → Fields F
  kind_field none = end
  kind_field (some k) = field (codes "kind") (string k) end

  -- `#[derive(Serialize)]` with `rename_all = "camelCase"`
  unfoldable pub to_value : PetManifest → Value F
  to_value m = object (
      field (codes "id") (string m.id) (
        field (codes "displayName") (string m.display_name) (
          field (codes "description") (string m.description) (
            field (codes "spritesheetPath") (string m.spritesheet_path) (
              field (codes "spriteVersionNumber") (number (unsigned m.sprite_version_number))
                (kind_field m.kind))))))

slug_byte-black : (c : ℕ) → slug_byte c ≡ true → is_whitespace c ≡ false
unfolding is_whitespace
slug_byte-black c h = ground arith

pub slug_bytes-black :
    (s : Text) → All (λ c. slug_byte c ≡ true) s → All (λ c. is_whitespace c ≡ false) s
slug_bytes-black [] h = tt
slug_bytes-black (c ∷ s) (hc, hs) = (slug_byte-black c hc, slug_bytes-black s hs)

slug_bytes-lower : (s : Text) → All (λ c. slug_byte c ≡ true) s → to_ascii_lowercase s ≡ s
unfolding to_ascii_lowercase
slug_bytes-lower [] h = refl
slug_bytes-lower (c ∷ s) (hc, hs) =
    let e : (if (leb b'A' c && leb c b'Z') then c + 32 else c) ≡ c = ground arith in
    rw (e, slug_bytes-lower s hs)

slug_bytes-IsAscii : (s : Text) → All (λ c. slug_byte c ≡ true) s → IsAscii s
slug_bytes-IsAscii [] h = tt
slug_bytes-IsAscii (c ∷ s) (hc, hs) = (slug_byte-ascii c hc, slug_bytes-IsAscii s hs)

trim-pet_spritesheet : trim pet_spritesheet ≡ pet_spritesheet
unfolding trim
trim-pet_spritesheet = refl

check_fields-passes :
    (m : PetManifest) (kind : Text)
    → IsNormal m
    → kind_of kind ≡ m.kind
    → (is_empty kind ≡ true) ⊎ (is_kind kind ≡ true)
    → check_fields m.id m.display_name m.description pet_spritesheet kind true
        m.sprite_version_number
      ≡ ok m
unfolding check_fields
check_fields-passes m kind h back k = ground (
  arith,
  (is_pet_id-IsSlug m.id).1 h.id,
  text_eq_refl pet_spritesheet,
  h.display_name,
  h.description,
)

-- A slug is neither trimmed nor lowered.
pub slug_bytes_lowered :
    (to_lowercase : Text → Text) (lowers : LowersAscii to_lowercase) (s : Text)
    → All (λ c. slug_byte c ≡ true) s
    → to_lowercase s ≡ s
slug_bytes_lowered to_lowercase lowers s h =
    lowers s (slug_bytes-IsAscii s h) ∙ slug_bytes-lower s h

settled :
    (to_lowercase : Text → Text) (lowers : LowersAscii to_lowercase) (s : Text)
    → All (λ c. slug_byte c ≡ true) s
    → to_lowercase (trim s) ≡ s
settled to_lowercase lowers s h =
    ap to_lowercase (trim_of_black s (slug_bytes-black s h))
    ∙ slug_bytes_lowered to_lowercase lowers s h

module _ (F : Type 0) (to_lowercase : Text → Text) (lowers : LowersAscii to_lowercase) where
  settled_kind :
      (k : Option Text)
      → IsKind k
      → (t : Text) × (to_lowercase (trimmed (get {F = F} (codes "kind") (object (kind_field k))))
          ≡ t)
        × (kind_of t ≡ k)
        × ((is_empty t ≡ true) ⊎ (is_kind t ≡ true))
  unfolding trimmed get
  settled_kind none h = ([], lowers [] tt ∙ slug_bytes-lower [] tt, refl, inl refl)
  settled_kind (some []) h = absurd h
  settled_kind (some (c ∷ s)) h =
      let slug = IsKindLabel-slug_bytes (c ∷ s) h in
      (
        c ∷ s,
        settled to_lowercase lowers (c ∷ s) slug,
        refl,
        inr ((is_kind-IsKindLabel (c ∷ s)).1 h),
      )

  -- Normalizing what was serialized from a normal manifest returns that manifest, where
  -- `to_lowercase` treats ASCII texts as `to_ascii_lowercase` does.
  pub normalize_manifest-to_value :
      (m : PetManifest) → IsNormal m → normalize_manifest to_lowercase (to_value {F = F} m) ≡ ok m
  unfolding normalize_manifest to_value
  normalize_manifest-to_value m h =
      let e = settled to_lowercase lowers m.id (IsSlug-slug_bytes m.id h.id) in
      let (t, et, back, k) = settled_kind m.kind h.kind in
      let fits : ltb m.sprite_version_number (2 ^ 32) ≡ true = ground arith in
      let path : trim m.spritesheet_path ≡ pet_spritesheet =
        ap trim h.spritesheet_path ∙ trim-pet_spritesheet in
      rw (fits, e, h.display_name.trimmed, h.description.trimmed, path, et)
        (check_fields-passes m t h back k)
