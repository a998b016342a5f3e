-- ===== src/Pets/Manifest/Accepted.antt =====
-- What an accepted manifest is like.
use lnwdeck.Prelude.{
  ℕ, ◌≤◌, ◌≡◌, ◌⊎◌, inl, inr, refl, Bool, true, false, Option, none, some, [], ◌∷◌, arith,
  Bool-cases, ok, bind-ok,
}
use lnwdeck.Prelude.Text.{Text, codes, trim}
use lnwdeck.Prelude.Text.Trim.{trim-trim}
use lnwdeck.Json.{Value, string, get}
use lnwdeck.Pets.Ids.{is_pet_id, is_kind}
use lnwdeck.Pets.Ids.Slug.{IsSlug, IsKindLabel, is_pet_id-IsSlug, is_kind-IsKindLabel}
use lnwdeck.Pets.Manifest.{
  PetManifest, pet_spritesheet, len, is_empty, kind_of, trimmed, read_str, sprite_version,
  is_provided, is_object, check_fields, normalize_manifest,
}

-- A text of 1 to `limit` bytes with no white space at its ends.
pub record IsLabel (limit : ℕ) (s : Text) : Type 0 where
  pub nonempty : is_empty s ≡ false
  pub short : len s ≤ limit
  pub trimmed : trim s ≡ s

abbrev pub IsKind : Option Text → Type 0
IsKind none = Unit
IsKind (some k) = IsKindLabel k

pub record IsNormal (m : PetManifest) : Type 0 where
  pub id : IsSlug m.id
  pub display_name : IsLabel 80 m.display_name
  pub description : IsLabel 280 m.description
  pub spritesheet_path : m.spritesheet_path ≡ pet_spritesheet
  pub version : (m.sprite_version_number ≡ 1) ⊎ (m.sprite_version_number ≡ 2)
  pub kind : IsKind m.kind

trim_nil : trim [] ≡ []
unfolding trim
trim_nil = refl

module _ {F : Type 0} where
  trim-trimmed : (v : Option (Value F)) → trim (trimmed v) ≡ trimmed v
  unfolding trimmed
  trim-trimmed none = trim_nil
  trim-trimmed (some (string s)) = trim-trim s
  trim-trimmed (some _) = trim_nil

  trim-read_str : (v : Value F) (key : Text) → trim (read_str v key) ≡ read_str v key
  unfolding read_str
  trim-read_str v key = trim-trimmed (get key v)

  -- Where no version is given the version is 1.
  version_default :
      (v : Option (Value F)) (n : ℕ) → sprite_version v ≡ ok n → (is_provided v ≡ true) ⊎ (n ≡ 1)
  unfolding sprite_version
  version_default none n h = inr (ground arith)
  version_default (some v) n h = inl refl

IsKind-kind_of : (k : Text) → (is_empty k ≡ true) ⊎ (is_kind k ≡ true) → IsKind (kind_of k)
IsKind-kind_of [] h = tt
IsKind-kind_of (c ∷ s) (inl h) = cc
IsKind-kind_of (c ∷ s) (inr h) = (is_kind-IsKindLabel (c ∷ s)).0 h

-- What the checks have found out when they pass.
pub record Checked (id name description path kind : Text) (provided : Bool) (version : ℕ)
    (m : PetManifest) : Type 0 where
  pub id_ok : is_pet_id id ≡ true
  pub name_ok : (is_empty name ≡ false) × (len name ≤ 80)
  pub description_ok : (is_empty description ≡ false) × (len description ≤ 280)
  pub kind_ok : (is_empty kind ≡ true) ⊎ (is_kind kind ≡ true)
  pub version_ok : (provided ≡ false) ⊎ ((version ≡ 1) ⊎ (version ≡ 2))
  pub fields : m ≡ record {
    id = id;
    display_name = name;
    description = description;
    spritesheet_path = pet_spritesheet;
    sprite_version_number = version;
    kind = kind_of kind;
  }

check_fields-Checked :
    (id name description path kind : Text) (provided : Bool) (version : ℕ) (m : PetManifest)
    → check_fields id name description path kind provided version ≡ ok m
    → Checked id name description path kind provided version m
unfolding check_fields
check_fields-Checked id name description path kind provided version m h = ground arith

check_fields-IsNormal :
    (id name description path kind : Text) (provided : Bool) (version : ℕ) (m : PetManifest)
    → trim name ≡ name
    → trim description ≡ description
    → (provided ≡ true) ⊎ (version ≡ 1)
    → check_fields id name description path kind provided version ≡ ok m
    → IsNormal m
check_fields-IsNormal id name description path kind provided version m tn td v h =
    let c = check_fields-Checked id name description path kind provided version m h in
    rw c.fields (record {
      id = (is_pet_id-IsSlug id).0 c.id_ok;
      display_name = record { nonempty = c.name_ok.0; short = c.name_ok.1; trimmed = tn };
      description = record {
        nonempty = c.description_ok.0;
        short = c.description_ok.1;
        trimmed = td;
      };
      spritesheet_path = refl;
      version = ground (arith, c.version_ok);
      kind = IsKind-kind_of kind c.kind_ok;
    })

module _ {F : Type 0} (to_lowercase : Text → Text) where
  -- A manifest that is returned has a slug for its id, trimmed texts within their limits, the one
  -- spritesheet path, version 1 or 2, and no kind or a short label.
  pub normalize_manifest-IsNormal :
      (value : Value F) (m : PetManifest)
      → normalize_manifest to_lowercase value ≡ ok m
      → IsNormal m
  unfolding normalize_manifest
  normalize_manifest-IsNormal value m h = elim (Bool-cases (is_object value)) [
    | inl yes_object ↦
        let (n, en, checked) =
          bind-ok (sprite_version (get (codes "spriteVersionNumber") value)) _
            (rw yes_object at h) in
        check_fields-IsNormal _ _ _ (read_str value (codes "spritesheetPath"))
          (to_lowercase (read_str value (codes "kind"))) _ n m
          (trim-read_str value (codes "displayName")) (trim-read_str value (codes "description"))
          (version_default (get (codes "spriteVersionNumber") value) n en) checked
    | inr no_object ↦ absurd (let k = rw no_object at h in cc)
  ]
