-- ===== src/Application/Settings/Setters.antt =====
-- The setters of one setting in crates/application/src/settings.rs, each with what it returns.
use lnwdeck.Prelude.{
  Bool, not, ◌&&◌, ◌||◌, Option, none, some, List, [], ◌∷◌, ◌++◌, any, length, is_nil, ltb,
  if◌then◌else◌, Result, ok, err,
}
use lnwdeck.Prelude.Text.{Text, codes, text_eq, trim}
use lnwdeck.Domain.Float.{F64}
use lnwdeck.Application.Settings.{
  Numbers, AppSettings, SettingsError, invalid_widget_view, invalid_pet_id, invalid_opacity,
  invalid_provider_id, too_many_providers, Table, set, load, bool_text, read_text, is_opacity,
  is_character, is_pet_id_slug, is_one_of, allowed_widget_sizes, allowed_widget_views,
  allowed_pet_speeds, allowed_pet_sizes, allowed_languages, pet_pose_keys,
}

module _ {F : F64} (N : Numbers F) where
  abbrev pub Outcome {ℓ} : Type ℓ → Type ℓ
  Outcome A = Table × Result (SettingsError N) A

  unfoldable pub set_widget_locked : Bool → Table → Outcome Bool
  unfolding set load
  set_widget_locked value table =
      let stored = set (codes "widget_locked") (bool_text value) table in
      (stored, ok (load N stored).widget_locked)

  unfoldable pub set_widget_visible : Bool → Table → Outcome Bool
  unfolding set load
  set_widget_visible value table =
      let stored = set (codes "widget_visible") (bool_text value) table in
      (stored, ok (load N stored).widget_visible)

  unfoldable pub set_pet_visible : Bool → Table → Outcome Bool
  unfolding set load
  set_pet_visible value table =
      let stored = set (codes "pet_visible") (bool_text value) table in
      (stored, ok (load N stored).pet_visible)

  unfoldable pub set_pet_auto_sleep : Bool → Table → Outcome Bool
  unfolding set load
  set_pet_auto_sleep value table =
      let stored = set (codes "pet_auto_sleep") (bool_text value) table in
      (stored, ok (load N stored).pet_auto_sleep)

  unfoldable pub set_pet_stay_in_place : Bool → Table → Outcome Bool
  unfolding set load
  set_pet_stay_in_place value table =
      let stored = set (codes "pet_stay_in_place") (bool_text value) table in
      (stored, ok (load N stored).pet_stay_in_place)

  unfoldable pub set_widget_opacity : F.Carrier → Table → Outcome F.Carrier
  unfolding set load
  set_widget_opacity opacity table =
      let stored = set (codes "widget_opacity") (N.two_decimals opacity) table in
      if not (is_opacity N opacity)
      then (table, err (invalid_opacity opacity))
      else (stored, ok (load N stored).widget_opacity)

  unfoldable pub set_pet_opacity : F.Carrier → Table → Outcome F.Carrier
  unfolding set load
  set_pet_opacity opacity table =
      let stored = set (codes "pet_opacity") (N.two_decimals opacity) table in
      if not (is_opacity N opacity)
      then (table, err (invalid_opacity opacity))
      else (stored, ok (load N stored).pet_opacity)

  unfoldable pub widget_size_preset : Table → Text
  unfolding read_text text_eq
  widget_size_preset table =
      read_text (is_one_of allowed_widget_sizes) (codes "medium")
        (table (codes "widget_size_preset"))

  unfoldable pub set_widget_size_preset : Text → Table → Outcome Text
  unfolding text_eq set widget_size_preset
  set_widget_size_preset value table =
      let stored = set (codes "widget_size_preset") value table in
      if not (is_one_of allowed_widget_sizes value)
      then (table, err (invalid_widget_view value))
      else (stored, ok (widget_size_preset stored))

  unfoldable pub widget_view : Table → Text
  unfolding read_text text_eq
  widget_view table =
      read_text (is_one_of allowed_widget_views) (codes "bars") (table (codes "widget_view"))

  unfoldable pub set_widget_view : Text → Table → Outcome Text
  unfolding text_eq set widget_view
  set_widget_view value table =
      let stored = set (codes "widget_view") value table in
      if not (is_one_of allowed_widget_views value)
      then (table, err (invalid_widget_view value))
      else (stored, ok (widget_view stored))

  unfoldable pub pet_size_preset : Table → Text
  unfolding read_text text_eq
  pet_size_preset table =
      read_text (is_one_of allowed_pet_sizes) (codes "medium") (table (codes "pet_size_preset"))

  unfoldable pub set_pet_size_preset : Text → Table → Outcome Text
  unfolding text_eq set pet_size_preset
  set_pet_size_preset value table =
      let stored = set (codes "pet_size_preset") value table in
      if not (is_one_of allowed_pet_sizes value)
      then (table, err (invalid_widget_view value))
      else (stored, ok (pet_size_preset stored))

  unfoldable pub language : Table → Text
  unfolding read_text text_eq
  language table = read_text (is_one_of allowed_languages) (codes "en") (table (codes "language"))

  unfoldable pub set_language : Text → Table → Outcome Text
  unfolding text_eq set language
  set_language value table =
      let stored = set (codes "language") value table in
      if not (is_one_of allowed_languages value)
      then (table, err (invalid_widget_view value))
      else (stored, ok (language stored))

  unfoldable pub widget_pet_id : Table → Text
  unfolding read_text is_pet_id_slug
  widget_pet_id table = read_text is_pet_id_slug [] (table (codes "widget_pet_id"))

  unfoldable pub set_widget_pet_id : Text → Table → Outcome Text
  unfolding trim set widget_pet_id
  set_widget_pet_id pet_id table =
      let trimmed = trim pet_id in
      let stored = set (codes "widget_pet_id") trimmed table in
      if not (is_nil trimmed) && not (is_pet_id_slug trimmed)
      then (table, err (invalid_pet_id trimmed))
      else (stored, ok (widget_pet_id stored))

  unfoldable pub set_pet_character : Text → Table → Outcome Text
  unfolding trim set load
  set_pet_character character table =
      let trimmed = trim character in
      let stored = set (codes "pet_character") trimmed table in
      if is_nil trimmed || not (is_character trimmed)
      then (table, err (invalid_pet_id trimmed))
      else (stored, ok (load N stored).pet_character)

  unfoldable pub set_pet_speed : Text → Table → Outcome Text
  unfolding text_eq set load
  set_pet_speed speed table =
      let stored = set (codes "pet_speed") speed table in
      if not (is_one_of allowed_pet_speeds speed)
      then (table, err (invalid_widget_view speed))
      else (stored, ok (load N stored).pet_speed)

  unfoldable pub pose_of : Text → AppSettings N → Bool
  unfolding text_eq
  pose_of key s =
      if text_eq key (codes "pet_pose_wave")
      then s.pet_pose_wave
      else if text_eq key (codes "pet_pose_jump")
      then s.pet_pose_jump
      else if text_eq key (codes "pet_pose_look_left")
      then s.pet_pose_look_left
      else if text_eq key (codes "pet_pose_look_right")
      then s.pet_pose_look_right
      else if text_eq key (codes "pet_pose_waiting")
      then s.pet_pose_waiting
      else s.pet_pose_review

  unfoldable pub set_pet_pose : Text → Bool → Table → Outcome Bool
  unfolding text_eq set load pose_of
  set_pet_pose key enabled table =
      let stored = set key (bool_text enabled) table in
      if not (is_one_of pet_pose_keys key)
      then (table, err (invalid_widget_view key))
      else (stored, ok (pose_of key (load N stored)))

  -- The loop of `set_widget_providers`.
  unfoldable pub clean_providers : List Text → List Text → Result (SettingsError N) (List Text)
  unfolding trim text_eq
  clean_providers [] cleaned = ok cleaned
  clean_providers (provider ∷ providers) cleaned =
      let trimmed = trim provider in
      let again = clean_providers providers cleaned in
      let more = clean_providers providers (cleaned ++ trimmed ∷ []) in
      if is_nil trimmed
      then err invalid_provider_id
      else if any (λ existing. text_eq existing trimmed) cleaned
      then again
      else more

  -- The list is stored as the JSON that `encode` writes, and `decode` reads.
  module _ (encode : List Text → Text) (decode : Text → Option (List Text)) where
    unfoldable pub widget_providers : Table → List Text
    widget_providers table = elim (table (codes "widget_providers")) [
      | none ↦ []
      | some raw ↦ elim (decode raw) [ some ids ↦ ids | none ↦ [] ]
    ]

    unfoldable pub store_providers :
        Result (SettingsError N) (List Text) → Table → Outcome (List Text)
    unfolding set widget_providers
    store_providers (err e) table = (table, err e)
    store_providers (ok cleaned) table =
        let stored = set (codes "widget_providers") (encode cleaned) table in
        (stored, ok (widget_providers stored))

    unfoldable pub set_widget_providers : List Text → Table → Outcome (List Text)
    unfolding clean_providers store_providers
    set_widget_providers providers table =
        if ltb 32 (length providers)
        then (table, err (too_many_providers (length providers)))
        else store_providers (clean_providers providers []) table
