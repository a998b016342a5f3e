-- ===== src/Application/Settings/Saved.antt =====
-- What a save stores, and what is read after it.
use lnwdeck.Prelude.{
  ℕ, ◌≡◌, refl, ap, ◌∙◌, ◌&&◌, Bool, true, false, ◌⊎◌, some, List, if◌then◌else◌, ok, err,
  Bool-cases, inl, inr,
}
use lnwdeck.Prelude.Text.{Text, codes}
use lnwdeck.Domain.Float.{F64}
use lnwdeck.Application.Settings.{
  Numbers, AppSettings, SettingsError, invalid_theme, invalid_interval, invalid_opacity,
  invalid_retention, Table, is_one_of, is_number_of, is_opacity, is_character, allowed_themes,
  allowed_widget_sizes, allowed_pet_speeds, allowed_pet_sizes, allowed_languages,
  allowed_refresh_intervals, allowed_retention_days, bool_text, set, read_bool, read_text, read_u64,
  read_opacity, load, check_settings, write_settings, save_checked, save,
}

pub read_bool-bool_text : (default b : Bool) → read_bool default (some (bool_text b)) ≡ b
unfolding read_bool
read_bool-bool_text default true = refl
read_bool-bool_text default false = refl

pub read_text-allowed :
    (is_allowed : Text → Bool) (default value : Text)
    → is_allowed value ≡ true
    → read_text is_allowed default (some value) ≡ value
unfolding read_text
read_text-allowed is_allowed default value h = rw h refl

module _ {F : F64} (N : Numbers F) where
  -- Parsing reads back the text of a `u64`, and of an `f64` with two decimals the number rounded to
  -- them. Rounding keeps an opacity in its range, whose ends have one decimal.
  pub record NumberLaws : Type 0 where
    pub parse_u64-u64_text : (n : ℕ) → N.parse_u64 (N.u64_text n) ≡ some n
    pub rounded : F.Carrier → F.Carrier
    pub parse_f64-two_decimals : (x : F.Carrier) → N.parse_f64 (N.two_decimals x) ≡ some (rounded x)
    pub rounded_in_range :
        (x : F.Carrier)
        → (F.le N.tenth x && F.le x N.one) ≡ true
        → (F.le N.tenth (rounded x) && F.le (rounded x) N.one) ≡ true

  -- A value that is not allowed is stored, and is read as the default.
  abbrev pub or_default : (Text → Bool) → Text → Text → Text
  or_default is_allowed default value = if is_allowed value then value else default

  -- What is read after the settings were saved.
  abbrev pub as_read : NumberLaws → AppSettings N → AppSettings N
  as_read laws s = record s {
    widget_opacity = laws.rounded s.widget_opacity;
    widget_size = or_default (is_one_of allowed_widget_sizes) (codes "medium") s.widget_size;
    pet_character = or_default is_character (codes "robot") s.pet_character;
    pet_speed = or_default (is_one_of allowed_pet_speeds) (codes "normal") s.pet_speed;
    pet_opacity =
        if F.le N.tenth (laws.rounded s.pet_opacity) && F.le (laws.rounded s.pet_opacity) N.one
        then laws.rounded s.pet_opacity
        else N.one;
    pet_size = or_default (is_one_of allowed_pet_sizes) (codes "medium") s.pet_size;
    language = or_default (is_one_of allowed_languages) (codes "en") s.language;
  }

  -- The settings that the checks of `save` let through.
  abbrev pub IsAccepted : AppSettings N → Type 0
  IsAccepted s =
      (is_one_of allowed_themes s.theme ≡ true)
      × (is_number_of allowed_refresh_intervals s.refresh_interval_seconds ≡ true)
      × (is_opacity N s.widget_opacity ≡ true)
      × (is_number_of allowed_retention_days s.retention_days ≡ true)

  read_u64-u64_text :
      (laws : NumberLaws) (allowed : List ℕ) (default n : ℕ)
      → is_number_of allowed n ≡ true
      → read_u64 N allowed default (some (N.u64_text n)) ≡ n
  unfolding read_u64
  read_u64-u64_text laws allowed default n h = rw (laws.parse_u64-u64_text n, h) refl

  read_opacity-two_decimals :
      (laws : NumberLaws) (x : F.Carrier)
      → read_opacity N (some (N.two_decimals x)) ≡ (
          if F.le N.tenth (laws.rounded x) && F.le (laws.rounded x) N.one
          then laws.rounded x
          else N.one)
  unfolding read_opacity
  read_opacity-two_decimals laws x = rw (laws.parse_f64-two_decimals x) refl

  read_opacity-in_range :
      (laws : NumberLaws) (x : F.Carrier)
      → is_opacity N x ≡ true
      → read_opacity N (some (N.two_decimals x)) ≡ laws.rounded x
  read_opacity-in_range laws x h =
      read_opacity-two_decimals laws x
      ∙ ap (λ b. if b then laws.rounded x else N.one) (laws.rounded_in_range x h)

  check_settings-ok : (s : AppSettings N) → IsAccepted s → check_settings N s ≡ ok tt
  unfolding check_settings
  check_settings-ok s (theme, interval, opacity, days) = rw (theme, interval, opacity, days) refl

  check_settings-cases :
      (s : AppSettings N) → IsAccepted s ⊎ ((e : SettingsError N) × (check_settings N s ≡ err e))
  unfolding check_settings
  check_settings-cases s = elim (Bool-cases (is_one_of allowed_themes s.theme)) [
    | inr a ↦ inr (invalid_theme s.theme, rw a refl)
    | inl a ↦
        elim (Bool-cases (is_number_of allowed_refresh_intervals s.refresh_interval_seconds)) [
          | inr b ↦ inr (invalid_interval s.refresh_interval_seconds, rw (a, b) refl)
          | inl b ↦ elim (Bool-cases (is_opacity N s.widget_opacity)) [
            | inr c ↦ inr (invalid_opacity s.widget_opacity, rw (a, b, c) refl)
            | inl c ↦ elim (Bool-cases (is_number_of allowed_retention_days s.retention_days)) [
              | inr d ↦ inr (invalid_retention s.retention_days, rw (a, b, c, d) refl)
              | inl d ↦ inl (a, b, c, d)
            ]
          ]
        ]
  ]

  load-write_settings :
      (laws : NumberLaws) (s : AppSettings N) (table : Table)
      → IsAccepted s
      → load N (write_settings N s table) ≡ as_read laws s
  unfolding load write_settings set
  load-write_settings laws s table (theme, interval, opacity, days) = λ i. record {
    launch_at_startup = read_bool-bool_text false s.launch_at_startup i;
    theme = read_text-allowed (is_one_of allowed_themes) (codes "system") s.theme theme i;
    refresh_interval_seconds =
        read_u64-u64_text laws allowed_refresh_intervals 900 s.refresh_interval_seconds interval i;
    auto_update_check = read_bool-bool_text true s.auto_update_check i;
    widget_opacity = read_opacity-in_range laws s.widget_opacity opacity i;
    widget_locked = read_bool-bool_text false s.widget_locked i;
    widget_visible = read_bool-bool_text false s.widget_visible i;
    widget_size = or_default (is_one_of allowed_widget_sizes) (codes "medium") s.widget_size;
    retention_days = read_u64-u64_text laws allowed_retention_days 90 s.retention_days days i;
    pet_visible = read_bool-bool_text false s.pet_visible i;
    pet_character = or_default is_character (codes "robot") s.pet_character;
    pet_speed = or_default (is_one_of allowed_pet_speeds) (codes "normal") s.pet_speed;
    pet_opacity = read_opacity-two_decimals laws s.pet_opacity i;
    pet_auto_sleep = read_bool-bool_text true s.pet_auto_sleep i;
    pet_size = or_default (is_one_of allowed_pet_sizes) (codes "medium") s.pet_size;
    pet_stay_in_place = read_bool-bool_text false s.pet_stay_in_place i;
    pet_pose_wave = read_bool-bool_text true s.pet_pose_wave i;
    pet_pose_jump = read_bool-bool_text true s.pet_pose_jump i;
    pet_pose_look_left = read_bool-bool_text true s.pet_pose_look_left i;
    pet_pose_look_right = read_bool-bool_text true s.pet_pose_look_right i;
    pet_pose_waiting = read_bool-bool_text true s.pet_pose_waiting i;
    pet_pose_review = read_bool-bool_text true s.pet_pose_review i;
    language = or_default (is_one_of allowed_languages) (codes "en") s.language;
  }

  -- Saving either stores what the checks let through, and then reads each of the four checked values
  -- and each switch as given, the widget's opacity rounded to two decimals, the pet's opacity too
  -- where that is from 0.1 to 1.0 and as 1.0 where not, and any other text as given where it is
  -- allowed and as the default where not; or it is refused and stores nothing.
  pub save-as_read :
      (laws : NumberLaws) (s : AppSettings N) (table : Table)
      → (IsAccepted s
          × (save N s table ≡ (write_settings N s table, ok (as_read laws s)))
          × (load N (save N s table).0 ≡ as_read laws s))
        ⊎ ((e : SettingsError N) × (save N s table ≡ (table, err e)))
  unfolding save save_checked
  save-as_read laws s table = elim (check_settings-cases s) [
    | inl accepted ↦
        let passed = check_settings-ok s accepted in
        let same = load-write_settings laws s table accepted in
        inl (accepted, rw passed (ap (λ x. (write_settings N s table, ok x)) same), rw passed same)
    | inr (e, refused) ↦ inr (e, rw refused refl)
  ]
