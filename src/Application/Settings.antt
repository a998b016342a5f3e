-- ===== src/Application/Settings.antt =====
-- `SettingsService` of crates/application/src/settings.rs over the table of
-- crates/storage/src/repositories/app_settings_repository.rs, a map from keys to texts. The texts of
-- numbers are a parameter, and failures of the database are left out.
pub mod Setters
pub mod Saved
pub mod Apart
pub mod Examples
use lnwdeck.Prelude.{
  ℕ, ◌≡◌, Bool, true, false, not, ◌&&◌, ◌||◌, Option, none, some, List, [], ◌∷◌, any, is_nil,
  if◌then◌else◌, ◌==◌, Result, ok, err,
}
use lnwdeck.Prelude.Text.{Text, codes, text_eq, utf8}
use lnwdeck.Domain.Float.{F64}
use lnwdeck.Pets.Ids.{is_pet_id_bytes}

abbrev pub allowed_themes : List Text
allowed_themes = codes "dark" ∷ codes "light" ∷ codes "system" ∷ []

abbrev pub allowed_widget_sizes : List Text
allowed_widget_sizes = codes "small" ∷ codes "medium" ∷ codes "large" ∷ []

abbrev pub allowed_pet_speeds : List Text
allowed_pet_speeds = codes "slow" ∷ codes "normal" ∷ codes "fast" ∷ []

abbrev pub allowed_pet_sizes : List Text
allowed_pet_sizes = codes "small" ∷ codes "medium" ∷ codes "large" ∷ []

abbrev pub allowed_languages : List Text
allowed_languages =
    codes "en"
    ∷ codes "th"
    ∷ codes "zh"
    ∷ codes "ja"
    ∷ codes "ko"
    ∷ codes "de"
    ∷ codes "fr"
    ∷ codes "es"
    ∷ codes "ru"
    ∷ []

abbrev pub builtin_pet_characters : List Text
builtin_pet_characters =
    codes "robot" ∷ codes "cat" ∷ codes "ghost" ∷ codes "dragon" ∷ codes "crab" ∷ codes "blob" ∷ []

abbrev pub allowed_widget_views : List Text
allowed_widget_views = codes "bars" ∷ codes "rings" ∷ codes "pet" ∷ []

abbrev pub pet_pose_keys : List Text
pet_pose_keys =
    codes "pet_pose_wave"
    ∷ codes "pet_pose_jump"
    ∷ codes "pet_pose_look_left"
    ∷ codes "pet_pose_look_right"
    ∷ codes "pet_pose_waiting"
    ∷ codes "pet_pose_review"
    ∷ []

abbrev pub allowed_refresh_intervals : List ℕ
allowed_refresh_intervals = 0 ∷ 300 ∷ 900 ∷ 3600 ∷ []

abbrev pub allowed_retention_days : List ℕ
allowed_retention_days = 7 ∷ 30 ∷ 90 ∷ 365 ∷ 0 ∷ []

-- `app_settings`
abbrev pub Table : Type 0
Table = Text → Option Text

unfoldable pub set : Text → Text → Table → Table
unfolding text_eq
set key value table k = if text_eq k key then some value else table k

abbrev pub is_one_of : List Text → Text → Bool
is_one_of allowed value = any (λ a. text_eq a value) allowed

abbrev pub is_number_of : List ℕ → ℕ → Bool
is_number_of allowed value = any (λ a. a == value) allowed

-- `bool::to_string`
abbrev pub bool_text : Bool → Text
bool_text true = codes "true"
bool_text false = codes "false"

-- How `load` reads a value, with its default.
unfoldable pub read_bool : Bool → Option Text → Bool
unfolding text_eq
read_bool default none = default
read_bool default (some value) = text_eq value (codes "true")

unfoldable pub read_text : (Text → Bool) → Text → Option Text → Text
read_text is_allowed default none = default
read_text is_allowed default (some value) = if is_allowed value then value else default

-- The code repeats `is_pet_id` of the pet store.
unfoldable pub is_pet_id_slug : Text → Bool
unfolding is_pet_id_bytes
is_pet_id_slug value = is_pet_id_bytes (utf8 value)

abbrev pub is_character : Text → Bool
is_character value = is_one_of builtin_pet_characters value || is_pet_id_slug value

-- The texts of numbers: `u64::to_string`, `format!("{:.2}")` and the parsers; and 0.1 and 1.0.
pub record Numbers (F : F64) : Type 0 where
  pub u64_text : ℕ → Text
  pub parse_u64 : Text → Option ℕ
  pub two_decimals : F.Carrier → Text
  pub parse_f64 : Text → Option F.Carrier
  pub tenth : F.Carrier
  pub one : F.Carrier

module _ {F : F64} (N : Numbers F) where
  pub record AppSettings : Type 0 where
    pub launch_at_startup : Bool
    pub theme : Text
    pub refresh_interval_seconds : ℕ
    pub auto_update_check : Bool
    pub widget_opacity : F.Carrier
    pub widget_locked : Bool
    pub widget_visible : Bool
    pub widget_size : Text
    pub retention_days : ℕ
    pub pet_visible : Bool
    pub pet_character : Text
    pub pet_speed : Text
    pub pet_opacity : F.Carrier
    pub pet_auto_sleep : Bool
    pub pet_size : Text
    pub pet_stay_in_place : Bool
    pub pet_pose_wave : Bool
    pub pet_pose_jump : Bool
    pub pet_pose_look_left : Bool
    pub pet_pose_look_right : Bool
    pub pet_pose_waiting : Bool
    pub pet_pose_review : Bool
    pub language : Text

  pub data SettingsError : Type 0 where
    invalid_theme invalid_widget_view invalid_pet_id : Text → SettingsError
    invalid_interval invalid_retention : ℕ → SettingsError
    invalid_opacity : F.Carrier → SettingsError
    invalid_provider_id : SettingsError
    too_many_providers : ℕ → SettingsError

  -- `(0.1..=1.0).contains(&value)`
  abbrev pub is_opacity : F.Carrier → Bool
  is_opacity value = F.le N.tenth value && F.le value N.one

  abbrev pub filtered {ℓ} : {A : Type ℓ} → (A → Bool) → A → Option A → A
  filtered is_allowed default none = default
  filtered is_allowed default (some value) = if is_allowed value then value else default

  unfoldable pub read_u64 : List ℕ → ℕ → Option Text → ℕ
  read_u64 allowed default none = default
  read_u64 allowed default (some value) =
      filtered (is_number_of allowed) default (N.parse_u64 value)

  unfoldable pub read_opacity : Option Text → F.Carrier
  read_opacity none = N.one
  read_opacity (some value) = filtered is_opacity N.one (N.parse_f64 value)

  unfoldable pub load : Table → AppSettings
  unfolding text_eq read_bool read_text read_u64 read_opacity
  load table = record {
    launch_at_startup = read_bool false (table (codes "launch_at_startup"));
    theme = read_text (is_one_of allowed_themes) (codes "system") (table (codes "theme"));
    refresh_interval_seconds =
        read_u64 allowed_refresh_intervals 900 (table (codes "refresh_interval_seconds"));
    auto_update_check = read_bool true (table (codes "auto_update_check"));
    widget_opacity = read_opacity (table (codes "widget_opacity"));
    widget_locked = read_bool false (table (codes "widget_locked"));
    widget_visible = read_bool false (table (codes "widget_visible"));
    widget_size =
        read_text (is_one_of allowed_widget_sizes) (codes "medium")
          (table (codes "widget_size_preset"));
    retention_days = read_u64 allowed_retention_days 90 (table (codes "retention_days"));
    pet_visible = read_bool false (table (codes "pet_visible"));
    pet_character = read_text is_character (codes "robot") (table (codes "pet_character"));
    pet_speed =
        read_text (is_one_of allowed_pet_speeds) (codes "normal") (table (codes "pet_speed"));
    pet_opacity = read_opacity (table (codes "pet_opacity"));
    pet_auto_sleep = read_bool true (table (codes "pet_auto_sleep"));
    pet_size =
        read_text (is_one_of allowed_pet_sizes) (codes "medium") (table (codes "pet_size_preset"));
    pet_stay_in_place = read_bool false (table (codes "pet_stay_in_place"));
    pet_pose_wave = read_bool true (table (codes "pet_pose_wave"));
    pet_pose_jump = read_bool true (table (codes "pet_pose_jump"));
    pet_pose_look_left = read_bool true (table (codes "pet_pose_look_left"));
    pet_pose_look_right = read_bool true (table (codes "pet_pose_look_right"));
    pet_pose_waiting = read_bool true (table (codes "pet_pose_waiting"));
    pet_pose_review = read_bool true (table (codes "pet_pose_review"));
    language = read_text (is_one_of allowed_languages) (codes "en") (table (codes "language"));
  }

  -- The checks of `save`.
  unfoldable pub check_settings : AppSettings → Result SettingsError (Unit {0})
  unfolding text_eq
  check_settings s =
      if not (is_one_of allowed_themes s.theme)
      then err (invalid_theme s.theme)
      else if not (is_number_of allowed_refresh_intervals s.refresh_interval_seconds)
      then err (invalid_interval s.refresh_interval_seconds)
      else if not (is_opacity s.widget_opacity)
      then err (invalid_opacity s.widget_opacity)
      else if not (is_number_of allowed_retention_days s.retention_days)
      then err (invalid_retention s.retention_days)
      else ok tt

  -- The writes of `save`, the last one first.
  unfoldable pub write_settings : AppSettings → Table → Table
  unfolding set
  write_settings s table =
      (set (codes "language") s.language (
        set (codes "pet_pose_review") (bool_text s.pet_pose_review) (
          set (codes "pet_pose_waiting") (bool_text s.pet_pose_waiting) (
            set (codes "pet_pose_look_right") (bool_text s.pet_pose_look_right) (
              set (codes "pet_pose_look_left") (bool_text s.pet_pose_look_left) (
                set (codes "pet_pose_jump") (bool_text s.pet_pose_jump) (
                  set (codes "pet_pose_wave") (bool_text s.pet_pose_wave) (
                    set (codes "pet_stay_in_place") (bool_text s.pet_stay_in_place) (
                      set (codes "pet_size_preset") s.pet_size (
                        set (codes "pet_auto_sleep") (bool_text s.pet_auto_sleep) (
                          set (codes "pet_opacity") (N.two_decimals s.pet_opacity) (
                            set (codes "pet_speed") s.pet_speed (
                              set (codes "pet_character") s.pet_character (
                                set (codes "pet_visible") (bool_text s.pet_visible) (
                                  set (codes "retention_days") (N.u64_text s.retention_days) (
                                    set (codes "widget_size_preset") s.widget_size (
                                      set (codes "widget_visible") (bool_text s.widget_visible) (
                                        set (codes "widget_locked") (bool_text s.widget_locked) (
                                          set (codes "widget_opacity")
                                            (N.two_decimals s.widget_opacity)
                                            (set (codes "auto_update_check")
                                              (bool_text s.auto_update_check)
                                              (set (codes "refresh_interval_seconds")
                                                (N.u64_text s.refresh_interval_seconds)
                                                (set (codes "theme") s.theme (
                                                  set (codes "launch_at_startup")
                                                    (bool_text s.launch_at_startup)
                                                    table)))))))))))))))))))))))

  unfoldable pub save_checked :
      AppSettings
      → Result SettingsError (Unit {0})
      → Table
      → Table × Result SettingsError AppSettings
  unfolding write_settings load
  save_checked s (err e) table = (table, err e)
  save_checked s (ok _) table = (write_settings s table, ok (load (write_settings s table)))

  unfoldable pub save : AppSettings → Table → Table × Result SettingsError AppSettings
  unfolding check_settings save_checked
  save s table = save_checked s (check_settings s) table
