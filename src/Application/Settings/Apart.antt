-- ===== src/Application/Settings/Apart.antt =====
-- A setter changes its setting and no other.
use lnwdeck.Prelude.{◌≡◌, refl, ◌∙◌, Bool-cases, inl, inr, Bool, true, false, if◌then◌else◌}
use lnwdeck.Prelude.Text.{Text, codes}
use lnwdeck.Domain.Float.{F64}
use lnwdeck.Application.Settings.{
  Numbers, AppSettings, Table, set, load, is_one_of, allowed_pet_speeds, allowed_pet_sizes,
  allowed_widget_sizes, allowed_languages,
}
use lnwdeck.Application.Settings.Saved.{read_bool-bool_text, read_text-allowed}
use lnwdeck.Application.Settings.Setters.{
  set_widget_locked, set_widget_visible, set_pet_visible, set_pet_auto_sleep, set_pet_stay_in_place,
  set_pet_speed, set_pet_size_preset, set_widget_size_preset, set_language,
}

module _ {F : F64} (N : Numbers F) where
  load-set_widget_locked :
      (value : Bool) (table : Table)
      → load N (set_widget_locked N value table).0 ≡ record (load N table) { widget_locked = value }
  unfolding set_widget_locked load set
  load-set_widget_locked value table =
      λ i. record (load N table) { widget_locked = read_bool-bool_text false value i }

  load-set_widget_visible :
      (value : Bool) (table : Table)
      → load N (set_widget_visible N value table).0
        ≡ record (load N table) { widget_visible = value }
  unfolding set_widget_visible load set
  load-set_widget_visible value table =
      λ i. record (load N table) { widget_visible = read_bool-bool_text false value i }

  load-set_pet_visible :
      (value : Bool) (table : Table)
      → load N (set_pet_visible N value table).0 ≡ record (load N table) { pet_visible = value }
  unfolding set_pet_visible load set
  load-set_pet_visible value table =
      λ i. record (load N table) { pet_visible = read_bool-bool_text false value i }

  load-set_pet_auto_sleep :
      (value : Bool) (table : Table)
      → load N (set_pet_auto_sleep N value table).0
        ≡ record (load N table) { pet_auto_sleep = value }
  unfolding set_pet_auto_sleep load set
  load-set_pet_auto_sleep value table =
      λ i. record (load N table) { pet_auto_sleep = read_bool-bool_text true value i }

  load-set_pet_stay_in_place :
      (value : Bool) (table : Table)
      → load N (set_pet_stay_in_place N value table).0
        ≡ record (load N table) { pet_stay_in_place = value }
  unfolding set_pet_stay_in_place load set
  load-set_pet_stay_in_place value table =
      λ i. record (load N table) { pet_stay_in_place = read_bool-bool_text false value i }

  load-set_widget_size_preset :
      (value : Text) (table : Table)
      → is_one_of allowed_widget_sizes value ≡ true
      → load N (set_widget_size_preset N value table).0
        ≡ record (load N table) { widget_size = value }
  unfolding set_widget_size_preset load set
  load-set_widget_size_preset value table h =
      let stored : load N (set (codes "widget_size_preset") value table)
          ≡ record (load N table) { widget_size = value } =
        λ i. record (load N table) {
          widget_size =
              read_text-allowed (is_one_of allowed_widget_sizes) (codes "medium") value h i;
        } in
      rw h stored

  load-set_pet_size_preset :
      (value : Text) (table : Table)
      → is_one_of allowed_pet_sizes value ≡ true
      → load N (set_pet_size_preset N value table).0 ≡ record (load N table) { pet_size = value }
  unfolding set_pet_size_preset load set
  load-set_pet_size_preset value table h =
      let stored : load N (set (codes "pet_size_preset") value table)
          ≡ record (load N table) { pet_size = value } =
        λ i. record (load N table) {
          pet_size = read_text-allowed (is_one_of allowed_pet_sizes) (codes "medium") value h i;
        } in
      rw h stored

  load-set_pet_speed :
      (value : Text) (table : Table)
      → is_one_of allowed_pet_speeds value ≡ true
      → load N (set_pet_speed N value table).0 ≡ record (load N table) { pet_speed = value }
  unfolding set_pet_speed load set
  load-set_pet_speed value table h =
      let stored : load N (set (codes "pet_speed") value table)
          ≡ record (load N table) { pet_speed = value } =
        λ i. record (load N table) {
          pet_speed = read_text-allowed (is_one_of allowed_pet_speeds) (codes "normal") value h i;
        } in
      rw h stored

  load-set_language :
      (value : Text) (table : Table)
      → is_one_of allowed_languages value ≡ true
      → load N (set_language N value table).0 ≡ record (load N table) { language = value }
  unfolding set_language load set
  load-set_language value table h =
      let stored : load N (set (codes "language") value table)
          ≡ record (load N table) { language = value } =
        λ i. record (load N table) {
          language = read_text-allowed (is_one_of allowed_languages) (codes "en") value h i;
        } in
      rw h stored

  -- A call of one of the setters.
  pub data Change : Type 0 where
    lock_widget show_widget show_pet let_pet_sleep keep_pet_in_place : Bool → Change
    size_widget size_pet pace_pet speak : Text → Change

  unfoldable pub changed : Change → Table → Table
  unfolding set_widget_locked set_widget_visible set_pet_visible set_pet_auto_sleep
      set_pet_stay_in_place set_widget_size_preset set_pet_size_preset set_pet_speed set_language
  changed (lock_widget value) table = (set_widget_locked N value table).0
  changed (show_widget value) table = (set_widget_visible N value table).0
  changed (show_pet value) table = (set_pet_visible N value table).0
  changed (let_pet_sleep value) table = (set_pet_auto_sleep N value table).0
  changed (keep_pet_in_place value) table = (set_pet_stay_in_place N value table).0
  changed (size_widget value) table = (set_widget_size_preset N value table).0
  changed (size_pet value) table = (set_pet_size_preset N value table).0
  changed (pace_pet value) table = (set_pet_speed N value table).0
  changed (speak value) table = (set_language N value table).0

  -- What the call is to change, where its value is allowed.
  abbrev pub wanted : Change → AppSettings N → AppSettings N
  wanted (lock_widget value) s = record s { widget_locked = value }
  wanted (show_widget value) s = record s { widget_visible = value }
  wanted (show_pet value) s = record s { pet_visible = value }
  wanted (let_pet_sleep value) s = record s { pet_auto_sleep = value }
  wanted (keep_pet_in_place value) s = record s { pet_stay_in_place = value }
  wanted (size_widget value) s =
      if is_one_of allowed_widget_sizes value then record s { widget_size = value } else s
  wanted (size_pet value) s =
      if is_one_of allowed_pet_sizes value then record s { pet_size = value } else s
  wanted (pace_pet value) s =
      if is_one_of allowed_pet_speeds value then record s { pet_speed = value } else s
  wanted (speak value) s =
      if is_one_of allowed_languages value then record s { language = value } else s

  -- Each of these setters changes its own setting to the given value, where that is allowed, and
  -- leaves every other setting as it was; a value that is not allowed changes nothing.
  pub load-changed :
      (c : Change) (table : Table) → load N (changed c table) ≡ wanted c (load N table)
  unfolding changed
  load-changed (lock_widget value) table = load-set_widget_locked value table
  load-changed (show_widget value) table = load-set_widget_visible value table
  load-changed (show_pet value) table = load-set_pet_visible value table
  load-changed (let_pet_sleep value) table = load-set_pet_auto_sleep value table
  load-changed (keep_pet_in_place value) table = load-set_pet_stay_in_place value table
  load-changed (size_widget value) table =
      elim (Bool-cases (is_one_of allowed_widget_sizes value)) [
        | inl e ↦ load-set_widget_size_preset value table e ∙ rw e refl
        | inr e ↦ rw (e, set_widget_size_preset) refl
      ]
  load-changed (size_pet value) table = elim (Bool-cases (is_one_of allowed_pet_sizes value)) [
    | inl e ↦ load-set_pet_size_preset value table e ∙ rw e refl
    | inr e ↦ rw (e, set_pet_size_preset) refl
  ]
  load-changed (pace_pet value) table = elim (Bool-cases (is_one_of allowed_pet_speeds value)) [
    | inl e ↦ load-set_pet_speed value table e ∙ rw e refl
    | inr e ↦ rw (e, set_pet_speed) refl
  ]
  load-changed (speak value) table = elim (Bool-cases (is_one_of allowed_languages value)) [
    | inl e ↦ load-set_language value table e ∙ rw e refl
    | inr e ↦ rw (e, set_language) refl
  ]
