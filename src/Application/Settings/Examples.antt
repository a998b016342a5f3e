-- ===== src/Application/Settings/Examples.antt =====
-- The theorems on the settings at concrete settings, with a number as the one character of its text.
use lnwdeck.Prelude.{ℕ, ◌≡◌, ◌⊎◌, refl, Option, none, some, [], ◌∷◌, ok, err}
use lnwdeck.Prelude.Text.{Text, codes, text_eq}
use lnwdeck.Domain.Examples.{whole}
use lnwdeck.Application.Settings.{
  Numbers, AppSettings, SettingsError, Table, load, save, write_settings,
}
use lnwdeck.Application.Settings.Saved.{NumberLaws, IsAccepted, as_read, save-as_read}
use lnwdeck.Application.Settings.Apart.{changed, pace_pet, load-changed}

abbrev head : Text → Option ℕ
head [] = none
head (c ∷ s) = some c

abbrev head_some : Text → Option (Option ℕ)
head_some s = some (head s)

abbrev plain : Numbers whole
plain = record {
  u64_text = λ n. n ∷ [];
  parse_u64 = head;
  two_decimals = λ x. elim x [ some n ↦ n ∷ [] | none ↦ [] ];
  parse_f64 = head_some;
  tenth = some 0;
  one = some 1;
}

plain-parsed : (x : Option ℕ) → plain.parse_f64 (plain.two_decimals x) ≡ some x
plain-parsed none = refl
plain-parsed (some n) = refl

abbrev plain_laws : NumberLaws plain
plain_laws = record {
  parse_u64-u64_text = λ n. refl;
  rounded = λ x. x;
  parse_f64-two_decimals = plain-parsed;
  rounded_in_range = λ x h. h;
}

abbrev empty : Table
empty key = none

-- The defaults, with a speed that is not offered.
abbrev warped : AppSettings plain
warped = record (load plain empty) { pet_speed = codes "warp" }

warped-read : (as_read plain plain_laws warped).pet_speed ≡ codes "normal"
unfolding load text_eq
warped-read = refl

save-as_read_example :
    (IsAccepted plain warped
      × (save plain warped empty
          ≡ (write_settings plain warped empty, ok (as_read plain plain_laws warped)))
      × (load plain (save plain warped empty).0 ≡ as_read plain plain_laws warped))
    ⊎ ((e : SettingsError plain) × (save plain warped empty ≡ (empty, err e)))
save-as_read_example = save-as_read plain plain_laws warped empty

load-changed_example :
    load plain (changed plain (pace_pet (codes "fast")) empty)
    ≡ record (load plain empty) { pet_speed = codes "fast" }
unfolding text_eq
load-changed_example = load-changed plain (pace_pet (codes "fast")) empty
