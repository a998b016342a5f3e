-- ===== src/Security/Examples.antt =====
-- The privacy guard at concrete values, with the mappings of ASCII for those of Unicode.
use lnwdeck.Prelude.{ℕ, ◌-◌, ◌≡◌, ◌↔◌, refl, map, if◌then◌else◌, Result, ok, err}
use lnwdeck.Prelude.Text.{
  Text, codes, to_ascii_lowercase, is_ascii_lowercase, text_eq, contains, ends_with,
}
use lnwdeck.Json.{Value, string, object, end, field, array, cons, nil}
use lnwdeck.Security.PrivacyGuard.{
  PrivacyViolation, unix_path_detected, forbidden_key, validate_value,
}
use lnwdeck.Security.PrivacyGuard.Clean.{
  IsClean, IsAllowed, HasText, HasKey, validate_value-IsClean,
}

abbrev pub to_ascii_uppercase : Text → Text
to_ascii_uppercase s = map (λ c. if is_ascii_lowercase c then c - 32 else c) s

abbrev one_field : Text → Text → Value ℕ
one_field key text = object (field key (array (cons (string text) nil)) end)

abbrev check : Value ℕ → Result PrivacyViolation (Unit {0})
check v = validate_value to_ascii_lowercase to_ascii_uppercase v

check-path : check (one_field (codes "note") (codes "see /home/me")) ≡ err unix_path_detected
unfolding validate_value contains to_ascii_lowercase text_eq ends_with
check-path = refl

check-key : check (one_field (codes "Session_Token") (codes "x")) ≡ err forbidden_key
unfolding validate_value contains to_ascii_lowercase text_eq ends_with
check-key = refl

check-clean : check (one_field (codes "model") (codes "gpt-5")) ≡ ok tt
unfolding validate_value contains to_ascii_lowercase text_eq ends_with
check-clean = refl

validate_value-IsClean_example :
    let v = one_field (codes "model") (codes "gpt-5") in
    (check v ≡ ok tt) ↔ (
      ((s : Text) → HasText s v → IsClean to_ascii_lowercase to_ascii_uppercase s)
      × ((k : Text) → HasKey k v → IsAllowed to_ascii_lowercase to_ascii_uppercase k))
validate_value-IsClean_example =
    validate_value-IsClean to_ascii_lowercase to_ascii_uppercase
      (one_field (codes "model") (codes "gpt-5"))
