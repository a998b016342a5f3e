-- ===== src/Security/PrivacyGuard.antt =====
-- `validate_value` and its tests, of crates/security/src/privacy_guard.rs. `str::to_lowercase` and
-- `str::to_uppercase`, Unicode's mappings, are parameters; a code is a constructor.
pub mod Clean
pub mod Batches
pub mod Passed
use lnwdeck.Prelude.{
  ℕ, ◌+◌, ◌≡◌, Bool, true, false, not, ◌&&◌, ◌||◌, List, [], ◌∷◌, ◌++◌, any, if◌then◌else◌, ltb,
  Result, ok, err, ◌>>=◌, ◌>>◌, refuse,
}
use lnwdeck.Prelude.Text.{Text, codes, text_eq, len, contains, ends_with}
use lnwdeck.Json.{
  Value, null, bool, number, string, array, object, Items, nil, cons, Fields, end, field,
}

pub data PrivacyViolation : Type 0 where
  forbidden_key windows_path_detected unix_path_detected : PrivacyViolation
  bearer_token_detected api_key_detected : PrivacyViolation

abbrev pub exact_forbidden : List Text
exact_forbidden =
    codes "prompt"
    ∷ codes "response"
    ∷ codes "path"
    ∷ codes "file_name"
    ∷ codes "cookie"
    ∷ codes "token"
    ∷ codes "api_key"
    ∷ codes "secret"
    ∷ codes "password"
    ∷ codes "credential"
    ∷ []

abbrev pub unix_paths : List Text
unix_paths =
    codes "/home/"
    ∷ codes "/etc/"
    ∷ codes "/usr/"
    ∷ codes "/var/"
    ∷ codes "/tmp/"
    ∷ codes "/root/"
    ∷ codes "/opt/"
    ∷ []

abbrev pub key_patterns : List Text
key_patterns =
    codes "sk-"
    ∷ codes "sk_proj_"
    ∷ codes "key-"
    ∷ codes "api_key"
    ∷ codes "apikey"
    ∷ codes "secret_key"
    ∷ codes "access_key"
    ∷ []

-- `'A'..='Z'`
abbrev pub drive_letters : List ℕ
drive_letters = codes "ABCDEFGHIJKLMNOPQRSTUVWXYZ"

module _ (to_lowercase to_uppercase : Text → Text) where
  unfoldable pub is_forbidden_key : Text → Bool
  unfolding text_eq ends_with
  is_forbidden_key key =
      any
        (λ forbidden.
          text_eq (to_lowercase key) forbidden
          || ends_with (codes "_" ++ forbidden) (to_lowercase key))
        exact_forbidden

  unfoldable pub validate_key : Text → Result PrivacyViolation (Unit {0})
  unfolding is_forbidden_key
  validate_key key = refuse (is_forbidden_key key) forbidden_key

  unfoldable pub contains_windows_path : Text → Bool
  unfolding contains
  contains_windows_path s =
      any (λ c. contains (c ∷ codes ":\\") (to_uppercase s)) drive_letters
      || (contains (codes "\\\\") s || contains (codes "//") s)

  unfoldable pub contains_unix_path : Text → Bool
  unfolding contains
  contains_unix_path s = any (λ path. contains path s) unix_paths

  unfoldable pub contains_bearer_token : Text → Bool
  unfolding contains
  contains_bearer_token s = contains (codes "bearer") (to_lowercase s) && ltb 20 (len s)

  unfoldable pub contains_api_key : Text → Bool
  unfolding contains
  contains_api_key s = any (λ pattern. contains pattern (to_lowercase s)) key_patterns

  unfoldable pub validate_string : Text → Result PrivacyViolation (Unit {0})
  unfolding contains_windows_path contains_unix_path contains_bearer_token contains_api_key
  validate_string s = do
    refuse (contains_windows_path s) windows_path_detected
    refuse (contains_unix_path s) unix_path_detected
    refuse (contains_bearer_token s) bearer_token_detected
    refuse (contains_api_key s) api_key_detected

  module _ {F : Type 0} where
    unfoldable mutual
      unfolding validate_key validate_string

      pub validate_value : Value F → Result PrivacyViolation (Unit {0})
      validate_value (string s) = validate_string s
      validate_value (array items) = validate_items items
      validate_value (object fields) = validate_fields fields
      validate_value null = ok tt
      validate_value (bool b) = ok tt
      validate_value (number n) = ok tt

      -- The loops over an array and over an object.
      pub validate_items : Items F → Result PrivacyViolation (Unit {0})
      validate_items nil = ok tt
      validate_items (cons item items) =
          let rest = validate_items items in validate_value item >> rest

      pub validate_fields : Fields F → Result PrivacyViolation (Unit {0})
      validate_fields end = ok tt
      validate_fields (field key value fields) =
          let rest = validate_fields fields in validate_key key >> (validate_value value >> rest)
