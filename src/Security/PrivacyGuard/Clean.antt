-- ===== src/Security/PrivacyGuard/Clean.antt =====
-- What passes the guard: a value with no forbidden key and no tell-tale text at any depth.
use lnwdeck.Prelude.{◌≡◌, ◌↔◌, refl, Bool, true, false, ok, ◌>>◌, refuse, arith, both_ok}
use lnwdeck.Prelude.Text.{Text}
use lnwdeck.Json.{
  Value, null, bool, number, string, array, object, Items, nil, cons, Fields, end, field,
}
use lnwdeck.Security.PrivacyGuard.{
  is_forbidden_key, contains_windows_path, contains_unix_path, contains_bearer_token,
  contains_api_key, validate_key, validate_string, validate_value, validate_items, validate_fields,
}

module _ {F : Type 0} where
  -- A text stands in a value, at any depth.
  mutual
    pub data HasText : Text → Value F → Type 0 where
      itself : (s : Text) → HasText s (string s)
      in_array : (s : Text) (items : Items F) → ItemHasText s items → HasText s (array items)
      in_object : (s : Text) (fields : Fields F) → FieldHasText s fields → HasText s (object fields)

    pub data ItemHasText : Text → Items F → Type 0 where
      this_item :
          (s : Text) (v : Value F) (items : Items F) → HasText s v → ItemHasText s (cons v items)
      later_item :
          (s : Text) (v : Value F) (items : Items F)
          → ItemHasText s items
          → ItemHasText s (cons v items)

    pub data FieldHasText : Text → Fields F → Type 0 where
      this_field :
          (s k : Text) (v : Value F) (fields : Fields F)
          → HasText s v
          → FieldHasText s (field k v fields)
      later_field :
          (s k : Text) (v : Value F) (fields : Fields F)
          → FieldHasText s fields
          → FieldHasText s (field k v fields)

  -- A key stands in a value, at any depth.
  mutual
    pub data HasKey : Text → Value F → Type 0 where
      in_array : (k : Text) (items : Items F) → ItemHasKey k items → HasKey k (array items)
      in_object : (k : Text) (fields : Fields F) → FieldHasKey k fields → HasKey k (object fields)

    pub data ItemHasKey : Text → Items F → Type 0 where
      this_item :
          (k : Text) (v : Value F) (items : Items F) → HasKey k v → ItemHasKey k (cons v items)
      later_item :
          (k : Text) (v : Value F) (items : Items F)
          → ItemHasKey k items
          → ItemHasKey k (cons v items)

    pub data FieldHasKey : Text → Fields F → Type 0 where
      itself : (k : Text) (v : Value F) (fields : Fields F) → FieldHasKey k (field k v fields)
      this_field :
          (k j : Text) (v : Value F) (fields : Fields F)
          → HasKey k v
          → FieldHasKey k (field j v fields)
      later_field :
          (k j : Text) (v : Value F) (fields : Fields F)
          → FieldHasKey k fields
          → FieldHasKey k (field j v fields)

-- Four checks in a row.
four_checks :
    {E : Type 0} (a b c d : Bool) (e1 e2 e3 e4 : E)
    → ((do refuse a e1; refuse b e2; refuse c e3; refuse d e4) ≡ ok tt)
      ↔ ((a ≡ false) × (b ≡ false) × (c ≡ false) × (d ≡ false))
four_checks a b c d e1 e2 e3 e4 = ground arith

refuse_iff : {E : Type 0} (b : Bool) (e : E) → (refuse b e ≡ ok tt) ↔ (b ≡ false)
refuse_iff true e = (λ h. cc, λ h. cc)
refuse_iff false e = (λ h. refl, λ h. refl)

module _ (lower upper : Text → Text) where
  -- No path of Windows or Unix, no bearer token and no API key is told from the text.
  abbrev pub IsClean : Text → Type 0
  IsClean s =
      (contains_windows_path lower upper s ≡ false)
      × (contains_unix_path lower upper s ≡ false)
      × (contains_bearer_token lower upper s ≡ false)
      × (contains_api_key lower upper s ≡ false)

  abbrev pub IsAllowed : Text → Type 0
  IsAllowed k = is_forbidden_key lower upper k ≡ false

  pub validate_string-IsClean : (s : Text) → (validate_string lower upper s ≡ ok tt) ↔ IsClean s
  unfolding validate_string
  validate_string-IsClean s =
      four_checks (contains_windows_path lower upper s) (contains_unix_path lower upper s)
        (contains_bearer_token lower upper s) (contains_api_key lower upper s) _ _ _ _

  pub validate_key-IsAllowed : (k : Text) → (validate_key lower upper k ≡ ok tt) ↔ IsAllowed k
  unfolding validate_key
  validate_key-IsAllowed k = refuse_iff (is_forbidden_key lower upper k) _

  module _ {F : Type 0} where
    -- The checks of the parts of an array and of an object.
    pub items_parts :
        (v : Value F) (items : Items F)
        → (validate_items lower upper (cons v items) ≡ ok tt)
          ↔ ((validate_value lower upper v ≡ ok tt) × (validate_items lower upper items ≡ ok tt))
    unfolding validate_value
    items_parts v items = both_ok (validate_value lower upper v) (validate_items lower upper items)

    pub fields_parts :
        (k : Text) (v : Value F) (fields : Fields F)
        → (validate_fields lower upper (field k v fields) ≡ ok tt) ↔ (
            (validate_key lower upper k ≡ ok tt)
            × (validate_value lower upper v ≡ ok tt)
            × (validate_fields lower upper fields ≡ ok tt))
    unfolding validate_value
    fields_parts k v fields =
        let outer =
          both_ok (validate_key lower upper k)
            (validate_value lower upper v >> validate_fields lower upper fields) in
        let inner = both_ok (validate_value lower upper v) (validate_fields lower upper fields) in
        (
          λ h. ((outer.0 h).0, (inner.0 (outer.0 h).1).0, (inner.0 (outer.0 h).1).1),
          λ h. outer.1 (h.0, inner.1 (h.1, h.2)),
        )

    mutual
      unfolding validate_value

      text_of_passed :
          {s : Text} {v : Value F} → HasText s v → validate_value lower upper v ≡ ok tt → IsClean s
      text_of_passed (HasText.itself s) h = (validate_string-IsClean s).0 h
      text_of_passed (HasText.in_array s items m) h = text_of_items m h
      text_of_passed (HasText.in_object s fields m) h = text_of_fields m h

      text_of_items :
          {s : Text} {items : Items F}
          → ItemHasText s items
          → validate_items lower upper items ≡ ok tt
          → IsClean s
      text_of_items (ItemHasText.this_item s v items m) h =
          text_of_passed m ((items_parts v items).0 h).0
      text_of_items (ItemHasText.later_item s v items m) h =
          text_of_items m ((items_parts v items).0 h).1

      text_of_fields :
          {s : Text} {fields : Fields F}
          → FieldHasText s fields
          → validate_fields lower upper fields ≡ ok tt
          → IsClean s
      text_of_fields (FieldHasText.this_field s k v fields m) h =
          text_of_passed m ((fields_parts k v fields).0 h).1
      text_of_fields (FieldHasText.later_field s k v fields m) h =
          text_of_fields m ((fields_parts k v fields).0 h).2

    mutual
      unfolding validate_value

      key_of_passed :
          {k : Text} {v : Value F} → HasKey k v → validate_value lower upper v ≡ ok tt → IsAllowed k
      key_of_passed (HasKey.in_array k items m) h = key_of_items m h
      key_of_passed (HasKey.in_object k fields m) h = key_of_fields m h

      key_of_items :
          {k : Text} {items : Items F}
          → ItemHasKey k items
          → validate_items lower upper items ≡ ok tt
          → IsAllowed k
      key_of_items (ItemHasKey.this_item k v items m) h =
          key_of_passed m ((items_parts v items).0 h).0
      key_of_items (ItemHasKey.later_item k v items m) h =
          key_of_items m ((items_parts v items).0 h).1

      key_of_fields :
          {k : Text} {fields : Fields F}
          → FieldHasKey k fields
          → validate_fields lower upper fields ≡ ok tt
          → IsAllowed k
      key_of_fields (FieldHasKey.itself k v fields) h =
          (validate_key-IsAllowed k).0 ((fields_parts k v fields).0 h).0
      key_of_fields (FieldHasKey.this_field k j v fields m) h =
          key_of_passed m ((fields_parts j v fields).0 h).1
      key_of_fields (FieldHasKey.later_field k j v fields m) h =
          key_of_fields m ((fields_parts j v fields).0 h).2

    mutual
      unfolding validate_value

      passed_of_parts :
          (v : Value F)
          → ((s : Text) → HasText s v → IsClean s)
          → ((k : Text) → HasKey k v → IsAllowed k)
          → validate_value lower upper v ≡ ok tt
      passed_of_parts null texts keys = refl
      passed_of_parts (bool b) texts keys = refl
      passed_of_parts (number n) texts keys = refl
      passed_of_parts (string s) texts keys =
          (validate_string-IsClean s).1 (texts s (HasText.itself s))
      passed_of_parts (array items) texts keys =
          items_of_parts items (λ s m. texts s (HasText.in_array s items m))
            (λ k m. keys k (HasKey.in_array k items m))
      passed_of_parts (object fields) texts keys =
          fields_of_parts fields (λ s m. texts s (HasText.in_object s fields m))
            (λ k m. keys k (HasKey.in_object k fields m))

      items_of_parts :
          (items : Items F)
          → ((s : Text) → ItemHasText s items → IsClean s)
          → ((k : Text) → ItemHasKey k items → IsAllowed k)
          → validate_items lower upper items ≡ ok tt
      items_of_parts nil texts keys = refl
      items_of_parts (cons v items) texts keys = (items_parts v items).1 (
        passed_of_parts v (λ s m. texts s (ItemHasText.this_item s v items m))
            (λ k m. keys k (ItemHasKey.this_item k v items m)),
        items_of_parts items (λ s m. texts s (ItemHasText.later_item s v items m))
            (λ k m. keys k (ItemHasKey.later_item k v items m)),
      )

      fields_of_parts :
          (fields : Fields F)
          → ((s : Text) → FieldHasText s fields → IsClean s)
          → ((k : Text) → FieldHasKey k fields → IsAllowed k)
          → validate_fields lower upper fields ≡ ok tt
      fields_of_parts end texts keys = refl
      fields_of_parts (field j v fields) texts keys = (fields_parts j v fields).1 (
        (validate_key-IsAllowed j).1 (keys j (FieldHasKey.itself j v fields)),
        passed_of_parts v (λ s m. texts s (FieldHasText.this_field s j v fields m))
            (λ k m. keys k (FieldHasKey.this_field k j v fields m)),
        fields_of_parts fields (λ s m. texts s (FieldHasText.later_field s j v fields m))
            (λ k m. keys k (FieldHasKey.later_field k j v fields m)),
      )

    -- A value passes the guard exactly when every text that stands in it, at any depth, is clean, and
    -- every key of its objects, at any depth, is allowed.
    pub validate_value-IsClean :
        (v : Value F)
        → (validate_value lower upper v ≡ ok tt)
          ↔ (((s : Text) → HasText s v → IsClean s) × ((k : Text) → HasKey k v → IsAllowed k))
    validate_value-IsClean v =
        (λ h. (λ s m. text_of_passed m h, λ k m. key_of_passed m h), λ h. passed_of_parts v h.0 h.1)
