-- ===== src/Json.antt =====
-- `serde_json::Value`. An object is the list of its fields; `F` stands for the floats.
use lnwdeck.Prelude.{ℕ, Bool, Option, none, some, if◌then◌else◌}
use lnwdeck.Prelude.Text.{Text, text_eq}

pub data Number (F : Type 0) : Type 0 where
  unsigned : ℕ → Number F
  -- `negative n` is -(n + 1)
  negative : ℕ → Number F
  float : F → Number F

mutual
  pub data Value (F : Type 0) : Type 0 where
    null : Value F
    bool : Bool → Value F
    number : Number F → Value F
    string : Text → Value F
    array : Items F → Value F
    object : Fields F → Value F

  pub data Items (F : Type 0) : Type 0 where
    nil : Items F
    cons : Value F → Items F → Items F

  pub data Fields (F : Type 0) : Type 0 where
    end : Fields F
    field : Text → Value F → Fields F → Fields F

module _ {F : Type 0} where
  -- `Map::get`
  unfoldable pub get_field : Text → Fields F → Option (Value F)
  unfolding text_eq
  get_field key end = none
  get_field key (field k v rest) = if text_eq k key then some v else get_field key rest

  -- `Value::get` with a key
  unfoldable pub get : Text → Value F → Option (Value F)
  unfolding get_field
  get key (object fields) = get_field key fields
  get key _ = none
