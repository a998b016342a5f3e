-- ===== src/Pricing/Models.antt =====
-- The names of models and providers: `strip_date_suffix` and `normalize_model` of
-- crates/pricing/src/catalog.rs, `normalize_provider_id` and `infer_provider` of calculator.rs.
-- Rust's strings are sliced at bytes and panic inside a character; `str::to_lowercase` is a
-- parameter.
pub mod Dated
pub mod Ascii
use lnwdeck.Prelude.{
  ℕ, suc, ◌+◌, ◌-◌, ◌≡◌, Bool, true, false, not, ◌&&◌, ◌||◌, Option, none, some, List, [], ◌∷◌,
  ◌++◌, any, all, is_nil, length, if◌then◌else◌, ltb, leb, ◌==◌, Result, ok, err, ◌>>=◌,
}
use lnwdeck.Prelude.Text.{
  Text, codes, text_eq, utf8_char, is_ascii_digit, starts_with, contains, split_once, trim,
}

pub data Panic : Type 0 where
  not_char_boundary : Panic

-- `MODEL_DOT_PREFIXES`
abbrev pub model_dot_prefixes : List Text
model_dot_prefixes =
    codes "openai"
    ∷ codes "anthropic"
    ∷ codes "google"
    ∷ codes "deepseek"
    ∷ codes "qwen"
    ∷ codes "mistral"
    ∷ codes "xai"
    ∷ codes "kimi"
    ∷ codes "moonshot"
    ∷ codes "gemini"
    ∷ codes "claude"
    ∷ codes "grok"
    ∷ codes "codex"
    ∷ codes "copilot"
    ∷ codes "ollama"
    ∷ codes "openrouter"
    ∷ []

-- A cut after a number of bytes: the text has fewer, the cut is inside a character, or what is
-- before and after it.
pub data Cut : Type 0 where
  short inside : Cut
  between : Text → Text → Cut

abbrev pub after_char : ℕ → Cut → Cut
after_char c short = short
after_char c inside = inside
after_char c (between front rest) = between (c ∷ front) rest

unfoldable pub cut_bytes : ℕ → Text → Cut
unfolding utf8_char
cut_bytes n [] = if n == 0 then between [] [] else short
cut_bytes n (c ∷ s) =
    let rest = cut_bytes (n - length (utf8_char c)) s in
    if n == 0
    then between [] (c ∷ s)
    else if leb (length (utf8_char c)) n
    then after_char c rest
    else inside

-- What the loop of `strip_date_suffix` sees at one byte: nothing, or the end.
unfoldable pub date_after : Cut → Result Panic Bool
unfolding starts_with
date_after short = ok false
date_after inside = err not_char_boundary
date_after (between digits after) =
    ok (all is_ascii_digit digits && (is_nil after || starts_with (codes "-") after))

unfoldable pub is_date_at : ℕ → Text → Result Panic Bool
unfolding date_after cut_bytes
is_date_at c s = if c == b'-' || c == b'@' then date_after (cut_bytes 8 s) else ok false

-- The turn of the loop at `c`, after those on the text that follows it.
unfoldable pub date_or : ℕ → Text → Option Text → Result Panic (Option Text)
unfolding is_date_at
date_or c s (some front) = ok (some (c ∷ front))
date_or c s none = is_date_at c s >>= λ here. ok (if here then some [] else none)

-- The loop, which goes from the last byte to the first and ends at the first date: the text before
-- it. Only an ASCII byte can match.
unfoldable pub find_date : Text → Result Panic (Option Text)
unfolding date_or
find_date [] = ok none
find_date (c ∷ s) = let later = find_date s in later >>= date_or c s

unfoldable pub strip_date_suffix : Text → Result Panic Text
unfolding find_date
strip_date_suffix model = do
  found ← find_date model
  elim found [ some front ↦ ok front | none ↦ ok model ]

module _ (to_lowercase : Text → Text) where
  unfoldable pub normalize_provider_id : Text → Text
  unfolding contains
  normalize_provider_id provider =
      let p = to_lowercase provider in
      if contains (codes "openai") p || contains (codes "codex") p
      then codes "openai"
      else if contains (codes "anthropic") p || contains (codes "claude") p
      then codes "anthropic"
      else if contains (codes "google") p || contains (codes "gemini") p
      then codes "google"
      else if contains (codes "moonshot") p || contains (codes "kimi") p
      then codes "kimi"
      else if any (λ name. contains name p)
          (codes "zai" ∷ codes "zcode" ∷ codes "zhipu" ∷ codes "bigmodel" ∷ codes "glm" ∷ [])
      then codes "zai"
      else if contains (codes "opencode") p
      then codes "opencode"
      else if contains (codes "deepseek") p
      then codes "deepseek"
      else if contains (codes "grok") p || contains (codes "xai") p
      then codes "xai"
      else if contains (codes "qwen") p
      then codes "qwen"
      else if contains (codes "mistral") p || contains (codes "codestral") p
      then codes "mistral"
      else if contains (codes "ollama") p
      then codes "ollama"
      else if contains (codes "openrouter") p
      then codes "openrouter"
      else codes "unknown"

  unfoldable pub infer_provider : Text → Text
  unfolding contains starts_with
  infer_provider model =
      let m = to_lowercase model in
      if starts_with (codes "gpt") m
        || contains (codes "codex") m
        || starts_with (codes "o1") m
        || starts_with (codes "o3") m
      then codes "openai"
      else if starts_with (codes "claude") m
      then codes "anthropic"
      else if starts_with (codes "gemini") m
      then codes "google"
      else if starts_with (codes "moonshot") m || starts_with (codes "kimi") m
      then codes "kimi"
      else if starts_with (codes "glm") m
      then codes "zai"
      else if starts_with (codes "deepseek") m
      then codes "deepseek"
      else if starts_with (codes "grok") m
      then codes "xai"
      else if starts_with (codes "qwen") m
      then codes "qwen"
      else if starts_with (codes "mistral") m || starts_with (codes "codestral") m
      then codes "mistral"
      else codes "openai"

  abbrev is_prefix_name : Text → Bool
  is_prefix_name name = any (text_eq name) model_dot_prefixes

  -- Without the provider before a slash, where it is known.
  unfoldable pub without_provider : Text → Text
  unfolding text_eq split_once normalize_provider_id
  without_provider value = elim (split_once (codes "/") value) [
    | none ↦ value
    | some (prefix, rest) ↦
        if is_prefix_name prefix || not (text_eq (normalize_provider_id prefix) (codes "unknown"))
        then rest
        else value
  ]

  -- Without the provider before the first dot.
  unfoldable pub without_dot_prefix : Text → Text
  unfolding text_eq split_once
  without_dot_prefix value = elim (split_once (codes ".") value) [
    | none ↦ value
    | some (prefix, rest) ↦ if is_prefix_name prefix then rest else value
  ]

  unfoldable pub normalize_model : Text → Result Panic Text
  unfolding trim without_provider without_dot_prefix strip_date_suffix
  normalize_model model =
      strip_date_suffix (without_dot_prefix (without_provider (to_lowercase (trim model))))
