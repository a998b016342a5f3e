-- ===== src/Prelude/Text/Ascii.antt =====
-- Texts of ASCII characters: UTF-8 and lower-casing leave them as they are.
use Prim.Native.Nat.{ℕ, ◌≤◌, ◌<◌}
use mathlib.Core.Path.{◌≡◌, refl, ap}
use mathlib.Core.Logic.{inl, inr}
use mathlib.Core.Bool.{true}
use mathlib.Core.List.{List, [], ◌∷◌}
use native.Mathlib.Omega.{arith}
use lnwdeck.Prelude.Tests.{ltb, Bool-cases}
use lnwdeck.Prelude.Lists.{All}
use lnwdeck.Prelude.Text.{Text, utf8}

abbrev pub IsAscii : Text → Type 0
IsAscii = All (λ c. c < 128)

abbrev BeginsHigh : List ℕ → Type 0
BeginsHigh [] = ⊥
BeginsHigh (b ∷ r) = 0xC0 ≤ b

-- A code point past ASCII begins with a byte of at least 0xC0.
utf8-BeginsHigh : (c : ℕ) (s : Text) → 128 ≤ c → BeginsHigh (utf8 (c ∷ s))
unfolding utf8
utf8-BeginsHigh c s h = ground arith

not-BeginsHigh : (bytes : List ℕ) → IsAscii bytes → ¬ BeginsHigh bytes
not-BeginsHigh [] h k = k
not-BeginsHigh (b ∷ r) h k = omega arith

utf8-cons : (c : ℕ) (s : Text) → c < 128 → utf8 (c ∷ s) ≡ c ∷ utf8 s
unfolding utf8
utf8-cons c s h = let e : ltb c 0x80 ≡ true = ground arith in rw e

-- If all bytes are ASCII, the bytes are the characters.
pub utf8-IsAscii : (s : Text) → IsAscii (utf8 s) → utf8 s ≡ s
utf8-IsAscii [] h = unfold utf8 in refl
utf8-IsAscii (c ∷ s) h = elim (Bool-cases (ltb c 128)) [
  | inl small ↦
      let e = utf8-cons c s (ground arith) in
      rw e (ap (λ (t : Text). c ∷ t) (utf8-IsAscii s (rw e at h).1))
  | inr big ↦ absurd (not-BeginsHigh (utf8 (c ∷ s)) h (utf8-BeginsHigh c s (ground arith)))
]

pub utf8_of_IsAscii : (s : Text) → IsAscii s → utf8 s ≡ s
utf8_of_IsAscii [] h = unfold utf8 in refl
utf8_of_IsAscii (c ∷ s) h =
    rw (utf8-cons c s h.0) (ap (λ (t : Text). c ∷ t) (utf8_of_IsAscii s h.1))
