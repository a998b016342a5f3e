-- ===== src/Prelude/Text/Trim.antt =====
-- Laws of `trim`.
use Prim.Native.Nat.{ℕ}
use mathlib.Core.Path.{◌≡◌, refl, ap, ◌∙◌}
use mathlib.Core.Logic.{inl, inr}
use mathlib.Core.Bool.{false}
use mathlib.Core.List.{[], ◌∷◌}
use lnwdeck.Prelude.Tests.{Bool-cases, if◌then◌else◌}
use lnwdeck.Prelude.Lists.{All}
use lnwdeck.Prelude.Text.{Text, is_whitespace, trim, trim_start, trim_end}

-- The text is empty or its first character is no white space.
abbrev StartsBlack : Text → Type 0
StartsBlack [] = Unit
StartsBlack (c ∷ s) = is_whitespace c ≡ false

trim_start-StartsBlack : (s : Text) → StartsBlack (trim_start s)
unfolding trim_start
trim_start-StartsBlack [] = tt
trim_start-StartsBlack (c ∷ s) = elim (Bool-cases (is_whitespace c)) [
  | inl white ↦ rw white (trim_start-StartsBlack s)
  | inr black ↦ rw black black
]

trim_start_of_StartsBlack : (s : Text) → StartsBlack s → trim_start s ≡ s
unfolding trim_start
trim_start_of_StartsBlack [] h = refl
trim_start_of_StartsBlack (c ∷ s) h = rw h

-- `trim_end` of a text, by what it makes of the rest.
abbrev end_step : ℕ → Text → Text
end_step c [] = if is_whitespace c then [] else c ∷ []
end_step c (x ∷ r) = c ∷ x ∷ r

trim_end-cons : (c : ℕ) (s : Text) → trim_end (c ∷ s) ≡ end_step c (trim_end s)
unfolding trim_end
trim_end-cons c s = go (trim_end s)
  where
    go :
        (t : Text)
        → (elim t [ [] ↦ if is_whitespace c then [] else c ∷ [] | x ∷ r ↦ c ∷ x ∷ r ])
          ≡ end_step c t
    go [] = refl
    go (x ∷ r) = refl

trim_end_nil : trim_end [] ≡ []
unfolding trim_end
trim_end_nil = refl

end_step-StartsBlack : (c : ℕ) (t : Text) → is_whitespace c ≡ false → StartsBlack (end_step c t)
end_step-StartsBlack c [] h = rw h h
end_step-StartsBlack c (x ∷ r) h = h

trim_end-StartsBlack : (s : Text) → StartsBlack s → StartsBlack (trim_end s)
trim_end-StartsBlack [] h = rw trim_end_nil tt
trim_end-StartsBlack (c ∷ s) h = rw trim_end-cons (end_step-StartsBlack c (trim_end s) h)

trim_end-end_step : (c : ℕ) (t : Text) → trim_end t ≡ t → trim_end (end_step c t) ≡ end_step c t
trim_end-end_step c [] h = elim (Bool-cases (is_whitespace c)) [
  | inl white ↦ rw white trim_end_nil
  | inr black ↦ rw black (trim_end-cons c [] ∙ (rw trim_end_nil (rw black)))
]
trim_end-end_step c (x ∷ r) h = trim_end-cons c (x ∷ r) ∙ ap (end_step c) h

trim_end-trim_end : (s : Text) → trim_end (trim_end s) ≡ trim_end s
trim_end-trim_end [] = rw trim_end_nil trim_end_nil
trim_end-trim_end (c ∷ s) =
    rw trim_end-cons (trim_end-end_step c (trim_end s) (trim_end-trim_end s))

pub trim-trim : (s : Text) → trim (trim s) ≡ trim s
unfolding trim
trim-trim s =
    ap trim_end (
      trim_start_of_StartsBlack (trim_end (trim_start s))
        (trim_end-StartsBlack (trim_start s) (trim_start-StartsBlack s)))
    ∙ trim_end-trim_end (trim_start s)

trim_end_of_black : (s : Text) → All (λ c. is_whitespace c ≡ false) s → trim_end s ≡ s
trim_end_of_black [] h = trim_end_nil
trim_end_of_black (c ∷ s) (hc, hs) = rw (trim_end-cons, trim_end_of_black s hs) (last s)
  where
    last : (t : Text) → end_step c t ≡ c ∷ t
    last [] = rw hc
    last (x ∷ r) = refl

-- A text with no white space is its own trim.
pub trim_of_black : (s : Text) → All (λ c. is_whitespace c ≡ false) s → trim s ≡ s
unfolding trim
trim_of_black [] h = ap trim_end (trim_start_of_StartsBlack [] tt) ∙ trim_end_nil
trim_of_black (c ∷ s) h =
    ap trim_end (trim_start_of_StartsBlack (c ∷ s) h.0) ∙ trim_end_of_black (c ∷ s) h
