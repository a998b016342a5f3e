-- ===== src/Prelude/Text/Split.antt =====
-- Laws of `split_once`, `strip_suffix` and of texts that avoid a character.
use Prim.Native.Nat.{ℕ, ◌<◌}
use mathlib.Core.Path.{◌≡◌, refl, ap}
use mathlib.Core.Logic.{inl, inr}
use mathlib.Core.Bool.{false}
use mathlib.Core.Option.{none, some}
use mathlib.Core.List.{[], ◌∷◌, ◌++◌}
use native.Mathlib.Omega.{arith}
use lnwdeck.Prelude.Tests.{◌==◌, ||-false, Bool-cases}
use lnwdeck.Prelude.Lists.{All, any, length, length-append}
use lnwdeck.Prelude.Text.{
  Text, text_eq, text_eq_refl, text_eq_sound, strip_prefix_sound, strip_suffix, split_once,
}

-- The character `p` does not occur.
abbrev pub Avoids : ℕ → Text → Type 0
Avoids p = All (λ c. (p == c) ≡ false)

pub Avoids-any : (p : ℕ) (s : Text) → any (λ c. p == c) s ≡ false → Avoids p s
Avoids-any p [] h = tt
Avoids-any p (c ∷ s) h =
    let (hc, hs) = ||-false (p == c) (any (λ x. p == x) s) h in (hc, Avoids-any p s hs)

pub split_once-Avoids : (p : ℕ) (s : Text) → Avoids p s → split_once (p ∷ []) s ≡ none
unfolding split_once
split_once-Avoids p [] h = refl
split_once-Avoids p (c ∷ s) (hc, hs) = ground (arith, split_once-Avoids p s hs)

text_eq-longer : (s t : Text) → length t < length s → text_eq s t ≡ false
text_eq-longer s t h = elim (Bool-cases (text_eq s t)) [
  | inl same ↦ absurd (omega (arith, ap (λ (x : Text). length x) (text_eq_sound s t same)))
  | inr other ↦ other
]

strip_suffix_whole : (p : Text) → strip_suffix p p ≡ some []
unfolding strip_suffix
strip_suffix_whole [] = refl
strip_suffix_whole (c ∷ p) = rw text_eq_refl

pub strip_suffix-append : (p s : Text) → strip_suffix p (s ++ p) ≡ some s
unfolding strip_suffix
strip_suffix-append p [] = strip_suffix_whole p
strip_suffix-append p (c ∷ s) =
    rw (text_eq-longer (c ∷ s ++ p) p (omega (arith, length-append s p)), strip_suffix-append p s)

-- Where the suffix has a character that the text avoids, there is nothing to strip.
pub strip_suffix-Avoids : (p : ℕ) (q s : Text) → Avoids p s → strip_suffix (p ∷ q) s ≡ none
unfolding strip_suffix
strip_suffix-Avoids p q [] h = refl
strip_suffix-Avoids p q (c ∷ s) (hc, hs) =
    let e : text_eq (c ∷ s) (p ∷ q) ≡ false = unfold text_eq in ground arith in
    rw (e, strip_suffix-Avoids p q s hs)

-- What `split_once` finds are the two sides of the pattern.
pub split_once_sound : (p s a b : Text) → split_once p s ≡ some (a, b) → s ≡ a ++ (p ++ b)
unfolding split_once
split_once_sound p [] a b h = ground (arith, strip_prefix_sound p [] b)
split_once_sound p (c ∷ s) [] b h = ground (arith, strip_prefix_sound p (c ∷ s) b)
split_once_sound p (c ∷ s) (x ∷ a) b h =
    ground (arith, strip_prefix_sound p (c ∷ s) b, split_once_sound p s a b)
