-- ===== src/Pets/Webp/Encoded.antt =====
-- The `fake_webp` file of the source's tests: a RIFF header and a `VP8X` chunk with the dimensions.
use lnwdeck.Prelude.{ℕ, ◌-◌, ◌/◌, ◌%◌, ◌^◌, ◌≤◌, ◌≡◌, List, [], ◌∷◌, ◌++◌, arith}
use lnwdeck.Prelude.Text.{codes}
use lnwdeck.Pets.Webp.{ok, read_webp_dimensions}

-- `to_le_bytes`, cut to three or four bytes
abbrev pub le24 : ℕ → List ℕ
le24 n = (n % 256) ∷ (n / 2 ^ 8 % 256) ∷ (n / 2 ^ 16 % 256) ∷ []

abbrev pub fake_webp : ℕ → ℕ → List ℕ
fake_webp width height =
    codes "RIFF"
    ++ ((22 ∷ 0 ∷ 0 ∷ 0 ∷ [])
        ++ (codes "WEBPVP8X"
            ++ ((10 ∷ 0 ∷ 0 ∷ 0 ∷ 0 ∷ 0 ∷ 0 ∷ 0 ∷ []) ++ (le24 (width - 1) ++ le24 (height - 1)))))

-- Reading such a file gives its dimensions back, for every size that the format can hold.
pub read_webp_dimensions-fake_webp :
    (width height : ℕ)
    → 1 ≤ width
    → width ≤ 2 ^ 24
    → 1 ≤ height
    → height ≤ 2 ^ 24
    → read_webp_dimensions (fake_webp width height) ≡ ok (width, height)
unfolding read_webp_dimensions
read_webp_dimensions-fake_webp width height hw lw hh lh = ground arith
