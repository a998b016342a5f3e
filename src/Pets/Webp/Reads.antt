-- ===== src/Pets/Webp/Reads.antt =====
-- The reads of `read_webp_dimensions` inside the buffer.
use lnwdeck.Prelude.{
  ℕ, zero, suc, ◌+◌, ◌*◌, ◌^◌, ◌≤◌, ◌<◌, ◌≡◌, refl, some, List, [], ◌∷◌, arith, length, get_elem?,
  take, drop, All,
}
use lnwdeck.Pets.Webp.{ok, byte_at, slice, read_u16, read_u24, read_u32}

abbrev pub IsByte : ℕ → Type 0
IsByte b = b < 256

pub get_elem?-lt :
    (xs : List ℕ) (i : ℕ)
    → All IsByte xs
    → i < length xs
    → (b : ℕ) × (get_elem? xs i ≡ some b) × (b < 256)
get_elem?-lt [] i hb h = absurd (omega arith)
get_elem?-lt (x ∷ xs) zero hb h = (x, refl, hb.0)
get_elem?-lt (x ∷ xs) (suc i) hb h = get_elem?-lt xs i hb.1 (omega arith)

module _ (buffer : List ℕ) (bytes : All IsByte buffer) where
  pub byte_at-lt : (i : ℕ) → i < length buffer → (b : ℕ) × (byte_at buffer i ≡ ok b) × (b < 256)
  unfolding byte_at
  byte_at-lt i h = let (b, e, l) = get_elem?-lt buffer i bytes h in (b, rw (e, byte_at), l)

  pub slice-lt :
      (from n : ℕ) → from + n ≤ length buffer → slice buffer from n ≡ ok (take n (drop from buffer))
  unfolding slice
  slice-lt from n h = ground arith

  pub read_u16-lt :
      (i : ℕ) → i + 2 ≤ length buffer → (n : ℕ) × (read_u16 buffer i ≡ ok n) × (n < 2 ^ 16)
  unfolding read_u16
  read_u16-lt i h =
      let (a, ea, la) = byte_at-lt i (omega arith) in
      let (b, eb, lb) = byte_at-lt (i + 1) (omega arith) in
      (a + b * 2 ^ 8, rw (ea, eb), omega arith)

  pub read_u24-lt :
      (i : ℕ) → i + 3 ≤ length buffer → (n : ℕ) × (read_u24 buffer i ≡ ok n) × (n < 2 ^ 24)
  unfolding read_u24
  read_u24-lt i h =
      let (a, ea, la) = byte_at-lt i (omega arith) in
      let (b, eb, lb) = byte_at-lt (i + 1) (omega arith) in
      let (c, ec, lc) = byte_at-lt (i + 2) (omega arith) in
      (a + b * 2 ^ 8 + c * 2 ^ 16, rw (ea, eb, ec), omega arith)

  pub read_u32-lt :
      (i : ℕ) → i + 4 ≤ length buffer → (n : ℕ) × (read_u32 buffer i ≡ ok n) × (n < 2 ^ 32)
  unfolding read_u32
  read_u32-lt i h =
      let (a, ea, la) = byte_at-lt i (omega arith) in
      let (b, eb, lb) = byte_at-lt (i + 1) (omega arith) in
      let (c, ec, lc) = byte_at-lt (i + 2) (omega arith) in
      let (d, ed, ld) = byte_at-lt (i + 3) (omega arith) in
      (a + b * 2 ^ 8 + c * 2 ^ 16 + d * 2 ^ 24, rw (ea, eb, ec, ed), omega arith)
