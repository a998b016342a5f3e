-- ===== src/Pets/Webp.antt =====
-- `read_webp_dimensions` and `validate_package` of apps/desktop/src-tauri/src/pets.rs: the walk over
-- the chunks of a WebP file. A buffer is the list of its bytes. Every read of the source is an
-- indexing that panics out of bounds, so a read returns an `Outcome`; `diverge` stands for a loop
-- whose fuel ran out. Arithmetic on `u32` wraps, as in a release build.
pub mod Reads
pub mod Total
pub mod Encoded
pub mod Package
use lnwdeck.Prelude.{
  ℕ, zero, suc, ◌+◌, ◌*◌, ◌/◌, ◌%◌, ◌^◌, Bool, not, ◌&&◌, ◌||◌, Option, none, some, List, [], ◌∷◌,
  ltb, leb, ◌==◌, if◌then◌else◌, length, get_elem?, take, drop,
}
use lnwdeck.Prelude.Text.{codes, text_eq}

pub data WebpError : Type 0 where
  not_webp truncated bad_vp8_header bad_vp8l_header no_frame : WebpError

pub data Outcome (A : Type 0) : Type 0 where
  ok : A → Outcome A
  err : WebpError → Outcome A
  panic diverge : Outcome A

infixl 5 ◌>>=◌
abbrev pub ◌>>=◌ : {A B : Type 0} → Outcome A → (A → Outcome B) → Outcome B
ok a >>= f = f a
err e >>= f = err e
panic >>= f = panic
diverge >>= f = diverge

-- `buffer[i]`
unfoldable pub byte_at : List ℕ → ℕ → Outcome ℕ
byte_at buffer i = elim (get_elem? buffer i) [ some b ↦ ok b | none ↦ panic ]

-- `&buffer[from..from + n]`
unfoldable pub slice : List ℕ → ℕ → ℕ → Outcome (List ℕ)
slice buffer from n =
    if leb (from + n) (length buffer) then ok (take n (drop from buffer)) else panic

-- `u16::from_le_bytes`, `read_u24`, `u32::from_le_bytes`: the bytes fill disjoint bits, so that the
-- `|` of `read_u24` is a sum.
unfoldable pub read_u16 : List ℕ → ℕ → Outcome ℕ
unfolding byte_at
read_u16 buffer i = do a ← byte_at buffer i; b ← byte_at buffer (i + 1); ok (a + b * 2 ^ 8)

unfoldable pub read_u24 : List ℕ → ℕ → Outcome ℕ
unfolding byte_at
read_u24 buffer i = do
  a ← byte_at buffer i
  b ← byte_at buffer (i + 1)
  c ← byte_at buffer (i + 2)
  ok (a + b * 2 ^ 8 + c * 2 ^ 16)

unfoldable pub read_u32 : List ℕ → ℕ → Outcome ℕ
unfolding byte_at
read_u32 buffer i = do
  a ← byte_at buffer i
  b ← byte_at buffer (i + 1)
  c ← byte_at buffer (i + 2)
  d ← byte_at buffer (i + 3)
  ok (a + b * 2 ^ 8 + c * 2 ^ 16 + d * 2 ^ 24)

-- The arms of the `match` on the chunk's type, with their guards on its size.
pub data Chunk : Type 0 where
  vp8x vp8 vp8l other : Chunk

unfoldable pub chunk_of : List ℕ → ℕ → Chunk
unfolding text_eq
chunk_of tag size =
    if text_eq tag (codes "VP8X") && leb 10 size
    then vp8x
    else if text_eq tag (codes "VP8 ") && leb 10 size
    then vp8
    else if text_eq tag (codes "VP8L") && leb 5 size
    then vp8l
    else other

-- What an arm returns from the function, and `none` for the arm that goes on to the next chunk.
unfoldable pub decode_frame : Chunk → List ℕ → ℕ → Outcome (Option (ℕ × ℕ))
unfolding read_u16 read_u24 read_u32
decode_frame vp8x buffer start = do
  w ← read_u24 buffer (start + 4)
  h ← read_u24 buffer (start + 7)
  ok (some (w + 1, h + 1))
decode_frame vp8 buffer start = do
  a ← byte_at buffer (start + 3)
  b ← byte_at buffer (start + 4)
  c ← byte_at buffer (start + 5)
  if not (a == 0x9d) || not (b == 0x01) || not (c == 0x2a) then err bad_vp8_header else do
    w ← read_u16 buffer (start + 6)
    h ← read_u16 buffer (start + 8)
    ok (some (w % 2 ^ 14, h % 2 ^ 14))
decode_frame vp8l buffer start = do
  a ← byte_at buffer start
  if not (a == 0x2f) then err bad_vp8l_header else do
    bits ← read_u32 buffer (start + 1)
    ok (some (bits % 2 ^ 14 + 1, bits / 2 ^ 14 % 2 ^ 14 + 1))
decode_frame other buffer start = ok none

-- The rest of an iteration after the chunk's header, `next` being the iterations that follow.
unfoldable pub read_chunk : List ℕ → ℕ → List ℕ → ℕ → (ℕ → Outcome (ℕ × ℕ)) → Outcome (ℕ × ℕ)
unfolding decode_frame chunk_of
read_chunk buffer offset tag size next =
    if ltb (length buffer) (offset + 8 + size) then err truncated else do
      frame ← decode_frame (chunk_of tag size) buffer (offset + 8)
      elim frame [ some dimensions ↦ ok dimensions | none ↦ next (offset + 8 + size + size % 2) ]

-- The `while` loop.
unfoldable pub walk_chunks : ℕ → List ℕ → ℕ → Outcome (ℕ × ℕ)
unfolding slice read_chunk
walk_chunks zero buffer offset = diverge
walk_chunks (suc fuel) buffer offset =
    let next = λ (o : ℕ). walk_chunks fuel buffer o in
    if leb (offset + 8) (length buffer)
    then (do
      tag ← slice buffer offset 4
      size ← read_u32 buffer (offset + 4)
      read_chunk buffer offset tag size next)
    else err no_frame

-- Each round moves the offset on by eight bytes at least, so the buffer's length is fuel enough.
unfoldable pub read_webp_dimensions : List ℕ → Outcome (ℕ × ℕ)
unfolding walk_chunks
read_webp_dimensions buffer = if ltb (length buffer) 30 then err not_webp else do
  riff ← slice buffer 0 4
  if not (text_eq riff (codes "RIFF")) then err not_webp else do
    webp ← slice buffer 8 4
    if not (text_eq webp (codes "WEBP")) then err not_webp else do
      size ← read_u32 buffer 4
      (if not ((size + 8) % 2 ^ 32 == length buffer % 2 ^ 32)
          then err not_webp
          else walk_chunks (length buffer) buffer 12)
