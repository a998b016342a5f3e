-- ===== src/Pets/Webp/Total.antt =====
-- What `read_webp_dimensions` returns on any sequence of bytes.
use mathlib.Core.Path.{subst}
use lnwdeck.Prelude.{
  ℕ, zero, suc, ◌+◌, ◌-◌, ◌%◌, ◌^◌, ◌≤◌, ◌<◌, ◌≡◌, inl, inr, Bool, true, false, not, Option, none,
  some, List, arith, ltb, leb, ◌==◌, length, take, drop, All, Bool-cases, if◌then◌else◌,
}
use lnwdeck.Prelude.Text.{codes, text_eq}
use lnwdeck.Pets.Webp.{
  Outcome, ok, err, panic, diverge, ◌>>=◌, Chunk, vp8x, vp8, vp8l, other, not_webp, chunk_of,
  decode_frame, read_chunk, walk_chunks, read_webp_dimensions,
}
use lnwdeck.Pets.Webp.Reads.{IsByte, byte_at-lt, slice-lt, read_u16-lt, read_u24-lt, read_u32-lt}

-- A pair of dimensions that a WebP header can hold.
abbrev pub InRange : ℕ × ℕ → Type 0
InRange d = (d.0 ≤ 2 ^ 24) × (d.1 ≤ 2 ^ 24)

-- The function returns: no index is out of bounds and the loop ends, with sizes in range.
abbrev pub Returns : Outcome (ℕ × ℕ) → Type 0
Returns (ok d) = InRange d
Returns (err e) = Unit
Returns panic = ⊥
Returns diverge = ⊥

-- The tests of the file's header.
Returns-header :
    (a b c : Bool) (r : Outcome (ℕ × ℕ))
    → Returns r
    → Returns
        (if a then err not_webp else if b then err not_webp else if c then err not_webp else r)
Returns-header true b c r h = tt
Returns-header false true c r h = tt
Returns-header false false true r h = tt
Returns-header false false false r h = h

abbrev pub Decodes : Outcome (Option (ℕ × ℕ)) → Type 0
Decodes (ok (some d)) = InRange d
Decodes (ok none) = Unit
Decodes (err e) = Unit
Decodes panic = ⊥
Decodes diverge = ⊥

-- The room that an arm of the `match` needs behind the chunk's header.
abbrev room : Chunk → ℕ
room vp8x = 10
room vp8 = 10
room vp8l = 5
room other = 0

chunk_of-room : (tag : List ℕ) (size : ℕ) → room (chunk_of tag size) ≤ size
unfolding chunk_of
chunk_of-room tag size = ground arith

module _ (buffer : List ℕ) (bytes : All IsByte buffer) where
  decode_frame-Decodes :
      (c : Chunk) (start : ℕ)
      → start + room c ≤ length buffer
      → Decodes (decode_frame c buffer start)
  unfolding decode_frame
  decode_frame-Decodes vp8x start h =
      let (w, ew, lw) = read_u24-lt buffer bytes (start + 4) (omega arith) in
      let (g, eg, lg) = read_u24-lt buffer bytes (start + 7) (omega arith) in
      rw (ew, eg) (omega arith)
  decode_frame-Decodes vp8 start h =
      let (a, ea, la) = byte_at-lt buffer bytes (start + 3) (omega arith) in
      let (b, eb, lb) = byte_at-lt buffer bytes (start + 4) (omega arith) in
      let (c, ec, lc) = byte_at-lt buffer bytes (start + 5) (omega arith) in
      let (w, ew, lw) = read_u16-lt buffer bytes (start + 6) (omega arith) in
      let (g, eg, lg) = read_u16-lt buffer bytes (start + 8) (omega arith) in
      rw (ea, eb, ec, ew, eg) (ground arith)
  decode_frame-Decodes vp8l start h =
      let (a, ea, la) = byte_at-lt buffer bytes start (omega arith) in
      let (bits, eb, lb) = read_u32-lt buffer bytes (start + 1) (omega arith) in
      rw (ea, eb) (ground arith)
  decode_frame-Decodes other start h = tt

  read_chunk-Returns :
      (offset : ℕ) (tag : List ℕ) (size : ℕ) (next : ℕ → Outcome (ℕ × ℕ))
      → ((o : ℕ) → offset + 8 ≤ o → Returns (next o))
      → Returns (read_chunk buffer offset tag size next)
  unfolding read_chunk
  read_chunk-Returns offset tag size next later =
      elim (Bool-cases (ltb (length buffer) (offset + 8 + size))) [
        | inl short ↦ rw short tt
        | inr fits ↦ rw fits (
            go (decode_frame (chunk_of tag size) buffer (offset + 8)) (
              decode_frame-Decodes (chunk_of tag size) (offset + 8)
                (ground (arith, chunk_of-room tag size))))
      ]
    where
      go :
          (frame : Outcome (Option (ℕ × ℕ)))
          → Decodes frame
          → Returns (
              frame >>= λ f. elim f [
                | some dimensions ↦ ok dimensions
                | none ↦ next (offset + 8 + size + size % 2)
              ])
      go (ok (some d)) h = h
      go (ok none) h = later (offset + 8 + size + size % 2) (omega arith)
      go (err e) h = tt
      go panic h = h
      go diverge h = h

  walk_chunks-Returns :
      (fuel offset : ℕ)
      → length buffer < offset + 8 + fuel
      → Returns (walk_chunks (suc fuel) buffer offset)
  unfolding walk_chunks
  walk_chunks-Returns zero offset h =
      let done : leb (offset + 8) (length buffer) ≡ false = ground arith in rw done tt
  walk_chunks-Returns (suc fuel) offset h = elim (Bool-cases (leb (offset + 8) (length buffer))) [
    | inl more ↦
        let fits : offset + 8 ≤ length buffer = ground arith in
        let (size, es, ls) = read_u32-lt buffer bytes (offset + 4) (omega arith) in
        let et = slice-lt buffer bytes offset 4 (omega arith) in
        rw (more, et, es)
          (read_chunk-Returns offset (take 4 (drop offset buffer)) size _
            (λ o later. walk_chunks-Returns fuel o (omega arith)))
    | inr done ↦ rw done tt
  ]

-- On any bytes the function returns dimensions of at most 2^24 or an error: it never reads out of
-- bounds, and the walk over the chunks ends.
pub read_webp_dimensions-Returns :
    (buffer : List ℕ) → All IsByte buffer → Returns (read_webp_dimensions buffer)
unfolding read_webp_dimensions
read_webp_dimensions-Returns buffer bytes = elim (Bool-cases (ltb (length buffer) 30)) [
  | inl short ↦ rw short tt
  | inr long ↦
      let enough : 30 ≤ length buffer = ground arith in
      let (size, es, ls) = read_u32-lt buffer bytes 4 (omega arith) in
      let e : suc (length buffer - 1) ≡ length buffer = omega arith in
      let walked : Returns (walk_chunks (length buffer) buffer 12) =
        subst (λ (n : ℕ). Returns (walk_chunks n buffer 12)) e
          (walk_chunks-Returns buffer bytes (length buffer - 1) 12 (omega arith)) in
      rw
        (long, slice-lt buffer bytes 0 4 (omega arith), slice-lt buffer bytes 8 4 (omega arith), es)
        (Returns-header (not (text_eq (take 4 buffer) (codes "RIFF")))
          (not (text_eq (take 4 (drop 8 buffer)) (codes "WEBP")))
          (not ((size + 8) % 2 ^ 32 == length buffer % 2 ^ 32)) _ walked)
]
