-- ===== src/Lz4.antt =====
-- engine/src/compression.cpp: the literal-only LZ4 blocks (EncodeLz4Literal, DecodeLz4Literal). A
-- buffer is the list of its bytes, and the decoder's output the bytes written so far; sizes are
-- below 2 ^ 64. The encoder's loops run on fuel for the input's length, the decoder's on fuel for
-- the length of the encoded bytes.
pub mod RoundTrip
pub mod Limits
use mimic_rag.Prelude.{
  ℕ, zero, suc, ◌+◌, ◌-◌, ◌*◌, ◌/◌, ◌%◌, ◌^◌, ◌≤◌, ◌<◌, min, max, bit_and, bit_or, bit_xor, ◌≡◌,
  refl, sym, ap, ap₂, subst, ◌∙◌, ◌≢◌, ◌↔◌, ◌⊎◌, inl, inr, Bool, true, false, not, ◌&&◌, ◌||◌,
  Option, none, some, List, [], ◌∷◌, ◌++◌, map, arith, dec_lt, ℕ_discrete, ltb, leb, ◌==◌,
  if◌then◌else◌, lt→ltb, le→ltb, ==_refl, ==_iff, Bool-cases, Option-cases, length, get_or,
  get_elem?, count, count-append, count_single, set, take, drop, replicate, resize, All,
  length-append, length-replicate, length-set, length-take, length-drop, length-resize,
  take-append-drop, get_or-set_self, get_or-set_ne, get_or-replicate, get_or-ge_length,
  get_or-resize, get_or_ext, get_or-append_left, get_or-append_right, length-map, for_below,
  for_below_inv, for_below-add, unrolled, unrolled-for_below, fill_if, length-fill_if,
  get_or-fill_if, rank, passing, length-passing, count-passing, fill, length-fill, get_or-fill,
}

abbrev pub block_size : ℕ
block_size = 65536

-- while (remaining >= 255) { push 255; remaining -= 255; } push remaining
unfoldable pub length_bytes : ℕ → ℕ → List ℕ
length_bytes zero remaining = remaining % 256 ∷ []
length_bytes (suc fuel) remaining =
    let rest = length_bytes fuel (remaining - 255) in
    if ltb remaining 255 then remaining % 256 ∷ [] else 255 ∷ rest

unfoldable pub token_of : ℕ → ℕ
token_of literal_len = if ltb literal_len 15 then literal_len * 16 % 256 else 15 * 16

unfoldable pub extra_bytes : ℕ → List ℕ
extra_bytes literal_len =
    if ltb literal_len 15 then [] else length_bytes literal_len (literal_len - 15)

-- while (offset < src_size): one block of at most block_size literals.
unfoldable pub encode_blocks : ℕ → List ℕ → List ℕ
encode_blocks zero src = []
encode_blocks (suc fuel) src =
    let block = min (length src) block_size in
    let rest = encode_blocks fuel (drop block src) in
    if length src == 0 then [] else token_of block ∷ (extra_bytes block ++ (take block src ++ rest))

-- EncodeLz4Literal: it clears the output, and an empty input leaves it empty.
unfoldable pub encode_lz4_literal : List ℕ → List ℕ
encode_lz4_literal src = if length src == 0 then [] else encode_blocks (length src) src

-- The bytes after a token of 15: they are added up to the first that is not 255.
unfoldable pub read_length : ℕ → List ℕ → ℕ × List ℕ
read_length literal_len [] = (literal_len, [])
read_length literal_len (byte ∷ src) =
    let rest = read_length (literal_len + byte) src in
    if byte == 255 then rest else (literal_len + byte, src)

-- The length of a block, and the bytes behind it.
unfoldable pub read_literal_len : ℕ → List ℕ → ℕ × List ℕ
read_literal_len token src =
    if token / 16 == 15 then read_length (token / 16) src else (token / 16, src)

-- The decoder's loop, with the bytes not yet read, the room left in the output and the bytes
-- written; its result is `dst_offset == dst_size`, or false where a block does not fit.
unfoldable pub decode_blocks : ℕ → List ℕ → ℕ → List ℕ → Bool × List ℕ
decode_blocks zero src room out = (room == 0, out)
decode_blocks (suc fuel) [] room out = (room == 0, out)
decode_blocks (suc fuel) (token ∷ src) room out =
    let head = read_literal_len token src in
    let rest =
      decode_blocks fuel (drop head.0 head.1) (room - head.0) (out ++ take head.0 head.1) in
    if room == 0
    then (true, out)
    else if ltb (length head.1) head.0 || ltb room head.0
    then (false, out)
    else rest

-- DecodeLz4Literal into a buffer of dst_size bytes.
unfoldable pub decode_lz4_literal : List ℕ → ℕ → Bool × List ℕ
decode_lz4_literal src dst_size =
    if dst_size == 0 then (true, []) else decode_blocks (length src) src dst_size []
