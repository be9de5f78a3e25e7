-- ===== src/Lz4/RoundTrip.antt =====
-- engine/src/compression.cpp: DecodeLz4Literal reads back what EncodeLz4Literal wrote.
use mimic_rag.Lz4.{
  block_size, length_bytes, token_of, extra_bytes, encode_blocks, encode_lz4_literal, read_length,
  read_literal_len, decode_blocks, decode_lz4_literal,
}
use mimic_rag.Prelude.{
  ℕ, zero, suc, ◌+◌, ◌-◌, ◌*◌, ◌/◌, ◌%◌, ◌≤◌, ◌<◌, min, ◌≡◌, refl, sym, ap, ◌∙◌, inl, inr, true,
  false, List, [], ◌∷◌, ◌++◌, arith, ltb, ◌==◌, Bool-cases, length, take, drop, length-append,
  length-take, length-drop, take-append-drop, append-nil, drop-append, take-append, append_assoc,
}

read_length-length_bytes :
    (fuel len remaining : ℕ) (src : List ℕ)
    → remaining ≤ fuel
    → read_length len (length_bytes fuel remaining ++ src) ≡ (len + remaining, src)
unfolding read_length length_bytes
read_length-length_bytes zero len remaining src h =
    let none_left : remaining ≡ 0 = omega arith in rw none_left refl
read_length-length_bytes (suc fuel) len remaining src h = elim (Bool-cases (ltb remaining 255)) [
  | inl e ↦
      let same : remaining % 256 ≡ remaining = ground arith in
      let last : (remaining == 255) ≡ false = ground arith in rw (e, same, last) refl
  | inr e ↦
      let sum : len + 255 + (remaining - 255) ≡ len + remaining = ground arith in
      rw (e, read_length-length_bytes fuel (len + 255) (remaining - 255) src (ground arith), sum)
        refl
]

read_literal_len-encoded :
    (n : ℕ) (src : List ℕ) → read_literal_len (token_of n) (extra_bytes n ++ src) ≡ (n, src)
unfolding read_literal_len token_of extra_bytes
read_literal_len-encoded n src = elim (Bool-cases (ltb n 15)) [
  | inl e ↦
      let token : n * 16 % 256 / 16 ≡ n = ground arith in
      let short : (n == 15) ≡ false = ground arith in rw (e, token, short) refl
  | inr e ↦
      let sum : 15 + (n - 15) ≡ n = ground arith in
      rw e (read_length-length_bytes n 15 (n - 15) src (omega arith) ∙ ap (λ k. (k, src)) sum)
]

-- One round of the decoder on a block that fits.
decode_blocks-step :
    (fuel token : ℕ) (src : List ℕ) (room : ℕ) (out : List ℕ) (len : ℕ) (body : List ℕ)
    → read_literal_len token src ≡ (len, body)
    → 0 < room
    → len ≤ length body
    → len ≤ room
    → decode_blocks (suc fuel) (token ∷ src) room out
      ≡ decode_blocks fuel (drop len body) (room - len) (out ++ take len body)
unfolding decode_blocks
decode_blocks-step fuel token src room out len body e pos within fits =
    let some_room : (room == 0) ≡ false = ground arith in
    let inside : ltb (length body) len ≡ false = ground arith in
    let enough : ltb room len ≡ false = ground arith in rw (e, some_room, inside, enough) refl

decode_blocks-nil : (fuel : ℕ) (out : List ℕ) → decode_blocks fuel [] 0 out ≡ (true, out ++ [])
unfolding decode_blocks
decode_blocks-nil zero out = ap (λ l. (true, l)) (sym (append-nil out))
decode_blocks-nil (suc fuel) out = ap (λ l. (true, l)) (sym (append-nil out))

encode_blocks-cons :
    (k x : ℕ) (xs : List ℕ)
    → let n = min (length (x ∷ xs)) block_size in
      encode_blocks (suc k) (x ∷ xs)
      ≡ token_of n ∷ (extra_bytes n ++ (take n (x ∷ xs) ++ encode_blocks k (drop n (x ∷ xs))))
unfolding encode_blocks
encode_blocks-cons k x xs = let long : (suc (length xs) == 0) ≡ false = ground arith in rw long refl

decode_blocks-encode_blocks :
    (k fuel : ℕ) (xs out : List ℕ)
    → length xs ≤ k
    → length (encode_blocks k xs) ≤ fuel
    → decode_blocks fuel (encode_blocks k xs) (length xs) out ≡ (true, out ++ xs)
unfolding encode_blocks
decode_blocks-encode_blocks zero fuel [] out h enough = decode_blocks-nil fuel out
decode_blocks-encode_blocks zero fuel (x ∷ xs) out h enough = absurd (omega arith)
decode_blocks-encode_blocks (suc k) fuel [] out h enough = decode_blocks-nil fuel out
decode_blocks-encode_blocks (suc k) zero (x ∷ xs) out h enough =
    absurd (omega (arith, ap length (encode_blocks-cons k x xs)))
decode_blocks-encode_blocks (suc k) (suc fuel) (x ∷ xs) out h enough =
    let src : List ℕ = x ∷ xs in
    let n : ℕ = min (length src) block_size in
    let block : List ℕ = take n src in
    let rest : List ℕ = encode_blocks k (drop n src) in
    let len : length block ≡ n = omega (arith, length-take n src) in
    let left : length (drop n src) ≡ length src - n = length-drop n src in
    let body : length (block ++ rest) ≡ length block + length rest = length-append block rest in
    let all : length (extra_bytes n ++ (block ++ rest))
        ≡ length (extra_bytes n) + length (block ++ rest) =
      length-append (extra_bytes n) (block ++ rest) in
    let size : length (encode_blocks (suc k) src)
        ≡ suc (length (extra_bytes n ++ (block ++ rest))) =
      ap length (encode_blocks-cons k x xs) in
    let before : length (extra_bytes n ++ (block ++ rest)) ≤ fuel = omega arith in
    let skipped : drop n (block ++ rest) ≡ rest =
      ap (λ m. drop m (block ++ rest)) (sym len) ∙ drop-append block rest in
    let copied : take n (block ++ rest) ≡ block =
      ap (λ m. take m (block ++ rest)) (sym len) ∙ take-append block rest in
    ap (λ l. decode_blocks (suc fuel) l (length src) out) (encode_blocks-cons k x xs)
    ∙ decode_blocks-step fuel (token_of n) (extra_bytes n ++ (block ++ rest)) (length src) out n
        (block ++ rest) (read_literal_len-encoded n (block ++ rest)) (omega arith) (omega arith)
        (omega arith)
    ∙ ap (λ l. decode_blocks fuel (drop n (block ++ rest)) (length src - n) (out ++ l)) copied
    ∙ ap (λ l. decode_blocks fuel l (length src - n) (out ++ block)) skipped
    ∙ ap (λ r. decode_blocks fuel rest r (out ++ block)) (sym left)
    ∙ decode_blocks-encode_blocks k fuel (drop n src) (out ++ block) (omega arith) (omega arith)
    ∙ ap (λ l. (true, l))
        (append_assoc out block (drop n src) ∙ ap (λ l. out ++ l) (take-append-drop n src))

-- Round trip: of any bytes that EncodeLz4Literal encoded, DecodeLz4Literal into a buffer of their
-- number returns true and gives the bytes back, for every number of blocks.
pub decode-encode_lz4_literal :
    (xs : List ℕ) → decode_lz4_literal (encode_lz4_literal xs) (length xs) ≡ (true, xs)
unfolding decode_lz4_literal encode_lz4_literal
decode-encode_lz4_literal [] = refl
decode-encode_lz4_literal (x ∷ xs) =
    let long : (suc (length xs) == 0) ≡ false = ground arith in
    let coded : List ℕ = encode_blocks (length (x ∷ xs)) (x ∷ xs) in
    rw long (
      decode_blocks-encode_blocks (length (x ∷ xs)) (length coded) (x ∷ xs) [] (omega arith)
        (omega arith))
