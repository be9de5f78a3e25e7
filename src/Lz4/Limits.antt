-- ===== src/Lz4/Limits.antt =====
-- engine/src/compression.cpp: what DecodeLz4Literal does on any bytes.
use mimic_rag.Lz4.{read_length, read_literal_len, decode_blocks, decode_lz4_literal}
use mimic_rag.Prelude.{
  ℕ, zero, suc, ◌+◌, ◌-◌, ◌/◌, ◌≤◌, ◌≡◌, refl, subst, inl, inr, Bool, ◌||◌, List, [], ◌∷◌, ◌++◌,
  arith, ltb, ◌==◌, Bool-cases, length, take, drop, length-append, length-take, length-drop,
}

-- No bytes appear: what is left behind a length is at most what there was.
read_length-rest : (len : ℕ) (src : List ℕ) → length (read_length len src).1 ≤ length src
unfolding read_length
read_length-rest len [] = omega arith
read_length-rest len (b ∷ src) = elim (Bool-cases (b == 255)) [
  | inl e ↦ rw e (omega (arith, read_length-rest (len + b) src))
  | inr e ↦ rw e (omega arith)
]

read_literal_len-rest :
    (token : ℕ) (src : List ℕ) → length (read_literal_len token src).1 ≤ length src
unfolding read_literal_len
read_literal_len-rest token src = elim (Bool-cases (token / 16 == 15)) [
  | inl e ↦ rw e (read_length-rest (token / 16) src)
  | inr e ↦ rw e (omega arith)
]

-- The loop consumes a byte in each round, so any two fuels for the bytes left give one result.
decode_blocks-fuel :
    (f g : ℕ) (src : List ℕ) (room : ℕ) (out : List ℕ)
    → length src ≤ f
    → length src ≤ g
    → decode_blocks f src room out ≡ decode_blocks g src room out
unfolding decode_blocks
decode_blocks-fuel zero zero src room out h h' = refl
decode_blocks-fuel zero (suc g) [] room out h h' = refl
decode_blocks-fuel (suc f) zero [] room out h h' = refl
decode_blocks-fuel (suc f) (suc g) [] room out h h' = refl
decode_blocks-fuel zero (suc g) (t ∷ src) room out h h' = absurd (omega arith)
decode_blocks-fuel (suc f) zero (t ∷ src) room out h h' = absurd (omega arith)
decode_blocks-fuel (suc f) (suc g) (t ∷ src) room out h h' =
    let (len, body) = read_literal_len t src in
    let shorter : length (drop len body) ≤ length src =
      omega (arith, length-drop len body, read_literal_len-rest t src) in
    rw
      (decode_blocks-fuel f g (drop len body) (room - len) (out ++ take len body) (omega arith)
        (omega arith))
      refl

-- What holds of a result: it does not pass the room, and true means that the room is filled.
abbrev pub Within : ℕ → Bool × List ℕ → Type 0
Within dst_size result = (length result.1 ≤ dst_size) × (result.0 ≡ (length result.1 == dst_size))

decode_blocks-Within :
    (fuel : ℕ) (src : List ℕ) (room : ℕ) (out : List ℕ)
    → Within (length out + room) (decode_blocks fuel src room out)
unfolding decode_blocks
decode_blocks-Within zero src room out = (omega arith, ground arith)
decode_blocks-Within (suc fuel) [] room out = (omega arith, ground arith)
decode_blocks-Within (suc fuel) (t ∷ src) room out = elim (Bool-cases (room == 0)) [
  | inl full ↦ rw full (omega arith, ground arith)
  | inr e ↦
      let (len, body) = read_literal_len t src in
      elim (Bool-cases (ltb (length body) len || ltb room len)) [
        | inl stop ↦ rw (e, stop) (omega arith, ground arith)
        | inr go ↦
            let sum : length (out ++ take len body) + (room - len) ≡ length out + room =
              ground (arith, length-append out (take len body), length-take len body) in
            rw (e, go)
              (subst
                (λ n.
                  Within n (decode_blocks fuel (drop len body) (room - len) (out ++ take len body)))
                sum (decode_blocks-Within fuel (drop len body) (room - len) (out ++ take len body)))
      ]
]

-- Whatever the bytes are, DecodeLz4Literal writes at most dst_size bytes, returns true exactly where
-- it filled the buffer, and the model's fuel is enough: more of it changes nothing.
pub decode_lz4_literal-Within :
    (src : List ℕ) (dst_size more : ℕ)
    → Within dst_size (decode_lz4_literal src dst_size)
      × (decode_blocks (length src + more) src dst_size []
          ≡ decode_blocks (length src) src dst_size [])
unfolding decode_lz4_literal
decode_lz4_literal-Within src dst_size more = (
  limits,
  decode_blocks-fuel (length src + more) (length src) src dst_size [] (omega arith) (omega arith),
)
  where
    limits : Within dst_size (decode_lz4_literal src dst_size)
    limits = elim (Bool-cases (dst_size == 0)) [
      | inl e ↦ rw e (omega arith, ground arith)
      | inr e ↦ rw e (
          subst (λ n. Within n (decode_blocks (length src) src dst_size []))
            (let z : 0 + dst_size ≡ dst_size = omega arith in z)
            (decode_blocks-Within (length src) src dst_size []))
    ]
