-- ===== src/Bytes.antt =====
-- Little-endian integers in byte arrays: what memcpy and reinterpret_cast do with uint32_t and
-- int64_t on the machines that the program is built for. A read past the end, undefined in C++,
-- finds zeros here.
use native.Mathlib.Nat.{pow-suc}
use mimic_rag.Prelude.{
  ℕ, zero, suc, ◌+◌, ◌*◌, ◌/◌, ◌%◌, ◌^◌, ◌<◌, ◌≡◌, refl, ap, ◌∙◌, List, [], ◌∷◌, ◌++◌, arith,
  length, get_or, All, length-append,
}

unfoldable pub le_bytes : ℕ → ℕ → List ℕ
le_bytes zero v = []
le_bytes (suc w) v = v % 256 ∷ le_bytes w (v / 256)

unfoldable pub read_le : ℕ → List ℕ → ℕ → ℕ
read_le zero bytes offset = 0
read_le (suc w) bytes offset = get_or bytes offset 0 + 256 * read_le w bytes (offset + 1)

-- The bytes of an array of w-byte integers.
unfoldable pub array_bytes : ℕ → List ℕ → List ℕ
array_bytes w [] = []
array_bytes w (v ∷ vs) = le_bytes w v ++ array_bytes w vs

pub length-le_bytes : (w v : ℕ) → length (le_bytes w v) ≡ w
unfolding le_bytes
length-le_bytes zero v = refl
length-le_bytes (suc w) v = ap suc (length-le_bytes w (v / 256))

pub length-array_bytes : (w : ℕ) (vs : List ℕ) → length (array_bytes w vs) ≡ length vs * w
unfolding array_bytes
length-array_bytes w [] = omega arith
length-array_bytes w (v ∷ vs) = grind (
  arith,
  length-append (le_bytes w v) (array_bytes w vs),
  length-le_bytes w v,
  length-array_bytes w vs,
)

read_le-cons :
    (w b : ℕ) (bytes : List ℕ) (offset : ℕ)
    → read_le w (b ∷ bytes) (suc offset) ≡ read_le w bytes offset
unfolding read_le
read_le-cons zero b bytes offset = refl
read_le-cons (suc w) b bytes offset =
    ap (λ t. get_or bytes offset 0 + 256 * t)
      (ap (read_le w (b ∷ bytes)) (let e : suc offset + 1 ≡ suc (offset + 1) = omega arith in e)
        ∙ read_le-cons w b bytes (offset + 1))

pub read_le-append_right :
    (w : ℕ) (xs ys : List ℕ) (offset : ℕ)
    → read_le w (xs ++ ys) (length xs + offset) ≡ read_le w ys offset
read_le-append_right w [] ys offset = ap (read_le w ys) (omega arith)
read_le-append_right w (x ∷ xs) ys offset =
    ap (read_le w (x ∷ xs ++ ys))
      (let e : suc (length xs) + offset ≡ suc (length xs + offset) = omega arith in e)
    ∙ read_le-cons w x (xs ++ ys) (length xs + offset)
    ∙ read_le-append_right w xs ys offset

-- Reading back what was written gives the value modulo 256 ^ w.
pub read_le-le_bytes :
    (w v : ℕ) (rest : List ℕ) → v < 256 ^ w → read_le w (le_bytes w v ++ rest) 0 ≡ v
unfolding read_le le_bytes
read_le-le_bytes zero v rest h = omega arith
read_le-le_bytes (suc w) v rest h = omega (
  arith,
  pow-suc 256 w,
  ap (λ t. 256 * t)
      (ap (read_le w (v % 256 ∷ le_bytes w (v / 256) ++ rest))
          (let e : 0 + 1 ≡ 1 = omega arith in e)
        ∙ read_le-cons w (v % 256) (le_bytes w (v / 256) ++ rest) 0
        ∙ read_le-le_bytes w (v / 256) rest (omega (arith, pow-suc 256 w))),
)

-- Element i of an array that was stored as bytes.
pub read_le-array_bytes :
    (w : ℕ) (vs : List ℕ) (i : ℕ)
    → i < length vs
    → All (λ v. v < 256 ^ w) vs
    → read_le w (array_bytes w vs) (i * w) ≡ get_or vs i 0
unfolding array_bytes
read_le-array_bytes w [] i h all = absurd (omega arith)
read_le-array_bytes w (v ∷ vs) zero h all =
    ap (read_le w (le_bytes w v ++ array_bytes w vs)) (let e : 0 * w ≡ 0 = omega arith in e)
    ∙ read_le-le_bytes w v (array_bytes w vs) all.0
read_le-array_bytes w (v ∷ vs) (suc i) h all =
    ap (read_le w (le_bytes w v ++ array_bytes w vs))
      (let e : suc i * w ≡ length (le_bytes w v) + i * w = grind (arith, length-le_bytes w v) in e)
    ∙ read_le-append_right w (le_bytes w v) (array_bytes w vs) (i * w)
    ∙ read_le-array_bytes w vs i (omega arith) all.1
