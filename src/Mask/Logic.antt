-- ===== src/Mask/Logic.antt =====
-- Mask::And and Mask::Or, bit by bit.
use mimic_rag.Mask.{Mask, size, get, word_at, mask_and, mask_or}
use mimic_rag.Mask.Laws.{IsValid}
use mimic_rag.Bits.Digit.{digit-le_one, digit-bit_or, digit-bit_and}
use mimic_rag.Bits.Words.{word_bit-digit, word_bit-zero}
use mimic_rag.Prelude.{
  ℕ, ◌/◌, ◌%◌, ◌<◌, min, max, bit_and, bit_or, ◌≡◌, false, ◌&&◌, ◌||◌, arith, dec_lt, ltb,
  if◌then◌else◌, length, get_or, replicate, length-replicate, get_or-replicate, fill, get_or-fill,
}
use mimic_rag.Bits.Words.{word_count, word_bit, raw_bit, get_bit}

word_bit-bit_and : (a b j : ℕ) → word_bit (bit_and a b) j ≡ (word_bit a j && word_bit b j)
word_bit-bit_and a b j = ground (
  arith,
  word_bit-digit (bit_and a b) j,
  word_bit-digit a j,
  word_bit-digit b j,
  digit-bit_and j a b,
  digit-le_one j a,
  digit-le_one j b,
)

word_bit-bit_or : (a b j : ℕ) → word_bit (bit_or a b) j ≡ (word_bit a j || word_bit b j)
word_bit-bit_or a b j = ground (
  arith,
  word_bit-digit (bit_or a b) j,
  word_bit-digit a j,
  word_bit-digit b j,
  digit-bit_or j a b,
  digit-le_one j a,
  digit-le_one j b,
)

-- The word that the loop of And or Or leaves at k.
combined_word :
    (n : ℕ) (f : ℕ → ℕ) (k : ℕ)
    → get_or (fill (length (replicate {A = ℕ} n 0)) f (replicate n 0)) k 0
      ≡ (if ltb k n then f k else 0)
combined_word n f k = ground (
  arith,
  length-replicate {A = ℕ} n 0,
  get_or-replicate {A = ℕ} n k 0,
  get_or-fill (length (replicate {A = ℕ} n 0)) f (replicate n 0) k 0,
)

raw_bit-and :
    (l r : Mask) (n j : ℕ)
    → j / 64 < n
    → raw_bit
        (fill
          (length (replicate {A = ℕ} n 0))
          (λ i. bit_and (word_at l i) (word_at r i))
          (replicate n 0))
        j
      ≡ (raw_bit l.words j && raw_bit r.words j)
unfolding raw_bit
raw_bit-and l r n j h = ground (
  arith,
  combined_word n (λ i. bit_and (word_at l i) (word_at r i)) (j / 64),
  word_bit-bit_and (word_at l (j / 64)) (word_at r (j / 64)) (j % 64),
)

raw_bit-or :
    (l r : Mask) (n j : ℕ)
    → raw_bit
        (fill
          (length (replicate {A = ℕ} n 0))
          (λ i. bit_or (word_at l i) (word_at r i))
          (replicate n 0))
        j
      ≡ (if ltb (j / 64) n then raw_bit l.words j || raw_bit r.words j else false)
unfolding raw_bit
raw_bit-or l r n j = ground (
  arith,
  combined_word n (λ i. bit_or (word_at l i) (word_at r i)) (j / 64),
  word_bit-bit_or (word_at l (j / 64)) (word_at r (j / 64)) (j % 64),
  word_bit-zero (j % 64),
)

-- And(l, r) has the smaller of the two sizes, and answers at every index whether both answer true,
-- for any two masks, valid or not.
pub get-mask_and :
    (l r : Mask) (j : ℕ)
    → (size (mask_and l r) ≡ min (size l) (size r)) × (get (mask_and l r) j ≡ (get l j && get r j))
unfolding size mask_and get get_bit
get-mask_and l r j = elim (dec_lt l.bit_count r.bit_count) [
  | yes h ↦ (ground arith, ground (arith, raw_bit-and l r (word_count l.bit_count) j))
  | no h ↦ (ground arith, ground (arith, raw_bit-and l r (word_count r.bit_count) j))
]

-- Or(l, r) of valid masks has the larger of the two sizes, and answers at every index whether one
-- of them answers true; an index past the smaller mask is answered by the larger one alone.
pub get-mask_or :
    (l r : Mask) (j : ℕ)
    → IsValid l
    → IsValid r
    → (size (mask_or l r) ≡ max (size l) (size r)) × (get (mask_or l r) j ≡ (get l j || get r j))
unfolding size mask_or get get_bit
get-mask_or l r j v w = elim (dec_lt r.bit_count l.bit_count) [
  | yes h ↦ (
    ground arith,
    ground (arith, raw_bit-or l r (word_count l.bit_count) j, v.clean j, w.clean j),
  )
  | no h ↦ (
    ground arith,
    ground (arith, raw_bit-or l r (word_count r.bit_count) j, v.clean j, w.clean j),
  )
]
