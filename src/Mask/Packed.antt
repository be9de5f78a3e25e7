-- ===== src/Mask/Packed.antt =====
-- engine/src/mask.cpp, class PackedMask and PackMask.
use mimic_rag.Mask
use mimic_rag.Mask.{Mask}
use mimic_rag.Prelude.{
  ℕ, zero, suc, ◌+◌, ◌-◌, ◌≡◌, refl, ap, Bool, false, ◌&&◌, List, [], arith, dec_lt, ltb, ◌==◌,
  if◌then◌else◌, length, replicate, length-replicate, for_below,
}
use mimic_rag.Bits.Words.{
  word_count, get_bit, set_bit, Covers, get_bit-set_bit, set_bit_past, get_bit-replicate,
  set_window, get_bit-set_window,
}

pub record PackedMask : Type 0 where
  pub words : List ℕ
  pub bit_count : ℕ

unfoldable pub resize_bits : PackedMask → ℕ → PackedMask
resize_bits m bits = record { words = replicate (word_count bits) 0; bit_count = bits }

unfoldable pub with_bits : ℕ → PackedMask
unfolding resize_bits
with_bits bits = resize_bits (record { words = []; bit_count = 0 }) bits

unfoldable pub size : PackedMask → ℕ
size m = m.bit_count

unfoldable pub get : PackedMask → ℕ → Bool
get m index = get_bit m.words m.bit_count index

unfoldable pub set_value : PackedMask → ℕ → Bool → PackedMask
set_value m index value = record m { words = set_bit m.words m.bit_count index value }

unfoldable pub words_of : PackedMask → List ℕ
words_of m = m.words

unfoldable pub size_words : PackedMask → ℕ
size_words m = length m.words

unfoldable pub pack_mask : Mask → PackedMask
pack_mask mask =
    for_below (Mask.size mask) (λ i packed. set_value packed i (Mask.get mask i))
      (with_bits (Mask.size mask))

-- The loop writes the words as one window.
pack_loop :
    (n : ℕ) (value : ℕ → Bool) (m : PackedMask)
    → for_below n (λ i packed. set_value packed i (value i)) m
      ≡ record m { words = set_window m.bit_count 0 value n m.words }
unfolding set_value set_window
pack_loop zero value m = refl
pack_loop (suc n) value m = rw (pack_loop n value m) (
    ap
      (λ k. record m {
        words =
            set_bit (for_below n (λ i w. set_bit w m.bit_count (0 + i) (value i)) m.words)
              m.bit_count k (value n);
      })
      (let e : n ≡ 0 + n = omega arith in e))

get-packed :
    (n : ℕ) (value : ℕ → Bool) (j : ℕ)
    → (size (for_below n (λ i packed. set_value packed i (value i)) (with_bits n)) ≡ n)
      × (get (for_below n (λ i packed. set_value packed i (value i)) (with_bits n)) j
          ≡ (if ltb j n then value j else false))
unfolding with_bits size get
get-packed n value j =
    rw (pack_loop n value (record { words = replicate (word_count n) 0; bit_count = n })) (
      refl,
      ground (
        arith,
        get_bit-set_window n 0 value n (replicate (word_count n) 0) j
            (omega (arith, length-replicate {A = ℕ} (word_count n) 0)) (omega arith),
        get_bit-replicate (word_count n) n j,
        ap value (let e : j - 0 ≡ j = omega arith in e),
      ),
    )

-- PackMask has the size of the mask that it packs, and answers as it at every index.
pub get-pack_mask :
    (m : Mask) (j : ℕ) → (size (pack_mask m) ≡ Mask.size m) × (get (pack_mask m) j ≡ Mask.get m j)
unfolding pack_mask
get-pack_mask m j =
    let packed = get-packed (Mask.size m) (Mask.get m) j in
    (packed.0, ground (arith, packed.1, Mask.Laws.get_past m j))

-- Set on a packed mask whose words cover its bits: Get then answers the new value at that index
-- when it is in range, and what it answered before at every other index.
pub get-set_value :
    (m : PackedMask) (i j : ℕ) (v : Bool)
    → Covers m.words m.bit_count
    → get (set_value m i v) j ≡ (if ltb i m.bit_count && (i == j) then v else get m j)
unfolding get set_value
get-set_value m i j v c = elim (dec_lt i m.bit_count) [
  | yes p ↦ ground (arith, get_bit-set_bit m.words m.bit_count i j v c p)
  | no p ↦ ground (arith, set_bit_past m.words m.bit_count i v)
]
