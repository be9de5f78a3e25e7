-- ===== src/Bitmap.antt =====
-- engine/src/bitmap.cpp, engine/include/mimicdb/bitmap.h: the validity bitmap of a column.
pub mod Laws
use mimic_rag.Prelude.{
  ℕ, zero, suc, ◌+◌, ◌-◌, ◌*◌, ◌/◌, ◌%◌, ◌^◌, ◌≤◌, ◌<◌, min, max, bit_and, bit_or, bit_xor, ◌≡◌,
  refl, sym, ap, ap₂, subst, ◌∙◌, ◌≢◌, ◌↔◌, ◌⊎◌, inl, inr, Bool, true, false, not, ◌&&◌, ◌||◌,
  Option, none, some, List, [], ◌∷◌, ◌++◌, map, arith, dec_lt, ℕ_discrete, ltb, leb, ◌==◌,
  if◌then◌else◌, lt→ltb, le→ltb, ==_refl, ==_iff, Bool-cases, Option-cases, length, get_or, set,
  take, drop, replicate, resize, All, length-append, length-replicate, length-set, length-take,
  length-drop, length-resize, take-append-drop, get_or-set_self, get_or-set_ne, get_or-replicate,
  get_or-ge_length, get_or-resize, get_or_ext, get_or-append_left, get_or-append_right, length-map,
  for_below, for_below_inv, fill, length-fill, get_or-fill,
}
use mimic_rag.Bits.Words.{
  word_bits, word_count, word_bit, put_bit, raw_bit, get_bit, set_bit, Covers, word_in_range,
  length-set_bit, raw_bit-set_bit, get_bit-set_bit, set_bit_past, get_bit_past, get_bit-raw_bit,
  raw_bit-replicate, get_bit-replicate, set_window, length-set_window, raw_bit-set_window,
  get_bit-set_window,
}

pub record Bitmap : Type 0 where
  pub words : List ℕ
  pub bit_count : ℕ

abbrev pub empty : Bitmap
empty = record { words = []; bit_count = 0 }

-- (bits + kWordBits - 1) / kWordBits, in a size_t
abbrev pub words_for : ℕ → ℕ
words_for bits = (bits + word_bits - 1) % 2 ^ 64 / word_bits

-- Resize keeps the words that stay, and adds words of zeros.
unfoldable pub resize_bits : Bitmap → ℕ → Bitmap
resize_bits b bits = record { words = resize (words_for bits) 0 b.words; bit_count = bits }

unfoldable pub with_bits : ℕ → Bitmap
unfolding resize_bits
with_bits bits = resize_bits empty bits

unfoldable pub get : Bitmap → ℕ → Bool
get b index = get_bit b.words b.bit_count index

unfoldable pub set_value : Bitmap → ℕ → Bool → Bitmap
set_value b index value = record b { words = set_bit b.words b.bit_count index value }

unfoldable pub size : Bitmap → ℕ
size b = b.bit_count

unfoldable pub words_of : Bitmap → List ℕ
words_of b = b.words

unfoldable pub size_words : Bitmap → ℕ
size_words b = length b.words

-- LoadWords takes the words and the count as they are given.
unfoldable pub load_words : List ℕ → ℕ → Bitmap
load_words words bits = record { words = words; bit_count = bits }

-- Both appends run Resize and then one Set for each new bit; the sums are of type size_t.
append_loop : Bitmap → (ℕ → Bool) → ℕ → Bitmap
unfolding resize_bits
append_loop b value count =
    let grown = resize_bits b ((b.bit_count + count) % 2 ^ 64) in
    record grown {
      words =
          for_below count (λ i w. set_bit w grown.bit_count ((b.bit_count + i) % 2 ^ 64) (value i))
            grown.words;
    }

unfoldable pub append_all_true : Bitmap → ℕ → Bitmap
unfolding append_loop
append_all_true b count = append_loop b (λ i. true) count

-- `validity` is read as far as `count`.
unfoldable pub append_bits : Bitmap → List ℕ → ℕ → Bitmap
unfolding append_loop
append_bits b validity count = append_loop b (λ i. not (get_or validity i 0 == 0)) count
