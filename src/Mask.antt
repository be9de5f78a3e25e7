-- ===== src/Mask.antt =====
-- engine/src/mask.cpp, engine/include/mimicdb/mask.h, class Mask: the selection vector of a scan.
-- `PackedMask` is in Mask/Packed and the functions that build masks are in Mask/Build.
pub mod Laws
pub mod Logic
pub mod Packed
pub mod Build
use mimic_rag.Prelude.{
  for_below, ℕ, zero, suc, ◌+◌, ◌-◌, ◌*◌, ◌/◌, ◌%◌, ◌^◌, ◌≤◌, ◌<◌, min, max, bit_and, bit_or,
  bit_xor, ◌≡◌, refl, sym, ap, ap₂, subst, ◌∙◌, ◌≢◌, ◌↔◌, ◌⊎◌, inl, inr, Bool, true, false, not,
  ◌&&◌, ◌||◌, Option, none, some, List, [], ◌∷◌, ◌++◌, map, arith, dec_lt, ℕ_discrete, ltb, leb,
  ◌==◌, if◌then◌else◌, lt→ltb, le→ltb, ==_refl, ==_iff, Bool-cases, Option-cases, length, get_or,
  set, take, drop, replicate, resize, All, length-append, length-replicate, length-set, length-take,
  length-drop, length-resize, take-append-drop, get_or-set_self, get_or-set_ne, get_or-replicate,
  get_or-ge_length, get_or-resize, get_or_ext, get_or-append_left, get_or-append_right, length-map,
  for_below, for_below_inv, fill, length-fill, get_or-fill,
}
use mimic_rag.Bits.Words.{
  word_bits, word_count, word_bit, put_bit, raw_bit, get_bit, set_bit, Covers, word_in_range,
  length-set_bit, raw_bit-set_bit, get_bit-set_bit, set_bit_past, get_bit_past, get_bit-raw_bit,
  raw_bit-replicate, get_bit-replicate, set_window, length-set_window, raw_bit-set_window,
  get_bit-set_window,
}

pub record Mask : Type 0 where
  pub words : List ℕ
  pub bit_count : ℕ

-- Resize assigns zeros to every word.
unfoldable pub resize_bits : Mask → ℕ → Mask
resize_bits m bits = record { words = replicate (word_count bits) 0; bit_count = bits }

abbrev pub empty : Mask
empty = record { words = []; bit_count = 0 }

unfoldable pub with_bits : ℕ → Mask
unfolding resize_bits
with_bits bits = resize_bits empty bits

unfoldable pub size : Mask → ℕ
size m = m.bit_count

unfoldable pub get : Mask → ℕ → Bool
get m index = get_bit m.words m.bit_count index

unfoldable pub set_value : Mask → ℕ → Bool → Mask
set_value m index value = record m { words = set_bit m.words m.bit_count index value }

-- for (i = 0; i < n; ++i) mask.Set(i, value(i)), as every function that builds a mask runs it
unfoldable pub set_each : ℕ → (ℕ → Bool) → Mask → Mask
set_each n value = for_below n (λ i m. set_value m i (value i))

-- `i < words.size() ? words[i] : 0`, the read of And and Or
abbrev pub word_at : Mask → ℕ → ℕ
word_at m i = get_or m.words i 0

unfoldable pub mask_and : Mask → Mask → Mask
unfolding with_bits
mask_and left right =
    let bits = if ltb left.bit_count right.bit_count then left.bit_count else right.bit_count in
    let result = with_bits bits in
    record result {
      words =
          fill (length result.words) (λ i. bit_and (word_at left i) (word_at right i)) result.words;
    }

unfoldable pub mask_or : Mask → Mask → Mask
unfolding with_bits
mask_or left right =
    let bits = if ltb right.bit_count left.bit_count then left.bit_count else right.bit_count in
    let result = with_bits bits in
    record result {
      words =
          fill (length result.words) (λ i. bit_or (word_at left i) (word_at right i)) result.words;
    }
