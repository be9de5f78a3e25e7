-- ===== src/Column.antt =====
-- engine/include/mimicdb/compression.h: the view of a compressed column, and its validity test.
-- Pointers that may be null are `Option`; a size is the length of its list. The integers of a
-- column are int64_t values as 64-bit patterns, and signed overflow wraps.
pub mod Source
pub mod ForDelta
pub mod Kernel
pub mod DictCodec
pub mod Read
use mimic_rag.Bits.Words.{word_bit}
use mimic_rag.Dictionary.{DictionaryInt32}
use mimic_rag.FieldVector.{FieldType}
use mimic_rag.Prelude.{
  ℕ, zero, suc, ◌+◌, ◌-◌, ◌*◌, ◌/◌, ◌%◌, ◌^◌, ◌≤◌, ◌<◌, min, max, bit_and, bit_or, bit_xor, ◌≡◌,
  refl, sym, ap, ap₂, subst, ◌∙◌, ◌≢◌, ◌↔◌, ◌⊎◌, inl, inr, Bool, true, false, not, ◌&&◌, ◌||◌,
  Option, none, some, List, [], ◌∷◌, ◌++◌, map, arith, dec_lt, ℕ_discrete, ltb, leb, ◌==◌,
  if◌then◌else◌, lt→ltb, le→ltb, ==_refl, ==_iff, Bool-cases, Option-cases, length, get_or,
  get_elem?, count, count-append, count_single, set, take, drop, replicate, resize, All,
  length-append, length-replicate, length-set, length-take, length-drop, length-resize,
  take-append-drop, get_or-set_self, get_or-set_ne, get_or-replicate, get_or-ge_length,
  get_or-resize, get_or_ext, get_or-append_left, get_or-append_right, length-map, for_below,
  for_below_inv, rank, passing, length-passing, count-passing, fill, length-fill, get_or-fill,
}

pub data ColumnCompressionKind : Type 0 where
  no_compression bit_packed dictionary for_delta rle lz4 : ColumnCompressionKind

pub record CompressedColumnView : Type 0 where
  pub kind : ColumnCompressionKind
  pub type : FieldType
  pub bytes : Option (List ℕ)
  pub aux : Option (List ℕ)
  pub dict : Option DictionaryInt32
  pub validity_words : Option (List ℕ)
  pub row_count : ℕ
  pub raw_data_size : ℕ

abbrev pub u64 : ℕ → ℕ
u64 n = n % 2 ^ 64

-- a - b in 64 bits
abbrev pub sub_u64 : ℕ → ℕ → ℕ
sub_u64 a b = (a + 2 ^ 64 - b) % 2 ^ 64

words_valid : List ℕ → ℕ → Bool
words_valid words index =
    if leb (length words) (index / 64)
    then true
    else word_bit (get_or words (index / 64) 0) (index % 64)

-- IsValid: rows with no word are valid.
unfoldable pub is_valid : Option (List ℕ) → ℕ → Bool
unfolding words_valid
is_valid none index = true
is_valid (some words) index = if length words == 0 then true else words_valid words index
