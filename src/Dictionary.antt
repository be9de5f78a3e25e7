-- ===== src/Dictionary.antt =====
-- engine/src/dictionary.cpp, engine/include/mimicdb/dictionary.h: the dictionary of an int32 column.
-- The hash map from values to ids is an association list in order of insertion, since the program
-- only looks keys up; int32_t and uint32_t are 32-bit patterns.
pub mod Laws
use mimic_rag.Prelude.{
  ℕ, zero, suc, ◌+◌, ◌-◌, ◌*◌, ◌/◌, ◌%◌, ◌^◌, ◌≤◌, ◌<◌, min, max, bit_and, bit_or, bit_xor, ◌≡◌,
  refl, sym, ap, ap₂, subst, ◌∙◌, ◌≢◌, ◌↔◌, ◌⊎◌, inl, inr, Bool, true, false, not, ◌&&◌, ◌||◌,
  Option, none, some, List, [], ◌∷◌, ◌++◌, map, arith, dec_lt, ℕ_discrete, ltb, leb, ◌==◌,
  if◌then◌else◌, lt→ltb, le→ltb, ==_refl, ==_iff, Bool-cases, Option-cases, length, get_or,
  get_elem?, count, count-append, count_single, set, take, drop, replicate, resize, All,
  length-append, length-replicate, length-set, length-take, length-drop, length-resize,
  take-append-drop, get_or-set_self, get_or-set_ne, get_or-replicate, get_or-ge_length,
  get_or-resize, get_or_ext, get_or-append_left, get_or-append_right, length-map, for_below,
  for_below_inv, rank, passing, length-passing, count-passing, fill, length-fill, get_or-fill,
}

pub record DictionaryInt32 : Type 0 where
  pub index : List (ℕ × ℕ)
  pub values : List ℕ

abbrev pub empty : DictionaryInt32
empty = record { index = []; values = [] }

-- index_.find(value)
pub find : ℕ → List (ℕ × ℕ) → Option ℕ
find value [] = none
find value ((key, id) ∷ rest) = if key == value then some id else find value rest

abbrev pub u32 : ℕ → ℕ
u32 n = n % 2 ^ 32

-- Add of a value with the id that `find` gave for it.
insert_if_new : DictionaryInt32 → ℕ → Option ℕ → DictionaryInt32 × ℕ
insert_if_new d value (some id) = (d, id)
insert_if_new d value none =
    let id = u32 (length d.values) in
    (record { index = (value, id) ∷ d.index; values = d.values ++ value ∷ [] }, id)

unfoldable pub add : DictionaryInt32 → ℕ → DictionaryInt32 × ℕ
unfolding find insert_if_new
add d value = insert_if_new d value (find value d.index)

-- values_[id]; past the end the read is undefined in C++, here 0
unfoldable pub value_of : DictionaryInt32 → ℕ → ℕ
value_of d id = get_or d.values id 0

unfoldable pub size : DictionaryInt32 → ℕ
size d = u32 (length d.values)

-- What FindId answers, and what it leaves behind `out_id`.
found_or : ℕ → Option ℕ → Bool × Option ℕ
found_or out none = (false, some out)
found_or out (some id) = (true, some id)

-- `out_id` is a pointer that may be null; the answer is the bool and what is written through it.
unfoldable pub find_id : DictionaryInt32 → ℕ → Option ℕ → Bool × Option ℕ
unfolding find found_or
find_id d value none = (false, none)
find_id d value (some out) = found_or out (find value d.index)
