-- ===== src/Predicate.antt =====
-- engine/src/predicate.cpp, engine/include/mimicdb/predicate.h: comparisons of one value with a
-- constant, with branches and without, and the test of a range against a predicate.
pub mod Agree
pub mod Range
use mimic_rag.Prelude.{
  ℕ, zero, suc, ◌+◌, ◌-◌, ◌*◌, ◌/◌, ◌%◌, ◌^◌, ◌≤◌, ◌<◌, min, max, bit_and, bit_or, bit_xor, ◌≡◌,
  refl, sym, ap, ap₂, subst, ◌∙◌, ◌≢◌, ◌↔◌, ◌⊎◌, inl, inr, Bool, true, false, not, ◌&&◌, ◌||◌,
  Option, none, some, List, [], ◌∷◌, ◌++◌, map, arith, dec_lt, ℕ_discrete, ltb, leb, ◌==◌,
  if◌then◌else◌, lt→ltb, le→ltb, ==_refl, ==_iff, Bool-cases, Option-cases, length, get_or, set,
  take, drop, replicate, resize, All, length-append, length-replicate, length-set, length-take,
  length-drop, length-resize, take-append-drop, get_or-set_self, get_or-set_ne, get_or-replicate,
  get_or-ge_length, get_or-resize, get_or_ext, get_or-append_left, get_or-append_right, length-map,
  for_below, for_below_inv, fill, length-fill, get_or-fill,
}
use mimic_rag.Float.{Float64}

pub data CompareOp : Type 0 where
  eq ne lt le gt ge : CompareOp

abbrev pub to_byte : Bool → ℕ
to_byte true = 1
to_byte false = 0

-- An int64_t is its two's complement pattern, below 2 ^ 64; adding 2 ^ 63 turns the signed order
-- into the order of numbers.
abbrev pub biased : ℕ → ℕ
biased w = (w + 2 ^ 63) % 2 ^ 64

abbrev pub lt_int64 : ℕ → ℕ → Bool
lt_int64 a b = ltb (biased a) (biased b)

abbrev pub le_int64 : ℕ → ℕ → Bool
le_int64 a b = leb (biased a) (biased b)

unfoldable pub compare_int64 : ℕ → ℕ → CompareOp → Bool
compare_int64 left right CompareOp.eq = left == right
compare_int64 left right CompareOp.ne = not (left == right)
compare_int64 left right CompareOp.lt = lt_int64 left right
compare_int64 left right CompareOp.le = le_int64 left right
compare_int64 left right CompareOp.gt = lt_int64 right left
compare_int64 left right CompareOp.ge = le_int64 right left

-- static_cast<uint8_t>(op == want)
abbrev pub is_op : CompareOp → CompareOp → ℕ
is_op CompareOp.eq CompareOp.eq = 1
is_op CompareOp.ne CompareOp.ne = 1
is_op CompareOp.lt CompareOp.lt = 1
is_op CompareOp.le CompareOp.le = 1
is_op CompareOp.gt CompareOp.gt = 1
is_op CompareOp.ge CompareOp.ge = 1
is_op _ _ = 0

-- The body that both branchless comparisons share, from their three tests.
pub select_op : ℕ → ℕ → ℕ → CompareOp → ℕ
select_op is_eq is_lt is_gt op =
    let is_le = bit_or is_eq is_lt in
    let is_ge = bit_or is_eq is_gt in
    let is_ne = bit_xor is_eq 1 in
    bit_or
      (bit_or
        (bit_or
          (bit_or
            (bit_or (bit_and is_eq (is_op op CompareOp.eq)) (bit_and is_ne (is_op op CompareOp.ne)))
            (bit_and is_lt (is_op op CompareOp.lt)))
          (bit_and is_le (is_op op CompareOp.le)))
        (bit_and is_gt (is_op op CompareOp.gt)))
      (bit_and is_ge (is_op op CompareOp.ge))

unfoldable pub compare_int64_branchless : ℕ → ℕ → CompareOp → ℕ
unfolding select_op
compare_int64_branchless left right op =
    select_op (to_byte (left == right)) (to_byte (lt_int64 left right))
      (to_byte (lt_int64 right left)) op

module _ (f : Float64) where
  open f use {Value, feq, flt, fle, fgt, fge}

  unfoldable pub compare_float64 : Value → Value → CompareOp → Bool
  compare_float64 left right CompareOp.eq = feq left right
  compare_float64 left right CompareOp.ne = not (feq left right)
  compare_float64 left right CompareOp.lt = flt left right
  compare_float64 left right CompareOp.le = fle left right
  compare_float64 left right CompareOp.gt = fgt left right
  compare_float64 left right CompareOp.ge = fge left right

  unfoldable pub compare_float64_branchless : Value → Value → CompareOp → ℕ
  unfolding select_op
  compare_float64_branchless left right op =
      select_op (to_byte (feq left right)) (to_byte (flt left right)) (to_byte (fgt left right)) op

  unfoldable pub predicate_can_match_range : Value → Value → CompareOp → Value → Bool
  predicate_can_match_range lo hi CompareOp.eq value = fge value lo && fle value hi
  predicate_can_match_range lo hi CompareOp.ne value = not (feq lo hi) || not (feq value lo)
  predicate_can_match_range lo hi CompareOp.lt value = flt lo value
  predicate_can_match_range lo hi CompareOp.le value = fle lo value
  predicate_can_match_range lo hi CompareOp.gt value = fgt hi value
  predicate_can_match_range lo hi CompareOp.ge value = fge hi value
