-- ===== src/Predicate/Range.antt =====
-- A range that the predicate cannot match holds no value that satisfies it.
use mimic_rag.Predicate.{CompareOp, compare_float64, predicate_can_match_range}
use mimic_rag.Float.{Float64}
use mimic_rag.Prelude.{◌≡◌, true, arith}

module _ (f : Float64) where
  open f use {
    Value, feq, flt, fle, fgt, fge, fle_def, fgt_def, fge_def, feq_symm, feq_trans, flt_asymm,
    fle_trans, flt-fle_trans, fle-flt_trans,
  }

  eq_of_le : (a b : Value) → fle a b ≡ true → fle b a ≡ true → feq a b ≡ true
  eq_of_le a b h k = ground (arith, fle_def a b, flt_asymm a b)

  le_of_eq : (a b : Value) → feq a b ≡ true → fle a b ≡ true
  le_of_eq a b h = ground (arith, fle_def a b)

  -- If lo <= v and v <= hi hold as double comparisons and v satisfies the predicate, then
  -- PredicateCanMatchRange answers true for the range from lo to hi, whichever the operator.
  pub predicate_can_match_range_sound :
      (lo hi v : Value) (op : CompareOp) (value : Value)
      → fle lo v ≡ true
      → fle v hi ≡ true
      → compare_float64 f v value op ≡ true
      → predicate_can_match_range f lo hi op value ≡ true
  unfolding compare_float64 predicate_can_match_range
  predicate_can_match_range_sound lo hi v CompareOp.eq value p q h = ground (
    arith,
    fge_def value lo,
    fle_trans lo v value,
    fle_trans value v hi,
    le_of_eq v value,
    le_of_eq value v,
    feq_symm v value,
  )
  predicate_can_match_range_sound lo hi v CompareOp.ne value p q h = ground (
    arith,
    feq_symm lo hi,
    le_of_eq hi lo,
    fle_trans v hi lo,
    eq_of_le v lo,
    feq_symm value lo,
    feq_trans v lo value,
  )
  predicate_can_match_range_sound lo hi v CompareOp.lt value p q h = fle-flt_trans lo v value p h
  predicate_can_match_range_sound lo hi v CompareOp.le value p q h = fle_trans lo v value p h
  predicate_can_match_range_sound lo hi v CompareOp.gt value p q h =
      ground (arith, fgt_def v value, fgt_def hi value, flt-fle_trans value v hi)
  predicate_can_match_range_sound lo hi v CompareOp.ge value p q h =
      ground (arith, fge_def v value, fge_def hi value, fle_trans value v hi)
