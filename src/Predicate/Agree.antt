-- ===== src/Predicate/Agree.antt =====
-- The branchless comparisons compute the branching ones.
use mimic_rag.Predicate.{
  CompareOp, to_byte, compare_int64, select_op, compare_int64_branchless, compare_float64,
  compare_float64_branchless, lt_int64,
}
use mimic_rag.Float.{Float64}
use mimic_rag.Prelude.{ℕ, ◌^◌, ◌<◌, ◌≡◌, refl, sym, ap, ◌∙◌, Bool, not, ◌||◌, arith, ◌==◌}

-- What `select_op` picks, from tests of which `le` and `ge` are the disjunctions.
pub compare_by : Bool → Bool → Bool → CompareOp → Bool
compare_by e l g CompareOp.eq = e
compare_by e l g CompareOp.ne = not e
compare_by e l g CompareOp.lt = l
compare_by e l g CompareOp.le = e || l
compare_by e l g CompareOp.gt = g
compare_by e l g CompareOp.ge = e || g

pub select_op-compare_by :
    (e l g : Bool) (op : CompareOp)
    → select_op (to_byte e) (to_byte l) (to_byte g) op ≡ to_byte (compare_by e l g op)
unfolding select_op compare_by
select_op-compare_by e l g CompareOp.eq = ground arith
select_op-compare_by e l g _ = ground arith

abbrev pub IsInt64 : ℕ → Type 0
IsInt64 w = w < 2 ^ 64

compare_int64_by :
    (a b : ℕ) (op : CompareOp)
    → IsInt64 a
    → IsInt64 b
    → compare_int64 a b op ≡ compare_by (a == b) (lt_int64 a b) (lt_int64 b a) op
unfolding compare_int64 compare_by
compare_int64_by a b CompareOp.eq p q = refl
compare_int64_by a b CompareOp.ne p q = refl
compare_int64_by a b CompareOp.lt p q = refl
compare_int64_by a b CompareOp.le p q = ground arith
compare_int64_by a b CompareOp.gt p q = refl
compare_int64_by a b CompareOp.ge p q = ground arith

-- On 64-bit patterns, for each of the six operators, CompareInt64Branchless returns 1 where
-- CompareInt64 returns true and 0 where it returns false.
pub compare_int64_branchless-compare_int64 :
    (a b : ℕ) (op : CompareOp)
    → IsInt64 a
    → IsInt64 b
    → compare_int64_branchless a b op ≡ to_byte (compare_int64 a b op)
unfolding compare_int64_branchless
compare_int64_branchless-compare_int64 a b op p q =
    select_op-compare_by (a == b) (lt_int64 a b) (lt_int64 b a) op
    ∙ ap to_byte (sym (compare_int64_by a b op p q))

compare_float64_by :
    (f : Float64) (a b : f.Value) (op : CompareOp)
    → compare_float64 f a b op ≡ compare_by (f.feq a b) (f.flt a b) (f.fgt a b) op
unfolding compare_float64 compare_by
compare_float64_by f a b CompareOp.eq = refl
compare_float64_by f a b CompareOp.ne = refl
compare_float64_by f a b CompareOp.lt = refl
compare_float64_by f a b CompareOp.le = f.fle_def a b
compare_float64_by f a b CompareOp.gt = refl
compare_float64_by f a b CompareOp.ge =
    ground (arith, f.fge_def a b, f.fle_def b a, f.fgt_def a b, f.feq_symm a b, f.feq_symm b a)

-- On doubles, NaN included, CompareFloat64Branchless returns 1 where CompareFloat64 returns true
-- and 0 where it returns false, for each of the six operators.
pub compare_float64_branchless-compare_float64 :
    (f : Float64) (a b : f.Value) (op : CompareOp)
    → compare_float64_branchless f a b op ≡ to_byte (compare_float64 f a b op)
unfolding compare_float64_branchless
compare_float64_branchless-compare_float64 f a b op =
    select_op-compare_by (f.feq a b) (f.flt a b) (f.fgt a b) op
    ∙ ap to_byte (sym (compare_float64_by f a b op))

-- The bool that every caller takes from a branchless comparison, `keep != 0`.
pub keep-compare_int64 :
    (a b : ℕ) (op : CompareOp)
    → IsInt64 a
    → IsInt64 b
    → not (compare_int64_branchless a b op == 0) ≡ compare_int64 a b op
keep-compare_int64 a b op p q = ground (arith, compare_int64_branchless-compare_int64 a b op p q)

pub keep-compare_float64 :
    (f : Float64) (a b : f.Value) (op : CompareOp)
    → not (compare_float64_branchless f a b op == 0) ≡ compare_float64 f a b op
keep-compare_float64 f a b op = ground (arith, compare_float64_branchless-compare_float64 f a b op)
