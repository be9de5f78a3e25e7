-- ===== src/Mask/Build.antt =====
-- engine/src/mask.cpp: BuildMask, BuildMaskBranchless, BuildMaskBranchlessFloat64. A null data or
-- compare pointer is `none`; `data` is read as far as the count.
use mimic_rag.Mask.{Mask, with_bits, get, set_each}
use mimic_rag.Mask.Laws.{get-set_each_fresh, get-with_bits}
use mimic_rag.Predicate.{
  CompareOp, compare_int64_branchless, compare_int64, compare_float64_branchless, compare_float64,
}
use mimic_rag.Predicate.Agree.{IsInt64, keep-compare_int64, keep-compare_float64}
use mimic_rag.Float.{Float64}
use mimic_rag.Prelude.{
  ℕ, ◌≡◌, ap, ◌∙◌, inl, inr, Bool, false, not, Option, none, some, List, arith, ltb, ◌==◌,
  if◌then◌else◌, Option-cases, get_or,
}

pub record Int64Predicate : Type 0 where
  pub values : Option (List ℕ)
  pub value : ℕ
  pub compare : Option (ℕ → ℕ → Bool)

pub record Int64PredicateBranchless : Type 0 where
  pub values : Option (List ℕ)
  pub value : ℕ
  pub op : CompareOp

unfoldable pub build_mask : Int64Predicate → ℕ → Mask
build_mask p count = elim p.values [
  | none ↦ with_bits count
  | some values ↦ elim p.compare [
    | none ↦ with_bits count
    | some compare ↦ set_each count (λ i. compare (get_or values i 0) p.value) (with_bits count)
  ]
]

unfoldable pub build_mask_branchless : Int64PredicateBranchless → ℕ → Mask
build_mask_branchless p count = elim p.values [
  | none ↦ with_bits count
  | some values ↦
      set_each count (λ i. not (compare_int64_branchless (get_or values i 0) p.value p.op == 0))
        (with_bits count)
]

module _ (f : Float64) where
  pub record Float64PredicateBranchless : Type 0 where
    pub values : Option (ℕ → f.Value)
    pub value : f.Value
    pub op : CompareOp

  unfoldable pub build_mask_branchless_float64 : Float64PredicateBranchless → ℕ → Mask
  build_mask_branchless_float64 p count = elim p.values [
    | none ↦ with_bits count
    | some values ↦
        set_each count (λ i. not (compare_float64_branchless f (values i) p.value p.op == 0))
          (with_bits count)
  ]

-- With a function pointer for the same comparison, BuildMask and BuildMaskBranchless answer alike
-- at every index: on 64-bit values, whether the value there satisfies the predicate.
pub build_mask_branchless-build_mask :
    (values : List ℕ) (value : ℕ) (op : CompareOp) (count j : ℕ)
    → IsInt64 value
    → ((i : ℕ) → IsInt64 (get_or values i 0))
    → let fast =
        build_mask_branchless (record { values = some values; value = value; op = op }) count in
      let slow =
        build_mask
          (record {
            values = some values;
            value = value;
            compare = some (λ a b. compare_int64 a b op);
          })
          count in
      (get fast j ≡ get slow j)
      × (get fast j ≡ (if ltb j count then compare_int64 (get_or values j 0) value op else false))
unfolding build_mask_branchless build_mask
build_mask_branchless-build_mask values value op count j hv hs = (
  ground (
    arith,
    get-set_each_fresh count (λ i. not (compare_int64_branchless (get_or values i 0) value op == 0))
        j,
    get-set_each_fresh count (λ i. compare_int64 (get_or values i 0) value op) j,
    keep-compare_int64 (get_or values j 0) value op (hs j) hv,
  ),
  ground (
    arith,
    get-set_each_fresh count (λ i. not (compare_int64_branchless (get_or values i 0) value op == 0))
        j,
    keep-compare_int64 (get_or values j 0) value op (hs j) hv,
  ),
)

abbrev pub selected_float64 : (f : Float64) → Float64PredicateBranchless f → ℕ → ℕ → Bool
selected_float64 f p count j = elim p.values [
  | none ↦ false
  | some values ↦ if ltb j count then compare_float64 f (values j) p.value p.op else false
]

-- BuildMaskBranchlessFloat64 selects below the count the values that satisfy CompareFloat64, NaN
-- included, and with no data selects nothing.
pub get-build_mask_branchless_float64 :
    (f : Float64) (p : Float64PredicateBranchless f) (count j : ℕ)
    → get (build_mask_branchless_float64 f p count) j ≡ selected_float64 f p count j
unfolding build_mask_branchless_float64
get-build_mask_branchless_float64 f p count j = elim (Option-cases p.values) [
  | inl e ↦ rw e (get-with_bits count j)
  | inr (values, e) ↦ rw e (
      get-set_each_fresh count
        (λ i. not (compare_float64_branchless f (values i) p.value p.op == 0)) j
      ∙ ap (λ b. if ltb j count then b else false) (keep-compare_float64 f (values j) p.value p.op))
]
