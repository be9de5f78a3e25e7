-- ===== src/Prune/Bounded.antt =====
-- engine/src/segment.cpp: the statistics that ComputeStats finds bound the numbers of the column, so
-- that the pruning of engine/src/scan.cpp keeps every segment with a matching row.
use mimic_rag.Metrics.{u64}
use mimic_rag.Float.{Float64}
use mimic_rag.Predicate.{CompareOp, compare_float64}
use mimic_rag.FieldVector.{FieldVector, is_valid}
use mimic_rag.Prune.{SegmentColumnStats, prune_segments_by_predicate}
use mimic_rag.Prune.Sound.{Bounds, prune_segments_by_predicate_sound}
use mimic_rag.Prune.Stats.{
  Conversions, StatsLoop, stats_begin, stats_value, update_bounds, update_stats, stats_round,
  compute_column_stats,
}
use mimic_rag.Prelude.{
  ℕ, zero, suc, ◌+◌, ◌≤◌, ◌<◌, ◌≡◌, refl, sym, ap, subst, ◌∙◌, inl, inr, Bool, true, false, not,
  Option, none, some, List, [], arith, ℕ_discrete, if◌then◌else◌, Bool-cases, length, get_or,
  get_elem?, count, for_below,
}

module _ (f : Float64) (conv : Conversions f) where
  -- Statistics of which the bounds are numbers.
  abbrev IsNumeric : SegmentColumnStats f → Type 0
  IsNumeric s =
      s.has_value ≡ true → (f.feq s.lowest s.lowest ≡ true) × (f.feq s.highest s.highest ≡ true)

  -- Statistics that have seen a value: they have bounds, and these bound the value.
  abbrev Saw : SegmentColumnStats f → f.Value → Type 0
  Saw s v = (s.has_value ≡ true) × (f.fle s.lowest v ≡ true) × (f.fle v s.highest ≡ true)

  fle_refl : (v : f.Value) → f.feq v v ≡ true → f.fle v v ≡ true
  fle_refl v h = ground (arith, f.fle_def v v)

  low_step :
      (lo v : f.Value)
      → f.feq v v ≡ true
      → f.feq lo lo ≡ true
      → f.fle (if f.flt v lo then v else lo) v ≡ true
  low_step lo v number h = ground (arith, f.fle_total lo v h number, fle_refl v number)

  high_step :
      (hi v : f.Value)
      → f.feq v v ≡ true
      → f.feq hi hi ≡ true
      → f.fle v (if f.fgt v hi then v else hi) ≡ true
  high_step hi v number h =
      ground (arith, f.fle_total v hi number h, f.fgt_def v hi, fle_refl v number)

  low_keep : (lo v w : f.Value) → f.fle lo w ≡ true → f.fle (if f.flt v lo then v else lo) w ≡ true
  low_keep lo v w h = ground (arith, f.fle_def v lo, f.fle_trans v lo w)

  high_keep : (hi v w : f.Value) → f.fle w hi ≡ true → f.fle w (if f.fgt v hi then v else hi) ≡ true
  high_keep hi v w h = ground (arith, f.fle_def hi v, f.fgt_def v hi, f.fle_trans w hi v)

  update_bounds-IsNumeric :
      (s : SegmentColumnStats f) (v : f.Value)
      → f.feq v v ≡ true
      → IsNumeric s
      → IsNumeric (update_bounds f conv s v)
  unfolding update_bounds
  update_bounds-IsNumeric s v number h = elim (Bool-cases s.has_value) [
    | inl y ↦ elim (Bool-cases (f.flt v s.lowest)) [
      | inl a ↦ elim (Bool-cases (f.fgt v s.highest)) [
        | inl b ↦ rw (y, a, b) (λ e. (number, number))
        | inr b ↦ rw (y, a, b) (λ e. (number, (h y).1))
      ]
      | inr a ↦ elim (Bool-cases (f.fgt v s.highest)) [
        | inl b ↦ rw (y, a, b) (λ e. ((h y).0, number))
        | inr b ↦ rw (y, a, b) (λ e. h y)
      ]
    ]
    | inr n ↦ rw n (λ e. (number, number))
  ]

  update_bounds-Saw_new :
      (s : SegmentColumnStats f) (v : f.Value)
      → f.feq v v ≡ true
      → IsNumeric s
      → Saw (update_bounds f conv s v) v
  unfolding update_bounds
  update_bounds-Saw_new s v number h = elim (Bool-cases s.has_value) [
    | inl y ↦ rw y (refl, low_step s.lowest v number (h y).0, high_step s.highest v number (h y).1)
    | inr n ↦ rw n (refl, fle_refl v number, fle_refl v number)
  ]

  update_bounds-Saw :
      (s : SegmentColumnStats f) (v w : f.Value) → Saw s w → Saw (update_bounds f conv s v) w
  unfolding update_bounds
  update_bounds-Saw s v w (has, low, high) =
      rw has (refl, low_keep s.lowest v w low, high_keep s.highest v w high)

  -- The numbers among the valid rows of a column.
  abbrev pub HasNumbers : FieldVector → Type 0
  HasNumbers field =
      (j : ℕ) (v : f.Value)
      → j < field.size
      → is_valid field j ≡ true
      → stats_value f conv field.type field j ≡ some v
      → f.feq v v ≡ true

  stats_round-valid :
      (field : FieldVector) (i : ℕ) (l : StatsLoop f conv) (v : f.Value)
      → is_valid field i ≡ true
      → stats_value f conv field.type field i ≡ some v
      → (stats_round f conv field i l).stats ≡ update_bounds f conv l.stats v
  unfolding stats_round
  stats_round-valid field i l v valid e = rw (valid, e) refl

  stats_round-IsNumeric :
      (field : FieldVector) (i : ℕ) (l : StatsLoop f conv)
      → ((v : f.Value)
          → is_valid field i ≡ true
          → stats_value f conv field.type field i ≡ some v
          → f.feq v v ≡ true)
      → IsNumeric l.stats
      → IsNumeric (stats_round f conv field i l).stats
  unfolding stats_round
  stats_round-IsNumeric field i l numbers numeric =
      step (is_valid field i) (stats_value f conv field.type field i) numbers
    where
      step :
          (valid : Bool) (value : Option f.Value)
          → ((v : f.Value) → valid ≡ true → value ≡ some v → f.feq v v ≡ true)
          → IsNumeric
              (if not valid
                then record l {
                  stats = record l.stats { null_count = u64 (l.stats.null_count + 1) };
                }
                else update_stats f conv l value).stats
      step false value given = numeric
      step true none given = numeric
      step true (some v) given = update_bounds-IsNumeric l.stats v (given v refl refl) numeric

  -- A round keeps what has been seen.
  stats_round-Saw :
      (field : FieldVector) (i : ℕ) (l : StatsLoop f conv) (v : f.Value)
      → Saw l.stats v
      → Saw (stats_round f conv field i l).stats v
  unfolding stats_round
  stats_round-Saw field i l v seen = saw (is_valid field i) (stats_value f conv field.type field i)
    where
      saw :
          (valid : Bool) (value : Option f.Value)
          → Saw
              (if not valid
                then record l {
                  stats = record l.stats { null_count = u64 (l.stats.null_count + 1) };
                }
                else update_stats f conv l value).stats
              v
      saw false value = seen
      saw true none = seen
      saw true (some w) = update_bounds-Saw l.stats w v seen

  abbrev loop : FieldVector → ℕ → StatsLoop f conv
  loop field n = for_below n (stats_round f conv field) (stats_begin f conv field.size)

  abbrev after : FieldVector → ℕ → SegmentColumnStats f
  after field n = (loop field n).stats

  after-IsNumeric :
      (field : FieldVector) (n : ℕ) → HasNumbers field → n ≤ field.size → IsNumeric (after field n)
  unfolding stats_begin
  after-IsNumeric field zero numbers le = λ e. absurd (differ e)
    where
      differ : false ≡ true → ⊥
      differ q = cc
  after-IsNumeric field (suc n) numbers le =
      stats_round-IsNumeric field n (loop field n) (λ v. numbers n v (omega arith))
        (after-IsNumeric field n numbers (omega arith))

  after-Saw :
      (field : FieldVector) (n j : ℕ) (v : f.Value)
      → HasNumbers field
      → n ≤ field.size
      → j < n
      → is_valid field j ≡ true
      → stats_value f conv field.type field j ≡ some v
      → Saw (after field n) v
  after-Saw field zero j v numbers le lt valid e = absurd (omega arith)
  after-Saw field (suc n) j v numbers le lt valid e = elim (ℕ_discrete j n) [
    | yes same ↦
        let valid_n : is_valid field n ≡ true = ap (is_valid field) (sym same) ∙ valid in
        let value_n : stats_value f conv field.type field n ≡ some v =
          ap (stats_value f conv field.type field) (sym same) ∙ e in
        subst (λ s. Saw s v) (sym (stats_round-valid field n (loop field n) v valid_n value_n))
          (update_bounds-Saw_new (after field n) v (numbers j v (omega arith) valid e)
            (after-IsNumeric field n numbers (omega arith)))
    | no other ↦
        stats_round-Saw field n (loop field n) v
          (after-Saw field n j v numbers (omega arith) (omega (arith, other)) valid e)
  ]

  -- The statistics that ComputeStats finds of a column without a NaN bound the value of every valid row.
  compute_column_stats-Bounds :
      (field : FieldVector) (cardinality r : ℕ) (v : f.Value)
      → HasNumbers field
      → r < field.size
      → is_valid field r ≡ true
      → stats_value f conv field.type field r ≡ some v
      → Bounds f (compute_column_stats f conv field cardinality) v
  unfolding compute_column_stats
  compute_column_stats-Bounds field cardinality r v numbers lt valid e =
      let (has, low, high) = after-Saw field field.size r v numbers (omega arith) lt valid e in
      record { low = low; high = high }

  -- Where the statistics of a segment's column are those that ComputeStats finds, and none of the
  -- column's valid rows is a NaN, PruneSegmentsByPredicate returns the segment once if a valid row of
  -- the column satisfies the predicate, as a double: no matching row is lost.
  pub prune_segments_by_predicate-compute_column_stats :
      (segments : List (List (SegmentColumnStats f))) (i index : ℕ) (op : CompareOp)
      (value v : f.Value) (field : FieldVector) (cardinality r : ℕ)
      → i < length segments
      → get_elem? (get_or segments i []) index
        ≡ some (compute_column_stats f conv field cardinality)
      → HasNumbers field
      → r < field.size
      → is_valid field r ≡ true
      → stats_value f conv field.type field r ≡ some v
      → compare_float64 f v value op ≡ true
      → count i (prune_segments_by_predicate f segments index op value) ≡ 1
  prune_segments_by_predicate-compute_column_stats segments i index op value v field cardinality r
        lt found numbers row valid e sat =
      prune_segments_by_predicate_sound f segments index op value i
        (compute_column_stats f conv field cardinality) v lt found
        (λ has. compute_column_stats-Bounds field cardinality r v numbers row valid e) sat
