-- ===== src/Prune.antt =====
-- engine/include/mimicdb/segment.h, struct SegmentColumnStats, and engine/src/scan.cpp: the pruning
-- of segments by the statistics of a column.
pub mod Sound
pub mod Stats
pub mod Bounded
use mathlib.Core.Option
use mimic_rag.Float.{Float64}
use mimic_rag.Predicate.{CompareOp, predicate_can_match_range}
use mimic_rag.Metrics.{Metrics, add_segments_total, add_segments_scanned, add_segments_pruned, u64}
use mimic_rag.Prelude.{
  ℕ, zero, suc, ◌+◌, ◌-◌, ◌*◌, ◌/◌, ◌%◌, ◌^◌, ◌≤◌, ◌<◌, min, max, bit_and, bit_or, bit_xor, ◌≡◌,
  refl, sym, ap, ap₂, subst, ◌∙◌, ◌≢◌, ◌↔◌, ◌⊎◌, inl, inr, Bool, true, false, not, ◌&&◌, ◌||◌,
  Option, none, some, List, [], ◌∷◌, ◌++◌, map, arith, dec_lt, ℕ_discrete, ltb, leb, ◌==◌,
  if◌then◌else◌, lt→ltb, le→ltb, ==_refl, ==_iff, Bool-cases, Option-cases, length, get_or,
  get_elem?, count, count-append, count_single, set, take, drop, replicate, resize, All,
  length-append, length-replicate, length-set, length-take, length-drop, length-resize,
  take-append-drop, get_or-set_self, get_or-set_ne, get_or-replicate, get_or-ge_length,
  get_or-resize, get_or_ext, get_or-append_left, get_or-append_right, length-map, for_below,
  for_below_inv, fill, length-fill, get_or-fill,
}

module _ (f : Float64) where
  pub record SegmentColumnStats : Type 0 where
    pub lowest : f.Value
    pub highest : f.Value
    pub value_count : ℕ
    pub null_count : ℕ
    pub estimated_cardinality : ℕ
    pub monotonic_hint : ℕ
    pub has_value : Bool

  unfoldable pub segment_matches_predicate : SegmentColumnStats → CompareOp → f.Value → Bool
  segment_matches_predicate stats op value =
      if not stats.has_value
      then true
      else predicate_can_match_range f stats.lowest stats.highest op value

  abbrev pub optional_matches : CompareOp → f.Value → Option SegmentColumnStats → Bool
  optional_matches op value none = false
  optional_matches op value (some column) = segment_matches_predicate column op value

  -- A segment enters by its ColumnStats(); a field past them is skipped.
  abbrev pub column_matches : ℕ → CompareOp → f.Value → List SegmentColumnStats → Bool
  column_matches field op value stats = optional_matches op value (get_elem? stats field)

  unfoldable pub prune_segments_by_predicate :
      List (List SegmentColumnStats) → ℕ → CompareOp → f.Value → List ℕ
  prune_segments_by_predicate segments field op value =
      for_below (length segments)
        (λ i indices. elim (get_elem? (get_or segments i []) field) [
          | none ↦ indices
          | some column ↦
              if segment_matches_predicate column op value then indices ++ i ∷ [] else indices
        ])
        []

  -- One round of the loop with metrics, on the indices and the pointer to the counters.
  pub prune_step :
      List (List SegmentColumnStats)
      → ℕ
      → CompareOp
      → f.Value
      → ℕ
      → List ℕ × Option Metrics
      → List ℕ × Option Metrics
  prune_step segments field op value i (indices, metrics) =
      elim (get_elem? (get_or segments i []) field) [
        | none ↦ (indices, Option.map (λ m. add_segments_pruned m 1) metrics)
        | some column ↦
            if segment_matches_predicate column op value
            then (indices ++ i ∷ [], Option.map (λ m. add_segments_scanned m 1) metrics)
            else (indices, Option.map (λ m. add_segments_pruned m 1) metrics)
      ]

  unfoldable pub prune_segments_by_predicate_with_metrics :
      List (List SegmentColumnStats)
      → ℕ
      → CompareOp
      → f.Value
      → Option Metrics
      → List ℕ × Option Metrics
  unfolding prune_step
  prune_segments_by_predicate_with_metrics segments field op value metrics =
      for_below (length segments) (prune_step segments field op value)
        ([], Option.map (λ m. add_segments_total m (u64 (length segments))) metrics)
