-- ===== src/Prune/Sound.antt =====
-- Pruning keeps every segment that can hold a row of the answer, and its counters add up.
use mimic_rag.Float.{Float64}
use mimic_rag.Predicate.{CompareOp, compare_float64}
use mimic_rag.Predicate.Range.{predicate_can_match_range_sound}
use mimic_rag.Metrics.{add_segments_pruned, add_segments_scanned, add_segments_total, Metrics, u64}
use mimic_rag.Prune.{
  prune_segments_by_predicate_with_metrics, prune_step, SegmentColumnStats,
  segment_matches_predicate, column_matches, optional_matches, prune_segments_by_predicate,
}
use mimic_rag.Prelude.{
  suc, zero, refl, none, ◌-◌, ◌^◌, passing, count-passing, ℕ, zero, suc, ◌+◌, ◌<◌, ◌≡◌, refl, ap,
  ◌∙◌, inl, inr, Bool, true, none, some, List, [], ◌∷◌, ◌++◌, arith, if◌then◌else◌, Bool-cases,
  length, get_or, get_elem?, count, for_below, rank, ◌≤◌, length-passing,
}

module _ (f : Float64) where
  -- The statistics bound the values of their column.
  pub record Bounds (column : SegmentColumnStats f) (v : f.Value) : Type 0 where
    pub low : f.fle column.lowest v ≡ true
    pub high : f.fle v column.highest ≡ true

module _ (f : Float64) (segments : List (List (SegmentColumnStats f))) (field : ℕ) (op : CompareOp)
    (value : f.Value) where
  abbrev keeps : ℕ → Bool
  keeps i = column_matches f field op value (get_or segments i [])

  prune_loop :
      (n : ℕ)
      → for_below n
          (λ i indices. elim (get_elem? (get_or segments i []) field) [
            | none ↦ indices
            | some column ↦
                if segment_matches_predicate f column op value then indices ++ i ∷ [] else indices
          ])
          []
        ≡ passing keeps n
  unfolding passing
  prune_loop zero = refl
  prune_loop (suc n) = ground (arith, prune_loop n)

  -- PruneSegmentsByPredicate returns in order the segments that have statistics for the field which
  -- the predicate can match.
  pub prune_segments_by_predicate-passing :
      prune_segments_by_predicate f segments field op value ≡ passing keeps (length segments)
  unfolding prune_segments_by_predicate
  prune_segments_by_predicate-passing = prune_loop (length segments)

  -- A segment whose statistics for the field bound a value that satisfies the predicate, or that
  -- has no bounds, stands once in the result of PruneSegmentsByPredicate: no matching row is lost.
  pub prune_segments_by_predicate_sound :
      (i : ℕ) (column : SegmentColumnStats f) (v : f.Value)
      → i < length segments
      → get_elem? (get_or segments i []) field ≡ some column
      → (column.has_value ≡ true → Bounds f column v)
      → compare_float64 f v value op ≡ true
      → count i (prune_segments_by_predicate f segments field op value) ≡ 1
  prune_segments_by_predicate_sound i column v h e bounds sat =
      rw prune_segments_by_predicate-passing
        (ground (arith, count-passing keeps (length segments) i, kept))
    where
      matches : segment_matches_predicate f column op value ≡ true
      matches =
          unfold segment_matches_predicate in
          elim (Bool-cases column.has_value) [
            | inl y ↦ rw y (
                predicate_can_match_range_sound f column.lowest column.highest v op value
                  (bounds y).low (bounds y).high sat)
            | inr n ↦ rw n
          ]

      kept : keeps i ≡ true
      kept = ap (optional_matches f op value) e ∙ matches

-- The counters that the loop with metrics leaves.
abbrev pub counters : Metrics → ℕ → ℕ → ℕ → Metrics
counters m total scanned pruned = record m {
  segments_total = u64 (m.segments_total + total);
  segments_scanned = u64 (m.segments_scanned + scanned);
  segments_pruned = u64 (m.segments_pruned + pruned);
}

-- The counters after `n` rounds: each round counts its segment as scanned or as pruned.
abbrev counters_after : Metrics → ℕ → (ℕ → Bool) → ℕ → Metrics
counters_after m total p n = counters m total (rank p n) (n - rank p n)

rank-le : (p : ℕ → Bool) (n : ℕ) → rank p n ≤ n
unfolding rank
rank-le p zero = omega arith
rank-le p (suc n) = ground (arith, rank-le p n)

abbrev IsU64 : Metrics → Type 0
IsU64 m = (m.segments_scanned < 2 ^ 64) × (m.segments_pruned < 2 ^ 64)

module _ (f : Float64) (segments : List (List (SegmentColumnStats f))) (field : ℕ) (op : CompareOp)
    (value : f.Value) where
  abbrev passes : ℕ → Bool
  passes i = column_matches f field op value (get_or segments i [])

  prune_step_null :
      (n : ℕ)
      → for_below n (prune_step f segments field op value) ([], none) ≡ (passing passes n, none)
  unfolding prune_step passing
  prune_step_null zero = refl
  prune_step_null (suc n) = rw (prune_step_null n) (ground arith)

  prune_step_counts :
      (m : Metrics) (total n : ℕ)
      → IsU64 m
      → for_below n (prune_step f segments field op value) ([], some (add_segments_total m total))
        ≡ (passing passes n, some (counters_after m total passes n))
  unfolding prune_step passing rank add_segments_total add_segments_scanned add_segments_pruned
  prune_step_counts m total zero h = ground arith
  prune_step_counts m total (suc n) h =
      rw (prune_step_counts m total n h) (ground (arith, rank-le passes n))

-- PruneSegmentsByPredicateWithMetrics returns the segments of PruneSegmentsByPredicate, and adds to
-- the counters modulo 2 ^ 64 all segments as total, the returned ones as scanned and the others as
-- pruned; a null pointer to the counters changes nothing of the result.
pub prune_segments_by_predicate_with_metrics_lem :
    (f : Float64) (segments : List (List (SegmentColumnStats f))) (field : ℕ) (op : CompareOp)
    (value : f.Value) (m : Metrics)
    → IsU64 m
    → let kept = prune_segments_by_predicate f segments field op value in
      (prune_segments_by_predicate_with_metrics f segments field op value (some m) ≡ (
        kept,
        some (counters m (u64 (length segments)) (length kept) (length segments - length kept)),
      ))
      × (prune_segments_by_predicate_with_metrics f segments field op value none ≡ (kept, none))
      × (length kept ≤ length segments)
unfolding prune_segments_by_predicate_with_metrics
prune_segments_by_predicate_with_metrics_lem f segments field op value m h =
    rw
      (
        prune_segments_by_predicate-passing f segments field op value,
        length-passing (passes f segments field op value) (length segments),
      )
      (
        prune_step_counts f segments field op value m (u64 (length segments)) (length segments) h,
        prune_step_null f segments field op value (length segments),
        rank-le (passes f segments field op value) (length segments),
      )
