-- ===== src/Tests/Scans.antt =====
-- Scans, pruning and batches at concrete inputs.
use mimic_rag.Float.{sample_float, sample_eq}
use mimic_rag.Bitmap
use mimic_rag.FieldVector.{FieldType, FieldVector, new_field, is_valid}
use mimic_rag.Prune.Stats.{Conversions, compute_column_stats, stats_value, update_bounds}
use mimic_rag.Prune.Bounded.{HasNumbers, prune_segments_by_predicate-compute_column_stats}
use mimic_rag.Batch.{Batch, begin, drain, Tiles, drain_lem, drain_stuck}
use mimic_rag.Mask
use mimic_rag.Mask.{Mask}
use mimic_rag.Metrics.{Metrics, u64}
use mimic_rag.Predicate.{CompareOp, compare_float64, predicate_can_match_range}
use mimic_rag.Prune.{
  SegmentColumnStats, prune_segments_by_predicate, prune_segments_by_predicate_with_metrics,
  segment_matches_predicate,
}
use mimic_rag.Prune.Sound.{counters, prune_segments_by_predicate_with_metrics_lem}
use mimic_rag.Scan.{
  scan_loop, collect_row_ids, compress_store_scalar, compact_row_ids_prefix_sum, scan_queue,
  scan_segments_parallel, scan_segments_parallel_mask_first,
}
use mimic_rag.Scan.Compaction.{compact_row_ids_prefix_sum-collect_row_ids}
use mimic_rag.Scan.Loops.{scan_segments_parallel_mask_first_lem}
use mimic_rag.Scan.Schedule.{get_or-scan_segments_parallel}
use mimic_rag.Prelude.{
  ℕ, ◌+◌, ◌-◌, ◌%◌, ◌≤◌, ◌≡◌, refl, Bool, true, none, some, List, [], ◌∷◌, ◌++◌, arith, ◌==◌,
  length, get_or, count, passing, Option, subst, false, ==_refl,
}

abbrev even : ℕ → Bool
even i = i % 2 == 0

abbrev collect : ℕ → List ℕ → List ℕ
collect i rows = rows ++ i ∷ []

abbrev chosen : Mask
chosen = Mask.set_value (Mask.with_bits 3) 1 true

scan_segments_parallel_mask_first_lem_example :
    scan_segments_parallel_mask_first (2 ∷ 3 ∷ 1 ∷ []) 2 (some even) (some collect) ([] ∷ [] ∷ [])
    ≡ scan_segments_parallel (2 ∷ 3 ∷ 1 ∷ []) 2 (some even) (some collect) ([] ∷ [] ∷ [])
scan_segments_parallel_mask_first_lem_example =
    scan_segments_parallel_mask_first_lem (2 ∷ 3 ∷ 1 ∷ []) 2 (some even) (some collect)
      ([] ∷ [] ∷ [])

get_or-scan_segments_parallel_example :
    get_or
      (scan_segments_parallel (2 ∷ 3 ∷ 1 ∷ []) 2 (some even) (some collect) ([] ∷ [] ∷ []))
      0
      []
    ≡ scan_queue
        (λ rows. scan_loop rows (some even) (some collect))
        (2 ∷ 3 ∷ 1 ∷ [])
        (passing (λ i. i % 2 == 0) 3)
        []
get_or-scan_segments_parallel_example =
    get_or-scan_segments_parallel (2 ∷ 3 ∷ 1 ∷ []) 2 even collect ([] ∷ [] ∷ []) 0 [] (omega arith)
      (omega arith) (omega arith)

compact_row_ids_prefix_sum-collect_row_ids_example :
    (compact_row_ids_prefix_sum chosen 3 ≡ some (collect_row_ids chosen 3))
    × (compress_store_scalar chosen 3 ≡ collect_row_ids chosen 3)
    × (collect_row_ids chosen 3 ≡ passing (Mask.get chosen) 3)
compact_row_ids_prefix_sum-collect_row_ids_example =
    compact_row_ids_prefix_sum-collect_row_ids chosen 3

abbrev low_column : SegmentColumnStats sample_float
low_column = record {
  lowest = some 1;
  highest = some 9;
  value_count = 2;
  null_count = 0;
  estimated_cardinality = 2;
  monotonic_hint = 0;
  has_value = true;
}

abbrev tables : List (List (SegmentColumnStats sample_float))
tables = (low_column ∷ []) ∷ [] ∷ []

abbrev conversions : Conversions sample_float
conversions = record { of_int32 = some; of_int64 = some; of_bits = some }

-- The values 6, 1 and 9, of which none is null.
abbrev three_values : FieldVector
three_values = record (new_field [] FieldType.int64) { size = 3; data_i64 = 6 ∷ 1 ∷ 9 ∷ [] }

abbrev computed : List (List (SegmentColumnStats sample_float))
computed = [] ∷ (compute_column_stats sample_float conversions three_values 3 ∷ []) ∷ []

abbrev number : Option (Option ℕ) → Bool
number none = true
number (some v) = sample_eq v v

three_values-HasNumbers : HasNumbers sample_float conversions three_values
unfolding stats_value
three_values-HasNumbers j v lt valid e =
    subst (λ o. number o ≡ true) e (==_refl (get_or three_values.data_i64 j 0))

prune_segments_by_predicate-compute_column_stats_example :
    count 1 (prune_segments_by_predicate sample_float computed 0 CompareOp.gt (some 7)) ≡ 1
prune_segments_by_predicate-compute_column_stats_example =
    prune_segments_by_predicate-compute_column_stats sample_float conversions computed 1 0
      CompareOp.gt (some 7) (some 9) three_values 3 2 (omega arith) refl three_values-HasNumbers
      (omega arith) (unfold is_valid Bitmap.size in refl) (unfold stats_value in refl)
      (unfold compare_float64 in ground arith)

-- With a NaN in the first row both bounds are it, and the segment is pruned whatever the other rows
-- hold.
abbrev first_nan : SegmentColumnStats sample_float
first_nan =
    update_bounds sample_float conversions
      (update_bounds sample_float conversions
        (record low_column { lowest = some 0; highest = some 0; has_value = false }) none)
      (some 9)

first_nan-pruned :
    prune_segments_by_predicate sample_float ((first_nan ∷ []) ∷ []) 0 CompareOp.gt (some 7) ≡ []
first_nan-pruned =
    unfold prune_segments_by_predicate segment_matches_predicate predicate_can_match_range
      update_bounds in
    refl

abbrev no_metrics : Metrics
no_metrics = record {
  rows = 0;
  bytes = 0;
  branch_misses = 0;
  cache_misses = 0;
  segments_total = 0;
  segments_scanned = 0;
  segments_pruned = 0;
}

prune_segments_by_predicate_with_metrics_lem_example :
    let kept = prune_segments_by_predicate sample_float tables 0 CompareOp.gt (some 4) in
    (prune_segments_by_predicate_with_metrics sample_float tables 0 CompareOp.gt
        (some 4)
        (some no_metrics)
      ≡ (
        kept,
        some
            (counters no_metrics (u64 (length tables)) (length kept) (length tables - length kept)),
      ))
    × (prune_segments_by_predicate_with_metrics sample_float tables 0 CompareOp.gt (some 4) none
        ≡ (kept, none))
    × (length kept ≤ length tables)
prune_segments_by_predicate_with_metrics_lem_example =
    prune_segments_by_predicate_with_metrics_lem sample_float tables 0 CompareOp.gt (some 4)
      no_metrics (omega arith, omega arith)

drain_lem_example :
    (batches : List Batch) × (drain (7 + 1) (begin 7 3) ≡ some batches) × Tiles 3 0 7 batches
drain_lem_example = drain_lem 7 3 (omega arith)

drain_stuck_example : drain 9 (begin 7 0) ≡ none
drain_stuck_example = drain_stuck 9 7 (omega arith)
