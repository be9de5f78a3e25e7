-- ===== src/Scan.antt =====
-- engine/src/scan.cpp, engine/src/output_compaction.cpp, engine/src/simd_output.cpp: the scan loops,
-- the row ids that they collect, the schedule of segments over threads.
-- A null function pointer is `none`. The context that `void*` points at is a state of any type,
-- handed from call to call; a predicate is a function of the row index.
pub mod Loops
pub mod Compaction
pub mod Schedule
use mimic_rag.Mask
use mimic_rag.Mask.{Mask, set_each}
use mimic_rag.Mask.Packed
use mimic_rag.Mask.Packed.{PackedMask}
use mimic_rag.Metrics.{Metrics, add_rows, add_bytes, u64}
use mimic_rag.Prelude.{
  ℕ, zero, suc, ◌+◌, ◌-◌, ◌*◌, ◌/◌, ◌%◌, ◌^◌, ◌≤◌, ◌<◌, min, max, bit_and, bit_or, bit_xor, ◌≡◌,
  refl, sym, ap, ap₂, subst, ◌∙◌, ◌≢◌, ◌↔◌, ◌⊎◌, inl, inr, Bool, true, false, not, ◌&&◌, ◌||◌,
  Option, none, some, List, [], ◌∷◌, ◌++◌, map, arith, dec_lt, ℕ_discrete, ltb, leb, ◌==◌,
  if◌then◌else◌, lt→ltb, le→ltb, ==_refl, ==_iff, Bool-cases, Option-cases, length, get_or, set,
  take, drop, replicate, resize, All, length-append, length-replicate, length-set, length-take,
  length-drop, length-resize, take-append-drop, get_or-set_self, get_or-set_ne, get_or-replicate,
  get_or-ge_length, get_or-resize, get_or_ext, get_or-append_left, get_or-append_right, length-map,
  for_below, for_below_inv, fill, length-fill, get_or-fill,
}

abbrev pub PredicateFn : Type 0
PredicateFn = Option (ℕ → Bool)

abbrev pub ConsumeFn {ℓ} : Type ℓ → Type ℓ
ConsumeFn S = Option (ℕ → S → S)

-- `metrics` is a pointer that may be null.
counted : ℕ → ℕ → Option Metrics → Option Metrics
counted count row_bytes none = none
counted count row_bytes (some m) =
    some (add_bytes (add_rows m (u64 count)) (u64 (count * row_bytes)))

module _ {ℓ} {S : Type ℓ} where
  unfoldable pub scan_loop : ℕ → PredicateFn → ConsumeFn S → S → S
  scan_loop count none consume s = s
  scan_loop count (some predicate) none s = s
  scan_loop count (some predicate) (some consume) s =
      for_below count (λ i t. if predicate i then consume i t else t) s

  unfoldable pub scan_loop_masked : ℕ → Mask → ConsumeFn S → S → S
  scan_loop_masked count mask none s = s
  scan_loop_masked count mask (some consume) s =
      for_below count (λ i t. if Mask.get mask i then consume i t else t) s

  unfoldable pub scan_loop_with_metrics :
      ℕ → PredicateFn → ConsumeFn S → S → Option Metrics → ℕ → S × Option Metrics
  unfolding counted
  scan_loop_with_metrics count predicate consume s metrics row_bytes =
      (scan_loop count predicate consume s, counted count row_bytes metrics)

  unfoldable pub scan_loop_masked_with_metrics :
      ℕ → Mask → ConsumeFn S → S → Option Metrics → ℕ → S × Option Metrics
  unfolding counted
  scan_loop_masked_with_metrics count mask consume s metrics row_bytes =
      (scan_loop_masked count mask consume s, counted count row_bytes metrics)

-- `out` is a pointer that may be null.
unfoldable pub build_mask_loop : ℕ → PredicateFn → Option Mask → Option Mask
build_mask_loop count none out = out
build_mask_loop count (some predicate) none = none
build_mask_loop count (some predicate) (some out) =
    some (set_each count predicate (Mask.resize_bits out count))

module _ {ℓ} {S : Type ℓ} where
  -- The mask on the stack of ScanLoopMaskFirst is no null pointer.
  masked_with : ℕ → ConsumeFn S → S → Option Mask → S
  masked_with count consume s none = s
  masked_with count consume s (some mask) = scan_loop_masked count mask consume s

  unfoldable pub scan_loop_mask_first : ℕ → PredicateFn → ConsumeFn S → S → S
  unfolding masked_with
  scan_loop_mask_first count none consume s = s
  scan_loop_mask_first count (some predicate) none s = s
  scan_loop_mask_first count (some predicate) (some consume) s =
      masked_with count (some consume) s
        (build_mask_loop count (some predicate) (some (Mask.with_bits count)))

  unfoldable pub scan_loop_mask_first_with_metrics :
      ℕ → PredicateFn → ConsumeFn S → S → Option Metrics → ℕ → S × Option Metrics
  unfolding counted
  scan_loop_mask_first_with_metrics count predicate consume s metrics row_bytes =
      (scan_loop_mask_first count predicate consume s, counted count row_bytes metrics)

  unfoldable pub scan_loop_masked_with_validity : ℕ → Mask → Option (List ℕ) → ConsumeFn S → S → S
  scan_loop_masked_with_validity count mask validity none s = s
  scan_loop_masked_with_validity count mask none (some consume) s =
      scan_loop_masked count mask (some consume) s
  scan_loop_masked_with_validity count mask (some validity) (some consume) s =
      for_below count
        (λ i t. if Mask.get mask i && not (get_or validity i 0 == 0) then consume i t else t) s

unfoldable pub collect_row_ids : Mask → ℕ → List ℕ
collect_row_ids mask count =
    for_below count (λ i out. if Mask.get mask i then out ++ i ∷ [] else out) []

unfoldable pub compress_store_scalar : Mask → ℕ → List ℕ
compress_store_scalar mask count =
    for_below count (λ i out. if Mask.get mask i then out ++ i ∷ [] else out) []

-- prefix[i + 1] = prefix[i] + (mask.Get(i) ? 1 : 0), over count + 1 zeros
prefix_sums : Mask → ℕ → List ℕ
prefix_sums mask count =
    for_below count
      (λ i prefix. set prefix (i + 1) (get_or prefix i 0 + (if Mask.get mask i then 1 else 0)))
      (replicate (count + 1) 0)

-- out->at(k) = v, which throws (`none`) out of range
store_at : ℕ → ℕ → Option (List ℕ) → Option (List ℕ)
store_at k v none = none
store_at k v (some out) = if ltb k (length out) then some (set out k v) else none

unfoldable pub compact_row_ids_prefix_sum : Mask → ℕ → Option (List ℕ)
unfolding prefix_sums store_at
compact_row_ids_prefix_sum mask count =
    if count == 0
    then some []
    else let prefix = prefix_sums mask count in
      for_below count (λ i out. if Mask.get mask i then store_at (get_or prefix i 0) i out else out)
        (some (replicate (get_or prefix count 0) 0))

-- schedule[i % thread_count].push_back(i)
unfoldable pub schedule_segments : ℕ → ℕ → List (List ℕ)
schedule_segments segment_count thread_count =
    if thread_count == 0
    then []
    else for_below segment_count
        (λ i schedule.
          set schedule (i % thread_count) (get_or schedule (i % thread_count) [] ++ i ∷ []))
        (replicate thread_count [])

-- One thread for each queue of the schedule, each with the context of its own index; contexts past
-- the last queue are not touched. The contexts are distinct objects, so no order between threads
-- shows.
run_threads {ℓ} : {S : Type ℓ} → (List ℕ → S → S) → List (List ℕ) → List S → List S
run_threads work [] contexts = contexts
run_threads work (queue ∷ queues) [] = []
run_threads work (queue ∷ queues) (c ∷ contexts) = work queue c ∷ run_threads work queues contexts

-- for (size_t idx : schedule[t]) scan(segments[idx].RowCount())
pub scan_queue {ℓ} : {S : Type ℓ} → (ℕ → S → S) → List ℕ → List ℕ → S → S
scan_queue scan row_counts [] s = s
scan_queue scan row_counts (idx ∷ queue) s =
    scan_queue scan row_counts queue (scan (get_or row_counts idx 0) s)

module _ {ℓ} {S : Type ℓ} where
  -- The early returns of both parallel scans.
  can_run : ℕ → List ℕ → PredicateFn → ConsumeFn S → List S → Bool
  can_run thread_count row_counts (some predicate) (some consume) contexts =
      not (thread_count == 0)
      && not (length row_counts == 0)
      && not (ltb (length contexts) thread_count)
  can_run thread_count row_counts _ _ contexts = false

  -- The segments enter by their row counts, the only thing the scan reads of them.
  unfoldable pub scan_segments_parallel : List ℕ → ℕ → PredicateFn → ConsumeFn S → List S → List S
  unfolding can_run run_threads scan_queue
  scan_segments_parallel row_counts thread_count predicate consume contexts =
      if can_run thread_count row_counts predicate consume contexts
      then run_threads (scan_queue (λ rows. scan_loop rows predicate consume) row_counts)
          (schedule_segments (length row_counts) thread_count) contexts
      else contexts

  unfoldable pub scan_segments_parallel_mask_first :
      List ℕ → ℕ → PredicateFn → ConsumeFn S → List S → List S
  unfolding can_run run_threads scan_queue masked_with
  scan_segments_parallel_mask_first row_counts thread_count predicate consume contexts =
      if can_run thread_count row_counts predicate consume contexts
      then run_threads
          (scan_queue
            (λ rows s.
              masked_with rows consume s
                (build_mask_loop rows predicate (some (Mask.with_bits rows))))
            row_counts)
          (schedule_segments (length row_counts) thread_count) contexts
      else contexts
