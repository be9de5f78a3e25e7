-- ===== src/Scan/Loops.antt =====
-- The mask-first scans, with their intermediate bit mask, consume what the direct scans consume.
use mimic_rag.Mask
use mimic_rag.Mask.{Mask, set_each}
use mimic_rag.Mask.Laws.{get-set_each_fresh}
use mimic_rag.Scan.{
  ConsumeFn, PredicateFn, scan_loop, scan_loop_masked, scan_loop_mask_first,
  scan_loop_masked_with_validity, build_mask_loop, scan_segments_parallel,
  scan_segments_parallel_mask_first, scan_queue, run_threads, masked_with, schedule_segments,
  can_run,
}
use mimic_rag.Prelude.{
  ℕ, zero, suc, ◌<◌, ◌≡◌, refl, ap, ap₂, ◌∙◌, Bool, not, ◌&&◌, none, some, List, [], ◌∷◌, arith,
  ◌==◌, if◌then◌else◌, length, get_or, for_below,
}

fresh_mask :
    (count j : ℕ) (p : ℕ → Bool)
    → j < count
    → Mask.get (set_each count p (Mask.resize_bits (Mask.with_bits count) count)) j ≡ p j
fresh_mask count j p h = ground (arith, get-set_each_fresh count p j, same)
  where
    same : Mask.resize_bits (Mask.with_bits count) count ≡ Mask.with_bits count
    same = unfold Mask.resize_bits Mask.with_bits in refl

module _ {ℓ} {S : Type ℓ} where
  -- Two loops whose bodies agree below the bound end in the same state.
  pub for_below_ext :
      (n : ℕ) (f g : ℕ → S → S)
      → ((i : ℕ) (s : S) → i < n → f i s ≡ g i s)
      → (s : S) → for_below n f s ≡ for_below n g s
  for_below_ext zero f g h s = refl
  for_below_ext (suc n) f g h s =
      ap (f n) (for_below_ext n f g (λ i t p. h i t (omega arith)) s) ∙ h n _ (omega arith)

  -- ScanLoopMaskFirst ends in the state of ScanLoop, for every count, predicate, consumer and
  -- context, null pointers included.
  pub scan_loop_mask_first-scan_loop :
      (count : ℕ) (predicate : PredicateFn) (consume : ConsumeFn S) (s : S)
      → scan_loop_mask_first count predicate consume s ≡ scan_loop count predicate consume s
  unfolding scan_loop_mask_first scan_loop scan_loop_masked build_mask_loop
  scan_loop_mask_first-scan_loop count none consume s = refl
  scan_loop_mask_first-scan_loop count (some p) none s = refl
  scan_loop_mask_first-scan_loop count (some p) (some consume) s =
      for_below_ext count _ _
        (λ i t h. ap (λ b. if b then consume i t else t) (fresh_mask count i p h)) s

  scan_queue_ext :
      (f g : ℕ → S → S)
      → ((rows : ℕ) (s : S) → f rows s ≡ g rows s)
      → (row_counts queue : List ℕ) (s : S)
      → scan_queue f row_counts queue s ≡ scan_queue g row_counts queue s
  unfolding scan_queue
  scan_queue_ext f g h row_counts [] s = refl
  scan_queue_ext f g h row_counts (idx ∷ queue) s =
      ap (scan_queue f row_counts queue) (h (get_or row_counts idx 0) s)
      ∙ scan_queue_ext f g h row_counts queue (g (get_or row_counts idx 0) s)

  run_threads_ext :
      (f g : List ℕ → S → S)
      → ((queue : List ℕ) (s : S) → f queue s ≡ g queue s)
      → (queues : List (List ℕ)) (contexts : List S)
      → run_threads f queues contexts ≡ run_threads g queues contexts
  unfolding run_threads
  run_threads_ext f g h [] contexts = refl
  run_threads_ext f g h (queue ∷ queues) [] = refl
  run_threads_ext f g h (queue ∷ queues) (c ∷ contexts) =
      ap₂ ◌∷◌ (h queue c) (run_threads_ext f g h queues contexts)

  one_segment :
      (p : ℕ → Bool) (consume : ConsumeFn S) (rows : ℕ) (s : S)
      → masked_with rows consume s (build_mask_loop rows (some p) (some (Mask.with_bits rows)))
        ≡ scan_loop rows (some p) consume s
  unfolding masked_with build_mask_loop scan_loop scan_loop_masked
  one_segment p none rows s = refl
  one_segment p (some consume) rows s =
      for_below_ext rows _ _
        (λ i t h. ap (λ b. if b then consume i t else t) (fresh_mask rows i p h)) s

  -- ScanSegmentsParallelMaskFirst leaves every thread's context as ScanSegmentsParallel does, on
  -- every early return too.
  pub scan_segments_parallel_mask_first_lem :
      (row_counts : List ℕ) (threads : ℕ) (predicate : PredicateFn) (consume : ConsumeFn S)
      (contexts : List S)
      → scan_segments_parallel_mask_first row_counts threads predicate consume contexts
        ≡ scan_segments_parallel row_counts threads predicate consume contexts
  unfolding scan_segments_parallel_mask_first scan_segments_parallel
  scan_segments_parallel_mask_first_lem row_counts threads none consume contexts = refl
  scan_segments_parallel_mask_first_lem row_counts threads (some p) consume contexts =
      ap (λ t. if can_run threads row_counts (some p) consume contexts then t else contexts)
        (run_threads_ext _ _
          (λ queue s. scan_queue_ext _ _ (one_segment p consume) row_counts queue s)
          (schedule_segments (length row_counts) threads) contexts)

  -- ScanLoopMaskedWithValidity skips the rows whose validity byte is 0: it consumes as ScanLoop
  -- with the predicate that the mask and the validity both hold, and with no validity array as
  -- ScanLoopMasked.
  pub scan_loop_masked_with_validity_lem :
      (count : ℕ) (mask : Mask) (validity : List ℕ) (consume : ConsumeFn S) (s : S)
      → (scan_loop_masked_with_validity count mask (some validity) consume s
          ≡ scan_loop count
              (some (λ i. Mask.get mask i && not (get_or validity i 0 == 0)))
              consume
              s)
        × (scan_loop_masked_with_validity count mask none consume s
            ≡ scan_loop count (some (Mask.get mask)) consume s)
  unfolding scan_loop_masked_with_validity scan_loop scan_loop_masked
  scan_loop_masked_with_validity_lem count mask validity none s = (refl, refl)
  scan_loop_masked_with_validity_lem count mask validity (some c) s = (refl, refl)
