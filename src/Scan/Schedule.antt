-- ===== src/Scan/Schedule.antt =====
-- The schedule of segments over threads, and what each thread of a parallel scan does.
use mimic_rag.Scan.{
  scan_loop, schedule_segments, run_threads, scan_queue, scan_segments_parallel, can_run,
}
use mimic_rag.Prelude.{
  passing, ℕ, zero, suc, ◌%◌, ◌≤◌, ◌<◌, ◌≡◌, refl, ap, ◌∙◌, Bool, true, false, some, List, [], ◌∷◌,
  ◌++◌, arith, ℕ_discrete, ltb, ◌==◌, if◌then◌else◌, length, get_or, set, replicate,
  length-replicate, length-set, get_or-set_self, get_or-set_ne, get_or-replicate, for_below,
}

abbrev schedule_after : ℕ → ℕ → List (List ℕ)
schedule_after n t =
    for_below n (λ i schedule. set schedule (i % t) (get_or schedule (i % t) [] ++ i ∷ []))
      (replicate t [])

length-schedule_after : (n t : ℕ) → length (schedule_after n t) ≡ t
length-schedule_after zero t = length-replicate t []
length-schedule_after (suc n) t =
    length-set (schedule_after n t) (n % t) (get_or (schedule_after n t) (n % t) [] ++ n ∷ [])
    ∙ length-schedule_after n t

get_or-schedule_after :
    (n t k : ℕ)
    → 0 < t
    → get_or (schedule_after n t) k [] ≡ (if ltb k t then passing (λ i. i % t == k) n else [])
unfolding passing
get_or-schedule_after zero t k pos = ground (arith, get_or-replicate {A = List ℕ} t k [])
get_or-schedule_after (suc n) t k pos = elim (ℕ_discrete (n % t) k) [
  | yes e ↦ ground (
    arith,
    get_or-set_self (schedule_after n t) (n % t) (get_or (schedule_after n t) (n % t) [] ++ n ∷ [])
        [],
    length-schedule_after n t,
    get_or-schedule_after n t k pos,
  )
  | no ne ↦ ground (
    arith,
    get_or-set_ne (schedule_after n t) (n % t) k (get_or (schedule_after n t) (n % t) [] ++ n ∷ [])
        [] ne,
    get_or-schedule_after n t k pos,
  )
]

-- ScheduleSegments makes a queue for each thread, and the queue of thread k holds in increasing
-- order the segments whose index leaves the remainder k: with at least one thread each segment
-- stands in exactly one queue.
pub schedule_segments_lem :
    (n t k : ℕ)
    → (length (schedule_segments n t) ≡ t)
      × (get_or (schedule_segments n t) k []
          ≡ (if ltb k t then passing (λ i. i % t == k) n else []))
unfolding schedule_segments
schedule_segments_lem n zero k = (refl, ground arith)
schedule_segments_lem n (suc t) k =
    let positive : (suc t == 0) ≡ false = ground arith in
    rw positive (length-schedule_after n (suc t), get_or-schedule_after n (suc t) k (omega arith))

get_or-run_threads {ℓ} :
    {S : Type ℓ} (work : List ℕ → S → S) (queues : List (List ℕ)) (contexts : List S) (k : ℕ)
    (d : S)
    → k < length queues
    → k < length contexts
    → get_or (run_threads work queues contexts) k d
      ≡ work (get_or queues k []) (get_or contexts k d)
unfolding run_threads
get_or-run_threads work [] contexts k d h g = absurd (omega arith)
get_or-run_threads work (q ∷ qs) [] k d h g = absurd (omega arith)
get_or-run_threads work (q ∷ qs) (c ∷ cs) zero d h g = refl
get_or-run_threads work (q ∷ qs) (c ∷ cs) (suc k) d h g =
    get_or-run_threads work qs cs k d (omega arith) (omega arith)

can_run_of {ℓ} :
    {S : Type ℓ} (row_counts : List ℕ) (t : ℕ) (p : ℕ → Bool) (consume : ℕ → S → S)
    (contexts : List S)
    → 0 < t
    → 0 < length row_counts
    → t ≤ length contexts
    → can_run t row_counts (some p) (some consume) contexts ≡ true
unfolding can_run
can_run_of row_counts t p consume contexts a b c = ground arith

-- A parallel scan that may run (a thread, a segment, a predicate, a consumer, a context for each
-- thread) leaves in the context of thread k the result of scanning one after the other, from that
-- context, the segments whose index leaves the remainder k.
pub get_or-scan_segments_parallel {ℓ} :
    {S : Type ℓ} (row_counts : List ℕ) (t : ℕ) (p : ℕ → Bool) (consume : ℕ → S → S)
    (contexts : List S) (k : ℕ) (d : S)
    → 0 < length row_counts
    → t ≤ length contexts
    → k < t
    → get_or (scan_segments_parallel row_counts t (some p) (some consume) contexts) k d
      ≡ scan_queue
          (λ rows. scan_loop rows (some p) (some consume))
          row_counts
          (passing (λ i. i % t == k) (length row_counts))
          (get_or contexts k d)
unfolding scan_segments_parallel
get_or-scan_segments_parallel row_counts t p consume contexts k d a b c =
    let (queues, queue) = schedule_segments_lem (length row_counts) t k in
    let same : get_or (schedule_segments (length row_counts) t) k []
        ≡ passing (λ i. i % t == k) (length row_counts) =
      ground (arith, queue) in
    rw (can_run_of row_counts t p consume contexts (omega arith) a b) (
      get_or-run_threads _ (schedule_segments (length row_counts) t) contexts k d (omega arith)
        (omega arith)
      ∙ ap
          (λ q.
            scan_queue (λ rows. scan_loop rows (some p) (some consume)) row_counts q
              (get_or contexts k d))
          same)
