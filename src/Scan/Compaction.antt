-- ===== src/Scan/Compaction.antt =====
-- The row ids of a mask: CollectRowIds, CompressStoreScalar and the prefix-sum compaction.
use mimic_rag.Mask
use mimic_rag.Mask.{Mask}
use mimic_rag.Scan.{
  collect_row_ids, compress_store_scalar, prefix_sums, store_at, compact_row_ids_prefix_sum,
}
use mathlib.Core.List.{append_assoc, append-nil}
use mimic_rag.Prelude.{
  rank, passing, length-passing, ℕ, zero, suc, ◌+◌, ◌≤◌, ◌≡◌, refl, sym, ap, ap₂, ◌∙◌, inl, inr,
  false, Option, some, List, [], ◌∷◌, ◌++◌, arith, ℕ_discrete, ◌==◌, if◌then◌else◌, Bool-cases,
  length, get_or, set, replicate, length-append, length-replicate, length-set, get_or-set_self,
  get_or-set_ne, get_or-replicate, for_below,
}

pub collect_row_ids-passing :
    (mask : Mask) (n : ℕ) → collect_row_ids mask n ≡ passing (Mask.get mask) n
unfolding collect_row_ids passing
collect_row_ids-passing mask zero = refl
collect_row_ids-passing mask (suc n) =
    ap (λ l. if Mask.get mask n then l ++ n ∷ [] else l) (collect_row_ids-passing mask n)

-- The loop of the prefix sums, after `done` of `count` rounds.
abbrev sums_after : Mask → ℕ → ℕ → List ℕ
sums_after mask count done =
    for_below done
      (λ i prefix. set prefix (i + 1) (get_or prefix i 0 + (if Mask.get mask i then 1 else 0)))
      (replicate (count + 1) 0)

length-sums_after : (mask : Mask) (count done : ℕ) → length (sums_after mask count done) ≡ count + 1
length-sums_after mask count zero = length-replicate (count + 1) 0
length-sums_after mask count (suc n) =
    length-set (sums_after mask count n) (n + 1)
      (get_or (sums_after mask count n) n 0 + (if Mask.get mask n then 1 else 0))
    ∙ length-sums_after mask count n

get_or-sums_after :
    (mask : Mask) (count done k : ℕ)
    → done ≤ count
    → k ≤ done
    → get_or (sums_after mask count done) k 0 ≡ rank (Mask.get mask) k
unfolding rank
get_or-sums_after mask count zero k h le =
    rw (let e : k ≡ 0 = omega arith in e) (get_or-replicate {A = ℕ} (count + 1) 0 0)
get_or-sums_after mask count (suc n) k h le = elim (ℕ_discrete k (n + 1)) [
  | yes e ↦ rw e (
      get_or-set_self (sums_after mask count n) (n + 1)
        (get_or (sums_after mask count n) n 0 + (if Mask.get mask n then 1 else 0)) 0
        (omega (arith, length-sums_after mask count n))
      ∙ ground (arith, get_or-sums_after mask count n n))
  | no ne ↦
      get_or-set_ne (sums_after mask count n) (n + 1) k
        (get_or (sums_after mask count n) n 0 + (if Mask.get mask n then 1 else 0)) 0
        (λ e. ne (omega arith))
      ∙ get_or-sums_after mask count n k (omega arith) (omega arith)
]

get_or-prefix_sums :
    (mask : Mask) (count k : ℕ)
    → k ≤ count
    → get_or (prefix_sums mask count) k 0 ≡ rank (Mask.get mask) k
unfolding prefix_sums
get_or-prefix_sums mask count k h = get_or-sums_after mask count count k (omega arith) h

-- The slot behind a written prefix is the next one to write.
store_next :
    (xs : List ℕ) (k v : ℕ)
    → store_at (length xs) v (some (xs ++ replicate (suc k) 0))
      ≡ some ((xs ++ v ∷ []) ++ replicate k 0)
unfolding store_at
store_next xs k v = ground (
  arith,
  length-append xs (replicate (suc k) 0),
  append_assoc xs (v ∷ []) (replicate k 0),
  set-length xs (replicate k 0),
)
  where
    set-length : (ys zs : List ℕ) → set (ys ++ 0 ∷ zs) (length ys) v ≡ ys ++ v ∷ zs
    set-length [] zs = refl
    set-length (y ∷ ys) zs = ap (λ l. y ∷ l) (set-length ys zs)

-- The second loop, after `done` rounds.
abbrev scatter_after : Mask → ℕ → ℕ → Option (List ℕ)
scatter_after mask count done =
    for_below done
      (λ i out.
        if Mask.get mask i then store_at (get_or (prefix_sums mask count) i 0) i out else out)
      (some (replicate (get_or (prefix_sums mask count) count 0) 0))

-- What it has written is in front, and `room` zeros are left.
scatter_after-passing :
    (mask : Mask) (count done room : ℕ)
    → done ≤ count
    → rank (Mask.get mask) done + room ≡ rank (Mask.get mask) count
    → scatter_after mask count done ≡ some (passing (Mask.get mask) done ++ replicate room 0)
unfolding rank passing
scatter_after-passing mask count zero room h e =
    ap (λ k. some (replicate k 0)) (get_or-prefix_sums mask count count (omega arith) ∙ omega arith)
scatter_after-passing mask count (suc n) room h e = elim (Bool-cases (Mask.get mask n)) [
  | inl on ↦
      let before : scatter_after mask count n
          ≡ some (passing (Mask.get mask) n ++ replicate (suc room) 0) =
        scatter_after-passing mask count n (suc room) (omega arith) (ground arith) in
      let slot : get_or (prefix_sums mask count) n 0 ≡ length (passing (Mask.get mask) n) =
        get_or-prefix_sums mask count n (omega arith) ∙ sym (length-passing (Mask.get mask) n) in
      rw on (
        ap₂ (λ k out. store_at k n out) slot before ∙ store_next (passing (Mask.get mask) n) room n)
  | inr off ↦ rw off (scatter_after-passing mask count n room (omega arith) (ground arith))
]

-- CompactRowIdsPrefixSum stays inside its output array, so that at() never throws, and returns the
-- row ids of CollectRowIds, as CompressStoreScalar does: the indices below the count that the mask
-- selects, in order.
pub compact_row_ids_prefix_sum-collect_row_ids :
    (mask : Mask) (count : ℕ)
    → (compact_row_ids_prefix_sum mask count ≡ some (collect_row_ids mask count))
      × (compress_store_scalar mask count ≡ collect_row_ids mask count)
      × (collect_row_ids mask count ≡ passing (Mask.get mask) count)
compact_row_ids_prefix_sum-collect_row_ids mask count = (
  compacted count refl,
  (unfold compress_store_scalar collect_row_ids in refl),
  collect_row_ids-passing mask count,
)
  where
    scattered : scatter_after mask count count ≡ some (collect_row_ids mask count)
    scattered =
        scatter_after-passing mask count count 0 (omega arith) (omega arith)
        ∙ ap some
            (append-nil (passing (Mask.get mask) count) ∙ sym (collect_row_ids-passing mask count))

    compacted :
        (n : ℕ)
        → n ≡ count
        → compact_row_ids_prefix_sum mask count ≡ some (collect_row_ids mask count)
    compacted zero e = rw (← e) (unfold compact_row_ids_prefix_sum collect_row_ids in refl)
    compacted (suc n) e =
        let positive : (count == 0) ≡ false = ground arith in
        unfold compact_row_ids_prefix_sum in rw positive scattered
