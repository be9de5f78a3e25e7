-- ===== src/Tests/Bits.antt =====
-- Bitmaps, masks, predicates and dictionaries at concrete inputs.
use mimic_rag.Float.{sample_float}
use mimic_rag.Bits.Words.{word_count}
use mimic_rag.Bitmap
use mimic_rag.Bitmap.{Bitmap}
use mimic_rag.Mask
use mimic_rag.Mask.{Mask}
use mimic_rag.Mask.Logic.{get-mask_and, get-mask_or}
use mimic_rag.Mask.Build.{
  build_mask, build_mask_branchless, Float64PredicateBranchless, build_mask_branchless-build_mask,
}
use mimic_rag.Predicate.{CompareOp, compare_int64}
use mimic_rag.Predicate.Agree.{IsInt64}
use mimic_rag.Metrics.{Metrics, reset, reset_fresh}
use mimic_rag.Dictionary
use mimic_rag.Dictionary.{find, add, value_of, find_id}
use mimic_rag.Dictionary.Laws.{add_lem, find_id_lem, empty-IsValid}
use mimic_rag.Prelude.{
  ◌/◌, ℕ, zero, suc, ◌+◌, ◌<◌, min, max, ◌≡◌, refl, ◌↔◌, true, false, ◌&&◌, ◌||◌, none, some, [],
  ◌∷◌, arith, ltb, ◌==◌, if◌then◌else◌, length, get_or, take,
}

abbrev bits : Bitmap
bits = record { words = 5 ∷ []; bit_count = 3 }

operations-IsValid_example :
    Bitmap.Laws.IsValid (Bitmap.with_bits 70)
    × Bitmap.Laws.IsValid (Bitmap.resize_bits bits 70)
    × Bitmap.Laws.IsValid (Bitmap.set_value bits 1 true)
    × Bitmap.Laws.IsValid (Bitmap.append_all_true bits 70)
    × Bitmap.Laws.IsValid (Bitmap.append_bits bits (1 ∷ 0 ∷ []) 70)
    × (Bitmap.Laws.IsValid (Bitmap.load_words (3 ∷ []) 70)
        ↔ ((j : ℕ) → j < 70 → j / 64 < length {A = ℕ} (3 ∷ [])))
operations-IsValid_example =
    Bitmap.Laws.operations-IsValid bits 1 70 true (1 ∷ 0 ∷ []) (3 ∷ []) (ground arith) (omega arith)

bit_two : Bitmap.get bits 2 ≡ true
unfolding Bitmap.get mimic_rag.Bits.Words.get_bit mimic_rag.Bits.Words.raw_bit
    mimic_rag.Bits.Words.word_bit
bit_two = refl

get-resize_bits_stale_example :
    (Bitmap.get (Bitmap.resize_bits bits 1) 2 ≡ false)
    × (Bitmap.get (Bitmap.resize_bits (Bitmap.resize_bits bits 1) 3) 2 ≡ true)
get-resize_bits_stale_example =
    Bitmap.Laws.get-resize_bits_stale bits 2 1 (ground arith) (omega arith) (omega arith)
      (omega arith) (omega arith) bit_two

abbrev small_mask : Mask
small_mask = Mask.set_value (Mask.with_bits 3) 1 true

small_mask-IsValid : Mask.Laws.IsValid small_mask
small_mask-IsValid =
    Mask.Laws.set_value-IsValid (Mask.with_bits 3) 1 true (Mask.Laws.with_bits-IsValid 3)

abbrev large_mask : Mask
large_mask = Mask.with_bits 100

get-mask_and_example :
    (Mask.size (Mask.mask_and small_mask large_mask)
      ≡ min (Mask.size small_mask) (Mask.size large_mask))
    × (Mask.get (Mask.mask_and small_mask large_mask) 1
        ≡ (Mask.get small_mask 1 && Mask.get large_mask 1))
get-mask_and_example = get-mask_and small_mask large_mask 1

get-mask_or_example :
    (Mask.size (Mask.mask_or small_mask large_mask)
      ≡ max (Mask.size small_mask) (Mask.size large_mask))
    × (Mask.get (Mask.mask_or small_mask large_mask) 1
        ≡ (Mask.get small_mask 1 || Mask.get large_mask 1))
get-mask_or_example =
    get-mask_or small_mask large_mask 1 small_mask-IsValid (Mask.Laws.with_bits-IsValid 100)

two_values : (i : ℕ) → IsInt64 (get_or (7 ∷ 18446744073709551615 ∷ []) i 0)
two_values zero = omega arith
two_values (suc zero) = omega arith
two_values (suc (suc i)) = omega arith

build_mask_branchless-build_mask_example :
    let fast =
      build_mask_branchless
        (record { values = some (7 ∷ 18446744073709551615 ∷ []); value = 3; op = CompareOp.lt })
        2 in
    let slow =
      build_mask
        (record {
          values = some (7 ∷ 18446744073709551615 ∷ []);
          value = 3;
          compare = some (λ a b. compare_int64 a b CompareOp.lt);
        })
        2 in
    (Mask.get fast 1 ≡ Mask.get slow 1)
    × (Mask.get fast 1 ≡ (
        if ltb 1 2
        then compare_int64 (get_or (7 ∷ 18446744073709551615 ∷ []) 1 0) 3 CompareOp.lt
        else false))
build_mask_branchless-build_mask_example =
    build_mask_branchless-build_mask (7 ∷ 18446744073709551615 ∷ []) 3 CompareOp.lt 2 1
      (omega arith) two_values

abbrev floats : Float64PredicateBranchless sample_float
floats = record {
  values = some (λ i. if i == 0 then none else some 4);
  value = some 4;
  op = CompareOp.ge;
}

abbrev counted_metrics : Metrics
counted_metrics = record {
  rows = 5;
  bytes = 8;
  branch_misses = 0;
  cache_misses = 0;
  segments_total = 4;
  segments_scanned = 1;
  segments_pruned = 3;
}

reset_fresh_example :
    (reset counted_metrics ≡ record {
      rows = 0;
      bytes = 0;
      branch_misses = 0;
      cache_misses = 0;
      segments_total = 0;
      segments_scanned = 0;
      segments_pruned = 0;
    })
    ↔ ((counted_metrics.segments_total ≡ 0)
        × (counted_metrics.segments_scanned ≡ 0)
        × (counted_metrics.segments_pruned ≡ 0))
reset_fresh_example = reset_fresh counted_metrics

add_lem_example :
    let d' = (add Dictionary.empty 7).0 in
    let id = (add Dictionary.empty 7).1 in
    Dictionary.Laws.IsValid d'
    × (id < length d'.values)
    × (value_of d' id ≡ 7)
    × (take (length {A = ℕ} []) d'.values ≡ [])
    × (length d'.values
        ≡ (elim (find 7 []) [ none ↦ length {A = ℕ} [] + 1 | some _ ↦ length {A = ℕ} [] ]))
add_lem_example = add_lem Dictionary.empty 7 empty-IsValid (omega arith)

find_id_lem_example :
    let d = (add Dictionary.empty 7).0 in
    ((find_id d 7 (some 5) ≡ (true, some 0)) ↔ ((0 < length d.values) × (value_of d 0 ≡ 7)))
    × ((find_id d 7 (some 5)).1 ≡ (if (find_id d 7 (some 5)).0 then find 7 d.index else some 5))
find_id_lem_example =
    find_id_lem (add Dictionary.empty 7).0 7 5 0
      (add_lem Dictionary.empty 7 empty-IsValid (omega arith)).0
