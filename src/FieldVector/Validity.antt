-- ===== src/FieldVector/Validity.antt =====
-- What the optional validity bitmap of a column shows, after each way in which it grows.
pub mod Batch
use mimic_rag.Bitmap
use mimic_rag.Bitmap.{Bitmap}
use mimic_rag.Bitmap.Laws
use mimic_rag.FieldVector.{FieldVector, grow_valid, all_valid, append_valid}
use mimic_rag.FieldVector.Batch.{append_validity, batch_validity}
use mimic_rag.Prelude.{
  ℕ, zero, suc, ◌+◌, ◌^◌, ◌-◌, ◌<◌, ◌≡◌, refl, sym, ap, ◌∙◌, ◌⊎◌, inl, inr, Bool, true, false, not,
  Option, none, some, List, [], arith, ℕ_discrete, ltb, ◌==◌, if◌then◌else◌, get_or, count, resize,
  length-resize, for_below,
}
use mimic_rag.Bits.Words.{set_bit, Covers, set_window, length-set_window, get_bit-set_window}

-- A bitmap of no bits stands for rows that are all valid.
unfoldable pub shown : Bitmap → ℕ → Bool
shown v j = if v.bit_count == 0 then true else Bitmap.get v j

-- The bitmap has no bits, or one for each of the n rows, and its words cover them.
pub record Fits (n : ℕ) (v : Bitmap) : Type 0 where
  pub counted : (v.bit_count ≡ 0) ⊎ (v.bit_count ≡ n)
  pub covers : Bitmap.Laws.IsValid v

-- A loop of Set calls writes the words as one window.
set_run :
    (n start : ℕ) (f : ℕ → Bool) (b : Bitmap)
    → for_below n (λ i t. Bitmap.set_value t (start + i) (f i)) b
      ≡ record b { words = set_window b.bit_count start f n b.words }
unfolding Bitmap.set_value set_window
set_run zero start f b = refl
set_run (suc n) start f b = ap (λ t. Bitmap.set_value t (start + n) (f n)) (set_run n start f b)

set_run_zero :
    (n : ℕ) (b : Bitmap)
    → for_below n (λ i t. Bitmap.set_value t i true) b
      ≡ record b { words = set_window b.bit_count 0 (λ i. true) n b.words }
unfolding Bitmap.set_value set_window
set_run_zero zero b = refl
set_run_zero (suc n) b =
    ap (λ t. Bitmap.set_value t n true) (set_run_zero n b)
    ∙ ap
        (λ k. record b {
          words =
              set_bit (for_below n (λ i w. set_bit w b.bit_count (0 + i) true) b.words) b.bit_count
                k true;
        })
        (let e : n ≡ 0 + n = omega arith in e)

grow_valid-append_all_true :
    (v : Bitmap) (count : ℕ)
    → v.bit_count + count + 63 < 2 ^ 64
    → grow_valid v v.bit_count count ≡ Bitmap.append_all_true v count
unfolding grow_valid Bitmap.resize_bits
grow_valid-append_all_true v count small =
    set_run count v.bit_count (λ i. true) (Bitmap.resize_bits v (v.bit_count + count))
    ∙ sym (Bitmap.Laws.append_all_true_window v count small)

-- A bitmap of n bits that were all set.
all_set :
    (n : ℕ) (v : Bitmap)
    → n + 63 < 2 ^ 64
    → let b = for_below n (λ i t. Bitmap.set_value t i true) (Bitmap.resize_bits v n) in
      (b.bit_count ≡ n) × Bitmap.Laws.IsValid b × ((j : ℕ) → j < n → Bitmap.get b j ≡ true)
unfolding Bitmap.resize_bits Bitmap.get
all_set n v small =
    let words = resize (Bitmap.words_for n) 0 v.words in
    let covers : Covers words n =
      omega (arith, length-resize {A = ℕ} (Bitmap.words_for n) 0 v.words) in
    rw (set_run_zero n (Bitmap.resize_bits v n)) (
      refl,
      omega (arith, length-set_window n 0 (λ i. true) n words, covers),
      (λ j h. ground (arith, get_bit-set_window n 0 (λ i. true) n words j covers (omega arith))),
    )

-- The bitmap that AppendNull, SetValid and the batch appends start from has a bit for each row and
-- shows what was shown.
pub all_valid_lem :
    (n : ℕ) (v : Bitmap)
    → Fits n v
    → n + 63 < 2 ^ 64
    → ((all_valid v n).bit_count ≡ n)
      × Bitmap.Laws.IsValid (all_valid v n)
      × ((j : ℕ) → j < n → Bitmap.get (all_valid v n) j ≡ shown v j)
unfolding all_valid shown Bitmap.size
all_valid_lem n v fits small = elim (ℕ_discrete v.bit_count 0) [
  | yes e ↦ let test : (v.bit_count == 0) ≡ true = ground arith in rw test (all_set n v small)
  | no ne ↦
      let test : (v.bit_count == 0) ≡ false = ground arith in
      rw test (ground arith, fits.covers, (λ j h. refl))
]

-- Set of one bit behind the n rows that the bitmap counts.
set_behind :
    (n : ℕ) (b : Bitmap) (value : Bool)
    → b.bit_count ≡ n
    → n + 1 + 63 < 2 ^ 64
    → let b' = Bitmap.set_value (Bitmap.resize_bits b (n + 1)) n value in
      (b'.bit_count ≡ n + 1)
      × Bitmap.Laws.IsValid b'
      × ((j : ℕ) → j < n + 1 → Bitmap.get b' j ≡ (if ltb j n then Bitmap.get b j else value))
set_behind n b value e small = (
  (unfold Bitmap.set_value Bitmap.resize_bits in refl),
  Bitmap.Laws.set_value-IsValid (Bitmap.resize_bits b (n + 1)) n value
      (Bitmap.Laws.resize_bits-IsValid b (n + 1) small),
  (λ j h. ground (
    arith,
    (Bitmap.Laws.get-set_value (Bitmap.resize_bits b (n + 1)) n j value
        (Bitmap.Laws.resize_bits-IsValid b (n + 1) small)).0,
    counted,
    grown j,
  )),
)
  where
    grown : (j : ℕ) → j < n → Bitmap.get (Bitmap.resize_bits b (n + 1)) j ≡ Bitmap.get b j
    grown j lt = Bitmap.Laws.get-resize_bits_grow b (n + 1) j (omega (arith, e)) (omega arith) small

    counted : (Bitmap.resize_bits b (n + 1)).bit_count ≡ n + 1
    counted = unfold Bitmap.resize_bits in refl

-- The bitmap of one more row, by what it shows: the n rows as before, then `value`.
pub record Extends (n count : ℕ) (value : ℕ → Bool) (v v' : Bitmap) : Type 0 where
  pub fits : Fits (n + count) v'
  pub kept : (j : ℕ) → j < n → shown v' j ≡ shown v j
  pub added : (i : ℕ) → i < count → shown v' (n + i) ≡ value i

pub shown_counted : (v : Bitmap) (j : ℕ) → 0 < v.bit_count → shown v j ≡ Bitmap.get v j
unfolding shown
shown_counted v j h = ground arith

pub append_null-Extends :
    (n : ℕ) (v : Bitmap)
    → Fits n v
    → n + 1 + 63 < 2 ^ 64
    → Extends n 1
        (λ i. false)
        v
        (Bitmap.set_value (Bitmap.resize_bits (all_valid v n) (n + 1)) n false)
append_null-Extends n v fits small =
    let (count, covers, gets) = all_valid_lem n v fits (omega arith) in
    let (count', covers', gets') = set_behind n (all_valid v n) false count small in
    record {
      fits = record { counted = inr count'; covers = covers' };
      kept = λ j h. ground (
        arith,
        shown_counted (Bitmap.set_value (Bitmap.resize_bits (all_valid v n) (n + 1)) n false) j,
        gets' j,
        gets j,
      );
      added = λ i h. ground (
        arith,
        shown_counted (Bitmap.set_value (Bitmap.resize_bits (all_valid v n) (n + 1)) n false)
            (n + i),
        gets' (n + i),
      );
    }

pub append_valid-Extends :
    (n : ℕ) (v : Bitmap)
    → Fits n v
    → n + 1 + 63 < 2 ^ 64
    → Extends n 1 (λ i. true) v (append_valid v (n + 1))
unfolding append_valid Bitmap.size
append_valid-Extends n v fits small = elim (ℕ_discrete v.bit_count 0) [
  | yes e ↦
      let test : (v.bit_count == 0) ≡ true = ground arith in
      rw test (record {
        fits = record { counted = inl e; covers = fits.covers };
        kept = λ j h. refl;
        added = λ i h. (unfold shown in ground arith);
      })
  | no ne ↦
      let test : (v.bit_count == 0) ≡ false = ground arith in
      let same : v.bit_count ≡ n = ground arith in
      let last : n + 1 - 1 ≡ n = omega arith in
      let (count', covers', gets') = set_behind n v true same small in
      rw (test, last)
        (record {
          fits = record { counted = inr count'; covers = covers' };
          kept = λ j h. ground (
            arith,
            shown_counted v j,
            shown_counted (Bitmap.set_value (Bitmap.resize_bits v (n + 1)) n true) j,
            gets' j,
          );
          added = λ i h. ground (
            arith,
            shown_counted (Bitmap.set_value (Bitmap.resize_bits v (n + 1)) n true) (n + i),
            gets' (n + i),
          );
        })
]

pub append_all_true-Extends :
    (n count : ℕ) (v : Bitmap)
    → Fits n v
    → n + count + 63 < 2 ^ 64
    → Extends n count
        (λ i. true)
        v
        (if Bitmap.size v == 0 then v else Bitmap.append_all_true v count)
unfolding Bitmap.size
append_all_true-Extends n count v fits small = elim (ℕ_discrete v.bit_count 0) [
  | yes e ↦
      let test : (v.bit_count == 0) ≡ true = ground arith in
      rw test (record {
        fits = record { counted = inl e; covers = fits.covers };
        kept = λ j h. refl;
        added = λ i h. (unfold shown in ground arith);
      })
  | no ne ↦
      let test : (v.bit_count == 0) ≡ false = ground arith in
      let same : v.bit_count ≡ n = ground arith in
      let bounded : v.bit_count + count + 63 < 2 ^ 64 = omega (arith, same) in
      let size' : (Bitmap.append_all_true v count).bit_count ≡ n + count = ground (
        arith,
        (Bitmap.Laws.get-append_all_true v count 0 bounded).1,
        size_of v,
        size_of (Bitmap.append_all_true v count),
      ) in
      rw test (record {
        fits = record {
          counted = inr size';
          covers = (Bitmap.Laws.operations-IsValid v 0 count true [] [] fits.covers bounded).3;
        };
        kept = λ j h. ground (
          arith,
          shown_counted v j,
          shown_counted (Bitmap.append_all_true v count) j,
          (Bitmap.Laws.get-append_all_true v count j bounded).0,
        );
        added = λ i h. ground (
          arith,
          shown_counted (Bitmap.append_all_true v count) (n + i),
          (Bitmap.Laws.get-append_all_true v count (n + i) bounded).0,
        );
      })
]
  where
    size_of : (b : Bitmap) → Bitmap.size b ≡ b.bit_count
    size_of b = unfold Bitmap.size in refl

-- Resize of a column to more rows shows the new ones as valid.
pub grow_valid-Extends :
    (n count : ℕ) (v : Bitmap)
    → Fits n v
    → n + count + 63 < 2 ^ 64
    → Extends n count (λ i. true) v (if Bitmap.size v == 0 then v else grow_valid v n count)
unfolding Bitmap.size
grow_valid-Extends n count v fits small = elim (ℕ_discrete v.bit_count 0) [
  | yes e ↦
      let test : (v.bit_count == 0) ≡ true = ground arith in
      let base = append_all_true-Extends n count v fits small in
      rw test (unfold Bitmap.size in (rw test at base))
  | no ne ↦
      let test : (v.bit_count == 0) ≡ false = ground arith in
      let same : v.bit_count ≡ n = ground arith in
      let base = append_all_true-Extends n count v fits small in
      let swap : grow_valid v n count ≡ Bitmap.append_all_true v count =
        ap (λ k. grow_valid v k count) (sym same)
        ∙ grow_valid-append_all_true v count (omega (arith, same)) in
      rw (test, swap) (unfold Bitmap.size in (rw test at base))
]
