-- ===== src/FieldVector/Validity/Batch.antt =====
-- What the optional validity bitmap of a column shows after the appends of a batch.
use mimic_rag.Bitmap
use mimic_rag.Bitmap.{Bitmap}
use mimic_rag.Bitmap.Laws
use mimic_rag.FieldVector.{FieldVector, all_valid}
use mimic_rag.FieldVector.Batch.{append_validity, batch_validity}
use mimic_rag.Prelude.{
  ℕ, ◌+◌, ◌^◌, ◌<◌, ◌-◌, ◌≡◌, refl, ap, inr, Bool, true, not, Option, none, some, List, [], arith,
  ◌==◌, get_or, count,
}
use mimic_rag.FieldVector.Validity.{
  append_all_true-Extends, Fits, all_valid_lem, Extends, shown_counted,
}

append_validity-Extends :
    (n count : ℕ) (v : Bitmap) (validity : List ℕ)
    → Fits n v
    → n + count + 63 < 2 ^ 64
    → Extends n count (λ i. not (get_or validity i 0 == 0)) v (append_validity v n validity count)
unfolding append_validity
append_validity-Extends n count v validity fits small =
    let (counted, covers, gets) = all_valid_lem n v fits (omega arith) in
    let b = all_valid v n in
    let bounded : b.bit_count + count + 63 < 2 ^ 64 = omega (arith, counted) in
    let size' : (Bitmap.append_bits b validity count).bit_count ≡ n + count = ground (
      arith,
      (Bitmap.Laws.get-append_bits b validity count 0 bounded).1,
      size_of b,
      size_of (Bitmap.append_bits b validity count),
    ) in
    record {
      fits = record {
        counted = inr size';
        covers = (Bitmap.Laws.operations-IsValid b 0 count true validity [] covers bounded).4;
      };
      kept = λ j h. ground (
        arith,
        gets j,
        shown_counted (Bitmap.append_bits b validity count) j,
        (Bitmap.Laws.get-append_bits b validity count j bounded).0,
      );
      added = λ i h.
          let offset : n + i - n ≡ i = omega arith in
          ground (
            arith,
            shown_counted (Bitmap.append_bits b validity count) (n + i),
            (Bitmap.Laws.get-append_bits b validity count (n + i) bounded).0,
            ap (λ k. get_or validity k 0) offset,
          );
    }
  where
    size_of : (b : Bitmap) → Bitmap.size b ≡ b.bit_count
    size_of b = unfold Bitmap.size in refl

-- What a batch append shows for its rows.
abbrev pub batch_shown : Option (List ℕ) → ℕ → Bool
batch_shown none i = true
batch_shown (some validity) i = not (get_or validity i 0 == 0)

pub batch_validity-Extends :
    (f : FieldVector) (validity : Option (List ℕ)) (count : ℕ)
    → Fits f.size f.validity
    → f.size + count + 63 < 2 ^ 64
    → Extends f.size count (batch_shown validity) f.validity (batch_validity f validity count)
unfolding batch_validity
batch_validity-Extends f none count fits small =
    append_all_true-Extends f.size count f.validity fits small
batch_validity-Extends f (some validity) count fits small =
    append_validity-Extends f.size count f.validity validity fits small
