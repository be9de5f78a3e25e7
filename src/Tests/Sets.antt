-- ===== src/Tests/Sets.antt =====
-- Segments, and their theorem at concrete inputs.
use mimic_rag.FieldVector.{FieldType, new_field}
use mimic_rag.Segment.{Segment, new_segment, append_rows}
use mimic_rag.Segment.Rows.{IsSegment, new_segment-IsSegment, append_rows-IsSegment}
use mimic_rag.Prelude.{
  ◌+◌, ◌^◌, ◌≤◌, ◌<◌, ◌≡◌, refl, ◌↔◌, true, false, [], ◌∷◌, arith, if◌then◌else◌,
}

-- No rows yet, of at most 10, with one field.
abbrev fresh_segment : Segment
fresh_segment = new_segment 10 (new_field [] FieldType.int64 ∷ [])

append_rows-IsSegment_example :
    IsSegment (append_rows fresh_segment 4).0
    × (((append_rows fresh_segment 4).1 ≡ true) ↔ (
        (0 < 4)
        × (fresh_segment.sealed ≡ false)
        × (fresh_segment.row_count + 4 ≤ fresh_segment.row_capacity)))
    × ((append_rows fresh_segment 4).0.row_count
        ≡ fresh_segment.row_count + (if (append_rows fresh_segment 4).1 then 4 else 0))
    × ((append_rows fresh_segment 4).1 ≡ false → (append_rows fresh_segment 4).0 ≡ fresh_segment)
append_rows-IsSegment_example =
    append_rows-IsSegment fresh_segment 4
      (new_segment-IsSegment 10 (new_field [] FieldType.int64 ∷ [])) small
  where
    small : fresh_segment.row_count + 4 < 2 ^ 64
    small = unfold new_segment in omega arith

append_rows_twice : (append_rows (append_rows fresh_segment 4).0 7).1 ≡ false
append_rows_twice = unfold append_rows new_segment in refl

append_rows_full : (append_rows (append_rows fresh_segment 4).0 6).0.sealed ≡ true
append_rows_full = unfold append_rows new_segment in refl
