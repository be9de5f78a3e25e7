-- ===== src/Segment.antt =====
-- engine/src/segment.cpp, engine/include/mimicdb/segment.h: the rows of a segment, its constructors and
-- Append. The statistics, in Prune/Stats, and the compression are not part of this state.
pub mod Rows
use mimic_rag.Column.{u64}
use mimic_rag.FieldVector.{FieldType, FieldVector, new_field, resize_rows}
use mimic_rag.Prelude.{
  ℕ, zero, suc, ◌+◌, ◌-◌, ◌*◌, ◌/◌, ◌%◌, ◌^◌, ◌≤◌, ◌<◌, min, max, bit_and, bit_or, bit_xor, ◌≡◌,
  refl, sym, ap, ap₂, subst, ◌∙◌, ◌≢◌, ◌↔◌, ◌⊎◌, inl, inr, Bool, true, false, not, ◌&&◌, ◌||◌,
  Option, none, some, List, [], ◌∷◌, ◌++◌, map, arith, dec_lt, ℕ_discrete, ltb, leb, ◌==◌,
  if◌then◌else◌, lt→ltb, le→ltb, le→leb, and-parts, and-true, ==_refl, ==_iff, Bool-cases,
  Option-cases, length, get_or, get_elem?, count, count-append, count_single, set, take, drop,
  replicate, resize, All, length-append, length-replicate, length-set, length-take, length-drop,
  length-resize, take-append-drop, get_or-set_self, get_or-set_ne, get_or-replicate,
  get_or-ge_length, get_or-resize, get_or_ext, get_or-append_left, get_or-append_right, length-map,
  for_below, for_below_inv, for_below-add, unrolled, unrolled-for_below, fill_if, length-fill_if,
  get_or-fill_if, rank, passing, length-passing, count-passing, fill, length-fill, get_or-fill,
  take-append, drop-append, append-nil, append_assoc,
}

pub record Segment : Type 0 where
  pub row_capacity : ℕ
  pub row_count : ℕ
  pub fields : List FieldVector
  pub sealed : Bool

-- ResolveRowCount
unfoldable pub resolve_row_count : List FieldVector → ℕ → ℕ
resolve_row_count fields (suc n) = suc n
resolve_row_count [] zero = 0
resolve_row_count (f ∷ fields) zero = f.size

-- The constructor of an empty segment takes the names and types of the fields.
unfoldable pub new_segment : ℕ → List FieldVector → Segment
new_segment row_capacity fields = record {
  row_capacity = row_capacity;
  row_count = 0;
  fields = map (λ f. new_field f.name f.type) fields;
  sealed = false;
}

-- The constructors of a segment that has its rows.
unfoldable pub filled_segment : ℕ → ℕ → List FieldVector → Segment
unfolding resolve_row_count
filled_segment row_capacity row_count fields =
    let resolved = resolve_row_count fields row_count in
    let kept = if ltb row_capacity resolved then row_capacity else resolved in
    record {
      row_capacity = row_capacity;
      row_count = kept;
      fields = fields;
      sealed = leb row_capacity kept;
    }

-- Append of rows, which grows every field.
unfoldable pub append_rows : Segment → ℕ → Segment × Bool
append_rows s rows =
    if (rows == 0) || (s.sealed || ltb s.row_capacity (u64 (s.row_count + rows)))
    then (s, false)
    else let total = u64 (s.row_count + rows) in
      (
        record {
          row_capacity = s.row_capacity;
          row_count = total;
          fields = map (λ f. resize_rows f total) s.fields;
          sealed = s.sealed || (total == s.row_capacity);
        },
        true,
      )
