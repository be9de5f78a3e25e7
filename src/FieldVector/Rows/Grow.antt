-- ===== src/FieldVector/Rows/Grow.antt =====
-- engine/src/field_vector.cpp: AppendNull and Resize on a column of fixed-width values.
use mimic_rag.Bitmap
use mimic_rag.Bitmap.{Bitmap}
use mimic_rag.FieldVector.{
  grow_valid, leb, all_valid, null_length, is_varlen, append_null, resize_rows, replicate,
  resize_storage, sym, resize, FieldType, FieldVector,
}
use mimic_rag.FieldVector.Validity.{grow_valid-Extends, append_null-Extends}
use mimic_rag.Prelude.{
  zero, suc, ℕ, ◌+◌, ◌<◌, ◌≡◌, refl, ap, ◌∙◌, none, some, List, [], ◌++◌, arith, if◌then◌else◌,
  length, get_or, count, ◌∷◌, true, ◌==◌, false, ◌≤◌, ◌-◌, length-replicate, ◌^◌,
}
use mimic_rag.FieldVector.Rows.{plain_array, IsPlain, IsColumn, Appends, extend_rows}

-- resize to more elements puts zeros behind the list.
pub resize-append :
    (n c : ℕ) (xs : List ℕ) → n ≡ length xs + c → resize n 0 xs ≡ xs ++ replicate c 0
resize-append zero zero [] e = refl
resize-append zero (suc c) [] e = absurd (omega arith)
resize-append (suc n) zero [] e = absurd (omega arith)
resize-append (suc n) (suc c) [] e = ap (λ l. 0 ∷ l) (resize-append n c [] (omega arith))
resize-append zero c (x ∷ xs) e = absurd (omega arith)
resize-append (suc n) c (x ∷ xs) e = ap (λ l. x ∷ l) (resize-append n c xs (omega arith))

-- ResizeStorage of a column to `count` rows more puts zeros behind its array, and touches nothing
-- else that a row depends on.
plain_array-resize_storage :
    (f : FieldVector) (count : ℕ)
    → IsColumn f
    → let f' = resize_storage f (f.size + count) f.type in
      (f'.type ≡ f.type) × (plain_array f' f'.type ≡ plain_array f f.type ++ replicate count 0)
plain_array-resize_storage f count column = at f.type refl column.plain
  where
    at :
        (t : FieldType)
        → f.type ≡ t
        → IsPlain t
        → ((resize_storage f (f.size + count) f.type).type ≡ f.type)
          × (plain_array
                (resize_storage f (f.size + count) f.type)
                (resize_storage f (f.size + count) f.type).type
              ≡ plain_array f f.type ++ replicate count 0)
    at FieldType.int32 e p =
        let stored : f.size ≡ length f.data_i32 =
          sym column.stored ∙ ap (λ t. length (plain_array f t)) e in
        let more : resize (f.size + count) 0 f.data_i32 ≡ f.data_i32 ++ replicate count 0 =
          resize-append (f.size + count) count f.data_i32 (omega arith) in
        let f' : FieldVector = record f { data_i32 = resize (f.size + count) 0 f.data_i32 } in
        unfold resize_storage in
        rw (ap (resize_storage f (f.size + count)) e) (
          refl,
          ap (plain_array f') e
              ∙ more
              ∙ ap (λ l. l ++ replicate count 0) (sym (ap (plain_array f) e)),
        )
    at FieldType.int64 e p =
        let stored : f.size ≡ length f.data_i64 =
          sym column.stored ∙ ap (λ t. length (plain_array f t)) e in
        let more : resize (f.size + count) 0 f.data_i64 ≡ f.data_i64 ++ replicate count 0 =
          resize-append (f.size + count) count f.data_i64 (omega arith) in
        let f' : FieldVector = record f { data_i64 = resize (f.size + count) 0 f.data_i64 } in
        unfold resize_storage in
        rw (ap (resize_storage f (f.size + count)) e) (
          refl,
          ap (plain_array f') e
              ∙ more
              ∙ ap (λ l. l ++ replicate count 0) (sym (ap (plain_array f) e)),
        )
    at FieldType.float64 e p =
        let stored : f.size ≡ length f.data_f64 =
          sym column.stored ∙ ap (λ t. length (plain_array f t)) e in
        let more : resize (f.size + count) 0 f.data_f64 ≡ f.data_f64 ++ replicate count 0 =
          resize-append (f.size + count) count f.data_f64 (omega arith) in
        let f' : FieldVector = record f { data_f64 = resize (f.size + count) 0 f.data_f64 } in
        unfold resize_storage in
        rw (ap (resize_storage f (f.size + count)) e) (
          refl,
          ap (plain_array f') e
              ∙ more
              ∙ ap (λ l. l ++ replicate count 0) (sym (ap (plain_array f) e)),
        )
    at FieldType.bool e p =
        let stored : f.size ≡ length f.data_bool =
          sym column.stored ∙ ap (λ t. length (plain_array f t)) e in
        let more : resize (f.size + count) 0 f.data_bool ≡ f.data_bool ++ replicate count 0 =
          resize-append (f.size + count) count f.data_bool (omega arith) in
        let f' : FieldVector = record f { data_bool = resize (f.size + count) 0 f.data_bool } in
        unfold resize_storage in
        rw (ap (resize_storage f (f.size + count)) e) (
          refl,
          ap (plain_array f') e
              ∙ more
              ∙ ap (λ l. l ++ replicate count 0) (sym (ap (plain_array f) e)),
        )
    at _ e p = elim p [ ]

plain_not_varlen : (t : FieldType) → IsPlain t → is_varlen t ≡ false
plain_not_varlen FieldType.int32 p = refl
plain_not_varlen FieldType.int64 p = refl
plain_not_varlen FieldType.float64 p = refl
plain_not_varlen FieldType.bool p = refl
plain_not_varlen FieldType.dict_int32 p = refl
plain_not_varlen FieldType.object p = refl
plain_not_varlen _ p = elim p [ ]

-- AppendNull on a column of int32, int64, float64 or bool returns true and adds one null row; every
-- earlier row stays as it was, also when this is the first null, and the invariant is kept. The
-- count of rows stays below 2 ^ 64 - 63.
append_null-Appends :
    (f : FieldVector)
    → IsColumn f
    → f.size + 1 + 63 < 2 ^ 64
    → ((append_null f).1 ≡ true) × Appends f (append_null f).0 1 (λ i. none)
unfolding append_null
append_null-Appends f column small =
    let (same_type, arrays) = plain_array-resize_storage f 1 column in
    let fixed : is_varlen (resize_storage f (f.size + 1) f.type).type ≡ false =
      ap is_varlen same_type ∙ plain_not_varlen f.type column.plain in
    unfold null_length in
    rw fixed (
      refl,
      extend_rows f
          (record (resize_storage f (f.size + 1) f.type) {
            validity =
                Bitmap.set_value (Bitmap.resize_bits (all_valid f.validity f.size) (f.size + 1))
                  f.size false;
            size = f.size + 1;
          })
          1 (replicate 1 0) (λ i. false) column same_type refl refl arrays
          (append_null-Extends f.size f.validity column.fits small),
    )

-- Resize of a column of int32, int64, float64 or bool to `count` more rows, at least one, adds valid rows that hold 0 and keeps
-- the earlier rows and the invariant; Resize to the size it has, or to fewer rows, changes nothing.
-- The count of rows stays below 2 ^ 64 - 63.
pub resize_rows-Appends :
    (f : FieldVector) (count n : ℕ)
    → IsColumn f
    → 0 < count
    → f.size + count + 63 < 2 ^ 64
    → n ≤ f.size
    → Appends f (resize_rows f (f.size + count)) count (λ i. some (get_or (replicate count 0) i 0))
      × (resize_rows f n ≡ f)
unfolding resize_rows
resize_rows-Appends f count n column pos small le =
    let grows : leb (f.size + count) f.size ≡ false = ground arith in
    let stays : leb n f.size ≡ true = ground arith in
    let gap : f.size + count - f.size ≡ count = omega arith in
    let (same_type, arrays) = plain_array-resize_storage f count column in
    (
      rw (grows, gap)
          (extend_rows f
            (record (resize_storage f (f.size + count) f.type) {
              validity =
                  if Bitmap.size f.validity == 0
                  then f.validity
                  else grow_valid f.validity f.size count;
              size = f.size + count;
            })
            count (replicate count 0) (λ i. true) column same_type refl (length-replicate count 0)
            arrays (grow_valid-Extends f.size count f.validity column.fits small)),
      rw stays,
    )
