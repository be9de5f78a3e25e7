-- ===== src/FieldVector/Rows/Nulls.antt =====
-- engine/src/field_vector.cpp: AppendNull on a column of any type.
use mimic_rag.Bitmap
use mimic_rag.Bitmap.{Bitmap}
use mimic_rag.FieldVector.{
  FieldType, FieldVector, is_type, is_varlen, is_valid, resize_storage, all_valid, null_length,
  append_null,
}
use mimic_rag.FieldVector.Validity.{Fits, Extends, shown, append_null-Extends}
use mimic_rag.FieldVector.Rows.Grow.{resize-append}
use mimic_rag.Prelude.{
  ℕ, zero, suc, ◌+◌, ◌^◌, ◌<◌, ◌≡◌, refl, sym, ap, ◌∙◌, true, false, List, [], ◌∷◌, ◌++◌, arith,
  ◌==◌, if◌then◌else◌, length, set, resize, length-resize,
}

-- The array with an element for each row: the ids of a dictionary column, the lengths of byte runs.
abbrev pub row_array : FieldVector → FieldType → List ℕ
row_array f FieldType.int32 = f.data_i32
row_array f FieldType.int64 = f.data_i64
row_array f FieldType.float64 = f.data_f64
row_array f FieldType.bool = f.data_bool
row_array f FieldType.dict_int32 = f.data_dict_ids
row_array f FieldType.object = []
row_array f _ = f.data_lengths

-- `f'` is `f` with a null row behind its rows.
pub record AddsNull (f f' : FieldVector) : Type 0 where
  pub size : f'.size ≡ f.size + 1
  pub type : f'.type ≡ f.type
  pub stored :
      is_type f.type FieldType.object ≡ false → row_array f' f.type ≡ row_array f f.type ++ 0 ∷ []
  pub bytes : f'.data_bytes ≡ f.data_bytes
  pub dictionary : f'.dictionary ≡ f.dictionary
  pub offsets : is_varlen f.type ≡ true → f'.offsets_valid ≡ false
  pub fits : Fits (f.size + 1) f'.validity
  pub null : is_valid f' f.size ≡ false
  pub kept : (j : ℕ) → j < f.size → is_valid f' j ≡ is_valid f j

is_valid-shown : (f : FieldVector) (j : ℕ) → is_valid f j ≡ shown f.validity j
unfolding is_valid shown Bitmap.size
is_valid-shown f j = refl

set-append_last : (xs : List ℕ) (n x : ℕ) → n ≡ length xs → set (xs ++ x ∷ []) n x ≡ xs ++ x ∷ []
set-append_last [] zero x e = refl
set-append_last [] (suc n) x e = absurd (omega arith)
set-append_last (y ∷ xs) zero x e = absurd (omega arith)
set-append_last (y ∷ xs) (suc n) x e = ap (λ l. y ∷ l) (set-append_last xs n x (omega arith))

-- The lengths are resized already when AppendNull sets the one of the new row.
null_lengths :
    (n : ℕ) (lengths : List ℕ)
    → length lengths ≡ n
    → (if length (resize (n + 1) 0 lengths) == n + 1
        then set (resize (n + 1) 0 lengths) n 0
        else resize (n + 1) 0 lengths ++ 0 ∷ [])
      ≡ lengths ++ 0 ∷ []
null_lengths n lengths e =
    let more : resize (n + 1) 0 lengths ≡ lengths ++ 0 ∷ [] =
      resize-append (n + 1) 1 lengths (omega (arith, e)) in
    let full : (length (resize (n + 1) 0 lengths) == n + 1) ≡ true =
      ground (arith, length-resize {A = ℕ} (n + 1) 0 lengths) in
    rw (full, more) (set-append_last lengths n 0 (sym e))

-- What AppendNull leaves of the parts of a column that are not its bitmap.
record NullParts (f f' : FieldVector) : Type 0 where
  size : f'.size ≡ f.size + 1
  type : f'.type ≡ f.type
  stored :
      is_type f.type FieldType.object ≡ false → row_array f' f.type ≡ row_array f f.type ++ 0 ∷ []
  bytes : f'.data_bytes ≡ f.data_bytes
  dictionary : f'.dictionary ≡ f.dictionary
  offsets : is_varlen f.type ≡ true → f'.offsets_valid ≡ false
  validity :
      f'.validity
      ≡ Bitmap.set_value
          (Bitmap.resize_bits (all_valid f.validity f.size) (f.size + 1))
          f.size
          false

abbrev NullCase : FieldVector → Type 0
NullCase f =
    (is_type f.type FieldType.object ≡ false → length (row_array f f.type) ≡ f.size)
    → NullParts f (append_null f).0

differ : false ≡ true → ⊥
differ q = cc

-- Case by case of the type.
parts : (t : FieldType) (f : FieldVector) → NullCase (record f { type = t })
unfolding append_null null_length resize_storage
parts FieldType.int32 f e = record {
  size = refl;
  type = refl;
  bytes = refl;
  dictionary = refl;
  validity = refl;
  stored = λ o. resize-append (f.size + 1) 1 f.data_i32 (omega (arith, e refl));
  offsets = λ o. absurd (differ o);
}
parts FieldType.int64 f e = record {
  size = refl;
  type = refl;
  bytes = refl;
  dictionary = refl;
  validity = refl;
  stored = λ o. resize-append (f.size + 1) 1 f.data_i64 (omega (arith, e refl));
  offsets = λ o. absurd (differ o);
}
parts FieldType.float64 f e = record {
  size = refl;
  type = refl;
  bytes = refl;
  dictionary = refl;
  validity = refl;
  stored = λ o. resize-append (f.size + 1) 1 f.data_f64 (omega (arith, e refl));
  offsets = λ o. absurd (differ o);
}
parts FieldType.bool f e = record {
  size = refl;
  type = refl;
  bytes = refl;
  dictionary = refl;
  validity = refl;
  stored = λ o. resize-append (f.size + 1) 1 f.data_bool (omega (arith, e refl));
  offsets = λ o. absurd (differ o);
}
parts FieldType.dict_int32 f e = record {
  size = refl;
  type = refl;
  bytes = refl;
  dictionary = refl;
  validity = refl;
  stored = λ o. resize-append (f.size + 1) 1 f.data_dict_ids (omega (arith, e refl));
  offsets = λ o. absurd (differ o);
}
parts FieldType.string f e = record {
  size = refl;
  type = refl;
  bytes = refl;
  dictionary = refl;
  validity = refl;
  stored = λ o. null_lengths f.size f.data_lengths (e refl);
  offsets = λ o. refl;
}
parts FieldType.bytes f e = record {
  size = refl;
  type = refl;
  bytes = refl;
  dictionary = refl;
  validity = refl;
  stored = λ o. null_lengths f.size f.data_lengths (e refl);
  offsets = λ o. refl;
}
parts FieldType.array f e = record {
  size = refl;
  type = refl;
  bytes = refl;
  dictionary = refl;
  validity = refl;
  stored = λ o. null_lengths f.size f.data_lengths (e refl);
  offsets = λ o. refl;
}
parts FieldType.vector_float32 f e = record {
  size = refl;
  type = refl;
  bytes = refl;
  dictionary = refl;
  validity = refl;
  stored = λ o. null_lengths f.size f.data_lengths (e refl);
  offsets = λ o. refl;
}
parts FieldType.object f e = record {
  size = refl;
  type = refl;
  bytes = refl;
  dictionary = refl;
  validity = refl;
  stored = λ o. absurd (differ o);
  offsets = λ o. absurd (away o);
}
  where
    differ : true ≡ false → ⊥
    differ q = cc

    away : false ≡ true → ⊥
    away q = cc

-- AppendNull on a column of any type, with an element for each row unless the type is object, whose
-- bitmap is absent or has a bit for each row, and with the count of rows below 2 ^ 64 - 63, returns
-- true and adds a null row: the array of the rows gets a zero at the end, byte runs a length of 0 and
-- an offsets cache that is not valid, and the bytes, the dictionary and what is null of the earlier
-- rows stay.
pub append_null-AddsNull :
    (f : FieldVector)
    → (is_type f.type FieldType.object ≡ false → length (row_array f f.type) ≡ f.size)
    → Fits f.size f.validity
    → f.size + 1 + 63 < 2 ^ 64
    → ((append_null f).1 ≡ true) × AddsNull f (append_null f).0
append_null-AddsNull f stored fits small =
    let p : NullParts f (append_null f).0 = parts f.type f stored in
    let e : Extends f.size 1 (λ i. false) f.validity (append_null f).0.validity =
      rw p.validity (append_null-Extends f.size f.validity fits small) in
    (
      (unfold append_null in refl),
      record {
        size = p.size;
        type = p.type;
        stored = p.stored;
        bytes = p.bytes;
        dictionary = p.dictionary;
        offsets = p.offsets;
        fits = e.fits;
        null =
            is_valid-shown (append_null f).0 f.size
            ∙ ap (shown (append_null f).0.validity) (let q : f.size ≡ f.size + 0 = omega arith in q)
            ∙ e.added 0 (omega arith);
        kept = λ j h. is_valid-shown (append_null f).0 j ∙ e.kept j h ∙ sym (is_valid-shown f j);
      },
    )
