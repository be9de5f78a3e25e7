-- ===== src/FieldVector/Rows/Append.antt =====
-- engine/src/field_vector.cpp: the appends of one value and of a batch on a column of their type.
use mimic_rag.FieldVector.{
  is_type, append_bool, append_float64, append_int64, append_valid, resize, append_int32, FieldType,
  FieldVector,
}
use mimic_rag.FieldVector.Batch.{
  batch_validity, append_batch_int32, append_batch_int64, append_batch_float64, append_batch_bool,
}
use mimic_rag.FieldVector.Validity.Batch.{batch_shown}
use mimic_rag.Prelude.{
  ℕ, ◌<◌, ◌≡◌, refl, ap, Bool, Option, List, [], ◌++◌, arith, if◌then◌else◌, length, count, ◌∷◌,
  true, ◌==◌, false, ◌+◌, ◌^◌,
}
use mimic_rag.FieldVector.Rows.{plain_array, IsColumn, Appends, new_rows, append_one, append_many}

module _ (f : FieldVector) (column : IsColumn f) where
  -- AppendInt32 on a int32 column returns true and adds one valid row that holds the value; every earlier
  -- row, null or not, stays as it was, and the invariant of the column is kept. The count of rows
  -- stays below 2 ^ 64 - 63.
  pub append_int32-Appends :
      (value : ℕ)
      → f.size + 1 + 63 < 2 ^ 64
      → f.type ≡ FieldType.int32
      → ((append_int32 f value).1 ≡ true)
        × Appends f (append_int32 f value).0 1 (new_rows (value ∷ []) (λ i. true))
  unfolding append_int32
  append_int32-Appends value small e =
      let test : is_type f.type FieldType.int32 ≡ true = ap (λ t. is_type t FieldType.int32) e in
      let stored : List ℕ = f.data_i32 ++ value ∷ [] in
      let f' : FieldVector = record f {
        data_i32 = stored;
        validity = append_valid f.validity (length stored);
        size = length stored;
      } in
      rw test (
        refl,
        append_one f f' value f.data_i32 column small refl (ap (plain_array f) e)
            (ap (plain_array f') e) refl refl,
      )

  -- AppendInt64 on a int64 column returns true and adds one valid row that holds the value; every earlier
  -- row, null or not, stays as it was, and the invariant of the column is kept. The count of rows
  -- stays below 2 ^ 64 - 63.
  pub append_int64-Appends :
      (value : ℕ)
      → f.size + 1 + 63 < 2 ^ 64
      → f.type ≡ FieldType.int64
      → ((append_int64 f value).1 ≡ true)
        × Appends f (append_int64 f value).0 1 (new_rows (value ∷ []) (λ i. true))
  unfolding append_int64
  append_int64-Appends value small e =
      let test : is_type f.type FieldType.int64 ≡ true = ap (λ t. is_type t FieldType.int64) e in
      let stored : List ℕ = f.data_i64 ++ value ∷ [] in
      let f' : FieldVector = record f {
        data_i64 = stored;
        validity = append_valid f.validity (length stored);
        size = length stored;
      } in
      rw test (
        refl,
        append_one f f' value f.data_i64 column small refl (ap (plain_array f) e)
            (ap (plain_array f') e) refl refl,
      )

  -- AppendFloat64 on a float64 column returns true and adds one valid row that holds the value; every earlier
  -- row, null or not, stays as it was, and the invariant of the column is kept. The count of rows
  -- stays below 2 ^ 64 - 63.
  pub append_float64-Appends :
      (value : ℕ)
      → f.size + 1 + 63 < 2 ^ 64
      → f.type ≡ FieldType.float64
      → ((append_float64 f value).1 ≡ true)
        × Appends f (append_float64 f value).0 1 (new_rows (value ∷ []) (λ i. true))
  unfolding append_float64
  append_float64-Appends value small e =
      let test : is_type f.type FieldType.float64 ≡ true =
        ap (λ t. is_type t FieldType.float64) e in
      let stored : List ℕ = f.data_f64 ++ value ∷ [] in
      let f' : FieldVector = record f {
        data_f64 = stored;
        validity = append_valid f.validity (length stored);
        size = length stored;
      } in
      rw test (
        refl,
        append_one f f' value f.data_f64 column small refl (ap (plain_array f) e)
            (ap (plain_array f') e) refl refl,
      )

  -- AppendBool on a bool column returns true and adds one valid row that holds 1 or 0; every earlier
  -- row, null or not, stays as it was, and the invariant of the column is kept. The count of rows
  -- stays below 2 ^ 64 - 63.
  pub append_bool-Appends :
      (flag : Bool)
      → f.size + 1 + 63 < 2 ^ 64
      → f.type ≡ FieldType.bool
      → ((append_bool f flag).1 ≡ true)
        × Appends f (append_bool f flag).0 1 (new_rows ((if flag then 1 else 0) ∷ []) (λ i. true))
  unfolding append_bool
  append_bool-Appends flag small e =
      let test : is_type f.type FieldType.bool ≡ true = ap (λ t. is_type t FieldType.bool) e in
      let stored : List ℕ = f.data_bool ++ (if flag then 1 else 0) ∷ [] in
      let f' : FieldVector = record f {
        data_bool = stored;
        validity = append_valid f.validity (length stored);
        size = length stored;
      } in
      rw test (
        refl,
        append_one f f' (if flag then 1 else 0) f.data_bool column small refl (ap (plain_array f) e)
            (ap (plain_array f') e) refl refl,
      )

  -- AppendBatchInt32 of at least one value on a int32 column returns true and adds a row for each
  -- value, a null where a validity array is given that holds 0; every earlier row stays as it was,
  -- and the invariant of the column is kept. The count of rows stays below 2 ^ 64 - 63.
  pub append_batch_int32-Appends :
      (values : List ℕ) (count : ℕ) (validity : Option (List ℕ))
      → 0 < count
      → f.size + count + 63 < 2 ^ 64
      → f.type ≡ FieldType.int32
      → ((append_batch_int32 f values count validity).1 ≡ true)
        × Appends f
            (append_batch_int32 f values count validity).0
            count
            (new_rows (resize count 0 values) (batch_shown validity))
  unfolding append_batch_int32
  append_batch_int32-Appends values count validity pos small e =
      let some_rows : (count == 0) ≡ false = ground arith in
      let test : is_type f.type FieldType.int32 ≡ true = ap (λ t. is_type t FieldType.int32) e in
      let stored : List ℕ = f.data_i32 ++ resize count 0 values in
      let f' : FieldVector = record f {
        data_i32 = stored;
        validity = batch_validity f validity count;
        size = length stored;
      } in
      rw (test, some_rows)
        (
          refl,
          append_many f f' values count validity f.data_i32 column small refl (ap (plain_array f) e)
              (ap (plain_array f') e) refl refl,
        )

  -- AppendBatchInt64 of at least one value on a int64 column returns true and adds a row for each
  -- value, a null where a validity array is given that holds 0; every earlier row stays as it was,
  -- and the invariant of the column is kept. The count of rows stays below 2 ^ 64 - 63.
  pub append_batch_int64-Appends :
      (values : List ℕ) (count : ℕ) (validity : Option (List ℕ))
      → 0 < count
      → f.size + count + 63 < 2 ^ 64
      → f.type ≡ FieldType.int64
      → ((append_batch_int64 f values count validity).1 ≡ true)
        × Appends f
            (append_batch_int64 f values count validity).0
            count
            (new_rows (resize count 0 values) (batch_shown validity))
  unfolding append_batch_int64
  append_batch_int64-Appends values count validity pos small e =
      let some_rows : (count == 0) ≡ false = ground arith in
      let test : is_type f.type FieldType.int64 ≡ true = ap (λ t. is_type t FieldType.int64) e in
      let stored : List ℕ = f.data_i64 ++ resize count 0 values in
      let f' : FieldVector = record f {
        data_i64 = stored;
        validity = batch_validity f validity count;
        size = length stored;
      } in
      rw (test, some_rows)
        (
          refl,
          append_many f f' values count validity f.data_i64 column small refl (ap (plain_array f) e)
              (ap (plain_array f') e) refl refl,
        )

  -- AppendBatchFloat64 of at least one value on a float64 column returns true and adds a row for each
  -- value, a null where a validity array is given that holds 0; every earlier row stays as it was,
  -- and the invariant of the column is kept. The count of rows stays below 2 ^ 64 - 63.
  pub append_batch_float64-Appends :
      (values : List ℕ) (count : ℕ) (validity : Option (List ℕ))
      → 0 < count
      → f.size + count + 63 < 2 ^ 64
      → f.type ≡ FieldType.float64
      → ((append_batch_float64 f values count validity).1 ≡ true)
        × Appends f
            (append_batch_float64 f values count validity).0
            count
            (new_rows (resize count 0 values) (batch_shown validity))
  unfolding append_batch_float64
  append_batch_float64-Appends values count validity pos small e =
      let some_rows : (count == 0) ≡ false = ground arith in
      let test : is_type f.type FieldType.float64 ≡ true =
        ap (λ t. is_type t FieldType.float64) e in
      let stored : List ℕ = f.data_f64 ++ resize count 0 values in
      let f' : FieldVector = record f {
        data_f64 = stored;
        validity = batch_validity f validity count;
        size = length stored;
      } in
      rw (test, some_rows)
        (
          refl,
          append_many f f' values count validity f.data_f64 column small refl (ap (plain_array f) e)
              (ap (plain_array f') e) refl refl,
        )

  -- AppendBatchBool of at least one value on a bool column returns true and adds a row for each
  -- value, a null where a validity array is given that holds 0; every earlier row stays as it was,
  -- and the invariant of the column is kept. The count of rows stays below 2 ^ 64 - 63.
  pub append_batch_bool-Appends :
      (values : List ℕ) (count : ℕ) (validity : Option (List ℕ))
      → 0 < count
      → f.size + count + 63 < 2 ^ 64
      → f.type ≡ FieldType.bool
      → ((append_batch_bool f values count validity).1 ≡ true)
        × Appends f
            (append_batch_bool f values count validity).0
            count
            (new_rows (resize count 0 values) (batch_shown validity))
  unfolding append_batch_bool
  append_batch_bool-Appends values count validity pos small e =
      let some_rows : (count == 0) ≡ false = ground arith in
      let test : is_type f.type FieldType.bool ≡ true = ap (λ t. is_type t FieldType.bool) e in
      let stored : List ℕ = f.data_bool ++ resize count 0 values in
      let f' : FieldVector = record f {
        data_bool = stored;
        validity = batch_validity f validity count;
        size = length stored;
      } in
      rw (test, some_rows)
        (
          refl,
          append_many f f' values count validity f.data_bool column small refl
              (ap (plain_array f) e) (ap (plain_array f') e) refl refl,
        )
