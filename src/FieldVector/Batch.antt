-- ===== src/FieldVector/Batch.antt =====
-- engine/src/field_vector.cpp: the appends of whole batches.
use mimic_rag.Bitmap
use mimic_rag.Bitmap.{Bitmap}
use mimic_rag.Dictionary
use mimic_rag.Dictionary.{DictionaryInt32}
use mimic_rag.FieldVector.{FieldType, FieldVector, is_type, is_varlen, all_valid}
use mimic_rag.Prelude.{
  ℕ, ◌+◌, Bool, true, false, not, ◌||◌, Option, none, some, List, [], ◌∷◌, ◌++◌, ◌==◌,
  if◌then◌else◌, length, get_or, count, drop, resize, for_below,
}

unfoldable pub append_validity : Bitmap → ℕ → List ℕ → ℕ → Bitmap
append_validity bitmap size validity count =
    Bitmap.append_bits (all_valid bitmap size) validity count

-- The validity that a batch append leaves: `none` is the null pointer.
unfoldable pub batch_validity : FieldVector → Option (List ℕ) → ℕ → Bitmap
unfolding append_validity
batch_validity f none count =
    if Bitmap.size f.validity == 0 then f.validity else Bitmap.append_all_true f.validity count
batch_validity f (some validity) count = append_validity f.validity f.size validity count

unfoldable pub append_batch_int32 : FieldVector → List ℕ → ℕ → Option (List ℕ) → FieldVector × Bool
unfolding batch_validity
append_batch_int32 f values count validity =
    if not (is_type f.type FieldType.int32)
    then (f, false)
    else if count == 0
    then (f, true)
    else let stored = f.data_i32 ++ resize count 0 values in
      (
        record f {
          data_i32 = stored;
          validity = batch_validity f validity count;
          size = length stored;
        },
        true,
      )

unfoldable pub append_batch_int64 : FieldVector → List ℕ → ℕ → Option (List ℕ) → FieldVector × Bool
unfolding batch_validity
append_batch_int64 f values count validity =
    if not (is_type f.type FieldType.int64)
    then (f, false)
    else if count == 0
    then (f, true)
    else let stored = f.data_i64 ++ resize count 0 values in
      (
        record f {
          data_i64 = stored;
          validity = batch_validity f validity count;
          size = length stored;
        },
        true,
      )

unfoldable pub append_batch_float64 :
    FieldVector → List ℕ → ℕ → Option (List ℕ) → FieldVector × Bool
unfolding batch_validity
append_batch_float64 f values count validity =
    if not (is_type f.type FieldType.float64)
    then (f, false)
    else if count == 0
    then (f, true)
    else let stored = f.data_f64 ++ resize count 0 values in
      (
        record f {
          data_f64 = stored;
          validity = batch_validity f validity count;
          size = length stored;
        },
        true,
      )

unfoldable pub append_batch_bool : FieldVector → List ℕ → ℕ → Option (List ℕ) → FieldVector × Bool
unfolding batch_validity
append_batch_bool f values count validity =
    if not (is_type f.type FieldType.bool)
    then (f, false)
    else if count == 0
    then (f, true)
    else let stored = f.data_bool ++ resize count 0 values in
      (
        record f {
          data_bool = stored;
          validity = batch_validity f validity count;
          size = length stored;
        },
        true,
      )

-- data_dict_ids[start + i] = dictionary.Add(values[i])
add_each : List ℕ → ℕ → DictionaryInt32 × List ℕ → DictionaryInt32 × List ℕ
add_each values i (dictionary, ids) =
    let (dictionary', id) = Dictionary.add dictionary (get_or values i 0) in
    (dictionary', ids ++ id ∷ [])

unfoldable pub append_batch_dict_int32 :
    FieldVector → List ℕ → ℕ → Option (List ℕ) → FieldVector × Bool
unfolding batch_validity add_each
append_batch_dict_int32 f values count validity =
    if not (is_type f.type FieldType.dict_int32)
    then (f, false)
    else if count == 0
    then (f, true)
    else let (dictionary, ids) =
        for_below count (add_each values) (f.dictionary, f.data_dict_ids) in
      (
        record f {
          dictionary = dictionary;
          data_dict_ids = ids;
          validity = batch_validity f validity count;
          size = length ids;
        },
        true,
      )

-- One round of the loop over the runs of bytes: the bytes stored, and the offset read so far.
copy_run : List ℕ → List ℕ → ℕ → List ℕ × ℕ → List ℕ × ℕ
copy_run lengths bytes i (stored, offset) =
    let len = get_or lengths i 0 in
    if len == 0
    then (stored, offset)
    else (stored ++ resize len 0 (drop offset bytes), offset + len)

append_runs : FieldVector → List ℕ → List ℕ → ℕ → Option (List ℕ) → FieldVector
unfolding copy_run batch_validity
append_runs f lengths bytes count validity =
    let stored = f.data_lengths ++ resize count 0 lengths in
    record f {
      data_lengths = stored;
      offsets_valid = false;
      data_bytes = (for_below count (copy_run lengths bytes) (f.data_bytes, 0)).0;
      validity = batch_validity f validity count;
      size = length stored;
    }

unfoldable pub append_batch_string :
    FieldVector → List ℕ → List ℕ → ℕ → Option (List ℕ) → FieldVector × Bool
unfolding append_runs
append_batch_string f lengths bytes count validity =
    if not (is_type f.type FieldType.string)
    then (f, false)
    else if count == 0
    then (f, true)
    else (append_runs f lengths bytes count validity, true)

unfoldable pub append_batch_bytes :
    FieldVector → List ℕ → List ℕ → ℕ → Option (List ℕ) → FieldVector × Bool
unfolding append_runs
append_batch_bytes f lengths bytes count validity =
    if not (is_varlen f.type) || is_type f.type FieldType.string
    then (f, false)
    else if count == 0
    then (f, true)
    else (append_runs f lengths bytes count validity, true)
