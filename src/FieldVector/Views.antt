-- ===== src/FieldVector/Views.antt =====
-- engine/src/field_vector.cpp: what a column shows of its dictionary and its byte runs, and the
-- validity that is loaded from a file. A view of an array is the array; `none` is a null pointer.
use mimic_rag.Bitmap
use mimic_rag.Dictionary
use mimic_rag.FieldVector.{FieldType, FieldVector, is_type, is_varlen}
use mimic_rag.Prelude.{ℕ, Bool, true, Option, none, some, List, if◌then◌else◌, length}

unfoldable pub dictionary_size : FieldVector → ℕ
dictionary_size f = if is_type f.type FieldType.dict_int32 then Dictionary.size f.dictionary else 0

unfoldable pub dictionary_value : FieldVector → ℕ → ℕ
dictionary_value f id = Dictionary.value_of f.dictionary id

unfoldable pub bytes_view : FieldVector → Option (List ℕ)
bytes_view f = if is_varlen f.type then some f.data_bytes else none

unfoldable pub lengths_view : FieldVector → Option (List ℕ)
lengths_view f = if is_varlen f.type then some f.data_lengths else none

unfoldable pub bytes_size : FieldVector → ℕ
bytes_size f = if is_varlen f.type then length f.data_bytes else 0

unfoldable pub load_validity_words : FieldVector → List ℕ → ℕ → FieldVector × Bool
load_validity_words f words bit_count =
    (record f { validity = Bitmap.load_words words bit_count }, true)
