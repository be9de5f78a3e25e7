-- ===== src/Tests/Columns.antt =====
-- Columns and their encodings at concrete inputs.
use mimic_rag.Bytes.{le_bytes, array_bytes, read_le}
use mimic_rag.Bitmap
use mimic_rag.Column.{u64, ColumnCompressionKind, CompressedColumnView}
use mimic_rag.Column.Source.{int_value, min_value, HoldsInts}
use mimic_rag.Column
use mimic_rag.Column.DictCodec.{dict_rows, dict_aux, encode_dictionary, decode_dictionary}
use mimic_rag.Column.DictCodec.RoundTrip.{decode-encode_dictionary}
use mimic_rag.Column.Kernel.{
  CompressionPredicate, scan_predicate_for_delta, scan_predicate_for_delta_lem,
}
use mimic_rag.Column.ForDelta.{
  deltas, encode_for_delta, read_for_delta_header, decode_for_delta, wanted, decode_for_delta_lem,
  decode-encode_for_delta,
}
use mimic_rag.Dictionary.{u32}
use mimic_rag.FieldVector.{
  FieldType, FieldVector, new_field, is_valid, append_int64, append_null, resize_rows,
}
use mimic_rag.FieldVector.Batch.{append_batch_int64}
use mimic_rag.FieldVector.Offsets.{with_offsets_lem, resize_rows-keeps_offsets}
use mimic_rag.FieldVector.Rows.{IsColumn, Appends, new_rows}
use mimic_rag.FieldVector.Rows.Append.{append_int64-Appends, append_batch_int64-Appends}
use mimic_rag.FieldVector.Rows.Nulls.{AddsNull, append_null-AddsNull}
use mimic_rag.FieldVector.Rows.Grow.{resize_rows-Appends}
use mimic_rag.FieldVector.Validity.Batch.{batch_shown}
use mimic_rag.FieldVector.Varlen.{with_offsets, start_of}
use mimic_rag.Lz4.{encode_lz4_literal, decode_blocks, decode_lz4_literal}
use mimic_rag.Lz4.Limits.{Within, decode_lz4_literal-Within}
use mimic_rag.Lz4.RoundTrip.{decode-encode_lz4_literal}
use mimic_rag.Mask
use mimic_rag.Mask.{Mask}
use mimic_rag.Predicate.{CompareOp, compare_int64}
use mimic_rag.Schema.{fingerprint, type_byte, fingerprint-moved_name}
use mimic_rag.Prelude.{
  not, ◌*◌, ℕ, zero, suc, ◌+◌, ◌^◌, ◌<◌, ◌≡◌, refl, inl, true, ◌&&◌, none, some, List, [], ◌∷◌,
  arith, ltb, if◌then◌else◌, length, get_or, replicate, resize, false, ◌||◌, ◌++◌,
}

abbrev ints : FieldVector
ints = record (new_field [] FieldType.int64) { data_i64 = 9 ∷ 7 ∷ []; size = 2 }

ints-IsColumn : IsColumn ints
ints-IsColumn = record {
  plain = tt;
  stored = refl;
  fits = record { counted = inl refl; covers = ground arith };
}

append_int64-Appends_example :
    ((append_int64 ints 4).1 ≡ true)
    × Appends ints (append_int64 ints 4).0 1 (new_rows (4 ∷ []) (λ i. true))
append_int64-Appends_example = append_int64-Appends ints ints-IsColumn 4 (omega arith) refl

append_batch_int64-Appends_example :
    ((append_batch_int64 ints (4 ∷ 5 ∷ []) 2 (some (1 ∷ 0 ∷ []))).1 ≡ true)
    × Appends ints
        (append_batch_int64 ints (4 ∷ 5 ∷ []) 2 (some (1 ∷ 0 ∷ []))).0
        2
        (new_rows (resize 2 0 (4 ∷ 5 ∷ [])) (batch_shown (some (1 ∷ 0 ∷ []))))
append_batch_int64-Appends_example =
    append_batch_int64-Appends ints ints-IsColumn (4 ∷ 5 ∷ []) 2 (some (1 ∷ 0 ∷ [])) (omega arith)
      (omega arith) refl

resize_rows-Appends_example :
    Appends ints (resize_rows ints (2 + 3)) 3 (λ i. some (get_or (replicate 3 0) i 0))
    × (resize_rows ints 1 ≡ ints)
resize_rows-Appends_example =
    resize_rows-Appends ints 3 1 ints-IsColumn (omega arith) (omega arith) (omega arith)

abbrev strings : FieldVector
strings = record (new_field [] FieldType.string) {
  data_bytes = 65 ∷ 66 ∷ 67 ∷ [];
  data_lengths = 1 ∷ 2 ∷ [];
  size = 2;
}

abbrev cached_strings : FieldVector
cached_strings = record strings { data_offsets = 0 ∷ 1 ∷ 3 ∷ []; offsets_valid = true }

append_null-AddsNull_example :
    ((append_null cached_strings).1 ≡ true) × AddsNull cached_strings (append_null cached_strings).0
append_null-AddsNull_example =
    append_null-AddsNull cached_strings (λ o. refl)
      (record { counted = inl refl; covers = omega arith }) (omega arith)

with_offsets_lem_example :
    let f' = (with_offsets strings).0 in
    ((with_offsets strings).1 ≡ some f'.data_offsets)
    × (with_offsets f' ≡ with_offsets strings)
    × (length f'.data_offsets ≡ length {A = ℕ} (1 ∷ 2 ∷ []) + 1)
    × (get_or f'.data_offsets 2 0 ≡ u32 (start_of (1 ∷ 2 ∷ []) 2))
with_offsets_lem_example = with_offsets_lem strings 2 refl refl (omega arith)

resize_rows-keeps_offsets_example :
    (length (resize_rows cached_strings (2 + 1)).data_lengths ≡ 2 + 1)
    × ((with_offsets (resize_rows cached_strings (2 + 1))).1 ≡ some (0 ∷ 1 ∷ 3 ∷ []))
resize_rows-keeps_offsets_example =
    resize_rows-keeps_offsets cached_strings 1 refl refl (omega arith) (omega arith)

ints-HoldsInts : HoldsInts ints
ints-HoldsInts = record { int32s = λ i. omega arith; int64s = stored }
  where
    stored : (i : ℕ) → get_or (9 ∷ 7 ∷ []) i 0 < 2 ^ 64
    stored zero = omega arith
    stored (suc zero) = omega arith
    stored (suc (suc i)) = omega arith

first_row_valid : is_valid ints 0 ≡ true
unfolding is_valid Bitmap.size
first_row_valid = refl

least_of_ints : min_value ints ≡ 7
unfolding min_value is_valid Bitmap.size int_value
least_of_ints = refl

first_of_ints : int_value ints 0 ≡ 9
unfolding int_value
first_of_ints = refl

abbrev delta_column : CompressedColumnView
delta_column = record {
  kind = ColumnCompressionKind.for_delta;
  type = FieldType.int64;
  bytes = some (array_bytes 4 (deltas ints));
  aux = some (le_bytes 8 (min_value ints));
  dict = none;
  validity_words = none;
  row_count = 2;
  raw_data_size = 16;
}

abbrev no_mask : Mask
no_mask = Mask.with_bits 0

wants_all : wanted no_mask 0 ≡ true
unfolding Mask.size Mask.with_bits
wants_all = refl

decode-encode_for_delta_example :
    (encode_for_delta ints ≡ some (array_bytes 4 (deltas ints), le_bytes 8 (min_value ints)))
    × (get_or (decode_for_delta delta_column no_mask (1 ∷ 1 ∷ [])) 0 0 ≡ int_value ints 0)
decode-encode_for_delta_example =
    decode-encode_for_delta ints delta_column no_mask (1 ∷ 1 ∷ []) 0 ints-HoldsInts refl refl refl
      refl (omega arith) (omega arith) first_row_valid (omega (arith, least_of_ints, first_of_ints))
      wants_all

abbrev raw_column : CompressedColumnView
raw_column = record delta_column {
  bytes = some (2 ∷ 0 ∷ 0 ∷ 0 ∷ 0 ∷ 0 ∷ 0 ∷ 0 ∷ []);
  aux = some (7 ∷ 0 ∷ 0 ∷ 0 ∷ 0 ∷ 0 ∷ 0 ∷ 0 ∷ []);
}

raw_header : read_for_delta_header raw_column.aux ≡ some 7
unfolding read_for_delta_header mimic_rag.Bytes.read_le
raw_header = refl

decode_for_delta_lem_example : get_or (decode_for_delta raw_column no_mask (1 ∷ 1 ∷ [])) 0 0 ≡ (
    if ltb 0 2 && wanted no_mask 0
    then u64 (7 + read_le 4 (2 ∷ 0 ∷ 0 ∷ 0 ∷ 0 ∷ 0 ∷ 0 ∷ 0 ∷ []) (0 * 4))
    else get_or (1 ∷ 1 ∷ []) 0 0)
decode_for_delta_lem_example =
    decode_for_delta_lem raw_column no_mask (1 ∷ 1 ∷ []) (2 ∷ 0 ∷ 0 ∷ 0 ∷ 0 ∷ 0 ∷ 0 ∷ 0 ∷ []) 7 0
      refl raw_header (omega arith)

abbrev text : List ℕ
text = replicate 20 65

decode-encode_lz4_literal_example :
    decode_lz4_literal (encode_lz4_literal text) (length text) ≡ (true, text)
decode-encode_lz4_literal_example = decode-encode_lz4_literal text

decode_lz4_literal-Within_example :
    Within 4 (decode_lz4_literal (32 ∷ 1 ∷ 2 ∷ 240 ∷ []) 4)
    × (decode_blocks (length {A = ℕ} (32 ∷ 1 ∷ 2 ∷ 240 ∷ []) + 3) (32 ∷ 1 ∷ 2 ∷ 240 ∷ []) 4 []
        ≡ decode_blocks (length {A = ℕ} (32 ∷ 1 ∷ 2 ∷ 240 ∷ [])) (32 ∷ 1 ∷ 2 ∷ 240 ∷ []) 4 [])
decode_lz4_literal-Within_example = decode_lz4_literal-Within (32 ∷ 1 ∷ 2 ∷ 240 ∷ []) 4 3

abbrev dict_column : CompressedColumnView
dict_column = record delta_column {
  kind = ColumnCompressionKind.dictionary;
  bytes = some (array_bytes 4 (dict_rows ints).1);
  aux = some (dict_aux (dict_rows ints).0.values);
}

no_words : Column.is_valid none 0 ≡ true
unfolding Column.is_valid
no_words = refl

decode-encode_dictionary_example :
    (encode_dictionary ints
      ≡ some (array_bytes 4 (dict_rows ints).1, dict_aux (dict_rows ints).0.values))
    × (get_or (decode_dictionary dict_column no_mask (1 ∷ 1 ∷ [])) 0 0 ≡ int_value ints 0)
decode-encode_dictionary_example =
    decode-encode_dictionary ints dict_column no_mask (1 ∷ 1 ∷ []) 0 ints-HoldsInts refl refl refl
      refl no_words (omega arith) (omega arith) (omega arith) first_row_valid wants_all

abbrev above_eight : CompressionPredicate
above_eight = record {
  type = FieldType.int64;
  op = CompareOp.gt;
  is_null_check = false;
  is_not_null_check = false;
  null_is = true;
  i64 = 8;
  bool_value = 0;
  bytes = [];
}

scan_predicate_for_delta_lem_example :
    (mask : Mask) × (scan_predicate_for_delta raw_column above_eight (some no_mask) ≡ some mask)
    × (Mask.get mask 0 ≡ (
        ltb 0 2
        && (if false || false
            then (if false && not false
                then not (Column.is_valid none 0)
                else Column.is_valid none 0)
            else Column.is_valid none 0
              && compare_int64
                  (u64 (7 + read_le 4 (2 ∷ 0 ∷ 0 ∷ 0 ∷ 0 ∷ 0 ∷ 0 ∷ 0 ∷ []) (0 * 4)))
                  8
                  CompareOp.gt)))
scan_predicate_for_delta_lem_example =
    scan_predicate_for_delta_lem raw_column above_eight no_mask (2 ∷ 0 ∷ 0 ∷ 0 ∷ 0 ∷ 0 ∷ 0 ∷ 0 ∷ [])
      7 0 (omega arith) refl raw_header

fingerprint-moved_name_example :
    fingerprint (
      record { name = (97 ∷ []) ++ (type_byte FieldType.int64 ∷ 98 ∷ []); type = FieldType.int64 }
      ∷ record { name = []; type = FieldType.string }
      ∷ [])
    ≡ fingerprint (
        record { name = 97 ∷ []; type = FieldType.int64 }
        ∷ record { name = (98 ∷ []) ++ (type_byte FieldType.int64 ∷ []); type = FieldType.string }
        ∷ [])
fingerprint-moved_name_example =
    fingerprint-moved_name (97 ∷ []) (98 ∷ []) FieldType.int64 FieldType.string
