-- ===== src/Tests/Arrays.antt =====
-- Runs of the array codec, and its theorems at these inputs.
use mimic_rag.ArrayCodec.{
  FieldValues, no_values, values, int32_value, bool_value, string_value, array_value, null_value,
  vector_float32_value, value_count, encode_array, decode_array, encode_values, item,
}
use mimic_rag.ArrayCodec.RoundTrip.{
  Encodable, AllEncodable, none_left, also, decode-encode_array, decode-encode_array_vector,
}
use mimic_rag.Bytes.{le_bytes}
use mimic_rag.Prelude.{◌≡◌, refl, ap, true, some, [], ◌∷◌, arith, length}

-- The string "ab" and a null double.
abbrev inner : FieldValues
inner = values (string_value (97 ∷ 98 ∷ [])) (values (null_value 2) no_values)

-- 7, the array of these two, and true.
abbrev outer : FieldValues
outer = values (int32_value 7) (values (array_value inner) (values (bool_value true) no_values))

inner_bytes :
    encode_array inner
    ≡ 2 ∷ 0 ∷ 0 ∷ 0 ∷ 5 ∷ 0 ∷ 0 ∷ 0 ∷ 2 ∷ 0 ∷ 0 ∷ 0 ∷ 97 ∷ 98 ∷ 2 ∷ 1 ∷ 0 ∷ 0 ∷ 0 ∷ 0 ∷ 0 ∷ 0 ∷ []
unfolding encode_array encode_values item le_bytes value_count
inner_bytes = refl

outer-AllEncodable : AllEncodable outer
outer-AllEncodable = also (Encodable.int32 (omega arith)) (
    also
      (Encodable.array
        (also (Encodable.string (omega arith)) (also (Encodable.null (omega arith)) none_left))
        (omega (arith, ap length inner_bytes)))
      (also Encodable.bool none_left))

decode-encode_array_example : decode_array (encode_array outer) ≡ some outer
decode-encode_array_example =
    decode-encode_array outer outer-AllEncodable (unfold value_count in omega arith)

decode-encode_array_vector_example :
    decode_array (encode_array (values (vector_float32_value (1065353216 ∷ [])) no_values))
    ≡ some (values (vector_float32_value []) no_values)
decode-encode_array_vector_example = decode-encode_array_vector (1065353216 ∷ [])
