-- ===== src/ArrayCodec/RoundTrip.antt =====
-- engine/src/array_codec.cpp: DecodeArray gives back what EncodeArray wrote.
use mimic_rag.ArrayCodec.{
  FieldValue, field_value, FieldValues, no_values, values, field_type, int32_value, int64_value,
  float64_value, bool_value, string_value, bytes_value, array_value, vector_float32_value,
  null_value, value_count, payload_of, payload_unless, item, encode_values, encode_array,
  read_bytes, decode_items, decode_nested, decode_array,
}
use mimic_rag.Bytes.{le_bytes, read_le, length-le_bytes, read_le-le_bytes}
use mimic_rag.Dictionary.{u32}
use mimic_rag.ArrayCodec.Items.{
  read_bytes-le_bytes, flag_back, flag-lt, length-item, decode_items-item,
}
use mimic_rag.Prelude.{
  ℕ, zero, suc, ◌+◌, ◌^◌, ◌≤◌, ◌<◌, ◌≡◌, refl, sym, ap, ◌∙◌, Bool, true, false, not, Option, some,
  List, [], ◌++◌, arith, ◌==◌, if◌then◌else◌, ==_iff, length, length-append, append-nil,
}

-- The values that EncodeArray writes whole: what the factories build, except objects and vectors, in
-- numbers and sizes that fit their types.
mutual
  pub data Encodable : FieldValue → Type 0 where
    int32 : {v : ℕ} → v < 2 ^ 32 → Encodable (int32_value v)
    int64 : {v : ℕ} → v < 2 ^ 64 → Encodable (int64_value v)
    float64 : {v : ℕ} → v < 2 ^ 64 → Encodable (float64_value v)
    bool : {v : Bool} → Encodable (bool_value v)
    string : {v : List ℕ} → length v < 2 ^ 32 → Encodable (string_value v)
    bytes : {v : List ℕ} → length v < 2 ^ 32 → Encodable (bytes_value v)
    array :
        {vs : FieldValues}
        → AllEncodable vs
        → length (encode_array vs) < 2 ^ 32
        → Encodable (array_value vs)
    null : {type : ℕ} → type < 2 ^ 8 → Encodable (null_value type)

  pub data AllEncodable : FieldValues → Type 0 where
    none_left : AllEncodable no_values
    also :
        {v : FieldValue} {vs : FieldValues}
        → Encodable v
        → AllEncodable vs
        → AllEncodable (values v vs)

scalar_back : (w v : ℕ) → v < 256 ^ w → read_le w (le_bytes w v) 0 ≡ v
scalar_back w v h =
    ap (λ l. read_le w l 0) (sym (append-nil (le_bytes w v))) ∙ read_le-le_bytes w v [] h

whole_scalar : (w v : ℕ) → (length (le_bytes w v) == w) ≡ true
whole_scalar w v = (==_iff (length (le_bytes w v)) w).1 (length-le_bytes w v)

item-nonempty :
    (type : ℕ) (is_null : Bool) (payload : List ℕ) → 0 < length (item type is_null payload)
unfolding item le_bytes
item-nonempty type is_null payload = omega arith

value_count-le : (vs : FieldValues) → value_count vs ≤ length (encode_values vs)
unfolding value_count encode_values
value_count-le no_values = omega arith
value_count-le (values (field_value type is_null s a object) rest) =
    let payload : List ℕ =
      payload_unless is_null
        (payload_of (field_type type) s (le_bytes 4 (u32 (value_count a)) ++ encode_values a)) in
    omega (
      arith,
      value_count-le rest,
      item-nonempty type is_null payload,
      length-append (item type is_null payload) (encode_values rest),
    )

length-tail :
    (v : FieldValue) (rest : FieldValues)
    → length (encode_values rest) ≤ length (encode_values (values v rest))
unfolding encode_values
length-tail (field_value type is_null s a object) rest =
    let payload : List ℕ =
      payload_unless is_null
        (payload_of (field_type type) s (le_bytes 4 (u32 (value_count a)) ++ encode_values a)) in
    omega (arith, length-append (item type is_null payload) (encode_values rest))

length-encode_array : (vs : FieldValues) → length (encode_array vs) ≡ 4 + length (encode_values vs)
unfolding encode_array
length-encode_array vs = omega (
  arith,
  length-append (le_bytes 4 (u32 (value_count vs))) (encode_values vs),
  length-le_bytes 4 (u32 (value_count vs)),
)

-- A decoder that gives arrays back whose bytes are fewer than a bound.
abbrev GivesBack : (List ℕ → Option FieldValues) → ℕ → Type 0
GivesBack nested bound =
    (vs : FieldValues)
    → AllEncodable vs
    → value_count vs < 2 ^ 32
    → length (encode_array vs) < bound
    → nested (encode_array vs) ≡ some vs

module _ (nested : List ℕ → Option FieldValues) (bound : ℕ) (gives : GivesBack nested bound) where
  value_lem :
      (v : FieldValue) (rest : FieldValues)
      → Encodable v
      → length (encode_values (values v rest)) < bound
      → decode_items nested (value_count rest) (encode_values rest) ≡ some rest
      → decode_items nested (suc (value_count rest)) (encode_values (values v rest))
        ≡ some (values v rest)
  unfolding encode_values encode_array
  value_lem v rest (int32 {v = x} fits) enough later =
      decode_items-item nested (value_count rest) 0 false (le_bytes 4 x) (encode_values rest)
        (int32_value x) rest (omega arith) (omega (arith, length-le_bytes 4 x))
        (rw (whole_scalar 4 x) (ap (λ n. some (int32_value n)) (scalar_back 4 x (omega arith))))
        later
  value_lem v rest (int64 {v = x} fits) enough later =
      decode_items-item nested (value_count rest) 1 false (le_bytes 8 x) (encode_values rest)
        (int64_value x) rest (omega arith) (omega (arith, length-le_bytes 8 x))
        (rw (whole_scalar 8 x) (ap (λ n. some (int64_value n)) (scalar_back 8 x (omega arith))))
        later
  value_lem v rest (float64 {v = x} fits) enough later =
      decode_items-item nested (value_count rest) 2 false (le_bytes 8 x) (encode_values rest)
        (float64_value x) rest (omega arith) (omega (arith, length-le_bytes 8 x))
        (rw (whole_scalar 8 x) (ap (λ n. some (float64_value n)) (scalar_back 8 x (omega arith))))
        later
  value_lem v rest (bool {v = b}) enough later =
      let x : ℕ = if b then 1 else 0 in
      decode_items-item nested (value_count rest) 3 false (le_bytes 1 x) (encode_values rest)
        (bool_value b) rest (omega arith) (omega (arith, length-le_bytes 1 x))
        (rw (whole_scalar 1 x) (
          ap (λ n. some (bool_value (not (n == 0)))) (scalar_back 1 x (flag-lt b))
          ∙ ap (λ n. some (bool_value n)) (flag_back b)))
        later
  value_lem v rest (string {v = x} fits) enough later =
      decode_items-item nested (value_count rest) 5 false x (encode_values rest) (string_value x)
        rest (omega arith) fits refl later
  value_lem v rest (bytes {v = x} fits) enough later =
      decode_items-item nested (value_count rest) 6 false x (encode_values rest) (bytes_value x)
        rest (omega arith) fits refl later
  value_lem v rest (array {vs = a} all fits) enough later =
      decode_items-item nested (value_count rest) 7 false (encode_array a) (encode_values rest)
        (array_value a) rest (omega arith) fits (rw back refl) later
    where
      back : nested (encode_array a) ≡ some a
      back = gives a all (omega (arith, fits, value_count-le a, length-encode_array a)) (
          omega (
            arith,
            enough,
            length-append (item 7 false (encode_array a)) (encode_values rest),
            length-item 7 false (encode_array a) fits,
          ))
  value_lem v rest (null {type = t} byte) enough later =
      decode_items-item nested (value_count rest) t true [] (encode_values rest) (null_value t) rest
        byte (omega arith) refl later

  items_lem :
      (vs : FieldValues)
      → AllEncodable vs
      → length (encode_values vs) < bound
      → decode_items nested (value_count vs) (encode_values vs) ≡ some vs
  unfolding value_count
  items_lem no_values none_left enough = unfold decode_items in refl
  items_lem (values v rest) (also one all) enough =
      value_lem v rest one enough (items_lem rest all (omega (arith, length-tail v rest)))

nested_lem : (fuel : ℕ) → GivesBack (decode_nested fuel) fuel
unfolding decode_nested encode_array
nested_lem zero vs all few enough = absurd (omega arith)
nested_lem (suc fuel) vs all few enough =
    let small : u32 (value_count vs) ≡ value_count vs = omega arith in
    let counted : read_bytes 4 (le_bytes 4 (u32 (value_count vs)) ++ encode_values vs)
        ≡ some (u32 (value_count vs), encode_values vs) =
      read_bytes-le_bytes 4 (u32 (value_count vs)) (encode_values vs) (omega arith) in
    rw (counted, small)
      (items_lem (decode_nested fuel) fuel (nested_lem fuel) vs all
        (omega (arith, length-encode_array vs)))

-- DecodeArray gives back every array of fewer than 2 ^ 32 values that EncodeArray wrote whole: nested
-- arrays, nulls of any type, numbers, bools, strings and bytes.
pub decode-encode_array :
    (vs : FieldValues)
    → AllEncodable vs
    → value_count vs < 2 ^ 32
    → decode_array (encode_array vs) ≡ some vs
unfolding decode_array
decode-encode_array vs all few = nested_lem (length (encode_array vs) + 1) vs all few (omega arith)

-- EncodeArray writes no float of a vector: what DecodeArray gives back of an array of one vector is an
-- array of an empty vector.
pub decode-encode_array_vector :
    (floats : List ℕ)
    → decode_array (encode_array (values (vector_float32_value floats) no_values))
      ≡ some (values (vector_float32_value []) no_values)
unfolding decode_array decode_nested decode_items read_bytes encode_array encode_values item
    value_count read_le le_bytes
decode-encode_array_vector floats = refl
