-- ===== src/ArrayCodec.antt =====
-- engine/src/array_codec.cpp, FieldValue of engine/include/mimicdb/dataset.h and its factories in
-- engine/src/dataset.cpp. The type of a value is the byte of its enum, which a decoder may fill with
-- any byte; numbers and floats are their bit patterns.
pub mod Items
pub mod RoundTrip
use mimic_rag.Bytes.{le_bytes, array_bytes, read_le}
use mimic_rag.Dictionary.{u32}
use mimic_rag.FieldVector.{FieldType}
use mimic_rag.Prelude.{
  ℕ, zero, suc, ◌+◌, ◌-◌, ◌*◌, ◌/◌, ◌%◌, ◌^◌, ◌≤◌, ◌<◌, min, max, bit_and, bit_or, bit_xor, ◌≡◌,
  refl, sym, ap, ap₂, subst, ◌∙◌, ◌≢◌, ◌↔◌, ◌⊎◌, inl, inr, Bool, true, false, not, ◌&&◌, ◌||◌,
  Option, none, some, List, [], ◌∷◌, ◌++◌, map, arith, dec_lt, ℕ_discrete, ltb, leb, ◌==◌,
  if◌then◌else◌, lt→ltb, le→ltb, le→leb, and-parts, and-true, ==_refl, ==_iff, Bool-cases,
  Option-cases, length, get_or, get_elem?, count, count-append, count_single, set, take, drop,
  replicate, resize, All, length-append, length-replicate, length-set, length-take, length-drop,
  length-resize, take-append-drop, get_or-set_self, get_or-set_ne, get_or-replicate,
  get_or-ge_length, get_or-resize, get_or_ext, get_or-append_left, get_or-append_right, length-map,
  for_below, for_below_inv, for_below-add, unrolled, unrolled-for_below, fill_if, length-fill_if,
  get_or-fill_if, rank, passing, length-passing, count-passing, fill, length-fill, get_or-fill,
  take-append, drop-append, append-nil, append_assoc,
}

pub record Scalars : Type 0 where
  pub i32 : ℕ
  pub i64 : ℕ
  pub f64 : ℕ
  pub b : Bool
  pub bytes : List ℕ
  pub vector_f32 : List ℕ

-- FieldValue: type, is_null, the scalars, array and object.
mutual
  pub data FieldValue : Type 0 where
    field_value : ℕ → Bool → Scalars → FieldValues → Members → FieldValue

  pub data FieldValues : Type 0 where
    no_values : FieldValues
    values : FieldValue → FieldValues → FieldValues

  pub data Members : Type 0 where
    no_members : Members
    members : List ℕ → FieldValue → Members → Members

abbrev pub no_scalars : Scalars
no_scalars = record { i32 = 0; i64 = 0; f64 = 0; b = false; bytes = []; vector_f32 = [] }

-- The enumerators in their order, and the case of a switch; a byte of no enumerator has none.
abbrev pub enumerators : List FieldType
enumerators =
    FieldType.int32 ∷ FieldType.int64 ∷ FieldType.float64 ∷ FieldType.bool ∷ FieldType.dict_int32
    ∷ FieldType.string ∷ FieldType.bytes ∷ FieldType.array ∷ FieldType.object
    ∷ FieldType.vector_float32 ∷ []

abbrev pub field_type : ℕ → Option FieldType
field_type type = get_elem? enumerators type

abbrev pub int32_value : ℕ → FieldValue
int32_value v = field_value 0 false (record no_scalars { i32 = v }) no_values no_members

abbrev pub int64_value : ℕ → FieldValue
int64_value v = field_value 1 false (record no_scalars { i64 = v }) no_values no_members

abbrev pub float64_value : ℕ → FieldValue
float64_value v = field_value 2 false (record no_scalars { f64 = v }) no_values no_members

abbrev pub bool_value : Bool → FieldValue
bool_value v = field_value 3 false (record no_scalars { b = v }) no_values no_members

abbrev pub string_value : List ℕ → FieldValue
string_value v = field_value 5 false (record no_scalars { bytes = v }) no_values no_members

abbrev pub bytes_value : List ℕ → FieldValue
bytes_value v = field_value 6 false (record no_scalars { bytes = v }) no_values no_members

abbrev pub array_value : FieldValues → FieldValue
array_value v = field_value 7 false no_scalars v no_members

abbrev pub object_value : Members → FieldValue
object_value v = field_value 8 false no_scalars no_values v

abbrev pub vector_float32_value : List ℕ → FieldValue
vector_float32_value v =
    field_value 9 false (record no_scalars { vector_f32 = v }) no_values no_members

abbrev pub null_value : ℕ → FieldValue
null_value type = field_value type true no_scalars no_values no_members

unfoldable pub value_count : FieldValues → ℕ
value_count no_values = 0
value_count (values v vs) = suc (value_count vs)

-- The switch of EncodeArray; `nested` is the encoding of the array.
abbrev pub payload_of : Option FieldType → Scalars → List ℕ → List ℕ
payload_of (some FieldType.int32) s nested = le_bytes 4 s.i32
payload_of (some FieldType.int64) s nested = le_bytes 8 s.i64
payload_of (some FieldType.float64) s nested = le_bytes 8 s.f64
payload_of (some FieldType.bool) s nested = le_bytes 1 (if s.b then 1 else 0)
payload_of (some FieldType.dict_int32) s nested = le_bytes 4 s.i32
payload_of (some FieldType.string) s nested = s.bytes
payload_of (some FieldType.bytes) s nested = s.bytes
payload_of (some FieldType.array) s nested = nested
payload_of (some FieldType.object) s nested = []
payload_of (some FieldType.vector_float32) s nested = []
payload_of none s nested = []

abbrev pub payload_unless : Bool → List ℕ → List ℕ
payload_unless true payload = []
payload_unless false payload = payload

-- What one value writes: type, is_null, reserved, size and the payload.
unfoldable pub item : ℕ → Bool → List ℕ → List ℕ
item type is_null payload =
    le_bytes 1 type
    ++ (le_bytes 1 (if is_null then 1 else 0)
        ++ (le_bytes 2 0
            ++ (le_bytes 4 (u32 (length payload))
                ++ (if u32 (length payload) == 0 then [] else payload))))

-- The loop of EncodeArray, and the count in front of it.
unfoldable pub encode_values : FieldValues → List ℕ
encode_values no_values = []
encode_values (values (field_value type is_null s array object) rest) =
    let nested = le_bytes 4 (u32 (value_count array)) ++ encode_values array in
    item type is_null (payload_unless is_null (payload_of (field_type type) s nested))
    ++ encode_values rest

unfoldable pub encode_array : FieldValues → List ℕ
encode_array vs = le_bytes 4 (u32 (value_count vs)) ++ encode_values vs

infixl 10 ◌>>=◌
abbrev ◌>>=◌ {ℓ κ} : {A : Type ℓ} {B : Type κ} → Option A → (A → Option B) → Option B
none >>= f = none
some a >>= f = f a

-- ReadBytes of an integer: its value and the bytes behind it.
unfoldable pub read_bytes : ℕ → List ℕ → Option (ℕ × List ℕ)
read_bytes size bytes =
    if ltb (length bytes) size then none else some (read_le size bytes 0, drop size bytes)

abbrev pub if_size : ℕ → List ℕ → FieldValue → Option FieldValue
if_size size payload v = if length payload == size then some v else none

-- The switch of DecodeArray; `nested` decodes an array.
abbrev pub decode_typed :
    (List ℕ → Option FieldValues) → ℕ → Option FieldType → List ℕ → Option FieldValue
decode_typed nested type (some FieldType.int32) p =
    if_size 4 p
      (field_value type false (record no_scalars { i32 = read_le 4 p 0 }) no_values no_members)
decode_typed nested type (some FieldType.int64) p =
    if_size 8 p
      (field_value type false (record no_scalars { i64 = read_le 8 p 0 }) no_values no_members)
decode_typed nested type (some FieldType.float64) p =
    if_size 8 p
      (field_value type false (record no_scalars { f64 = read_le 8 p 0 }) no_values no_members)
decode_typed nested type (some FieldType.bool) p = if_size 1 p (
    field_value type false (record no_scalars { b = not (read_le 1 p 0 == 0) }) no_values
      no_members)
decode_typed nested type (some FieldType.dict_int32) p =
    if_size 4 p
      (field_value type false (record no_scalars { i32 = read_le 4 p 0 }) no_values no_members)
decode_typed nested type (some FieldType.string) p =
    some (field_value type false (record no_scalars { bytes = p }) no_values no_members)
decode_typed nested type (some FieldType.bytes) p =
    some (field_value type false (record no_scalars { bytes = p }) no_values no_members)
decode_typed nested type (some FieldType.array) p =
    nested p >>= λ vs. some (field_value type false no_scalars vs no_members)
decode_typed nested type (some FieldType.object) p =
    some (field_value type false no_scalars no_values no_members)
decode_typed nested type (some FieldType.vector_float32) p =
    some (field_value type false no_scalars no_values no_members)
decode_typed nested type none p = some (field_value type false no_scalars no_values no_members)

abbrev pub decode_value : (List ℕ → Option FieldValues) → ℕ → Bool → List ℕ → Option FieldValue
decode_value nested type true p = some (null_value type)
decode_value nested type false p = decode_typed nested type (field_type type) p

-- The loop of DecodeArray: `none` is false.
unfoldable pub decode_items : (List ℕ → Option FieldValues) → ℕ → List ℕ → Option FieldValues
decode_items nested zero bytes = some no_values
decode_items nested (suc count) bytes = do
  type ← read_bytes 1 bytes
  is_null ← read_bytes 1 type.1
  reserved ← read_bytes 2 is_null.1
  size ← read_bytes 4 reserved.1
  payload ← if ltb (length size.1) size.0 then none else some (take size.0 size.1)
  v ← decode_value nested type.0 (not (is_null.0 == 0)) payload
  vs ← decode_items nested count (drop size.0 size.1)
  some (values v vs)

-- DecodeArray, on fuel for the nesting.
unfoldable pub decode_nested : ℕ → List ℕ → Option FieldValues
decode_nested zero bytes = none
decode_nested (suc fuel) bytes = do
  count ← read_bytes 4 bytes
  decode_items (decode_nested fuel) count.0 count.1

unfoldable pub decode_array : List ℕ → Option FieldValues
decode_array bytes = decode_nested (length bytes + 1) bytes
