-- ===== src/FieldVector.antt =====
-- engine/src/field_vector.cpp, engine/include/mimicdb/field_vector.h, engine/include/mimicdb/types.h:
-- one column of a segment, a growing array of one type with an optional validity bitmap.
-- int32_t, int64_t, double, float and uint32_t values are their bit patterns, bytes are numbers
-- below 256, and a name is its bytes. An array argument is read as far as its count.
pub mod Batch
pub mod Varlen
pub mod Offsets
pub mod Views
pub mod Validity
pub mod Rows
use mimic_rag.Bitmap
use mimic_rag.Bitmap.{Bitmap}
use mimic_rag.Dictionary
use mimic_rag.Dictionary.{DictionaryInt32, u32}
use mimic_rag.Prelude.{
  ℕ, zero, suc, ◌+◌, ◌-◌, ◌*◌, ◌/◌, ◌%◌, ◌^◌, ◌≤◌, ◌<◌, min, max, bit_and, bit_or, bit_xor, ◌≡◌,
  refl, sym, ap, ap₂, subst, ◌∙◌, ◌≢◌, ◌↔◌, ◌⊎◌, inl, inr, Bool, true, false, not, ◌&&◌, ◌||◌,
  Option, none, some, List, [], ◌∷◌, ◌++◌, map, arith, dec_lt, ℕ_discrete, ltb, leb, ◌==◌,
  if◌then◌else◌, lt→ltb, le→ltb, ==_refl, ==_iff, Bool-cases, Option-cases, length, get_or,
  get_elem?, count, count-append, count_single, set, take, drop, replicate, resize, All,
  length-append, length-replicate, length-set, length-take, length-drop, length-resize,
  take-append-drop, get_or-set_self, get_or-set_ne, get_or-replicate, get_or-ge_length,
  get_or-resize, get_or_ext, get_or-append_left, get_or-append_right, length-map, for_below,
  for_below_inv, rank, passing, length-passing, count-passing, fill, length-fill, get_or-fill,
}

pub data FieldType : Type 0 where
  int32 int64 float64 bool dict_int32 string bytes array object vector_float32 : FieldType

abbrev pub is_type : FieldType → FieldType → Bool
is_type FieldType.int32 FieldType.int32 = true
is_type FieldType.int64 FieldType.int64 = true
is_type FieldType.float64 FieldType.float64 = true
is_type FieldType.bool FieldType.bool = true
is_type FieldType.dict_int32 FieldType.dict_int32 = true
is_type FieldType.string FieldType.string = true
is_type FieldType.bytes FieldType.bytes = true
is_type FieldType.array FieldType.array = true
is_type FieldType.object FieldType.object = true
is_type FieldType.vector_float32 FieldType.vector_float32 = true
is_type _ _ = false

-- The types whose values are runs of bytes, with a length for each row.
abbrev pub is_varlen : FieldType → Bool
is_varlen FieldType.string = true
is_varlen FieldType.bytes = true
is_varlen FieldType.array = true
is_varlen FieldType.vector_float32 = true
is_varlen _ = false

pub record FieldVector : Type 0 where
  pub name : List ℕ
  pub type : FieldType
  pub size : ℕ
  pub validity : Bitmap
  pub data_i32 : List ℕ
  pub data_i64 : List ℕ
  pub data_f64 : List ℕ
  pub data_bool : List ℕ
  pub data_dict_ids : List ℕ
  pub dictionary : DictionaryInt32
  pub data_bytes : List ℕ
  pub data_lengths : List ℕ
  pub data_offsets : List ℕ
  pub offsets_valid : Bool

abbrev pub new_field : List ℕ → FieldType → FieldVector
new_field name type = record {
  name = name;
  type = type;
  size = 0;
  validity = Bitmap.empty;
  data_i32 = [];
  data_i64 = [];
  data_f64 = [];
  data_bool = [];
  data_dict_ids = [];
  dictionary = Dictionary.empty;
  data_bytes = [];
  data_lengths = [];
  data_offsets = [];
  offsets_valid = false;
}

unfoldable pub has_nulls : FieldVector → Bool
has_nulls f = not (Bitmap.size f.validity == 0)

unfoldable pub is_valid : FieldVector → ℕ → Bool
is_valid f index = if Bitmap.size f.validity == 0 then true else Bitmap.get f.validity index

-- ResizeStorage
unfoldable pub resize_storage : FieldVector → ℕ → FieldType → FieldVector
resize_storage f n FieldType.int32 = record f { data_i32 = resize n 0 f.data_i32 }
resize_storage f n FieldType.int64 = record f { data_i64 = resize n 0 f.data_i64 }
resize_storage f n FieldType.float64 = record f { data_f64 = resize n 0 f.data_f64 }
resize_storage f n FieldType.bool = record f { data_bool = resize n 0 f.data_bool }
resize_storage f n FieldType.dict_int32 = record f { data_dict_ids = resize n 0 f.data_dict_ids }
resize_storage f n FieldType.object = f
resize_storage f n _ = record f { data_lengths = resize n 0 f.data_lengths }

-- validity.Resize(start + count), and Set(i, true) for the new indices
unfoldable pub grow_valid : Bitmap → ℕ → ℕ → Bitmap
grow_valid validity start count =
    for_below count (λ i b. Bitmap.set_value b (start + i) true)
      (Bitmap.resize_bits validity (start + count))

-- The bitmap that is made when the first null comes: `size` bits, all true.
unfoldable pub all_valid : Bitmap → ℕ → Bitmap
all_valid validity size =
    if Bitmap.size validity == 0
    then for_below size (λ i b. Bitmap.set_value b i true) (Bitmap.resize_bits validity size)
    else validity

unfoldable pub resize_rows : FieldVector → ℕ → FieldVector
unfolding resize_storage grow_valid
resize_rows f n =
    if leb n f.size
    then f
    else let stored = resize_storage f n f.type in
      record stored {
        validity =
            if Bitmap.size f.validity == 0
            then f.validity
            else grow_valid f.validity f.size (n - f.size);
        size = n;
      }

unfoldable pub set_valid : FieldVector → ℕ → Bool → FieldVector
unfolding all_valid
set_valid f index valid = record f {
  validity = Bitmap.set_value (all_valid f.validity f.size) index valid;
}

-- validity.Resize(n); validity.Set(n - 1, true), where there is a bitmap
unfoldable pub append_valid : Bitmap → ℕ → Bitmap
append_valid validity n =
    if Bitmap.size validity == 0
    then validity
    else Bitmap.set_value (Bitmap.resize_bits validity n) (n - 1) true

unfoldable pub append_int32 : FieldVector → ℕ → FieldVector × Bool
unfolding append_valid
append_int32 f value =
    if not (is_type f.type FieldType.int32)
    then (f, false)
    else let values = f.data_i32 ++ value ∷ [] in
      (
        record f {
          data_i32 = values;
          validity = append_valid f.validity (length values);
          size = length values;
        },
        true,
      )

unfoldable pub append_int64 : FieldVector → ℕ → FieldVector × Bool
unfolding append_valid
append_int64 f value =
    if not (is_type f.type FieldType.int64)
    then (f, false)
    else let values = f.data_i64 ++ value ∷ [] in
      (
        record f {
          data_i64 = values;
          validity = append_valid f.validity (length values);
          size = length values;
        },
        true,
      )

unfoldable pub append_float64 : FieldVector → ℕ → FieldVector × Bool
unfolding append_valid
append_float64 f value =
    if not (is_type f.type FieldType.float64)
    then (f, false)
    else let values = f.data_f64 ++ value ∷ [] in
      (
        record f {
          data_f64 = values;
          validity = append_valid f.validity (length values);
          size = length values;
        },
        true,
      )

unfoldable pub append_bool : FieldVector → Bool → FieldVector × Bool
unfolding append_valid
append_bool f value =
    if not (is_type f.type FieldType.bool)
    then (f, false)
    else let values = f.data_bool ++ (if value then 1 else 0) ∷ [] in
      (
        record f {
          data_bool = values;
          validity = append_valid f.validity (length values);
          size = length values;
        },
        true,
      )

unfoldable pub append_dict_int32 : FieldVector → ℕ → FieldVector × Bool
unfolding append_valid
append_dict_int32 f value =
    if not (is_type f.type FieldType.dict_int32)
    then (f, false)
    else let (dictionary, id) = Dictionary.add f.dictionary value in
      let ids = f.data_dict_ids ++ id ∷ [] in
      (
        record f {
          dictionary = dictionary;
          data_dict_ids = ids;
          validity = append_valid f.validity (length ids);
          size = length ids;
        },
        true,
      )

-- The length of the new row is 0 for the types with lengths.
null_length : FieldVector → ℕ → FieldVector
null_length f n =
    if is_varlen f.type
    then record f {
      data_lengths =
          if length f.data_lengths == n + 1
          then set f.data_lengths n 0
          else f.data_lengths ++ 0 ∷ [];
      offsets_valid = false;
    }
    else f

unfoldable pub append_null : FieldVector → FieldVector × Bool
unfolding null_length all_valid resize_storage
append_null f =
    let stored = resize_storage f (f.size + 1) f.type in
    let validity = Bitmap.resize_bits (all_valid f.validity f.size) (f.size + 1) in
    let marked = record stored { validity = Bitmap.set_value validity f.size false } in
    (record (null_length marked f.size) { size = f.size + 1 }, true)

-- Nothing of the rows changes but the arrays, which are emptied.
unfoldable pub release_storage : FieldVector → FieldVector
release_storage f = record f {
  data_i32 = [];
  data_i64 = [];
  data_f64 = [];
  data_bool = [];
  data_dict_ids = [];
  data_bytes = [];
  data_lengths = [];
  data_offsets = [];
  offsets_valid = false;
}

unfoldable pub release_values_storage : FieldVector → FieldVector
release_values_storage f =
    if is_varlen f.type
    then record f { data_bytes = []; data_offsets = []; offsets_valid = false }
    else f

sum : List ℕ → ℕ
sum [] = 0
sum (x ∷ xs) = x + sum xs

unfoldable pub values_resident : FieldVector → Bool
unfolding sum
values_resident f = if is_varlen f.type then sum f.data_lengths == length f.data_bytes else true
