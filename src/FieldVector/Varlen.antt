-- ===== src/FieldVector/Varlen.antt =====
-- engine/src/field_vector.cpp: the columns of runs of bytes, with their cached offsets.
use mimic_rag.Dictionary.{u32}
use mimic_rag.FieldVector.{FieldType, FieldVector, is_type, is_varlen, append_valid, is_valid}
use mimic_rag.Prelude.{
  ℕ, zero, suc, ◌+◌, ◌-◌, ◌*◌, ◌/◌, ◌%◌, ◌^◌, Bool, true, false, not, ◌||◌, Option, none, some,
  List, [], ◌∷◌, ◌++◌, ltb, leb, ◌==◌, if◌then◌else◌, length, get_or, count, resize,
}

unfoldable pub append_string : FieldVector → List ℕ → FieldVector × Bool
append_string f value =
    if not (is_type f.type FieldType.string)
    then (f, false)
    else let lengths = f.data_lengths ++ u32 (length value) ∷ [] in
      (
        record f {
          data_lengths = lengths;
          data_bytes = f.data_bytes ++ value;
          offsets_valid = false;
          validity = append_valid f.validity (length lengths);
          size = length lengths;
        },
        true,
      )

unfoldable pub append_bytes : FieldVector → List ℕ → FieldVector × Bool
append_bytes f value =
    if not (is_varlen f.type) || is_type f.type FieldType.string
    then (f, false)
    else let lengths = f.data_lengths ++ u32 (length value) ∷ [] in
      (
        record f {
          data_lengths = lengths;
          data_bytes = f.data_bytes ++ value;
          offsets_valid = false;
          validity = append_valid f.validity (length lengths);
          size = length lengths;
        },
        true,
      )

-- The float array enters by its bytes, `dimension * sizeof(float)` of them; `none` is null.
unfoldable pub append_vector_float32 : FieldVector → Option (List ℕ) → ℕ → FieldVector × Bool
unfolding append_bytes
append_vector_float32 f none dimension =
    if not (is_type f.type FieldType.vector_float32)
      || (not (dimension == 0) || ltb ((2 ^ 32 - 1) / 4) dimension)
    then (f, false)
    else append_bytes f []
append_vector_float32 f (some values) dimension =
    if not (is_type f.type FieldType.vector_float32) || ltb ((2 ^ 32 - 1) / 4) dimension
    then (f, false)
    else append_bytes f (resize (dimension * 4) 0 values)

-- The running sums in uint32_t, from `offset`.
unfoldable pub offsets_from : ℕ → List ℕ → List ℕ
offsets_from offset [] = []
offsets_from offset (len ∷ lengths) =
    let next = u32 (offset + len) in next ∷ offsets_from next lengths

-- DataOffsets, with its two tests: is the type of byte runs, and is the cache valid.
abbrev pub offsets_on : FieldVector → Bool → Bool → FieldVector × Option (List ℕ)
offsets_on f false valid = (f, none)
offsets_on f true true = (f, (if length f.data_offsets == 0 then none else some f.data_offsets))
offsets_on f true false =
    let offsets = 0 ∷ offsets_from 0 f.data_lengths in
    (record f { data_offsets = offsets; offsets_valid = true }, some offsets)

-- DataOffsets: the field with its cache filled, and the offsets (`none` for a null pointer).
unfoldable pub with_offsets : FieldVector → FieldVector × Option (List ℕ)
with_offsets f = offsets_on f (is_varlen f.type) f.offsets_valid

-- VectorFloat32: the offset of the floats in the bytes, with their count.
unfoldable pub vector_float32 : FieldVector → ℕ → FieldVector × Option (ℕ × ℕ)
unfolding with_offsets
vector_float32 f index =
    if not (is_type f.type FieldType.vector_float32) || leb f.size index || not (is_valid f index)
    then (f, none)
    else let (f', offsets) = with_offsets f in
      let len = get_or f.data_lengths index 0 in
      elim offsets [
        | none ↦ (f', none)
        | some table ↦
            if len % 4 == 0 then (f', some (get_or table index 0, len / 4)) else (f', none)
      ]

unfoldable pub load_varlen : FieldVector → List ℕ → ℕ → List ℕ → ℕ → FieldVector × Bool
load_varlen f lengths count bytes bytes_size = if not (is_varlen f.type) then (f, false) else (
  record f {
    data_lengths = resize count 0 lengths;
    data_bytes = resize bytes_size 0 bytes;
    offsets_valid = false;
    size = count;
  },
  true,
)

-- The sum of the first `i` lengths: where row `i` begins.
unfoldable pub start_of : List ℕ → ℕ → ℕ
start_of lengths zero = 0
start_of [] (suc i) = 0
start_of (len ∷ lengths) (suc i) = len + start_of lengths i
