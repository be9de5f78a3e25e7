-- ===== src/Column/DictCodec.antt =====
-- engine/src/segment.cpp, EncodeDictionary, and engine/src/compression.cpp, ReadDictHeader and
-- DecodeDictionary: a 32-bit id for each row, and the table of the values behind a header.
pub mod Invariant
pub mod RoundTrip
use mimic_rag.Bytes.{
  le_bytes, read_le, array_bytes, length-le_bytes, read_le-le_bytes, length-array_bytes,
  read_le-array_bytes, read_le-append_right,
}
use mimic_rag.Column.{CompressedColumnView}
use mimic_rag.Column.ForDelta.{wanted, All-get_or}
use mimic_rag.Column.Source.{is_encodable, int_value, HoldsInts, int_value-lt}
use mimic_rag.Dictionary
use mimic_rag.Dictionary.Laws.{add_lem, add-value_of, add-bounded, length-add}
use mimic_rag.Dictionary.{DictionaryInt32, add, value_of, u32}
use mimic_rag.FieldVector.{FieldVector, is_valid}
use mimic_rag.Mask
use mimic_rag.Mask.{Mask}
use mimic_rag.Prelude.{
  ℕ, zero, suc, ◌+◌, ◌*◌, ◌^◌, ◌≤◌, ◌<◌, ◌≡◌, refl, sym, ap, ap₂, ◌∙◌, ◌≢◌, inl, inr, true, false,
  not, ◌&&◌, ◌||◌, Option, none, some, List, [], ◌∷◌, ◌++◌, arith, ℕ_discrete, ltb, leb,
  if◌then◌else◌, lt→ltb, Bool-cases, length, get_or, set, replicate, All, length-append,
  length-replicate, length-set, get_or-set_self, get_or-set_ne, get_or-replicate, for_below,
  for_below_inv, fill_if, get_or-fill_if, append_assoc,
}

-- One round of the encoder: `ids` and `dict_values` are looked up and extended as by
-- DictionaryInt32::Add, here over int64_t, and the id goes into the row; a null row has id 0.
unfoldable pub dict_step : FieldVector → ℕ → DictionaryInt32 × List ℕ → DictionaryInt32 × List ℕ
dict_step f i (d, out) =
    if not (is_valid f i)
    then (d, set out i 0)
    else let added = add d (int_value f i) in (added.0, set out i added.1)

unfoldable pub dict_rows : FieldVector → DictionaryInt32 × List ℕ
unfolding dict_step
dict_rows f = for_below f.size (dict_step f) (Dictionary.empty, replicate f.size 0)

-- The table of the values, behind the header of their count and 4 reserved bytes.
unfoldable pub dict_aux : List ℕ → List ℕ
dict_aux values = (le_bytes 4 (u32 (length values)) ++ le_bytes 4 0) ++ array_bytes 8 values

unfoldable pub encode_dictionary : FieldVector → Option (List ℕ × List ℕ)
encode_dictionary f =
    if not (is_encodable f.type)
    then none
    else some (array_bytes 4 (dict_rows f).1, dict_aux (dict_rows f).0.values)

-- The count of the header, where the table has as many values.
unfoldable pub read_dict_header : Option (List ℕ) → Option ℕ
read_dict_header none = none
read_dict_header (some aux) =
    if ltb (length aux) 8
    then none
    else if ltb (length aux) (8 + read_le 4 aux 0 * 8)
    then none
    else some (read_le 4 aux 0)

-- The value that the decoder writes for a row; with at most 256 values the id is not checked.
unfoldable pub dict_value : CompressedColumnView → List ℕ → List ℕ → ℕ → ℕ → ℕ
dict_value column bytes aux total i =
    let id = read_le 4 bytes (i * 4) in
    if not (mimic_rag.Column.is_valid column.validity_words i)
      || not (leb total 256) && leb total id
    then 0
    else read_le 8 aux (8 + id * 8)

unfoldable pub dict_given :
    CompressedColumnView → Option (List ℕ) → Option (List ℕ) → Option ℕ → Mask → List ℕ → List ℕ
dict_given column (some bytes) (some aux) (some total) mask out =
    fill_if column.row_count (wanted mask) (dict_value column bytes aux total) out
dict_given column _ _ _ mask out = out

-- `out` is the buffer of int64_t that the caller hands over.
unfoldable pub decode_dictionary : CompressedColumnView → Mask → List ℕ → List ℕ
unfolding dict_given
decode_dictionary column mask out =
    dict_given column column.bytes column.aux (read_dict_header column.aux) mask out
