-- ===== src/Column/DictCodec/RoundTrip.antt =====
-- engine/src/compression.cpp, DecodeDictionary reads back what EncodeDictionary wrote.
use mimic_rag.Bytes.{
  le_bytes, read_le, array_bytes, length-le_bytes, read_le-le_bytes, length-array_bytes,
  read_le-array_bytes, read_le-append_right,
}
use mimic_rag.Column.{CompressedColumnView}
use mimic_rag.Column.ForDelta.{wanted, All-get_or}
use mimic_rag.Column.Source.{is_encodable, int_value, HoldsInts}
use mimic_rag.Dictionary.{value_of, u32}
use mimic_rag.FieldVector.{FieldVector, is_valid}
use mimic_rag.Mask.{Mask}
use mimic_rag.Prelude.{
  ℕ, ◌+◌, ◌*◌, ◌^◌, ◌≤◌, ◌<◌, ◌≡◌, refl, sym, ap, ap₂, ◌∙◌, true, false, ◌&&◌, some, List, ◌++◌,
  arith, ltb, leb, lt→ltb, length, get_or, All, length-append, get_or-fill_if, append_assoc,
}
use mimic_rag.Column.DictCodec.{
  dict_rows, dict_aux, encode_dictionary, read_dict_header, dict_value, dict_given,
  decode_dictionary,
}
use mimic_rag.Column.DictCodec.Invariant.{Encoded, dict_rows-Encoded}

-- What the header and the table read back.
length-dict_aux : (values : List ℕ) → length (dict_aux values) ≡ 8 + length values * 8
unfolding dict_aux
length-dict_aux values = omega (
  arith,
  length-append (le_bytes 4 (u32 (length values)) ++ le_bytes 4 0) (array_bytes 8 values),
  length-append (le_bytes 4 (u32 (length values))) (le_bytes 4 0),
  length-le_bytes 4 (u32 (length values)),
  length-le_bytes 4 0,
  length-array_bytes 8 values,
)

read_le-dict_aux :
    (values : List ℕ) → length values < 2 ^ 32 → read_le 4 (dict_aux values) 0 ≡ length values
unfolding dict_aux
read_le-dict_aux values h =
    let fits : u32 (length values) ≡ length values = omega arith in
    ap (λ l. read_le 4 l 0)
      (append_assoc (le_bytes 4 (u32 (length values))) (le_bytes 4 0) (array_bytes 8 values))
    ∙ read_le-le_bytes 4 (u32 (length values)) (le_bytes 4 0 ++ array_bytes 8 values) (omega arith)
    ∙ fits

read_dict_header-dict_aux :
    (values : List ℕ)
    → length values < 2 ^ 32
    → read_dict_header (some (dict_aux values)) ≡ some (length values)
unfolding read_dict_header
read_dict_header-dict_aux values h =
    let long : ltb (length (dict_aux values)) 8 ≡ false = ground (arith, length-dict_aux values) in
    let table : ltb (length (dict_aux values)) (8 + length values * 8) ≡ false =
      ground (arith, length-dict_aux values) in
    rw (long, read_le-dict_aux values h, table) refl

table_entry :
    (values : List ℕ) (id : ℕ)
    → id < length values
    → All (λ v. v < 256 ^ 8) values
    → read_le 8 (dict_aux values) (8 + id * 8) ≡ get_or values id 0
unfolding dict_aux
table_entry values id h all =
    let head : List ℕ = le_bytes 4 (u32 (length values)) ++ le_bytes 4 0 in
    let size : length head ≡ 8 = omega (
      arith,
      length-append (le_bytes 4 (u32 (length values))) (le_bytes 4 0),
      length-le_bytes 4 (u32 (length values)),
      length-le_bytes 4 0,
    ) in
    ap (λ k. read_le 8 (head ++ array_bytes 8 values) (k + id * 8)) (sym size)
    ∙ read_le-append_right 8 head (array_bytes 8 values) (id * 8)
    ∙ read_le-array_bytes 8 values id h all

-- EncodeDictionary accepts the integer types, and DecodeDictionary of what it returns gives every
-- valid row its value back, on a mask that wants the row, for fewer than 2 ^ 32 rows and a buffer
-- with room for them.
pub decode-encode_dictionary :
    (f : FieldVector) (column : CompressedColumnView) (mask : Mask) (out : List ℕ) (i : ℕ)
    → HoldsInts f
    → is_encodable f.type ≡ true
    → column.bytes ≡ some (array_bytes 4 (dict_rows f).1)
    → column.aux ≡ some (dict_aux (dict_rows f).0.values)
    → column.row_count ≡ f.size
    → mimic_rag.Column.is_valid column.validity_words i ≡ true
    → f.size < 2 ^ 32
    → i < f.size
    → f.size ≤ length out
    → is_valid f i ≡ true
    → wanted mask i ≡ true
    → (encode_dictionary f ≡ some (array_bytes 4 (dict_rows f).1, dict_aux (dict_rows f).0.values))
      × (get_or (decode_dictionary column mask out) i 0 ≡ int_value f i)
unfolding encode_dictionary decode_dictionary dict_given
decode-encode_dictionary f column mask out i ints type body table rows shown small h room ok want =
    (rw type refl, decoded)
  where
    made : Encoded f f.size (dict_rows f)
    made = dict_rows-Encoded f ints small

    values : List ℕ
    values = (dict_rows f).0.values

    ids : List ℕ
    ids = (dict_rows f).1

    header : read_dict_header column.aux ≡ some (length values)
    header = ap read_dict_header table ∙ read_dict_header-dict_aux values (omega (arith, made.few))

    id_read : read_le 4 (array_bytes 4 ids) (i * 4) ≡ get_or ids i 0
    id_read =
        read_le-array_bytes 4 ids i (omega (arith, made.rows))
          (All-get_or (256 ^ 4) ids (λ k p. omega (arith, made.ids k)))

    value_read :
        dict_value column (array_bytes 4 ids) (dict_aux values) (length values) i ≡ int_value f i
    value_read =
        let known : leb (length values) (get_or ids i 0) ≡ false =
          ground (arith, made.placed i h ok) in
        unfold dict_value in rw (shown, id_read, known) (ground (arith, entry))
      where
        entry : read_le 8 (dict_aux values) (8 + get_or ids i 0 * 8) ≡ int_value f i
        entry =
            table_entry values (get_or ids i 0) (made.placed i h ok)
              (All-get_or (256 ^ 8) values (λ k p. omega (arith, made.bounded k)))
            ∙ (unfold value_of in made.right i h ok)

    asked : (ltb i column.row_count && wanted mask i) ≡ true
    asked = ap₂ (λ a b. a && b) (lt→ltb i column.row_count (omega arith)) want

    decoded : get_or (decode_dictionary column mask out) i 0 ≡ int_value f i
    decoded =
        unfold decode_dictionary dict_given in
        (ap₂ (λ b a. get_or (dict_given column b a (read_dict_header column.aux) mask out) i 0) body
            table
          ∙ ap
              (λ t.
                get_or
                  (dict_given column (some (array_bytes 4 ids)) (some (dict_aux values)) t mask out)
                  i 0)
              header
          ∙ get_or-fill_if column.row_count (wanted mask)
              (dict_value column (array_bytes 4 ids) (dict_aux values) (length values)) out i 0
              (omega arith)
          ∙ rw asked value_read)
