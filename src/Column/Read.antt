-- ===== src/Column/Read.antt =====
-- engine/src/compression.cpp: ReadBits, the readers of bit-packed values with DecodeBitpack, and
-- ReadInt64Value, which reads one value of a column of any kind.
use mimic_rag.Bytes.{read_le}
use mimic_rag.Column.{CompressedColumnView, ColumnCompressionKind, is_valid, u64}
use mimic_rag.Column.DictCodec.{read_dict_header}
use mimic_rag.Column.ForDelta.{read_for_delta_header, for_delta_value}
use mimic_rag.Column.Source.{sign_extend32}
use mimic_rag.Dictionary.{DictionaryInt32, value_of}
use mimic_rag.FieldVector.{FieldType}
use mimic_rag.Mask
use mimic_rag.Mask.{Mask}
use mimic_rag.Prelude.{
  ℕ, ◌+◌, ◌*◌, ◌/◌, ◌%◌, ◌^◌, bit_and, bit_or, not, ◌&&◌, ◌||◌, Option, none, some, List, [], ltb,
  leb, ◌==◌, if◌then◌else◌, length, get_or, for_below, fill_if, fill,
}

-- The loop over the bits of one value, lowest first.
unfoldable pub read_bits : Option (List ℕ) → ℕ → ℕ → ℕ
read_bits none bit_offset bits = 0
read_bits (some bytes) bit_offset bits =
    for_below bits
      (λ i value.
        let bit = bit_offset + i in
        if bit_and (get_or bytes (bit / 8) 0) (2 ^ (bit % 8)) == 0
        then value
        else bit_or value (2 ^ i))
      0

-- The base and the number of bits.
unfoldable pub read_bitpack_header : Option (List ℕ) → Option (ℕ × ℕ)
read_bitpack_header none = none
read_bitpack_header (some aux) =
    let bits = get_or aux 8 0 in
    if ltb (length aux) 16
    then none
    else if ltb 0 bits && leb bits 32
    then some (read_le 8 aux 0, bits)
    else none

unfoldable pub read_bitpack_value_fast : List ℕ → ℕ → ℕ → Option ℕ
read_bitpack_value_fast bytes index bits =
    if bits == 4
    then (let byte = get_or bytes (index / 2) 0 in
        some (if not (bit_and index 1 == 0) then byte / 16 else bit_and byte 15))
    else if bits == 8
    then some (get_or bytes index 0)
    else if bits == 16
    then some (read_le 2 bytes (index * 2))
    else if bits == 32
    then some (read_le 4 bytes (index * 4))
    else none

-- header.base + delta, the delta by the fast reader where it answers.
unfoldable pub bitpack_value : ℕ → ℕ → List ℕ → ℕ → ℕ
bitpack_value base bits bytes i = elim (read_bitpack_value_fast bytes i bits) [
  | some delta ↦ u64 (base + delta)
  | none ↦ u64 (base + read_bits (some bytes) (i * bits) bits)
]

-- The loop without a mask, for the widths that the fast reader knows, and the loop with one.
bitpack_given : ℕ → Option (List ℕ) → Option (ℕ × ℕ) → Mask → List ℕ → List ℕ
bitpack_given rows (some bytes) (some (base, bits)) mask out =
    let fast = bits == 4 || (bits == 8 || (bits == 16 || bits == 32)) in
    if Mask.size mask == 0 && fast
    then fill rows (bitpack_value base bits bytes) out
    else fill_if rows (λ i. not (not (Mask.size mask == 0) && not (Mask.get mask i)))
        (bitpack_value base bits bytes) out
bitpack_given rows _ _ mask out = out

unfoldable pub decode_bitpack : CompressedColumnView → Mask → List ℕ → List ℕ
unfolding bitpack_given
decode_bitpack column mask out =
    bitpack_given column.row_count column.bytes (read_bitpack_header column.aux) mask out

abbrev pub bytes_or_empty : Option (List ℕ) → List ℕ
bytes_or_empty none = []
bytes_or_empty (some bytes) = bytes

-- The dictionary of a view gives the value of an id; without one the id itself is the answer.
abbrev pub looked_up : Option DictionaryInt32 → ℕ → ℕ
looked_up none id = id
looked_up (some d) id = sign_extend32 (value_of d id)

-- The second `switch`: a column that is not compressed, by its type.
plain_value : CompressedColumnView → FieldType → ℕ → Option ℕ
plain_value column FieldType.int32 i =
    some (sign_extend32 (read_le 4 (bytes_or_empty column.bytes) (i * 4)))
plain_value column FieldType.int64 i = some (read_le 8 (bytes_or_empty column.bytes) (i * 8))
plain_value column FieldType.bool i =
    some (if get_or (bytes_or_empty column.bytes) i 0 == 0 then 0 else 1)
plain_value column FieldType.dict_int32 i =
    some (looked_up column.dict (read_le 4 (bytes_or_empty column.bytes) (i * 4)))
plain_value column _ i = none

dict_read : Option (List ℕ) → Option (List ℕ) → Option ℕ → ℕ → Option ℕ
dict_read (some bytes) (some aux) (some total) i =
    if leb total (read_le 4 bytes (i * 4))
    then none
    else some (read_le 8 aux (8 + read_le 4 bytes (i * 4) * 8))
dict_read _ _ _ i = none

delta_read : Option (List ℕ) → Option ℕ → ℕ → Option ℕ
delta_read (some bytes) (some base) i = some (for_delta_value base bytes i)
delta_read _ _ i = none

bitpack_read : Option (List ℕ) → Option (ℕ × ℕ) → ℕ → Option ℕ
bitpack_read bytes none i = none
bitpack_read bytes (some (base, bits)) i = some (u64 (base + read_bits bytes (i * bits) bits))

-- The first `switch`, by the kind of the column.
kind_value : CompressedColumnView → ColumnCompressionKind → ℕ → Option ℕ
unfolding plain_value dict_read delta_read bitpack_read
kind_value column ColumnCompressionKind.no_compression i = plain_value column column.type i
kind_value column ColumnCompressionKind.lz4 i = plain_value column column.type i
kind_value column ColumnCompressionKind.dictionary i =
    dict_read column.bytes column.aux (read_dict_header column.aux) i
kind_value column ColumnCompressionKind.bit_packed i =
    bitpack_read column.bytes (read_bitpack_header column.aux) i
kind_value column ColumnCompressionKind.for_delta i =
    delta_read column.bytes (read_for_delta_header column.aux) i
kind_value column ColumnCompressionKind.rle i = none

-- ReadInt64Value: `none` is the answer false, where nothing is written.
unfoldable pub read_int64_value : CompressedColumnView → ℕ → Option ℕ
unfolding kind_value
read_int64_value column i =
    if not (is_valid column.validity_words i) then none else kind_value column column.kind i
