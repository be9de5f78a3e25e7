-- ===== src/Column/ForDelta.antt =====
-- engine/src/segment.cpp (EncodeForDelta) and engine/src/compression.cpp (ReadForDeltaHeader,
-- DecodeForDelta): differences from the least value, in 32 bits.
use mimic_rag.Bytes.{
  le_bytes, read_le, array_bytes, length-le_bytes, read_le-le_bytes, read_le-array_bytes,
}
use mimic_rag.Column.{CompressedColumnView, u64, sub_u64}
use mimic_rag.Column.Source.{
  is_encodable, int_value, value_or_zero, min_value, min_value_lem, HoldsInts, int_value-lt,
  sub_u64-biased, add-sub_u64,
}
use mimic_rag.Dictionary.{u32}
use mimic_rag.FieldVector.{FieldVector, is_valid}
use mimic_rag.Mask
use mimic_rag.Mask.{Mask}
use mimic_rag.Predicate.{biased}
use mimic_rag.Prelude.{
  ℕ, suc, ◌+◌, ◌*◌, ◌^◌, ◌≤◌, ◌<◌, ◌≡◌, refl, sym, ap, ap₂, ◌∙◌, inl, inr, Bool, true, false, not,
  ◌&&◌, ◌||◌, Option, none, some, List, [], ◌∷◌, arith, ltb, ◌==◌, if◌then◌else◌, lt→ltb,
  Bool-cases, length, get_or, set, replicate, All, length-replicate, unrolled, unrolled-for_below,
  fill_if, get_or-fill_if, fill, length-fill, get_or-fill, append-nil,
}

-- out[i] = static_cast<uint32_t>(value - min_value)
unfoldable pub deltas : FieldVector → List ℕ
deltas f = fill f.size (λ i. u32 (sub_u64 (value_or_zero f i) (min_value f))) (replicate f.size 0)

-- The data and the header, or `none` for a type that is not encoded.
unfoldable pub encode_for_delta : FieldVector → Option (List ℕ × List ℕ)
unfolding deltas
encode_for_delta f =
    if not (is_encodable f.type)
    then none
    else some (array_bytes 4 (deltas f), le_bytes 8 (min_value f))

unfoldable pub read_for_delta_header : Option (List ℕ) → Option ℕ
read_for_delta_header none = none
read_for_delta_header (some aux) = if ltb (length aux) 8 then none else some (read_le 8 aux 0)

-- header.base + static_cast<int64_t>(deltas[i])
unfoldable pub for_delta_value : ℕ → List ℕ → ℕ → ℕ
for_delta_value base bytes i = u64 (base + read_le 4 bytes (i * 4))

decode_values : ℕ → List ℕ → ℕ → Mask → List ℕ → List ℕ
decode_values base bytes rows mask out =
    if Mask.size mask == 0
    then unrolled rows (λ i o. set o i (for_delta_value base bytes i)) out
    else fill_if rows (Mask.get mask) (for_delta_value base bytes) out

-- The early returns: without data or a header the buffer stays as it is.
decode_given : Option (List ℕ) → Option ℕ → ℕ → Mask → List ℕ → List ℕ
unfolding decode_values
decode_given none base rows mask out = out
decode_given (some bytes) none rows mask out = out
decode_given (some bytes) (some base) rows mask out = decode_values base bytes rows mask out

-- `out` is the buffer of int64_t that the caller hands over.
unfoldable pub decode_for_delta : CompressedColumnView → Mask → List ℕ → List ℕ
unfolding decode_given
decode_for_delta column mask out =
    decode_given column.bytes (read_for_delta_header column.aux) column.row_count mask out

-- The rows that are decoded: all of them under an empty mask, else those that it selects.
abbrev pub wanted : Mask → ℕ → Bool
wanted mask i = (Mask.size mask == 0) || Mask.get mask i

get_or-decode_values :
    (base : ℕ) (bytes : List ℕ) (rows : ℕ) (mask : Mask) (out : List ℕ) (i : ℕ)
    → rows ≤ length out
    → get_or (decode_values base bytes rows mask out) i 0
      ≡ (if ltb i rows && wanted mask i then for_delta_value base bytes i else get_or out i 0)
unfolding decode_values
get_or-decode_values base bytes rows mask out i h = elim (Bool-cases (Mask.size mask == 0)) [
  | inl e ↦
      rw (e, unrolled-for_below rows (λ k o. set o k (for_delta_value base bytes k)) out)
        (ground (arith, get_or-fill rows (for_delta_value base bytes) out i 0 h))
  | inr e ↦ rw e (get_or-fill_if rows (Mask.get mask) (for_delta_value base bytes) out i 0 h)
]

-- With data and a header, DecodeForDelta writes the base plus the 32-bit number at the
-- row's place in the data, modulo 2 ^ 64, at the rows that
-- the mask selects, or at all rows where the mask is empty and the loop runs unrolled by four; it
-- leaves the rest of the buffer alone. The buffer has room for the rows.
pub decode_for_delta_lem :
    (column : CompressedColumnView) (mask : Mask) (out bytes : List ℕ) (base i : ℕ)
    → column.bytes ≡ some bytes
    → read_for_delta_header column.aux ≡ some base
    → column.row_count ≤ length out
    → get_or (decode_for_delta column mask out) i 0 ≡ (
        if ltb i column.row_count && wanted mask i
        then u64 (base + read_le 4 bytes (i * 4))
        else get_or out i 0)
unfolding decode_for_delta decode_given for_delta_value
decode_for_delta_lem column mask out bytes base i e1 e2 h =
    ap₂ (λ b t. get_or (decode_given b t column.row_count mask out) i 0) e1 e2
    ∙ get_or-decode_values base bytes column.row_count mask out i h

length-deltas : (f : FieldVector) → length (deltas f) ≡ f.size
unfolding deltas
length-deltas f =
    length-fill f.size (λ i. u32 (sub_u64 (value_or_zero f i) (min_value f))) (replicate f.size 0)
    ∙ length-replicate f.size 0

get_or-deltas :
    (f : FieldVector) (i : ℕ)
    → i < f.size
    → get_or (deltas f) i 0 ≡ u32 (sub_u64 (value_or_zero f i) (min_value f))
unfolding deltas
get_or-deltas f i h = ground (
  arith,
  length-replicate {A = ℕ} f.size 0,
  get_or-fill f.size (λ k. u32 (sub_u64 (value_or_zero f k) (min_value f))) (replicate f.size 0) i
      0,
)

pub All-get_or :
    (bound : ℕ) (xs : List ℕ)
    → ((i : ℕ) → i < length xs → get_or xs i 0 < bound)
    → All (λ v. v < bound) xs
All-get_or bound [] h = tt
All-get_or bound (x ∷ xs) h =
    (h 0 (omega arith), All-get_or bound xs (λ i p. h (suc i) (omega arith)))

deltas-All : (f : FieldVector) → All (λ v. v < 256 ^ 4) (deltas f)
deltas-All f =
    All-get_or (256 ^ 4) (deltas f)
      (λ i p. ground (arith, length-deltas f, get_or-deltas f i (ground (arith, length-deltas f))))

-- The header holds the base.
read_for_delta_header-le_bytes :
    (v : ℕ) → v < 2 ^ 64 → read_for_delta_header (some (le_bytes 8 v)) ≡ some v
unfolding read_for_delta_header
read_for_delta_header-le_bytes v h =
    let long : ltb (length (le_bytes 8 v)) 8 ≡ false = rw (length-le_bytes 8 v) refl in
    rw long (
      ap some (
        ap (λ l. read_le 8 l 0) (sym (append-nil (le_bytes 8 v)))
        ∙ read_le-le_bytes 8 v [] (omega arith)))

-- EncodeForDelta accepts the integer types, and DecodeForDelta of what it returns gives every valid
-- row its value back, on a mask that wants the row, if the value lies less than 2 ^ 32 above the
-- least one and the buffer has room for the rows.
pub decode-encode_for_delta :
    (f : FieldVector) (column : CompressedColumnView) (mask : Mask) (out : List ℕ) (i : ℕ)
    → HoldsInts f
    → is_encodable f.type ≡ true
    → column.bytes ≡ some (array_bytes 4 (deltas f))
    → column.aux ≡ some (le_bytes 8 (min_value f))
    → column.row_count ≡ f.size
    → i < f.size
    → f.size ≤ length out
    → is_valid f i ≡ true
    → biased (int_value f i) < biased (min_value f) + 2 ^ 32
    → wanted mask i ≡ true
    → (encode_for_delta f ≡ some (array_bytes 4 (deltas f), le_bytes 8 (min_value f)))
      × (get_or (decode_for_delta column mask out) i 0 ≡ int_value f i)
unfolding encode_for_delta for_delta_value value_or_zero
decode-encode_for_delta f column mask out i ints type body header rows h room ok near want =
    let ((m, lt, valid, is), least) = min_value_lem f i h ok in
    let low_fits : min_value f < 2 ^ 64 = omega (arith, int_value-lt f m ints, is) in
    let fits : int_value f i < 2 ^ 64 = int_value-lt f i ints in
    let base : read_for_delta_header column.aux ≡ some (min_value f) =
      ap read_for_delta_header header ∙ read_for_delta_header-le_bytes (min_value f) low_fits in
    let small : u32 (sub_u64 (int_value f i) (min_value f))
        ≡ sub_u64 (int_value f i) (min_value f) =
      omega (arith, sub_u64-biased (int_value f i) (min_value f) fits low_fits least) in
    let stored : read_le 4 (array_bytes 4 (deltas f)) (i * 4)
        ≡ sub_u64 (int_value f i) (min_value f) =
      read_le-array_bytes 4 (deltas f) i (omega (arith, length-deltas f)) (deltas-All f)
      ∙ get_or-deltas f i h
      ∙ rw ok small in
    let asked : (ltb i column.row_count && wanted mask i) ≡ true =
      ap₂ (λ a b. a && b) (lt→ltb i column.row_count (omega arith)) want in
    (
      rw type refl,
      decode_for_delta_lem column mask out (array_bytes 4 (deltas f)) (min_value f) i body base
            (omega arith)
          ∙ rw asked (
              ap (λ d. u64 (min_value f + d)) stored
              ∙ add-sub_u64 (int_value f i) (min_value f) fits low_fits),
    )
