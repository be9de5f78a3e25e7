-- ===== src/Column/Kernel.antt =====
-- engine/src/compression.cpp, ScanPredicateForDelta: a predicate evaluated on the encoded values.
use mimic_rag.Bytes.{read_le}
use mimic_rag.Column.{CompressedColumnView, is_valid, u64}
use mimic_rag.Column.ForDelta.{read_for_delta_header, for_delta_value}
use mimic_rag.FieldVector.{FieldType}
use mimic_rag.Mask
use mimic_rag.Mask.{Mask, set_each}
use mimic_rag.Predicate.{CompareOp, compare_int64, compare_int64_branchless}
use mimic_rag.Predicate.Agree.{IsInt64, compare_int64_branchless-compare_int64}
use mimic_rag.Prelude.{
  ap₂, ◌+◌, ◌*◌, ℕ, ◌≤◌, ◌≡◌, refl, ap, ◌∙◌, inl, inr, Bool, false, not, ◌&&◌, ◌||◌, Option, none,
  some, List, arith, ltb, ◌==◌, if◌then◌else◌, Bool-cases, unrolled, unrolled-for_below,
}

-- The double of a predicate is not read by the integer kernels; its bytes enter as a list.
pub record CompressionPredicate : Type 0 where
  pub type : FieldType
  pub op : CompareOp
  pub is_null_check : Bool
  pub is_not_null_check : Bool
  pub null_is : Bool
  pub i64 : ℕ
  pub bool_value : ℕ
  pub bytes : List ℕ

-- The bit of a row under a test for null.
unfoldable pub null_keep : CompressedColumnView → CompressionPredicate → ℕ → Bool
null_keep column predicate i =
    let is_null = not (is_valid column.validity_words i) in
    if predicate.is_not_null_check
    then not is_null
    else if predicate.null_is
    then is_null
    else not is_null

unfoldable pub delta_keep : CompressedColumnView → CompressionPredicate → ℕ → List ℕ → ℕ → Bool
delta_keep column predicate base bytes i =
    if not (is_valid column.validity_words i)
    then false
    else not
        (compare_int64_branchless (for_delta_value base bytes i) predicate.i64 predicate.op == 0)

-- The part behind the tests for null: without a header the mask stays as it was resized.
delta_loop : CompressedColumnView → CompressionPredicate → List ℕ → Option ℕ → Mask → Mask
unfolding delta_keep
delta_loop column predicate bytes none mask = mask
delta_loop column predicate bytes (some base) mask =
    unrolled column.row_count (λ i m. Mask.set_value m i (delta_keep column predicate base bytes i))
      mask

delta_mask : CompressedColumnView → CompressionPredicate → Option (List ℕ) → Mask → Mask
unfolding delta_loop
delta_mask column predicate none mask = mask
delta_mask column predicate (some bytes) mask =
    if column.row_count == 0
    then mask
    else if predicate.is_null_check || predicate.is_not_null_check
    then set_each column.row_count (null_keep column predicate) mask
    else delta_loop column predicate bytes (read_for_delta_header column.aux) mask

-- The mask is the one that the caller hands over; `none` is a null pointer.
unfoldable pub scan_predicate_for_delta :
    CompressedColumnView → CompressionPredicate → Option Mask → Option Mask
unfolding delta_mask
scan_predicate_for_delta column predicate none = none
scan_predicate_for_delta column predicate (some out) =
    some (delta_mask column predicate column.bytes (Mask.resize_bits out column.row_count))

-- Resize hands the loops a mask that selects nothing.
get-set_rows :
    (rows : ℕ) (value : ℕ → Bool) (out : Mask) (j : ℕ)
    → Mask.get (set_each rows value (Mask.resize_bits out rows)) j ≡ (ltb j rows && value j)
get-set_rows rows value out j = ground (arith, fresh, Mask.Laws.get-set_each_fresh rows value j)
  where
    fresh :
        Mask.get (set_each rows value (Mask.resize_bits out rows)) j
        ≡ Mask.get (set_each rows value (Mask.with_bits rows)) j
    fresh = unfold Mask.resize_bits Mask.with_bits in refl

delta_keep_lem :
    (column : CompressedColumnView) (predicate : CompressionPredicate) (base : ℕ) (bytes : List ℕ)
    (i : ℕ)
    → IsInt64 predicate.i64
    → delta_keep column predicate base bytes i ≡ (
        is_valid column.validity_words i
        && compare_int64 (for_delta_value base bytes i) predicate.i64 predicate.op)
unfolding delta_keep
delta_keep_lem column predicate base bytes i h =
    rw
      (compare_int64_branchless-compare_int64 (for_delta_value base bytes i) predicate.i64
        predicate.op (unfold for_delta_value in omega arith) h)
      (ground arith)

-- The mask that the kernel fills in, by the test for null.
get-delta_mask :
    (column : CompressedColumnView) (predicate : CompressionPredicate) (out : Mask) (bytes : List ℕ)
    (base j : ℕ)
    → IsInt64 predicate.i64
    → read_for_delta_header column.aux ≡ some base
    → Mask.get (delta_mask column predicate (some bytes) (Mask.resize_bits out column.row_count)) j
      ≡ (ltb j column.row_count
          && (if predicate.is_null_check || predicate.is_not_null_check
              then null_keep column predicate j
              else is_valid column.validity_words j
                && compare_int64 (for_delta_value base bytes j) predicate.i64 predicate.op))
unfolding delta_mask delta_loop
get-delta_mask column predicate out bytes base j h header =
    elim (Bool-cases (column.row_count == 0)) [
      | inl e ↦
          let none_below : ltb j column.row_count ≡ false = ground arith in
          rw (e, none_below)
            (Mask.Laws.get_past (Mask.resize_bits out column.row_count) j (nothing (ground arith)))
      | inr e ↦ rw e (elim (Bool-cases (predicate.is_null_check || predicate.is_not_null_check)) [
        | inl null ↦ rw null (get-set_rows column.row_count (null_keep column predicate) out j)
        | inr value ↦
            rw (value, header)
              (selected
                ∙ ap (λ b. ltb j column.row_count && b)
                    (delta_keep_lem column predicate base bytes j h))
      ])
    ]
  where
    nothing : column.row_count ≤ j → Mask.size (Mask.resize_bits out column.row_count) ≤ j
    nothing le = unfold Mask.size Mask.resize_bits in le

    keep : ℕ → Bool
    keep = delta_keep column predicate base bytes

    selected :
        Mask.get
          (unrolled column.row_count
            (λ i m. Mask.set_value m i (keep i))
            (Mask.resize_bits out column.row_count))
          j
        ≡ (ltb j column.row_count && keep j)
    selected =
        ap (λ m. Mask.get m j)
          (unrolled-for_below column.row_count (λ i m. Mask.set_value m i (keep i))
            (Mask.resize_bits out column.row_count))
        ∙ (unfold set_each in get-set_rows column.row_count keep out j)

-- A test for null asks for the nulls if it is `IS NULL`, and for the others if it is `IS NOT NULL`.
null_keep_lem :
    (column : CompressedColumnView) (predicate : CompressionPredicate) (j : ℕ)
    → null_keep column predicate j ≡ (
        if predicate.null_is && not predicate.is_not_null_check
        then not (is_valid column.validity_words j)
        else is_valid column.validity_words j)
unfolding null_keep
null_keep_lem column predicate j = ground arith

-- On a for-delta column with data and a header, ScanPredicateForDelta selects, of the rows below the
-- count and of no others: under a test for null, the nulls if the predicate is set to null and is no
-- test for values, and else the valid rows; without such a test, the valid rows at which the base
-- plus the 32-bit number in the data, modulo 2 ^ 64, satisfies the predicate.
pub scan_predicate_for_delta_lem :
    (column : CompressedColumnView) (predicate : CompressionPredicate) (out : Mask) (bytes : List ℕ)
    (base j : ℕ)
    → IsInt64 predicate.i64
    → column.bytes ≡ some bytes
    → read_for_delta_header column.aux ≡ some base
    → (mask : Mask) × (scan_predicate_for_delta column predicate (some out) ≡ some mask)
      × (Mask.get mask j ≡ (
          ltb j column.row_count
          && (if predicate.is_null_check || predicate.is_not_null_check
              then (if predicate.null_is && not predicate.is_not_null_check
                  then not (is_valid column.validity_words j)
                  else is_valid column.validity_words j)
              else is_valid column.validity_words j
                && compare_int64
                    (u64 (base + read_le 4 bytes (j * 4)))
                    predicate.i64
                    predicate.op)))
unfolding scan_predicate_for_delta
scan_predicate_for_delta_lem column predicate out bytes base j h body header = (
  delta_mask column predicate column.bytes (Mask.resize_bits out column.row_count),
  refl,
  ap (λ b. Mask.get (delta_mask column predicate b (Mask.resize_bits out column.row_count)) j) body
      ∙ get-delta_mask column predicate out bytes base j h header
      ∙ ap₂
          (λ null value.
            ltb j column.row_count
            && (if predicate.is_null_check || predicate.is_not_null_check
                then null
                else is_valid column.validity_words j
                  && compare_int64 value predicate.i64 predicate.op))
          (null_keep_lem column predicate j) (unfold for_delta_value in refl),
)
