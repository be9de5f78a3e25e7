-- ===== src/ArrayCodec/Items.antt =====
-- engine/src/array_codec.cpp: the bytes of one value, and the round of DecodeArray that takes them.
use mimic_rag.ArrayCodec.{
  FieldValue, FieldValues, values, item, read_bytes, decode_value, decode_items,
}
use mimic_rag.Bytes.{le_bytes, length-le_bytes, read_le-le_bytes}
use mimic_rag.Dictionary.{u32}
use mimic_rag.Prelude.{
  ℕ, suc, ◌+◌, ◌^◌, ◌<◌, ◌≡◌, refl, sym, ap, ap₂, ◌∙◌, Bool, true, false, not, Option, some, List,
  [], ◌∷◌, ◌++◌, arith, ltb, ◌==◌, if◌then◌else◌, le→ltb, length, count, take, drop, length-append,
  take-append, drop-append, append_assoc,
}

pub read_bytes-le_bytes :
    (w v : ℕ) (rest : List ℕ) → v < 256 ^ w → read_bytes w (le_bytes w v ++ rest) ≡ some (v, rest)
unfolding read_bytes
read_bytes-le_bytes w v rest h =
    let enough : ltb (length (le_bytes w v ++ rest)) w ≡ false =
      le→ltb (length (le_bytes w v ++ rest)) w
        (omega (arith, length-append (le_bytes w v) rest, length-le_bytes w v)) in
    rw enough (
      ap₂ (λ a b. some (a, b)) (read_le-le_bytes w v rest h)
        (ap (λ n. drop n (le_bytes w v ++ rest)) (sym (length-le_bytes w v))
          ∙ drop-append (le_bytes w v) rest))

pub flag_back : (b : Bool) → not ((if b then 1 else 0) == 0) ≡ b
flag_back true = refl
flag_back false = refl

pub flag-lt : (b : Bool) → (if b then 1 else 0) < 256 ^ 1
flag-lt true = omega arith
flag-lt false = omega arith

-- A value whose payload fits writes the payload as it is.
item_whole :
    (type : ℕ) (is_null : Bool) (payload : List ℕ)
    → length payload < 2 ^ 32
    → item type is_null payload
      ≡ le_bytes 1 type
        ++ (le_bytes 1 (if is_null then 1 else 0)
            ++ (le_bytes 2 0 ++ (le_bytes 4 (length payload) ++ payload)))
unfolding item
item_whole type is_null [] h = refl
item_whole type is_null (x ∷ payload) h =
    let small : u32 (length (x ∷ payload)) ≡ length (x ∷ payload) = omega arith in
    let some_bytes : (length (x ∷ payload) == 0) ≡ false = ground arith in
    rw (small, some_bytes) refl

pub length-item :
    (type : ℕ) (is_null : Bool) (payload : List ℕ)
    → length payload < 2 ^ 32
    → length (item type is_null payload) ≡ 8 + length payload
unfolding le_bytes
length-item type is_null payload h = ap length (item_whole type is_null payload h) ∙ omega arith

item-append :
    (type : ℕ) (is_null : Bool) (payload rest : List ℕ)
    → length payload < 2 ^ 32
    → item type is_null payload ++ rest
      ≡ le_bytes 1 type
        ++ (le_bytes 1 (if is_null then 1 else 0)
            ++ (le_bytes 2 0 ++ (le_bytes 4 (length payload) ++ (payload ++ rest))))
item-append type is_null payload rest h =
    let flag : List ℕ = le_bytes 1 (if is_null then 1 else 0) in
    let size : List ℕ = le_bytes 4 (length payload) in
    ap (λ l. l ++ rest) (item_whole type is_null payload h)
    ∙ append_assoc (le_bytes 1 type) (flag ++ (le_bytes 2 0 ++ (size ++ payload))) rest
    ∙ ap (λ l. le_bytes 1 type ++ l)
        (append_assoc flag (le_bytes 2 0 ++ (size ++ payload)) rest
          ∙ ap (λ l. flag ++ l)
              (append_assoc (le_bytes 2 0) (size ++ payload) rest
                ∙ ap (λ l. le_bytes 2 0 ++ l) (append_assoc size payload rest)))

-- One round of the loop of DecodeArray on the bytes of one value.
pub decode_items-item :
    (nested : List ℕ → Option FieldValues) (count type : ℕ) (is_null : Bool) (payload rest : List ℕ)
    (v : FieldValue) (vs : FieldValues)
    → type < 2 ^ 8
    → length payload < 2 ^ 32
    → decode_value nested type is_null payload ≡ some v
    → decode_items nested count rest ≡ some vs
    → decode_items nested (suc count) (item type is_null payload ++ rest) ≡ some (values v vs)
unfolding decode_items
decode_items-item nested count type is_null payload rest v vs byte short here later =
    ap (decode_items nested (suc count)) (item-append type is_null payload rest short)
    ∙ rw (read1, read2, read3, read4, enough, flag_back is_null, taken, here, left, later) refl
  where
    flag : List ℕ
    flag = le_bytes 1 (if is_null then 1 else 0)

    body : List ℕ
    body = payload ++ rest

    behind : List ℕ
    behind = le_bytes 2 0 ++ (le_bytes 4 (length payload) ++ body)

    read1 : read_bytes 1 (le_bytes 1 type ++ (flag ++ behind)) ≡ some (type, flag ++ behind)
    read1 = read_bytes-le_bytes 1 type (flag ++ behind) (omega arith)

    read2 : read_bytes 1 (flag ++ behind) ≡ some (if is_null then 1 else 0, behind)
    read2 = read_bytes-le_bytes 1 (if is_null then 1 else 0) behind (flag-lt is_null)

    read3 : read_bytes 2 behind ≡ some (0, le_bytes 4 (length payload) ++ body)
    read3 = read_bytes-le_bytes 2 0 (le_bytes 4 (length payload) ++ body) (omega arith)

    read4 : read_bytes 4 (le_bytes 4 (length payload) ++ body) ≡ some (length payload, body)
    read4 = read_bytes-le_bytes 4 (length payload) body (omega arith)

    enough : ltb (length body) (length payload) ≡ false
    enough = le→ltb (length body) (length payload) (omega (arith, length-append payload rest))

    taken : take (length payload) body ≡ payload
    taken = take-append payload rest

    left : drop (length payload) body ≡ rest
    left = drop-append payload rest
