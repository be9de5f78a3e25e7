-- ===== src/Schema.antt =====
-- engine/src/hash.cpp and engine/src/schema.cpp: the FNV-1a hash and the fingerprint of a schema. A
-- name is the list of its bytes, and size_t has 8 bytes.
use mimic_rag.Bytes.{le_bytes}
use mimic_rag.FieldVector.{FieldType}
use mimic_rag.Prelude.{
  ℕ, ◌*◌, ◌%◌, ◌^◌, bit_xor, ◌≡◌, refl, sym, ap, ◌∙◌, List, [], ◌∷◌, ◌++◌, length,
}

unfoldable pub hash_bytes : ℕ → List ℕ → ℕ
hash_bytes hash [] = hash
hash_bytes hash (byte ∷ bytes) = hash_bytes (bit_xor hash byte * 1099511628211 % 2 ^ 64) bytes

abbrev pub hash_init : ℕ
hash_init = 14695981039346656037

-- The underlying value of a type.
abbrev pub type_byte : FieldType → ℕ
type_byte FieldType.int32 = 0
type_byte FieldType.int64 = 1
type_byte FieldType.float64 = 2
type_byte FieldType.bool = 3
type_byte FieldType.dict_int32 = 4
type_byte FieldType.string = 5
type_byte FieldType.bytes = 6
type_byte FieldType.array = 7
type_byte FieldType.object = 8
type_byte FieldType.vector_float32 = 9

pub record SchemaField : Type 0 where
  pub name : List ℕ
  pub type : FieldType

-- The loop over the fields.
unfoldable pub hash_fields : ℕ → List SchemaField → ℕ
hash_fields hash [] = hash
hash_fields hash (field ∷ fields) =
    hash_fields (hash_bytes (hash_bytes hash field.name) (type_byte field.type ∷ [])) fields

unfoldable pub fingerprint : List SchemaField → ℕ
fingerprint fields = hash_fields (hash_bytes hash_init (le_bytes 8 (length fields))) fields

hash_bytes-append :
    (hash : ℕ) (xs ys : List ℕ) → hash_bytes hash (xs ++ ys) ≡ hash_bytes (hash_bytes hash xs) ys
unfolding hash_bytes
hash_bytes-append hash [] ys = refl
hash_bytes-append hash (x ∷ xs) ys =
    hash_bytes-append (bit_xor hash x * 1099511628211 % 2 ^ 64) xs ys

-- Two schemas of two fields with the same types have the same fingerprint where the first name of one
-- holds the byte of its type between `a` and `b` and its second name is empty, and the names of the
-- other are `a`, and `b` with that byte behind it: names are hashed without their lengths.
pub fingerprint-moved_name :
    (a b : List ℕ) (t u : FieldType)
    → fingerprint
        (record { name = a ++ (type_byte t ∷ b); type = t } ∷ record { name = []; type = u } ∷ [])
      ≡ fingerprint
          (record { name = a; type = t } ∷ record { name = b ++ (type_byte t ∷ []); type = u } ∷ [])
unfolding fingerprint hash_fields hash_bytes
fingerprint-moved_name a b t u =
    ap (λ h. hash_bytes (hash_bytes h (type_byte t ∷ [])) (type_byte u ∷ []))
      (hash_bytes-append start a (type_byte t ∷ b)
        ∙ hash_bytes-append (hash_bytes start a) (type_byte t ∷ []) b)
    ∙ ap (λ h. hash_bytes h (type_byte u ∷ []))
        (sym (
          hash_bytes-append (hash_bytes (hash_bytes start a) (type_byte t ∷ [])) b
            (type_byte t ∷ [])))
  where
    start : ℕ
    start = hash_bytes hash_init (le_bytes 8 2)
