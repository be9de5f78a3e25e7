-- ===== src/Catalog/Stored.antt =====
-- rag_cpp/src/catalog.cpp: the vectors that Append accepts, and what ReadVectors makes of their bytes.
pub mod Record
use mimic_rag.Bytes.{le_bytes, array_bytes, length-le_bytes, read_le-le_bytes, length-array_bytes}
use mimic_rag.Catalog.{
  RecordHeader, header_bytes_of, header_for, record_bytes, encode_record, maximum_metadata_bytes,
  record_hash, Codec, CatalogRecord, hash_start, Vectors, ok, Shape, validate, all_of_length,
  block_bytes, maximum_vector_bytes, hash_vectors, vector_bytes,
}
use mimic_rag.Catalog.Replay.{
  header_ok, read_record_header, decoded, read_record, floats_of, read_rows, read_vectors,
}
use mimic_rag.Catalog.Stream.{
  CatalogError, Takes-last, Rejects, Rejects-bind, Rejects-last, Rejects-require, Takes-step,
  Takes-require, Takes-or_throw, Takes-read_int, Takes-map, Takes, Takes-bind, Takes-pure,
  Takes-value, Takes-read_block, read_block,
}
use mimic_rag.Schema.{hash_bytes}
use mimic_rag.Prelude.{
  ℕ, ◌*◌, ◌^◌, ◌≤◌, ◌<◌, ◌≡◌, refl, sym, ap, ap₂, ◌∙◌, true, false, ◌&&◌, some, none, List, [], ◌∷◌,
  ◌++◌, arith, ltb, leb, ◌==◌, lt→ltb, le→ltb, le→leb, and-parts, and-true, ==_iff, length, drop,
  All, drop-append, bit_xor, ==_refl, ◌%◌, ◌≢◌, if◌then◌else◌,
}

-- The dimension that validate takes.
abbrev pub width : Vectors → ℕ
width [] = 0
width (row ∷ rows) = length row

abbrev pub shape_of : Vectors → Shape
shape_of vs = record {
  count = length vs;
  dimension = width vs;
  bytes = block_bytes (length vs) (width vs);
}

-- Vectors that Append accepts, of float patterns.
pub record IsBlock (vs : Vectors) : Type 0 where
  pub few : length vs < 2 ^ 32
  pub narrow : width vs < 2 ^ 32
  pub even : all_of_length (width vs) vs ≡ true
  pub small : block_bytes (length vs) (width vs) ≤ maximum_vector_bytes
  pub floats : All (All (λ v. v < 2 ^ 32)) vs

-- A document that survives dump and parse, and compression within the limits, with such vectors:
-- what Append accepts and Replay gives back.
pub record Storable (c : Codec) (r : CatalogRecord c) : Type 0 where
  pub metadata : List ℕ
  pub compressed : List ℕ
  pub dumped : c.dump r.document ≡ some metadata
  pub parsed : c.parse metadata ≡ some r.document
  pub packed : c.compress metadata ≡ some compressed
  pub unpacked : c.decompress compressed (length metadata) ≡ some metadata
  pub short_metadata : length metadata ≤ maximum_metadata_bytes
  pub short_compressed : length compressed ≤ maximum_metadata_bytes
  pub remote : IsBlock r.remote_embeddings
  pub nearby : IsBlock r.local_embeddings

pub validate-IsBlock : (vs : Vectors) → IsBlock vs → validate vs ≡ ok (shape_of vs)
unfolding validate
validate-IsBlock [] block = refl
validate-IsBlock (row ∷ rows) block =
    let fits : (ltb (length (row ∷ rows)) (2 ^ 32) && ltb (length row) (2 ^ 32)) ≡ true =
      and-true (ltb (length (row ∷ rows)) (2 ^ 32)) (ltb (length row) (2 ^ 32))
        (lt→ltb (length (row ∷ rows)) (2 ^ 32) block.few)
        (lt→ltb (length row) (2 ^ 32) block.narrow) in
    let same : all_of_length (length row) rows ≡ true =
      (and-parts (length row == length row) (all_of_length (length row) rows) block.even).1 in
    let small : leb (block_bytes (length (row ∷ rows)) (length row)) maximum_vector_bytes ≡ true =
      le→leb (block_bytes (length (row ∷ rows)) (length row)) maximum_vector_bytes block.small in
    rw (fits, same, small) refl

floats_of-array_bytes :
    (row : List ℕ) → All (λ v. v < 2 ^ 32) row → floats_of (length row) (array_bytes 4 row) ≡ row
unfolding floats_of array_bytes
floats_of-array_bytes [] all = refl
floats_of-array_bytes (v ∷ row) (fits, all) =
    ap₂ (λ a b. a ∷ b) (read_le-le_bytes 4 v (array_bytes 4 row) (omega arith))
      (ap (floats_of (length row)) (
          ap (λ n. drop n (le_bytes 4 v ++ array_bytes 4 row)) (sym (length-le_bytes 4 v))
          ∙ drop-append (le_bytes 4 v) (array_bytes 4 row))
        ∙ floats_of-array_bytes row all)

Takes-read_rows :
    (dimension hash : ℕ) (vs : Vectors)
    → all_of_length dimension vs ≡ true
    → All (All (λ v. v < 2 ^ 32)) vs
    → Takes (read_rows (length vs) dimension hash) (vector_bytes vs) (vs, hash_vectors hash vs)
unfolding read_rows vector_bytes hash_vectors
Takes-read_rows dimension hash [] same all = Takes-pure ([], hash)
Takes-read_rows dimension hash (row ∷ rows) same (here, all) =
    Takes-bind (read_block (dimension * 4)) _ (array_bytes 4 row) (vector_bytes rows)
      (array_bytes 4 row) (row ∷ rows, hash_vectors (hash_bytes hash (array_bytes 4 row)) rows)
      (Takes-read_block (dimension * 4) (array_bytes 4 row)
        (omega (arith, length-array_bytes 4 row, wide)))
      (Takes-value _ (vector_bytes rows) (floats_of dimension (array_bytes 4 row) ∷ rows, after)
        (row ∷ rows, after)
        (ap (λ first. (first ∷ rows, after))
          (ap (λ d. floats_of d (array_bytes 4 row)) (sym wide) ∙ floats_of-array_bytes row here))
        (Takes-map _ (λ rest. (floats_of dimension (array_bytes 4 row) ∷ rest.0, rest.1))
          (vector_bytes rows) (rows, after)
          (Takes-read_rows dimension (hash_bytes hash (array_bytes 4 row)) rows parts.1 all)))
  where
    after : ℕ
    after = hash_vectors (hash_bytes hash (array_bytes 4 row)) rows

    parts : ((length row == dimension) ≡ true) × (all_of_length dimension rows ≡ true)
    parts = and-parts (length row == dimension) (all_of_length dimension rows) same

    wide : length row ≡ dimension
    wide = (==_iff (length row) dimension).0 parts.0

pub Takes-read_vectors :
    (vs : Vectors) (hash : ℕ)
    → IsBlock vs
    → Takes (read_vectors (length vs) (width vs) hash) (vector_bytes vs) (vs, hash_vectors hash vs)
unfolding read_vectors
Takes-read_vectors vs hash block =
    let small : ltb maximum_vector_bytes (block_bytes (length vs) (width vs)) ≡ false =
      le→ltb maximum_vector_bytes (block_bytes (length vs) (width vs)) block.small in
    rw small (Takes-read_rows (width vs) hash vs block.even block.floats)

pub hash_bytes-lt : (hash : ℕ) (bytes : List ℕ) → hash < 2 ^ 64 → hash_bytes hash bytes < 2 ^ 64
unfolding hash_bytes
hash_bytes-lt hash [] h = h
hash_bytes-lt hash (b ∷ bytes) h =
    hash_bytes-lt (bit_xor hash b * 1099511628211 % 2 ^ 64) bytes (omega arith)

pub hash_vectors-lt : (hash : ℕ) (vs : Vectors) → hash < 2 ^ 64 → hash_vectors hash vs < 2 ^ 64
unfolding hash_vectors
hash_vectors-lt hash [] h = h
hash_vectors-lt hash (row ∷ rows) h =
    hash_vectors-lt (hash_bytes hash (array_bytes 4 row)) rows
      (hash_bytes-lt hash (array_bytes 4 row) h)
