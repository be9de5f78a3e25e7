-- ===== src/Catalog/Replay.antt =====
-- rag_cpp/src/catalog.cpp, Replay: the records of a catalog file, and its torn tail cut off.
use mimic_rag.Bytes.{read_le}
use mimic_rag.Catalog.{
  Codec, CatalogRecord, Vectors, RecordHeader, file_magic, record_magic, record_header_bytes,
  maximum_metadata_bytes, maximum_vector_bytes, block_bytes, hash_start, exists,
}
use mimic_rag.Catalog.Stream.{
  CatalogError, Outcome, got, short, bad, Reader, ◌>>=◌, ◌>>◌, pure, too_short, require, or_throw,
  read_block, read_int,
}
use mimic_rag.Schema.{hash_bytes}
use mimic_rag.Prelude.{
  ℕ, zero, suc, ◌+◌, ◌-◌, ◌<◌, ◌≡◌, arith, ◌*◌, Bool, true, false, ◌&&◌, Option, none, some, List,
  [], ◌∷◌, ltb, leb, ◌==◌, if◌then◌else◌, length, count, take, drop, ap,
}

-- The floats of a row, from its bytes.
unfoldable pub floats_of : ℕ → List ℕ → List ℕ
floats_of zero bytes = []
floats_of (suc n) bytes = read_le 4 bytes 0 ∷ floats_of n (drop 4 bytes)

-- The loop of ReadVectors, with the hash that it carries on.
unfoldable pub read_rows : ℕ → ℕ → ℕ → Reader (Vectors × ℕ)
read_rows zero dimension hash = pure ([], hash)
read_rows (suc count) dimension hash = do
  row ← read_block (dimension * 4)
  rest ← read_rows count dimension (hash_bytes hash row)
  pure (floats_of dimension row ∷ rest.0, rest.1)

-- ReadVectors: Replay catches what it throws and takes it for a torn tail.
unfoldable pub read_vectors : ℕ → ℕ → ℕ → Reader (Vectors × ℕ)
read_vectors count dimension hash =
    if ltb maximum_vector_bytes (block_bytes count dimension)
    then too_short
    else read_rows count dimension hash

-- The test of the constants and sizes in the header of a record.
abbrev pub header_ok : RecordHeader → Bool
header_ok h =
    (h.magic == record_magic)
    && ((h.header_bytes == record_header_bytes)
        && (leb h.compressed_size maximum_metadata_bytes
            && leb h.metadata_size maximum_metadata_bytes))

unfoldable pub read_record_header : Reader RecordHeader
read_record_header = do
  magic ← read_int 4
  header_bytes ← read_int 4
  compressed_size ← read_int 8
  metadata_size ← read_int 8
  remote_count ← read_int 4
  remote_dimension ← read_int 4
  local_count ← read_int 4
  local_dimension ← read_int 4
  expected_hash ← read_int 8
  pure (record {
    magic = magic;
    header_bytes = header_bytes;
    compressed_size = compressed_size;
    metadata_size = metadata_size;
    remote_count = remote_count;
    remote_dimension = remote_dimension;
    local_count = local_count;
    local_dimension = local_dimension;
    expected_hash = expected_hash;
  })

-- The comparison of two arrays of bytes.
abbrev pub same_bytes : List ℕ → List ℕ → Bool
same_bytes [] [] = true
same_bytes (x ∷ xs) (y ∷ ys) = (x == y) && same_bytes xs ys
same_bytes _ _ = false

-- Magic, version and flags of the file; the flags are not looked at.
unfoldable pub read_file_header : Reader (Unit {0})
read_file_header = do
  magic ← read_block 8
  version ← read_int 4
  flags ← read_int 4
  require (same_bytes magic file_magic && (version == 1)) CatalogError.invalid_header

-- What Replay returns, or throws: the consumer's state, the count of the records, and the file,
-- which an exception leaves as it was.
pub data Replayed {ℓ} (S : Type ℓ) : Type ℓ where
  done : S → ℕ → Option (List ℕ) → Replayed S
  failed : S → CatalogError → Replayed S

module _ (c : Codec) where
  -- ZSTD_decompress, with the test of the size that comes out.
  abbrev pub decoded : List ℕ → ℕ → Option (List ℕ)
  decoded compressed size = elim (c.decompress compressed size) [
    | none ↦ none
    | some metadata ↦ if length metadata == size then some metadata else none
  ]

  -- The loop's body, for the bytes behind the last good record.
  unfoldable pub read_record : Reader (CatalogRecord c)
  read_record = do
    header ← read_record_header
    require (header_ok header) CatalogError.invalid_record
    compressed ← read_block header.compressed_size
    remote ←
        read_vectors header.remote_count header.remote_dimension (hash_bytes hash_start compressed)
    nearby ← read_vectors header.local_count header.local_dimension remote.1
    require (nearby.1 == header.expected_hash) CatalogError.checksum_mismatch
    metadata ← or_throw (decoded compressed header.metadata_size) CatalogError.decompression_failed
    document ← or_throw (c.parse metadata) CatalogError.parse_failed
    pure (record { document = document; remote_embeddings = remote.0; local_embeddings = nearby.0 })

  module _ {ℓ} {S : Type ℓ} (consume : CatalogRecord c → S → Option S) where
    abbrev consumed : Option S → (S → Replayed S) → S → Replayed S
    consumed none k s = failed s CatalogError.consumer_threw
    consumed (some s') k s = k s'

    -- One round: what was read, the rest of the loop, the file, the bytes behind the last good
    -- record, and the state. A tail that is too short for a record is cut off.
    abbrev pub after_read :
        Outcome (CatalogRecord c)
        → (List ℕ → S → ℕ → Replayed S)
        → List ℕ
        → List ℕ
        → S
        → ℕ
        → Replayed S
    after_read (got r rest) k file bytes s n = consumed (consume r s) (λ s'. k rest s' (n + 1)) s
    after_read short k file bytes s n = done s n (some (take (length file - length bytes) file))
    after_read (bad e) k file bytes s n = failed s e

    unfoldable pub replay_loop : ℕ → List ℕ → List ℕ → S → ℕ → Replayed S
    replay_loop fuel file [] s n = done s n (some file)
    replay_loop zero file (b ∷ bs) s n = done s n (some file)
    replay_loop (suc fuel) file (b ∷ bs) s n =
        after_read (read_record (b ∷ bs)) (replay_loop fuel file) file (b ∷ bs) s n

    pub replay_loop-suc :
        (fuel : ℕ) (file bytes : List ℕ) (s : S) (n : ℕ) (o : Outcome (CatalogRecord c))
        → 0 < length bytes
        → read_record bytes ≡ o
        → replay_loop (suc fuel) file bytes s n
          ≡ after_read o (replay_loop fuel file) file bytes s n
    unfolding replay_loop
    replay_loop-suc fuel file [] s n o pos e = absurd (omega arith)
    replay_loop-suc fuel file (b ∷ bs) s n o pos e =
        ap (λ q. after_read q (replay_loop fuel file) file (b ∷ bs) s n) e

    unfoldable pub after_header : List ℕ → S → Outcome (Unit {0}) → Replayed S
    after_header file s (got u rest) = replay_loop (length file) file rest s 0
    after_header file s short = failed s CatalogError.invalid_header
    after_header file s (bad e) = failed s e

    -- Replay; the consumer throws where it returns `none`.
    unfoldable pub replay : Option (List ℕ) → S → Replayed S
    replay none s = done s 0 none
    replay (some file) s =
        if exists (some file)
        then after_header file s (read_file_header file)
        else done s 0 (some file)
