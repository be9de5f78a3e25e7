-- ===== src/Catalog/Stored/Record.antt =====
-- rag_cpp/src/catalog.cpp: the bytes that Append writes for a record are those that Replay takes.
use mimic_rag.Bytes.{le_bytes}
use mimic_rag.Catalog.{
  RecordHeader, header_bytes_of, header_for, record_bytes, encode_record, maximum_metadata_bytes,
  record_hash, Codec, CatalogRecord, hash_start, ok, hash_vectors, vector_bytes,
}
use mimic_rag.Catalog.Replay.{header_ok, read_record_header, decoded, read_record}
use mimic_rag.Catalog.Stream.{
  CatalogError, Takes-last, Rejects, Rejects-bind, Rejects-last, Rejects-require, Takes-step,
  Takes-require, Takes-or_throw, Takes-read_int, Takes-map, Takes, Takes-bind, Takes-pure,
  Takes-read_block,
}
use mimic_rag.Schema.{hash_bytes}
use mimic_rag.Prelude.{
  ℕ, ◌^◌, ◌<◌, ◌≡◌, refl, ap, ◌∙◌, true, false, some, none, List, [], arith, leb, ◌==◌, le→leb,
  and-true, length, ==_refl, ◌≢◌, if◌then◌else◌,
}
use mimic_rag.Catalog.Stored.{
  shape_of, Storable, validate-IsBlock, Takes-read_vectors, hash_bytes-lt, hash_vectors-lt,
}

-- A header whose fields fit their types.
pub record Fits (h : RecordHeader) : Type 0 where
  pub magic : h.magic < 2 ^ 32
  pub header_bytes : h.header_bytes < 2 ^ 32
  pub compressed_size : h.compressed_size < 2 ^ 64
  pub metadata_size : h.metadata_size < 2 ^ 64
  pub remote_count : h.remote_count < 2 ^ 32
  pub remote_dimension : h.remote_dimension < 2 ^ 32
  pub local_count : h.local_count < 2 ^ 32
  pub local_dimension : h.local_dimension < 2 ^ 32
  pub expected_hash : h.expected_hash < 2 ^ 64

Takes-read_record_header :
    (h : RecordHeader) → Fits h → Takes read_record_header (header_bytes_of h) h
unfolding read_record_header header_bytes_of
Takes-read_record_header h fits =
    Takes-bind _ _ (le_bytes 4 h.magic) _ h.magic h (Takes-read_int 4 h.magic fits.magic) (
      Takes-bind _ _ (le_bytes 4 h.header_bytes) _ h.header_bytes h
        (Takes-read_int 4 h.header_bytes fits.header_bytes)
        (Takes-bind _ _ (le_bytes 8 h.compressed_size) _ h.compressed_size h
          (Takes-read_int 8 h.compressed_size fits.compressed_size)
          (Takes-bind _ _ (le_bytes 8 h.metadata_size) _ h.metadata_size h
            (Takes-read_int 8 h.metadata_size fits.metadata_size)
            (Takes-bind _ _ (le_bytes 4 h.remote_count) _ h.remote_count h
              (Takes-read_int 4 h.remote_count fits.remote_count)
              (Takes-bind _ _ (le_bytes 4 h.remote_dimension) _ h.remote_dimension h
                (Takes-read_int 4 h.remote_dimension fits.remote_dimension)
                (Takes-bind _ _ (le_bytes 4 h.local_count) _ h.local_count h
                  (Takes-read_int 4 h.local_count fits.local_count)
                  (Takes-bind _ _ (le_bytes 4 h.local_dimension) _ h.local_dimension h
                    (Takes-read_int 4 h.local_dimension fits.local_dimension)
                    (Takes-map _ _ (le_bytes 8 h.expected_hash) h.expected_hash
                      (Takes-read_int 8 h.expected_hash fits.expected_hash)))))))))

module _ (c : Codec) (r : CatalogRecord c) (s : Storable c r) where
  abbrev pub content_hash : ℕ
  content_hash = record_hash s.compressed r.remote_embeddings r.local_embeddings

  -- The header of the record, and its bytes, under any stored hash.
  abbrev header_under : ℕ → RecordHeader
  header_under =
      header_for s.compressed (length s.metadata) (shape_of r.remote_embeddings)
        (shape_of r.local_embeddings)

  abbrev pub bytes_under : ℕ → List ℕ
  bytes_under hash =
      record_bytes (header_under hash) s.compressed r.remote_embeddings r.local_embeddings

  abbrev pub stored_bytes : List ℕ
  stored_bytes = bytes_under content_hash

  pub content_hash-lt : content_hash < 2 ^ 64
  content_hash-lt =
      unfold record_hash in
      hash_vectors-lt _ r.local_embeddings (
        hash_vectors-lt _ r.remote_embeddings (hash_bytes-lt hash_start s.compressed (omega arith)))

  header_under-Fits : (hash : ℕ) → hash < 2 ^ 64 → Fits (header_under hash)
  header_under-Fits hash h = record {
    magic = omega arith;
    header_bytes = omega arith;
    compressed_size = omega (arith, s.short_compressed);
    metadata_size = omega (arith, s.short_metadata);
    remote_count = s.remote.few;
    remote_dimension = s.remote.narrow;
    local_count = s.nearby.few;
    local_dimension = s.nearby.narrow;
    expected_hash = h;
  }

  header_under-ok : (hash : ℕ) → header_ok (header_under hash) ≡ true
  header_under-ok hash =
      and-true (leb (length s.compressed) maximum_metadata_bytes)
        (leb (length s.metadata) maximum_metadata_bytes)
        (le→leb (length s.compressed) maximum_metadata_bytes s.short_compressed)
        (le→leb (length s.metadata) maximum_metadata_bytes s.short_metadata)

  decoded_back : decoded c s.compressed (length s.metadata) ≡ some s.metadata
  decoded_back =
      let same : (length s.metadata == length s.metadata) ≡ true = ==_refl (length s.metadata) in
      ap
        (λ o. elim o [
          | none ↦ none
          | some metadata ↦ if length metadata == length s.metadata then some metadata else none
        ])
        s.unpacked
      ∙ ap (λ t. if t then some s.metadata else none) same

  -- Append accepts the record and writes these bytes.
  pub encode_record-Storable : encode_record c r ≡ ok stored_bytes
  unfolding encode_record
  encode_record-Storable =
      let small : leb (length s.metadata) maximum_metadata_bytes ≡ true =
        le→leb (length s.metadata) maximum_metadata_bytes s.short_metadata in
      rw
        (
          s.dumped,
          small,
          s.packed,
          validate-IsBlock r.remote_embeddings s.remote,
          validate-IsBlock r.local_embeddings s.nearby,
        )
        refl

  -- Replay takes exactly them, for the record.
  pub Takes-read_record : Takes (read_record c) stored_bytes r
  unfolding read_record record_bytes record_hash
  Takes-read_record =
      Takes-bind _ _ (header_bytes_of (header_under content_hash)) _ (header_under content_hash) r
        (Takes-read_record_header _ (header_under-Fits content_hash content_hash-lt))
        (Takes-step _ _ _ tt r
          (Takes-require _ CatalogError.invalid_record (header_under-ok content_hash))
          (Takes-bind _ _ s.compressed _ s.compressed r (Takes-read_block _ s.compressed refl) (
            Takes-bind _ _ (vector_bytes r.remote_embeddings) _ _ r
              (Takes-read_vectors r.remote_embeddings (hash_bytes hash_start s.compressed) s.remote)
              (Takes-last _ _ (vector_bytes r.local_embeddings) _ r
                (Takes-read_vectors r.local_embeddings
                  (hash_vectors (hash_bytes hash_start s.compressed) r.remote_embeddings) s.nearby)
                (Takes-step _ _ [] tt r
                  (Takes-require _ CatalogError.checksum_mismatch (==_refl content_hash))
                  (Takes-step _ _ [] s.metadata r
                    (Takes-or_throw _ CatalogError.decompression_failed s.metadata decoded_back)
                    (Takes-last _ _ [] r.document r
                      (Takes-or_throw _ CatalogError.parse_failed r.document s.parsed)
                      (Takes-pure r))))))))

  -- Under another hash the same bytes are thrown out.
  pub Rejects-read_record :
      (hash : ℕ)
      → hash < 2 ^ 64
      → hash ≢ content_hash
      → Rejects (read_record c) (bytes_under hash) CatalogError.checksum_mismatch
  unfolding read_record record_bytes record_hash
  Rejects-read_record hash h other =
      Rejects-bind _ _ (header_bytes_of (header_under hash)) _ (header_under hash)
        CatalogError.checksum_mismatch (Takes-read_record_header _ (header_under-Fits hash h))
        (Rejects-bind _ _ [] _ tt CatalogError.checksum_mismatch
          (Takes-require _ CatalogError.invalid_record (header_under-ok hash))
          (Rejects-bind _ _ s.compressed _ s.compressed CatalogError.checksum_mismatch
            (Takes-read_block _ s.compressed refl)
            (Rejects-bind _ _ (vector_bytes r.remote_embeddings) _ _ CatalogError.checksum_mismatch
              (Takes-read_vectors r.remote_embeddings (hash_bytes hash_start s.compressed) s.remote)
              (Rejects-last _ _ (vector_bytes r.local_embeddings) _ CatalogError.checksum_mismatch
                (Takes-read_vectors r.local_embeddings
                  (hash_vectors (hash_bytes hash_start s.compressed) r.remote_embeddings) s.nearby)
                (Rejects-require _ CatalogError.checksum_mismatch _ (not_equal other))))))
    where
      not_equal : hash ≢ content_hash → (content_hash == hash) ≡ false
      not_equal ne = ground (arith, ne)
