-- ===== src/Tests/Catalogs.antt =====
-- Runs of the catalog, with a codec that writes the length of the id before it and a byte in front of
-- what is compressed, and its theorems at these inputs.
use mimic_rag.Bytes.{le_bytes}
use mimic_rag.Schema.{hash_bytes}
use mimic_rag.Catalog.Latest.{occurs}
use mimic_rag.Text.{same_text}
use mimic_rag.Catalog.{
  record_bytes, header_bytes_of, record_hash, hash_vectors, Codec, CatalogRecord, append,
}
use mimic_rag.Catalog.Compact.{delete_word, compacted, report_of, compact}
use mimic_rag.Catalog.Compact.Live.{keyed, AllNamed, live, latest, view}
use mimic_rag.Catalog.Compact.Output.{compact-Log}
use mimic_rag.Catalog.Log.{Log, append-Log, file_of, records_of}
use mimic_rag.Catalog.Log.Recovery.{hand_out, replay-Log, replay-corrupted}
use mimic_rag.Catalog.Replay.{done, failed, replay}
use mimic_rag.Catalog.Stored.{IsBlock, Storable}
use mimic_rag.Catalog.Stored.Record.{stored_bytes, bytes_under, content_hash}
use mimic_rag.Catalog.Stream.{CatalogError}
use mimic_rag.Prelude.{
  ℕ, ◌<◌, ◌≡◌, refl, ◌∙◌, ◌≢◌, Option, none, some, List, [], ◌∷◌, ◌++◌, arith, ◌==◌, if◌then◌else◌,
  length, take, drop,
}

abbrev text_codec : Codec
text_codec = record {
  Document = List ℕ × List ℕ;
  dump = λ d. some (length d.0 ∷ d.0 ++ d.1);
  parse = split;
  compress = λ bytes. some (40 ∷ bytes);
  decompress = unpack;
  document_id = λ d. some d.0;
  operation = λ d. some d.1;
}
  where
    split : List ℕ → Option (List ℕ × List ℕ)
    split [] = none
    split (n ∷ rest) = some (take n rest, drop n rest)

    unpack : List ℕ → ℕ → Option (List ℕ)
    unpack [] size = none
    unpack (mark ∷ bytes) size = if mark == 40 then some bytes else none

-- A document "a" with one vector (1.0, 2.0), its deletion, and a document "b" with a local vector.
abbrev first_record : CatalogRecord text_codec
first_record = record {
  document = (97 ∷ [], []);
  remote_embeddings = (1065353216 ∷ 1073741824 ∷ []) ∷ [];
  local_embeddings = [];
}

abbrev deletion : CatalogRecord text_codec
deletion = record {
  document = (97 ∷ [], delete_word);
  remote_embeddings = [];
  local_embeddings = [];
}

abbrev second_record : CatalogRecord text_codec
second_record = record {
  document = (98 ∷ [], []);
  remote_embeddings = [];
  local_embeddings = (1065353216 ∷ []) ∷ (0 ∷ []) ∷ [];
}

no_vectors : IsBlock []
no_vectors = record {
  few = omega arith;
  narrow = omega arith;
  even = refl;
  small = omega arith;
  floats = tt;
}

abbrev first_record-Storable : Storable text_codec first_record
first_record-Storable = record {
  metadata = 1 ∷ 97 ∷ [];
  compressed = 40 ∷ 1 ∷ 97 ∷ [];
  dumped = refl;
  parsed = refl;
  packed = refl;
  unpacked = refl;
  short_metadata = omega arith;
  short_compressed = omega arith;
  remote = record {
    few = omega arith;
    narrow = omega arith;
    even = refl;
    small = omega arith;
    floats = ((omega arith, (omega arith, tt)), tt);
  };
  nearby = no_vectors;
}

abbrev deletion-Storable : Storable text_codec deletion
deletion-Storable = record {
  metadata = 1 ∷ 97 ∷ delete_word;
  compressed = 40 ∷ 1 ∷ 97 ∷ delete_word;
  dumped = refl;
  parsed = refl;
  packed = refl;
  unpacked = refl;
  short_metadata = omega arith;
  short_compressed = omega arith;
  remote = no_vectors;
  nearby = no_vectors;
}

abbrev second_record-Storable : Storable text_codec second_record
second_record-Storable = record {
  metadata = 1 ∷ 98 ∷ [];
  compressed = 40 ∷ 1 ∷ 98 ∷ [];
  dumped = refl;
  parsed = refl;
  packed = refl;
  unpacked = refl;
  short_metadata = omega arith;
  short_compressed = omega arith;
  remote = no_vectors;
  nearby = record {
    few = omega arith;
    narrow = omega arith;
    even = refl;
    small = omega arith;
    floats = ((omega arith, tt), ((omega arith, tt), tt));
  };
}

abbrev two_records : Log text_codec
two_records = (first_record, first_record-Storable) ∷ (second_record, second_record-Storable) ∷ []

abbrev three_records : Log text_codec
three_records = two_records ++ (deletion, deletion-Storable) ∷ []

-- A consumer that collects the records, and throws on the fourth.
abbrev collect :
    CatalogRecord text_codec
    → List (CatalogRecord text_codec)
    → Option (List (CatalogRecord text_codec))
collect r rs = if length rs == 3 then none else some (rs ++ r ∷ [])

append-Log_example :
    (append text_codec (some (file_of text_codec two_records)) deletion
      ≡ (file_of text_codec three_records, none))
    × (append text_codec none deletion
        ≡ (file_of text_codec ((deletion, deletion-Storable) ∷ []), none))
    × (append text_codec (some (77 ∷ [])) deletion
        ≡ (file_of text_codec ((deletion, deletion-Storable) ∷ []), none))
append-Log_example =
    append-Log text_codec two_records deletion deletion-Storable (77 ∷ []) (omega arith)

replay-Log_example :
    replay text_codec collect
      (some (
        file_of text_codec two_records
        ++ take 20 (stored_bytes text_codec deletion deletion-Storable)))
      []
    ≡ done (first_record ∷ second_record ∷ []) 2 (some (file_of text_codec two_records))
replay-Log_example =
    replay-Log text_codec collect two_records deletion deletion-Storable 20 [] long ∙ run
  where
    long : 20 < length (stored_bytes text_codec deletion deletion-Storable)
    long = unfold record_bytes header_bytes_of le_bytes in omega arith

    run :
        hand_out text_codec collect
          (records_of text_codec two_records)
          (λ s n. done s n (some (file_of text_codec two_records)))
          []
          0
        ≡ done (first_record ∷ second_record ∷ []) 2 (some (file_of text_codec two_records))
    run = unfold records_of hand_out in refl

replay-corrupted_example :
    replay text_codec collect
      (some (
        file_of text_codec two_records
        ++ (bytes_under text_codec deletion deletion-Storable 7 ++ 1 ∷ [])))
      []
    ≡ failed (first_record ∷ second_record ∷ []) CatalogError.checksum_mismatch
replay-corrupted_example =
    replay-corrupted text_codec collect two_records deletion deletion-Storable 7 (1 ∷ []) []
      (omega arith) other
    ∙ run
  where
    other : 7 ≢ content_hash text_codec deletion deletion-Storable
    other = unfold record_hash hash_vectors hash_bytes in ground arith

    run :
        hand_out text_codec collect
          (records_of text_codec two_records)
          (λ s' n. failed s' CatalogError.checksum_mismatch)
          []
          0
        ≡ failed (first_record ∷ second_record ∷ []) CatalogError.checksum_mismatch
    run = unfold records_of hand_out in refl

three_records-AllNamed : AllNamed text_codec three_records
three_records-AllNamed = (
  record {
    id = 97 ∷ [];
    operation = [];
    has_id = refl;
    nonempty = omega arith;
    has_operation = refl;
  },
  (
    record {
      id = 98 ∷ [];
      operation = [];
      has_id = refl;
      nonempty = omega arith;
      has_operation = refl;
    },
    (
      record {
        id = 97 ∷ [];
        operation = delete_word;
        has_id = refl;
        nonempty = omega arith;
        has_operation = refl;
      },
      tt,
    ),
  ),
)

abbrev only_second : Log text_codec
only_second = (second_record, second_record-Storable) ∷ []

live_records : live text_codec three_records ≡ only_second
live_records = unfold live keyed occurs same_text in refl

compact-Log_example :
    (compact text_codec (some (file_of text_codec three_records))
      ≡ compacted
          (report_of text_codec
            (length (file_of text_codec three_records))
            3
            (length (live text_codec three_records))
            (file_of text_codec (live text_codec three_records)))
          (file_of text_codec (live text_codec three_records)))
    × ((id : List ℕ)
        → (view text_codec id (live text_codec three_records) ≡ view text_codec id three_records)
          × (latest text_codec id (live text_codec three_records)
              ≡ view text_codec id three_records))
compact-Log_example = compact-Log text_codec three_records three_records-AllNamed
