-- ===== src/Catalog.antt =====
-- rag_cpp/src/catalog.cpp, rag_cpp/include/mimicrag/catalog.h: the append-only binary catalog.
-- A file is the list of its bytes and `none` where there is none; disk errors are not modelled. The
-- JSON library and Zstd enter as a `Codec`. A vector of floats is the list of their 32-bit patterns.
pub mod Stream
pub mod Replay
pub mod Stored
pub mod Log
pub mod Latest
pub mod Compact
use mimic_rag.Bytes.{le_bytes, array_bytes}
use mimic_rag.Schema.{hash_bytes}
use mimic_rag.Prelude.{
  ℕ, zero, suc, ◌+◌, ◌-◌, ◌*◌, ◌/◌, ◌%◌, ◌^◌, ◌≤◌, ◌<◌, min, max, bit_and, bit_or, bit_xor, ◌≡◌,
  refl, sym, ap, ap₂, subst, ◌∙◌, ◌≢◌, ◌↔◌, ◌⊎◌, inl, inr, Bool, true, false, not, ◌&&◌, ◌||◌,
  Option, none, some, List, [], ◌∷◌, ◌++◌, map, arith, dec_lt, ℕ_discrete, ltb, leb, ◌==◌,
  if◌then◌else◌, lt→ltb, le→ltb, ==_refl, ==_iff, Bool-cases, Option-cases, length, get_or,
  get_elem?, count, count-append, count_single, set, take, drop, replicate, resize, All,
  length-append, length-replicate, length-set, length-take, length-drop, length-resize,
  take-append-drop, get_or-set_self, get_or-set_ne, get_or-replicate, get_or-ge_length,
  get_or-resize, get_or_ext, get_or-append_left, get_or-append_right, length-map, for_below,
  for_below_inv, for_below-add, unrolled, unrolled-for_below, fill_if, length-fill_if,
  get_or-fill_if, rank, passing, length-passing, count-passing, fill, length-fill, get_or-fill,
  take-append, drop-append, append-nil, append_assoc,
}

-- What the catalog calls of nlohmann::json and Zstd. `none` is an exception or an error code; `[]`
-- of document_id and operation is the default that value() gives for a missing key.
pub record Codec : Type 1 where
  pub Document : Type 0
  pub dump : Document → Option (List ℕ)
  pub parse : List ℕ → Option Document
  pub compress : List ℕ → Option (List ℕ)
  pub decompress : List ℕ → ℕ → Option (List ℕ)
  pub document_id : Document → Option (List ℕ)
  pub operation : Document → Option (List ℕ)

abbrev pub Vectors : Type 0
Vectors = List (List ℕ)

pub record CatalogRecord (c : Codec) : Type 0 where
  pub document : c.Document
  pub remote_embeddings : Vectors
  pub local_embeddings : Vectors

-- "MRGCAT1\0", "RAG1" in little endian, and the other constants.
abbrev pub file_magic : List ℕ
file_magic = 77 ∷ 82 ∷ 71 ∷ 67 ∷ 65 ∷ 84 ∷ 49 ∷ 0 ∷ []

abbrev pub record_magic : ℕ
record_magic = 826753362

abbrev pub record_header_bytes : ℕ
record_header_bytes = 48

abbrev pub maximum_metadata_bytes : ℕ
maximum_metadata_bytes = 67108864

abbrev pub maximum_vector_bytes : ℕ
maximum_vector_bytes = 17179869184

-- What Append throws.
pub data AppendError : Type 0 where
  dump_failed metadata_too_large compression_failed shape_too_large ragged_vectors
        vectors_too_large :
      AppendError

pub data Checked {ℓ} (A : Type ℓ) : Type ℓ where
  ok : A → Checked A
  refused : AppendError → Checked A

infixl 10 ◌>>=◌ ◌>>◌
abbrev pub ◌>>=◌ {ℓ κ} : {A : Type ℓ} {B : Type κ} → Checked A → (A → Checked B) → Checked B
ok a >>= f = f a
refused e >>= f = refused e

abbrev pub ◌>>◌ {ℓ κ} : {A : Type ℓ} {B : Type κ} → Checked A → Checked B → Checked B
m >> n = m >>= λ _. n

-- if (!test) throw
abbrev pub check : Bool → AppendError → Checked (Unit {0})
check true e = ok tt
check false e = refused e

abbrev pub or_refuse {ℓ} : {A : Type ℓ} → Option A → AppendError → Checked A
or_refuse none e = refused e
or_refuse (some a) e = ok a

pub record Shape : Type 0 where
  pub count : ℕ
  pub dimension : ℕ
  pub bytes : ℕ

-- No row has another length.
abbrev pub all_of_length : ℕ → Vectors → Bool
all_of_length n [] = true
all_of_length n (row ∷ rows) = (length row == n) && all_of_length n rows

-- static_cast<uint64_t>(count) * dimension * sizeof(float)
abbrev pub block_bytes : ℕ → ℕ → ℕ
block_bytes count dimension = count * dimension * 4 % 2 ^ 64

unfoldable pub validate : Vectors → Checked Shape
validate [] = ok (record { count = 0; dimension = 0; bytes = 0 })
validate (row ∷ rows) = do
  let count = length (row ∷ rows)
  let dimension = length row
  check (ltb count (2 ^ 32) && ltb dimension (2 ^ 32)) shape_too_large
  check (all_of_length dimension rows) ragged_vectors
  check (leb (block_bytes count dimension) maximum_vector_bytes) vectors_too_large
  ok (record { count = count; dimension = dimension; bytes = block_bytes count dimension })

-- HashBytes is the loop of engine/src/hash.cpp, from another start.
abbrev pub hash_start : ℕ
hash_start = 1469598103934665603

unfoldable pub hash_vectors : ℕ → Vectors → ℕ
hash_vectors hash [] = hash
hash_vectors hash (row ∷ rows) = hash_vectors (hash_bytes hash (array_bytes 4 row)) rows

unfoldable pub record_hash : List ℕ → Vectors → Vectors → ℕ
record_hash compressed remote nearby =
    hash_vectors (hash_vectors (hash_bytes hash_start compressed) remote) nearby

-- WriteVectors
unfoldable pub vector_bytes : Vectors → List ℕ
vector_bytes [] = []
vector_bytes (row ∷ rows) = array_bytes 4 row ++ vector_bytes rows

pub record RecordHeader : Type 0 where
  pub magic : ℕ
  pub header_bytes : ℕ
  pub compressed_size : ℕ
  pub metadata_size : ℕ
  pub remote_count : ℕ
  pub remote_dimension : ℕ
  pub local_count : ℕ
  pub local_dimension : ℕ
  pub expected_hash : ℕ

-- The nine calls of Write in Append.
unfoldable pub header_bytes_of : RecordHeader → List ℕ
header_bytes_of h =
    le_bytes 4 h.magic
    ++ (le_bytes 4 h.header_bytes
        ++ (le_bytes 8 h.compressed_size
            ++ (le_bytes 8 h.metadata_size
                ++ (le_bytes 4 h.remote_count
                    ++ (le_bytes 4 h.remote_dimension
                        ++ (le_bytes 4 h.local_count
                            ++ (le_bytes 4 h.local_dimension ++ le_bytes 8 h.expected_hash)))))))

abbrev pub header_for : List ℕ → ℕ → Shape → Shape → ℕ → RecordHeader
header_for compressed metadata_size remote nearby hash = record {
  magic = record_magic;
  header_bytes = record_header_bytes;
  compressed_size = length compressed;
  metadata_size = metadata_size;
  remote_count = remote.count;
  remote_dimension = remote.dimension;
  local_count = nearby.count;
  local_dimension = nearby.dimension;
  expected_hash = hash;
}

-- Everything that Append writes for a record: the header of 48 bytes and the three blocks.
unfoldable pub record_bytes : RecordHeader → List ℕ → Vectors → Vectors → List ℕ
record_bytes header compressed remotes nearbys =
    header_bytes_of header ++ (compressed ++ (vector_bytes remotes ++ vector_bytes nearbys))

unfoldable pub file_header : List ℕ
file_header = file_magic ++ (le_bytes 4 1 ++ le_bytes 4 0)

-- Exists
unfoldable pub exists : Option (List ℕ) → Bool
exists none = false
exists (some file) = leb 16 (length file)

-- if (!Exists()) Initialize(path_): a file that is too short for a header is written anew.
unfoldable pub initialized : Option (List ℕ) → List ℕ
initialized none = file_header
initialized (some file) = if leb 16 (length file) then file else file_header

module _ (c : Codec) where
  -- The bytes that Append adds, or what it throws.
  unfoldable pub encode_record : CatalogRecord c → Checked (List ℕ)
  encode_record r = do
    metadata ← or_refuse (c.dump r.document) dump_failed
    check (leb (length metadata) maximum_metadata_bytes) metadata_too_large
    compressed ← or_refuse (c.compress metadata) compression_failed
    remote ← validate r.remote_embeddings
    nearby ← validate r.local_embeddings
    let hash = record_hash compressed r.remote_embeddings r.local_embeddings
    ok (
        record_bytes (header_for compressed (length metadata) remote nearby hash) compressed
          r.remote_embeddings r.local_embeddings)

  abbrev added : List ℕ → Checked (List ℕ) → List ℕ × Option AppendError
  added file (ok bytes) = (file ++ bytes, none)
  added file (refused e) = (file, some e)

  -- Append: the file after it, and what it throws.
  unfoldable pub append : Option (List ℕ) → CatalogRecord c → List ℕ × Option AppendError
  unfolding encode_record
  append file r = added (initialized file) (encode_record r)
