-- ===== src/Lib.antt =====
-- A model of the column engine of MimicRAG (engine/src and engine/include/mimicdb): columns with
-- nulls, masks, predicates, scans, the pruning of segments and four codecs; and of the append-only
-- catalog of its documents and of the cutting of their text into chunks (rag_cpp/src/catalog.cpp and
-- document.cpp).
--
-- Which file models what:
--   Bits, Bits/Step, Bits/Digit, Bits/Words: the 64-bit words that engine/src/bitmap.cpp and
--     engine/src/mask.cpp shift and mask, as numbers, with the law of a single bit.
--   Bytes: little-endian integers in byte arrays, as memcpy reads and writes them.
--   Bitmap, Bitmap/Laws: engine/src/bitmap.cpp (Resize is resize_bits, Set is set_value).
--   Mask, Mask/Laws, Mask/Logic, Mask/Packed, Mask/Build: engine/src/mask.cpp (And and Or are mask_and
--     and mask_or; BuildMask and its branchless forms are in Mask/Build).
--   Predicate, Predicate/Agree, Predicate/Range: engine/src/predicate.cpp.
--   Float: what the engine relies on of double comparisons, as a record of laws.
--   Metrics: engine/src/metrics.cpp.
--   Scan, Scan/Loops, Scan/Compaction, Scan/Schedule: engine/src/scan.cpp,
--     engine/src/output_compaction.cpp and the scalar store of engine/src/simd_output.cpp.
--   Prune, Prune/Sound: the pruning by statistics in engine/src/scan.cpp. Prune/Stats, Prune/Bounded: the
--     statistics of a column in ComputeStats of engine/src/segment.cpp, and what they bound.
--   Dictionary, Dictionary/Laws: engine/src/dictionary.cpp.
--   Schema: engine/src/hash.cpp and engine/src/schema.cpp.
--   Batch: engine/src/batch.cpp.
--   FieldVector and its children: engine/src/field_vector.cpp. FieldVector holds the record and the
--     operations on one row, Batch the batches, Varlen the columns of byte runs, Offsets their table of
--     offsets, Validity what the bitmap says of rows, Rows the rows that a reader sees
--     (Rows/Nulls a null row of any type), Views what a column shows of its parts.
--   Column, Column/Source, Column/ForDelta: engine/include/mimicdb/compression.h, EncodeForDelta of
--     engine/src/segment.cpp and DecodeForDelta of engine/src/compression.cpp.
--   Column/Kernel: ScanPredicateForDelta of engine/src/compression.cpp.
--   Column/DictCodec and its children: EncodeDictionary of engine/src/segment.cpp and DecodeDictionary
--     of engine/src/compression.cpp.
--   Column/Read: ReadInt64Value, ReadBits and DecodeBitpack of engine/src/compression.cpp.
--   ArrayCodec, ArrayCodec/Items, ArrayCodec/RoundTrip: engine/src/array_codec.cpp, with FieldValue of
--     engine/include/mimicdb/dataset.h and its factories.
--   Segment, Segment/Rows: the rows of a segment in engine/src/segment.cpp, its constructors and Append.
--   Lz4, Lz4/RoundTrip, Lz4/Limits: the literal-only LZ4 blocks of engine/src/compression.cpp.
--   Catalog and its children: rag_cpp/src/catalog.cpp and rag_cpp/include/mimicrag/catalog.h. Catalog holds
--     Append and what it writes, Catalog/Stream the readers of a file, Catalog/Replay Replay,
--     Catalog/Compact Inspect and Compact; Catalog/Stored what Append accepts and Replay gives back,
--     Catalog/Log the log of records that a file stands for, Catalog/Log/Recovery Replay of such a file,
--     Catalog/Latest the bookkeeping of Compact, and Catalog/Compact/Live, Written and Output what
--     Compact keeps, writes and leaves.
--   Chunk and its children: PlanChunks and BoundaryBefore of rag_cpp/src/document.cpp. Chunk/Fast and
--     Chunk/Structured are its modes, Chunk/Plan the whole; Chunk/Window, Cover and Stuck are about the
--     fast mode, Chunk/Dense about large blocks, Chunk/Ends about all modes.
--   Text: comparison of strings.
--   Prelude and its children: shared names, lists, tests and counted loops. Tests: the theorems at
--     concrete inputs.
--
-- How the parts meet: a column keeps its nulls in a Bitmap and its coded values in a Dictionary; a
-- Predicate builds a Mask, which scans, compactions and decoders read; the pruning reads statistics
-- with the Predicate's range test and counts in Metrics. The catalog is a file of records under checksums,
-- which every start replays and Compact rewrites; it hashes with the loop of engine/src/hash.cpp.
--
-- Conventions. An integer of w bits is a number below 2 ^ w, an int64_t its 64-bit pattern, with the
-- wrap-around written out; a double is an element of any Float64. A null pointer is `none`. A read past
-- the end of an array, undefined in C++, finds 0, and a write there does nothing; the theorems on
-- well-formed values show that the bit operations stay in range. Sizes are below 2 ^ 64;
-- the counts of a bitmap wrap as in size_t, and those of a Mask are below 2 ^ 64 - 63. The threads of
-- a parallel scan have distinct contexts, so that their order does not matter.
--
-- A catalog file is the list of its bytes. The JSON library and Zstd are the fields of a Codec; that a
-- document survives dump, parse and the compression is asked of each stored record (Storable). Writes
-- and renames succeed, except that a write may be torn off at any byte; memory suffices.
--
-- Loops are counted loops or recursion on a list. Seven run on fuel: drain, the loop over batches, for
-- which row_count + 1 is enough; the LZ4 encoder, with the length of its input, which the round trip
-- shows to be enough; and the LZ4 decoder, with the length of its input, more of which changes nothing; and
-- the loop of Replay, with the length of the file, which the theorems on logs show to be enough; and the two
-- loops of PlanChunks, with maximum_chunks + 1, which is enough on every input. DecodeArray recurs
-- on the nesting of arrays, with the number of bytes.
--
-- Not modelled: memory reservation; the kernels with AVX2 intrinsics; the bit-packed encoder; the
-- other scan kernels; the sample of hashes in ComputeStats and the choice and views of a compression;
-- datasets and their files (engine/src/segment_io.cpp); aggregation; the parsing of documents, by
-- regular expressions; vector search, which is floating-point arithmetic; the servers, clients and
-- language bindings, which call the engine.
pub mod ArrayCodec
pub mod Batch
pub mod Bitmap
pub mod Bits
pub mod Bytes
pub mod Catalog
pub mod Chunk
pub mod Column
pub mod Dictionary
pub mod FieldVector
pub mod Float
pub mod Lz4
pub mod Mask
pub mod Metrics
pub mod Predicate
pub mod Prelude
pub mod Prune
pub mod Scan
pub mod Schema
pub mod Segment
pub mod Tests
pub mod Text
