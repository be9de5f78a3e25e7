-- ===== src/Chunk/Structured.antt =====
-- rag_cpp/src/document.cpp: PlanChunks in the structured and semantic modes.
use mimic_rag.Column.{sub_u64, u64}
use mimic_rag.Text.{same_text}
use mimic_rag.Prelude.{
  ℕ, zero, suc, ◌+◌, min, Bool, true, false, ◌||◌, Option, none, some, List, [], ◌∷◌, ◌++◌, ltb,
  leb, ◌==◌, if◌then◌else◌, length,
}
use mimic_rag.Chunk.{
  planned, thrown, Planned, DocumentBlock, NormalizedDocument, ChunkPlan, ChunkingOptions,
  PlanError, next_start, boundary_before, ◌>>=◌,
}

abbrev pub heading_word : List ℕ
heading_word = 104 ∷ 101 ∷ 97 ∷ 100 ∷ 105 ∷ 110 ∷ 103 ∷ []

abbrev pub table_word : List ℕ
table_word = 116 ∷ 97 ∷ 98 ∷ 108 ∷ 101 ∷ []

abbrev pub code_word : List ℕ
code_word = 99 ∷ 111 ∷ 100 ∷ 101 ∷ []

abbrev pub adaptive_suffix : List ℕ
adaptive_suffix = 45 ∷ 97 ∷ 100 ∷ 97 ∷ 112 ∷ 116 ∷ 105 ∷ 118 ∷ 101 ∷ 45 ∷ 118 ∷ 49 ∷ []

abbrev pub dense_suffix : List ℕ
dense_suffix = 45 ∷ 100 ∷ 101 ∷ 110 ∷ 115 ∷ 101 ∷ 45 ∷ 118 ∷ 49 ∷ []

abbrev pub dense_chunk : ChunkingOptions → DocumentBlock → ℕ → ℕ → ChunkPlan
dense_chunk o block start end = record {
  start = start;
  end = end;
  page_start = block.page;
  page_end = block.page;
  section_path = block.section_path;
  strategy = o.mode ++ dense_suffix;
  contextual_header = [];
}

abbrev pub dense_round :
    Bool
    → Bool
    → Bool
    → List ChunkPlan
    → List ChunkPlan
    → Planned (List ChunkPlan)
    → Planned (List ChunkPlan)
dense_round false full last chunks more rest = planned chunks
dense_round true true last chunks more rest = thrown PlanError.too_many_chunks
dense_round true false true chunks more rest = planned more
dense_round true false false chunks more rest = rest

-- The loop over a block that is larger than a chunk may be.
unfoldable pub dense_loop :
    ℕ → List ℕ → ChunkingOptions → DocumentBlock → ℕ → List ChunkPlan → Planned (List ChunkPlan)
dense_loop zero text o block start chunks = thrown PlanError.out_of_fuel
dense_loop (suc fuel) text o block start chunks =
    let desired = min block.end (u64 (start + o.maximum_chars)) in
    let end = boundary_before text start desired o.minimum_chars in
    let more = chunks ++ dense_chunk o block start end ∷ [] in
    let rest = dense_loop fuel text o block (next_start end o.overlap_chars) more in
    dense_round (ltb start block.end) (ltb o.maximum_chunks (length more)) (end == block.end) chunks
      more rest

-- The variables of the structured and semantic modes.
pub record Planning : Type 0 where
  pub chunk_start : Option ℕ
  pub chunk_end : ℕ
  pub section : List ℕ
  pub chunks : List ChunkPlan

abbrev pub adaptive_chunk : ChunkingOptions → ℕ → Planning → ChunkPlan
adaptive_chunk o start s = record {
  start = start;
  end = s.chunk_end;
  page_start = 0;
  page_end = 0;
  section_path = s.section;
  strategy = o.mode ++ adaptive_suffix;
  contextual_header = [];
}

-- The lambda flush, by the chunk that is open.
abbrev pub flush_from : ChunkingOptions → Planning → Option ℕ → Planned Planning
flush_from o s none = planned s
flush_from o s (some start) =
    let more = s.chunks ++ adaptive_chunk o start s ∷ [] in
    if ltb o.maximum_chunks (length more)
    then thrown PlanError.too_many_chunks
    else planned
        (record { chunk_start = none; chunk_end = s.chunk_end; section = s.section; chunks = more })

unfoldable pub flush : ChunkingOptions → Planning → Planned Planning
flush o s = flush_from o s s.chunk_start

abbrev pub flush_if : Bool → ChunkingOptions → Planning → Planned Planning
flush_if true o s = flush o s
flush_if false o s = planned s

-- Whether the open chunk ends before a block: at a heading, or where it would get too long.
abbrev pub must_end : ChunkingOptions → DocumentBlock → Option ℕ → Bool
must_end o block none = false
must_end o block (some start) =
    same_text block.type heading_word || ltb o.target_chars (sub_u64 block.end start)

abbrev pub is_large : ChunkingOptions → DocumentBlock → Bool
is_large o block = ltb o.maximum_chars (sub_u64 block.end block.start)

abbrev pub opened : DocumentBlock → Planning → Option ℕ → Planning
opened block s none = record {
  chunk_start = some block.start;
  chunk_end = block.end;
  section = block.section_path;
  chunks = s.chunks;
}
opened block s (some start) = record {
  chunk_start = some start;
  chunk_end = block.end;
  section = s.section;
  chunks = s.chunks;
}

-- Whether the open chunk ends with the block.
abbrev pub is_complete : ChunkingOptions → DocumentBlock → Option ℕ → Bool
is_complete o block none = false
is_complete o block (some start) =
    leb o.target_chars (sub_u64 block.end start)
    || same_text block.type table_word
    || same_text block.type code_word

abbrev pub with_chunks : Planning → List ChunkPlan → Planned Planning
with_chunks s chunks = planned (record {
  chunk_start = s.chunk_start;
  chunk_end = s.chunk_end;
  section = s.section;
  chunks = chunks;
})

abbrev pub take_large : List ℕ → ChunkingOptions → DocumentBlock → Planning → Planned Planning
take_large text o block s = flush o s >>= λ t.
    dense_loop (o.maximum_chunks + 1) text o block block.start t.chunks >>= with_chunks t

abbrev pub take_small : ChunkingOptions → DocumentBlock → Planning → Planned Planning
take_small o block s =
    let t = opened block s s.chunk_start in flush_if (is_complete o block t.chunk_start) o t

-- The body of the loop over the blocks.
unfoldable pub take_block : List ℕ → ChunkingOptions → DocumentBlock → Planning → Planned Planning
take_block text o block s = flush_if (must_end o block s.chunk_start) o s >>= λ t.
    if is_large o block then take_large text o block t else take_small o block t

unfoldable pub take_blocks :
    List ℕ → ChunkingOptions → List DocumentBlock → Planning → Planned Planning
take_blocks text o [] s = planned s
take_blocks text o (block ∷ blocks) s = take_block text o block s >>= take_blocks text o blocks

-- A last chunk that is too small is joined to the one before.
unfoldable pub join_last : ℕ → List ChunkPlan → List ChunkPlan
join_last minimum (a ∷ b ∷ []) =
    if ltb (sub_u64 b.end b.start) minimum
    then (record {
      start = a.start;
      end = b.end;
      page_start = a.page_start;
      page_end = a.page_end;
      section_path = a.section_path;
      strategy = a.strategy;
      contextual_header = a.contextual_header;
    })
      ∷ []
    else a ∷ b ∷ []
join_last minimum (a ∷ b ∷ c ∷ rest) = a ∷ join_last minimum (b ∷ c ∷ rest)
join_last minimum chunks = chunks

abbrev pub nothing_planned : Planning
nothing_planned = record { chunk_start = none; chunk_end = 0; section = []; chunks = [] }

-- PlanChunks of the structured and semantic modes.
unfoldable pub plan_blocks : NormalizedDocument → ChunkingOptions → Planned (List ChunkPlan)
plan_blocks d o = take_blocks d.source_text o d.blocks nothing_planned >>= flush o >>= λ s.
    planned (join_last o.minimum_chars s.chunks)
