-- ===== src/Chunk/Fast.antt =====
-- rag_cpp/src/document.cpp: PlanChunks in the mode "fast".
use mimic_rag.Column.{u64}
use mimic_rag.Prelude.{
  ℕ, zero, suc, ◌+◌, min, Bool, true, false, Option, none, some, List, [], ◌∷◌, ◌++◌, ltb, leb,
  ◌==◌, if◌then◌else◌, length,
}
use mimic_rag.Chunk.{
  planned, thrown, Planned, ChunkPlan, ChunkingOptions, PlanError, rfind, next_start,
}

-- "fast-v1", "-adaptive-v1" and "-dense-v1".
abbrev pub fast_strategy : List ℕ
fast_strategy = 102 ∷ 97 ∷ 115 ∷ 116 ∷ 45 ∷ 118 ∷ 49 ∷ []

-- A window of the mode "fast" ends behind the target, or at the last space in it.
abbrev pub at_space : Option ℕ → ℕ → ℕ → ℕ
at_space none start end = end
at_space (some boundary) start end = if ltb (u64 (start + 80)) boundary then boundary else end

unfoldable pub fast_end : List ℕ → ℕ → ℕ → ℕ
fast_end text target start =
    let end = min (length text) (u64 (start + target)) in
    if ltb end (length text) then at_space (rfind 32 text end) start end else end

abbrev pub fast_chunk : ℕ → ℕ → ChunkPlan
fast_chunk start end = record {
  start = start;
  end = end;
  page_start = 0;
  page_end = 0;
  section_path = [];
  strategy = fast_strategy;
  contextual_header = [];
}

-- One round of the loop, by the tests: of the loop, of the end, and of the count of chunks.
abbrev pub fast_round :
    Bool
    → Bool
    → Bool
    → List ChunkPlan
    → List ChunkPlan
    → Planned (List ChunkPlan)
    → Planned (List ChunkPlan)
fast_round false last full chunks more rest = planned chunks
fast_round true true full chunks more rest = planned more
fast_round true false true chunks more rest = thrown PlanError.too_many_chunks
fast_round true false false chunks more rest = rest

unfoldable pub fast_loop :
    ℕ → List ℕ → ChunkingOptions → ℕ → List ChunkPlan → Planned (List ChunkPlan)
fast_loop zero text o start chunks = thrown PlanError.out_of_fuel
fast_loop (suc fuel) text o start chunks =
    let end = fast_end text o.target_chars start in
    let more = chunks ++ fast_chunk start end ∷ [] in
    let rest = fast_loop fuel text o (next_start end o.overlap_chars) more in
    fast_round (ltb start (length text)) (end == length text) (leb o.maximum_chunks (length more))
      chunks more rest
