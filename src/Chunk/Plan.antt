-- ===== src/Chunk/Plan.antt =====
-- rag_cpp/src/document.cpp: PlanChunks as a whole.
use mimic_rag.Text.{same_text}
use mimic_rag.Prelude.{ℕ, ◌+◌, Bool, not, ◌||◌, List, [], ◌∷◌, ltb, ◌==◌, if◌then◌else◌}
use mimic_rag.Chunk.{thrown, Planned, NormalizedDocument, ChunkPlan, ChunkingOptions, PlanError}
use mimic_rag.Chunk.Fast.{fast_loop}
use mimic_rag.Chunk.Structured.{plan_blocks}

abbrev pub fast_word : List ℕ
fast_word = 102 ∷ 97 ∷ 115 ∷ 116 ∷ []

abbrev pub structured_word : List ℕ
structured_word = 115 ∷ 116 ∷ 114 ∷ 117 ∷ 99 ∷ 116 ∷ 117 ∷ 114 ∷ 101 ∷ 100 ∷ []

abbrev pub semantic_word : List ℕ
semantic_word = 115 ∷ 101 ∷ 109 ∷ 97 ∷ 110 ∷ 116 ∷ 105 ∷ 99 ∷ []

abbrev pub is_valid_budget : ChunkingOptions → Bool
is_valid_budget o = not (
    ltb o.target_chars 80
    || ltb o.maximum_chars o.target_chars
    || ltb o.target_chars o.minimum_chars
    || o.maximum_chunks == 0)

abbrev pub is_structured : ChunkingOptions → Bool
is_structured o = same_text o.mode structured_word || same_text o.mode semantic_word

-- PlanChunks
unfoldable pub plan_chunks : NormalizedDocument → ChunkingOptions → Planned (List ChunkPlan)
plan_chunks d o =
    if not (is_valid_budget o)
    then thrown PlanError.invalid_budget
    else if same_text o.mode fast_word
    then fast_loop (o.maximum_chunks + 1) d.source_text o 0 []
    else if is_structured o
    then plan_blocks d o
    else thrown PlanError.unknown_mode
