-- ===== src/Tests/Chunks.antt =====
-- Runs of PlanChunks, and its theorems at these inputs.
use mimic_rag.Chunk.{
  DocumentBlock, NormalizedDocument, ChunkPlan, ChunkingOptions, PlanError, Planned, planned,
  thrown, is_at,
}
use mimic_rag.Chunk.Plan.{plan_chunks, fast_word, structured_word}
use mimic_rag.Chunk.Structured.{
  heading_word, take_blocks, take_block, flush, join_last, plan_blocks, dense_loop,
}
use mimic_rag.Chunk.Cover.{Covers, plan_chunks-Covers}
use mimic_rag.Chunk.Ends.{WithinBudget, plan_chunks-WithinBudget}
use mimic_rag.Chunk.Dense.{plan_chunks-line_break}
use mimic_rag.Chunk.Stuck.{plan_chunks-stuck}
use mimic_rag.Text.{same_text}
use mimic_rag.Prelude.{
  ℕ, zero, suc, ◌+◌, ◌^◌, ◌<◌, ◌≡◌, refl, false, Option, none, some, List, [], ◌∷◌, ◌++◌, map,
  arith, length, replicate, length-append, length-replicate, ◌==◌,
}

-- "paragraph"
abbrev paragraph_word : List ℕ
paragraph_word = 112 ∷ 97 ∷ 114 ∷ 97 ∷ 103 ∷ 114 ∷ 97 ∷ 112 ∷ 104 ∷ []

abbrev run_of_text : List ℕ
run_of_text = replicate 100 120

-- A word of 100 characters, a space, and a word of 200.
abbrev two_words : List ℕ
two_words = replicate 100 120 ++ 32 ∷ replicate 200 120

abbrev plain : List ℕ → List DocumentBlock → NormalizedDocument
plain text blocks = record {
  format = [];
  parser_version = [];
  title = [];
  source_text = text;
  blocks = blocks;
}

abbrev block_at : List ℕ → ℕ → ℕ → DocumentBlock
block_at kind start end = record {
  type = kind;
  text = [];
  section_path = [];
  start = start;
  end = end;
  page = 0;
  heading_level = 0;
}

abbrev options_of : List ℕ → ℕ → ℕ → ChunkingOptions
options_of mode target overlap = record {
  mode = mode;
  target_chars = target;
  minimum_chars = 20;
  maximum_chars = 200;
  overlap_chars = overlap;
  maximum_chunks = 10;
}

-- Two blocks fit in one chunk, and a heading begins the next.
abbrev blocks : NormalizedDocument
blocks = plain run_of_text (
    block_at paragraph_word 0 30
    ∷ block_at paragraph_word 30 60
    ∷ block_at heading_word 60 100
    ∷ [])

-- The ends of the chunks.
abbrev ends_of : Planned (List ChunkPlan) → Option (List ℕ)
ends_of (planned chunks) = some (map (λ c. c.end) chunks)
ends_of (thrown e) = none

plan_chunks-blocks :
    ends_of (plan_chunks blocks (options_of structured_word 80 10)) ≡ some (60 ∷ 100 ∷ [])
plan_chunks-blocks =
    unfold plan_chunks plan_blocks same_text take_blocks take_block flush join_last dense_loop in
    refl

plan_chunks-WithinBudget_example :
    WithinBudget 10 length (plan_chunks blocks (options_of structured_word 80 10))
plan_chunks-WithinBudget_example =
    plan_chunks-WithinBudget blocks (options_of structured_word 80 10)

plan_chunks-Covers_example :
    (chunks : List ChunkPlan) × (plan_chunks (plain run_of_text []) (options_of fast_word 80 10)
      ≡ planned chunks)
    × Covers run_of_text (options_of fast_word 80 10) 0 chunks
plan_chunks-Covers_example =
    plan_chunks-Covers (plain run_of_text []) (options_of fast_word 80 10) refl
      (unfold same_text in refl) (omega arith) (omega (arith, length-replicate {A = ℕ} 100 120))
      (omega (arith, length-replicate {A = ℕ} 100 120))

no_space : (m i : ℕ) → is_at 32 (replicate m 120) i ≡ false
unfolding is_at
no_space zero i = refl
no_space (suc m) zero = refl
no_space (suc m) (suc i) = no_space m i

no_space_behind : (n m i : ℕ) → n < i → is_at 32 (replicate n 120 ++ 32 ∷ replicate m 120) i ≡ false
unfolding is_at
no_space_behind n m zero lt = absurd (omega arith)
no_space_behind zero m (suc i) lt = no_space m i
no_space_behind (suc n) m (suc i) lt = no_space_behind n m i (omega arith)

plan_chunks-stuck_example :
    plan_chunks (plain two_words []) (options_of fast_word 120 90)
    ≡ thrown PlanError.too_many_chunks
plan_chunks-stuck_example =
    plan_chunks-stuck (plain two_words []) (options_of fast_word 120 90) 100 refl
      (unfold same_text in refl) (unfold is_at in refl) (λ i lo hi. no_space_behind 100 200 i lo)
      (omega arith) (omega arith) (omega arith) long fits
  where
    size : length two_words ≡ 301
    size = omega (
      arith,
      length-append {A = ℕ} (replicate 100 120) (32 ∷ replicate 200 120),
      length-replicate {A = ℕ} 100 120,
      length-replicate {A = ℕ} 200 120,
    )

    long : 100 + 120 < length two_words
    long = omega (arith, size)

    fits : length two_words + 120 < 2 ^ 64
    fits = omega (arith, size)

-- A block of 250 characters before a line break.
abbrev broken_text : List ℕ
broken_text = replicate 250 120 ++ 10 ∷ 120 ∷ []

absent :
    (c n i : ℕ) (rest : List ℕ)
    → (120 == c) ≡ false
    → i < n
    → is_at c (replicate n 120 ++ rest) i ≡ false
unfolding is_at
absent c zero i rest other lt = absurd (omega arith)
absent c (suc n) zero rest other lt = other
absent c (suc n) (suc i) rest other lt = absent c n i rest other (omega arith)

plan_chunks-line_break_example :
    plan_chunks
      (plain broken_text (block_at paragraph_word 0 250 ∷ []))
      (options_of structured_word 80 30)
    ≡ thrown PlanError.too_many_chunks
plan_chunks-line_break_example =
    plan_chunks-line_break (plain broken_text (block_at paragraph_word 0 250 ∷ []))
      (options_of structured_word 80 30) (block_at paragraph_word 0 250) [] refl
      (unfold same_text in refl) (unfold same_text in refl) refl refl (omega arith)
      (λ i lt. (
        absent 10 250 i (10 ∷ 120 ∷ []) refl lt,
        absent 46 250 i (10 ∷ 120 ∷ []) refl lt,
        absent 59 250 i (10 ∷ 120 ∷ []) refl lt,
        absent 32 250 i (10 ∷ 120 ∷ []) refl lt,
      ))
      (unfold is_at in refl) (omega (arith, size)) (omega (arith, size)) (omega arith) (omega arith)
      (omega arith)
  where
    size : length broken_text ≡ 252
    size = omega (
      arith,
      length-append {A = ℕ} (replicate 250 120) (10 ∷ 120 ∷ []),
      length-replicate {A = ℕ} 250 120,
    )
