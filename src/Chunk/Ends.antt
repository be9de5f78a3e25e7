-- ===== src/Chunk/Ends.antt =====
-- rag_cpp/src/document.cpp: PlanChunks ends on every input, with at most maximum_chunks chunks or with
-- an exception.
use mimic_rag.Chunk.{
  NormalizedDocument, DocumentBlock, ChunkPlan, ChunkingOptions, PlanError, Planned, planned,
  thrown, ◌>>=◌, next_start, boundary_before,
}
use mimic_rag.Chunk.Fast.{fast_end, fast_chunk, fast_round, fast_loop}
use mimic_rag.Chunk.Structured.{
  dense_chunk, adaptive_chunk, dense_round, dense_loop, Planning, flush_from, flush, flush_if,
  must_end, is_large, opened, is_complete, take_large, take_small, take_block, take_blocks,
  join_last, nothing_planned, plan_blocks,
}
use mimic_rag.Chunk.Plan.{is_valid_budget, is_structured, plan_chunks, fast_word}
use mimic_rag.Column.{u64, sub_u64}
use mimic_rag.Text.{same_text}
use mimic_rag.Prelude.{
  ℕ, zero, suc, ◌+◌, ◌≤◌, ◌<◌, min, ◌≡◌, refl, ◌≢◌, inl, inr, Bool, true, false, not, Option, none,
  some, List, [], ◌∷◌, ◌++◌, arith, ltb, leb, ◌==◌, if◌then◌else◌, Bool-cases, length,
  length-append,
}

-- At most so many of what is counted, or an exception of the source.
abbrev pub WithinBudget {ℓ} : {A : Type ℓ} → ℕ → (A → ℕ) → Planned A → Type 0
WithinBudget most size (planned a) = size a ≤ most
WithinBudget most size (thrown e) = e ≢ PlanError.out_of_fuel

within-bind {ℓ κ} :
    {A : Type ℓ} {B : Type κ} (most : ℕ) (size : A → ℕ) (size' : B → ℕ) (m : Planned A)
    (k : A → Planned B)
    → WithinBudget most size m
    → ((a : A) → size a ≤ most → WithinBudget most size' (k a))
    → WithinBudget most size' (m >>= k)
within-bind most size size' (planned a) k h then_k = then_k a h
within-bind most size size' (thrown e) k h then_k = h

too_many : PlanError.too_many_chunks ≢ PlanError.out_of_fuel
too_many = λ e. cc

length-push {ℓ} : {A : Type ℓ} (xs : List A) (x : A) → length (xs ++ x ∷ []) ≡ length xs + 1
length-push xs x = length-append xs (x ∷ [])

abbrev count_of : Planning → ℕ
count_of s = length s.chunks

module _ (text : List ℕ) (o : ChunkingOptions) where
  fast_loop-WithinBudget :
      (fuel start : ℕ) (chunks : List ChunkPlan)
      → o.maximum_chunks < fuel + length chunks
      → length chunks < o.maximum_chunks
      → WithinBudget o.maximum_chunks length (fast_loop fuel text o start chunks)
  unfolding fast_loop
  fast_loop-WithinBudget zero start chunks enough few = absurd (omega arith)
  fast_loop-WithinBudget (suc fuel) start chunks enough few =
      round (ltb start (length text)) (end == length text) (leb o.maximum_chunks (length more)) refl
        (λ h.
          fast_loop-WithinBudget fuel (next_start end o.overlap_chars) more
            (omega (arith, length-push chunks (fast_chunk start end))) h)
    where
      end : ℕ
      end = fast_end text o.target_chars start

      more : List ChunkPlan
      more = chunks ++ fast_chunk start end ∷ []

      rest : Planned (List ChunkPlan)
      rest = fast_loop fuel text o (next_start end o.overlap_chars) more

      round :
          (inside last full : Bool)
          → leb o.maximum_chunks (length more) ≡ full
          → (length more < o.maximum_chunks → WithinBudget o.maximum_chunks length rest)
          → WithinBudget o.maximum_chunks length (fast_round inside last full chunks more rest)
      round false last full e later = omega arith
      round true true full e later = omega (arith, length-push chunks (fast_chunk start end))
      round true false true e later = too_many
      round true false false e later = later (ground arith)

  dense_loop-WithinBudget :
      (block : DocumentBlock) (fuel start : ℕ) (chunks : List ChunkPlan)
      → o.maximum_chunks < fuel + length chunks
      → length chunks ≤ o.maximum_chunks
      → WithinBudget o.maximum_chunks length (dense_loop fuel text o block start chunks)
  unfolding dense_loop
  dense_loop-WithinBudget block zero start chunks enough few = absurd (omega arith)
  dense_loop-WithinBudget block (suc fuel) start chunks enough few =
      round (ltb start block.end) (ltb o.maximum_chunks (length more)) (end == block.end) refl (λ h.
        dense_loop-WithinBudget block fuel (next_start end o.overlap_chars) more
          (omega (arith, length-push chunks (dense_chunk o block start end))) h)
    where
      end : ℕ
      end =
          boundary_before text start (min block.end (u64 (start + o.maximum_chars))) o.minimum_chars

      more : List ChunkPlan
      more = chunks ++ dense_chunk o block start end ∷ []

      rest : Planned (List ChunkPlan)
      rest = dense_loop fuel text o block (next_start end o.overlap_chars) more

      round :
          (inside full last : Bool)
          → ltb o.maximum_chunks (length more) ≡ full
          → (length more ≤ o.maximum_chunks → WithinBudget o.maximum_chunks length rest)
          → WithinBudget o.maximum_chunks length (dense_round inside full last chunks more rest)
      round false full last e later = few
      round true true last e later = too_many
      round true false true e later = ground arith
      round true false false e later = later (ground arith)

  flush-WithinBudget :
      (s : Planning)
      → length s.chunks ≤ o.maximum_chunks
      → WithinBudget o.maximum_chunks count_of (flush o s)
  unfolding flush
  flush-WithinBudget s few = from s.chunk_start
    where
      from : (start : Option ℕ) → WithinBudget o.maximum_chunks count_of (flush_from o s start)
      from none = few
      from (some start) =
          let more = s.chunks ++ adaptive_chunk o start s ∷ [] in
          elim (Bool-cases (ltb o.maximum_chunks (length more))) [
            | inl e ↦ rw e too_many
            | inr e ↦ rw e (ground arith)
          ]

  flush_if-WithinBudget :
      (b : Bool) (s : Planning)
      → length s.chunks ≤ o.maximum_chunks
      → WithinBudget o.maximum_chunks count_of (flush_if b o s)
  flush_if-WithinBudget true s few = flush-WithinBudget s few
  flush_if-WithinBudget false s few = few

  take_block-WithinBudget :
      (block : DocumentBlock) (s : Planning)
      → length s.chunks ≤ o.maximum_chunks
      → WithinBudget o.maximum_chunks count_of (take_block text o block s)
  unfolding take_block
  take_block-WithinBudget block s few =
      within-bind o.maximum_chunks count_of count_of (flush_if (must_end o block s.chunk_start) o s)
        _ (flush_if-WithinBudget (must_end o block s.chunk_start) s few)
        (λ t h. either t h (is_large o block))
    where
      small :
          (t : Planning) (start : Option ℕ)
          → length t.chunks ≤ o.maximum_chunks
          → length (opened block t start).chunks ≤ o.maximum_chunks
      small t none h = h
      small t (some start) h = h

      either :
          (t : Planning)
          → length t.chunks ≤ o.maximum_chunks
          → (large : Bool)
          → WithinBudget o.maximum_chunks count_of
              (if large then take_large text o block t else take_small o block t)
      either t h true =
          within-bind o.maximum_chunks count_of count_of (flush o t) _ (flush-WithinBudget t h)
            (λ u g.
              within-bind o.maximum_chunks length count_of
                (dense_loop (o.maximum_chunks + 1) text o block block.start u.chunks) _
                (dense_loop-WithinBudget block (o.maximum_chunks + 1) block.start u.chunks
                  (omega arith) g)
                (λ chunks k. k))
      either t h false =
          flush_if-WithinBudget (is_complete o block (opened block t t.chunk_start).chunk_start)
            (opened block t t.chunk_start) (small t t.chunk_start h)

  take_blocks-WithinBudget :
      (blocks : List DocumentBlock) (s : Planning)
      → length s.chunks ≤ o.maximum_chunks
      → WithinBudget o.maximum_chunks count_of (take_blocks text o blocks s)
  unfolding take_blocks
  take_blocks-WithinBudget [] s few = few
  take_blocks-WithinBudget (block ∷ blocks) s few =
      within-bind o.maximum_chunks count_of count_of (take_block text o block s) _
        (take_block-WithinBudget block s few) (λ t h. take_blocks-WithinBudget blocks t h)

length-join_last :
    (minimum : ℕ) (chunks : List ChunkPlan) → length (join_last minimum chunks) ≤ length chunks
unfolding join_last
length-join_last minimum [] = omega arith
length-join_last minimum (a ∷ []) = omega arith
length-join_last minimum (a ∷ b ∷ []) = elim (Bool-cases (ltb (sub_u64 b.end b.start) minimum)) [
  | inl e ↦ rw e (omega arith)
  | inr e ↦ rw e (omega arith)
]
length-join_last minimum (a ∷ b ∷ c ∷ rest) = omega (arith, length-join_last minimum (b ∷ c ∷ rest))

-- PlanChunks ends on every document under all options, in all modes: with at most maximum_chunks
-- chunks or with an exception of the source. Fuel of maximum_chunks + 1 for each loop is enough.
pub plan_chunks-WithinBudget :
    (d : NormalizedDocument) (o : ChunkingOptions)
    → WithinBudget o.maximum_chunks length (plan_chunks d o)
unfolding plan_chunks
plan_chunks-WithinBudget d o =
    valid (is_valid_budget o) (same_text o.mode fast_word) (is_structured o) refl
  where
    structured : WithinBudget o.maximum_chunks length (plan_blocks d o)
    structured =
        unfold plan_blocks in
        within-bind o.maximum_chunks count_of length
          (take_blocks d.source_text o d.blocks nothing_planned >>= flush o) _
          (within-bind o.maximum_chunks count_of count_of
            (take_blocks d.source_text o d.blocks nothing_planned) _
            (take_blocks-WithinBudget d.source_text o d.blocks nothing_planned (omega arith))
            (λ s h. flush-WithinBudget d.source_text o s h))
          (λ s h. omega (arith, length-join_last o.minimum_chars s.chunks))

    positive : is_valid_budget o ≡ true → 0 < o.maximum_chunks
    positive h = ground arith

    valid :
        (b fast known : Bool)
        → is_valid_budget o ≡ b
        → WithinBudget o.maximum_chunks length (
            if not b
            then thrown PlanError.invalid_budget
            else if fast
            then fast_loop (o.maximum_chunks + 1) d.source_text o 0 []
            else if known
            then plan_blocks d o
            else thrown PlanError.unknown_mode)
    valid false fast known h = λ e. cc
    valid true true known h =
        fast_loop-WithinBudget d.source_text o (o.maximum_chunks + 1) 0 [] (omega arith)
          (positive h)
    valid true false true h = structured
    valid true false false h = λ e. cc
