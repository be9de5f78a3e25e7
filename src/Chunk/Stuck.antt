-- ===== src/Chunk/Stuck.antt =====
-- rag_cpp/src/document.cpp: the mode "fast" on a long run of characters without a space.
use mimic_rag.Chunk.{
  NormalizedDocument, ChunkPlan, ChunkingOptions, PlanError, Planned, thrown, is_at, rfind,
  next_start,
}
use mimic_rag.Chunk.Fast.{fast_end, fast_chunk, fast_round, fast_loop}
use mimic_rag.Chunk.Plan.{is_valid_budget, plan_chunks, fast_word}
use mimic_rag.Column.{u64}
use mimic_rag.Text.{same_text}
use mimic_rag.Chunk.Window.{rfind_lem}
use mimic_rag.Prelude.{
  ℕ, zero, suc, ◌+◌, ◌-◌, ◌^◌, ◌≤◌, ◌<◌, min, ◌≡◌, refl, Bool, true, false, some, List, [], ◌∷◌,
  ◌++◌, arith, ltb, leb, ◌==◌, lt→ltb, length, length-append,
}

module _ (text : List ℕ) (o : ChunkingOptions) where
  -- From a space behind which the text has none for as far as the target, the windows do not get on.
  fast_loop-stuck :
      (p fuel start : ℕ) (chunks : List ChunkPlan)
      → is_at 32 text p ≡ true
      → ((i : ℕ) → p < i → i ≤ p + o.target_chars → is_at 32 text i ≡ false)
      → 80 < o.overlap_chars
      → o.overlap_chars < p
      → p ≤ o.target_chars
      → p + o.target_chars < length text
      → length text + o.target_chars < 2 ^ 64
      → start ≤ p - o.overlap_chars
      → o.maximum_chunks < fuel + length chunks
      → length chunks < o.maximum_chunks
      → fast_loop fuel text o start chunks ≡ thrown PlanError.too_many_chunks
  unfolding fast_loop
  fast_loop-stuck p zero start chunks here behind a b near long fits le enough few =
      absurd (omega arith)
  fast_loop-stuck p (suc fuel) start chunks here behind a b near long fits le enough few =
      round (ltb start (length text)) (end == length text) (leb o.maximum_chunks (length more))
        (lt→ltb start (length text) (omega arith)) not_last refl
        (λ h.
          fast_loop-stuck p fuel (next_start end o.overlap_chars) more here behind a b near long
            fits next_le (omega (arith, length-append chunks (fast_chunk start end ∷ []))) h)
    where
      end : ℕ
      end = fast_end text o.target_chars start

      more : List ChunkPlan
      more = chunks ++ fast_chunk start end ∷ []

      at_p : end ≡ p
      at_p =
          let reach : min (length text) (u64 (start + o.target_chars)) ≡ start + o.target_chars =
            omega arith in
          let short : ltb (start + o.target_chars) (length text) ≡ true =
            lt→ltb (start + o.target_chars) (length text) (omega arith) in
          let found : rfind 32 text (start + o.target_chars) ≡ some p =
            rfind_lem 32 text (start + o.target_chars) p here (omega arith)
              (λ i lo hi. behind i lo (omega arith)) in
          let far : ltb (u64 (start + 80)) p ≡ true = lt→ltb (u64 (start + 80)) p (omega arith) in
          unfold fast_end in rw (reach, short, found, far) refl

      next_le : next_start end o.overlap_chars ≤ p - o.overlap_chars
      next_le =
          let over : ltb o.overlap_chars end ≡ true =
            lt→ltb o.overlap_chars end (omega (arith, at_p)) in
          rw over (omega (arith, at_p))

      not_last : (end == length text) ≡ false
      not_last = ground (arith, at_p)

      rest : Planned (List ChunkPlan)
      rest = fast_loop fuel text o (next_start end o.overlap_chars) more

      round :
          (inside last full : Bool)
          → inside ≡ true
          → last ≡ false
          → leb o.maximum_chunks (length more) ≡ full
          → (length more < o.maximum_chunks → rest ≡ thrown PlanError.too_many_chunks)
          → fast_round inside last full chunks more rest ≡ thrown PlanError.too_many_chunks
      round false last full h e g later = absurd (differ h)
        where
          differ : false ≡ true → ⊥
          differ q = cc
      round true true full h e g later = absurd (differ e)
        where
          differ : true ≡ false → ⊥
          differ q = cc
      round true false true h e g later = refl
      round true false false h e g later = later (ground arith)

-- In the mode "fast", with a valid budget and an overlap of more than 80 characters, a text with a
-- space that lies within the target and behind the overlap, and none behind it for as far as the
-- target and text beyond that, is refused: every window ends at that space, and the next starts where
-- the last one did. The text and the target are together below 2 ^ 64 characters.
pub plan_chunks-stuck :
    (d : NormalizedDocument) (o : ChunkingOptions) (p : ℕ)
    → is_valid_budget o ≡ true
    → same_text o.mode fast_word ≡ true
    → is_at 32 d.source_text p ≡ true
    → ((i : ℕ) → p < i → i ≤ p + o.target_chars → is_at 32 d.source_text i ≡ false)
    → 80 < o.overlap_chars
    → o.overlap_chars < p
    → p ≤ o.target_chars
    → p + o.target_chars < length d.source_text
    → length d.source_text + o.target_chars < 2 ^ 64
    → plan_chunks d o ≡ thrown PlanError.too_many_chunks
unfolding plan_chunks
plan_chunks-stuck d o p valid fast here behind a b near long fits =
    rw (valid, fast)
      (fast_loop-stuck d.source_text o p (o.maximum_chunks + 1) 0 [] here behind a b near long fits
        (omega arith) (omega arith) (ground arith))
