-- ===== src/Chunk/Dense.antt =====
-- rag_cpp/src/document.cpp: PlanChunks of a document whose first block is large, without a marker, and
-- followed by a line break.
use mimic_rag.Chunk.{
  NormalizedDocument, DocumentBlock, ChunkPlan, ChunkingOptions, PlanError, Planned, thrown, is_at,
  rfind, next_start, first_boundary, boundary_before,
}
use mimic_rag.Chunk.Structured.{
  plan_blocks, take_blocks, take_block, flush, is_large, dense_chunk, dense_round, dense_loop,
}
use mimic_rag.Chunk.Window.{rfind_lem}
use mimic_rag.Column.{u64, sub_u64}
use mimic_rag.Chunk.Plan.{is_valid_budget, is_structured, plan_chunks, fast_word}
use mimic_rag.Text.{same_text}
use mimic_rag.Prelude.{
  dec_lt, none, ℕ, zero, suc, ◌+◌, ◌-◌, ◌^◌, ◌≤◌, ◌<◌, min, ◌≡◌, refl, ap, ◌∙◌, Bool, true, false,
  some, List, [], ◌∷◌, ◌++◌, arith, ltb, leb, ◌==◌, lt→ltb, le→leb, length, length-append,
}

-- The boundary before the end of a block whose next character is a line break lies behind that.
boundary_before-line_break :
    (text : List ℕ) (start stop minimum : ℕ)
    → is_at 10 text stop ≡ true
    → stop < length text
    → length text < 2 ^ 64
    → start + minimum ≤ stop + 1
    → boundary_before text start stop minimum ≡ stop + 1
unfolding boundary_before first_boundary
boundary_before-line_break text start stop minimum here within fits far =
    let inside : leb (length text) stop ≡ false = ground arith in
    let found : rfind 10 text stop ≡ some stop =
      rfind_lem 10 text stop stop here (omega arith) (λ i lo hi. absurd (omega arith)) in
    let least : leb (u64 (start + minimum)) (u64 (stop + 1)) ≡ true =
      le→leb (u64 (start + minimum)) (u64 (stop + 1)) (omega arith) in
    rw (inside, found, least) (omega arith)

-- A round that is not the last one of the block throws if the rest of the loop does.
repeats :
    (chunks more : List ChunkPlan) (rest : Planned (List ChunkPlan)) (most : ℕ)
    (inside full last : Bool)
    → inside ≡ true
    → ltb most (length more) ≡ full
    → last ≡ false
    → (length more ≤ most → rest ≡ thrown PlanError.too_many_chunks)
    → dense_round inside full last chunks more rest ≡ thrown PlanError.too_many_chunks
repeats chunks more rest most false full last h e g later = absurd (differ h)
  where
    differ : false ≡ true → ⊥
    differ q = cc
repeats chunks more rest most true true last h e g later = refl
repeats chunks more rest most true false true h e g later = absurd (differ g)
  where
    differ : true ≡ false → ⊥
    differ q = cc
repeats chunks more rest most true false false h e g later = later (ground arith)

-- The loop over a large block that a line break follows, where the overlap is at least the minimum
-- and 2, and lies within the maximum and the block: from any window that reaches the end of the
-- block, every window ends one behind the block and the next starts at the same place, so that the
-- loop ends by throwing that there are too many chunks.
dense_loop-stuck :
    (text : List ℕ) (o : ChunkingOptions) (block : DocumentBlock) (fuel start : ℕ)
    (chunks : List ChunkPlan)
    → is_at 10 text block.end ≡ true
    → block.end < length text
    → length text + o.maximum_chars < 2 ^ 64
    → o.minimum_chars ≤ o.overlap_chars
    → 2 ≤ o.overlap_chars
    → o.overlap_chars ≤ o.maximum_chars
    → o.overlap_chars ≤ block.end
    → start < block.end
    → block.end ≤ start + o.maximum_chars
    → start + o.minimum_chars ≤ block.end + 1
    → o.maximum_chunks < fuel + length chunks
    → length chunks ≤ o.maximum_chunks
    → dense_loop fuel text o block start chunks ≡ thrown PlanError.too_many_chunks
unfolding dense_loop
dense_loop-stuck text o block zero start chunks here within fits a b c d before reach far enough
      few =
    absurd (omega arith)
dense_loop-stuck text o block (suc fuel) start chunks here within fits a b c d before reach far
      enough few =
    round (ltb start block.end) (ltb o.maximum_chunks (length more)) (end == block.end)
      (lt→ltb start block.end before) refl not_last
      (λ h.
        dense_loop-stuck text o block fuel (next_start end o.overlap_chars) more here within fits a
          b c d (omega (arith, next, b, d)) (omega (arith, next)) (omega (arith, next))
          (omega (arith, length-append chunks (dense_chunk o block start end ∷ []))) h)
  where
    end : ℕ
    end = boundary_before text start (min block.end (u64 (start + o.maximum_chars))) o.minimum_chars

    more : List ChunkPlan
    more = chunks ++ dense_chunk o block start end ∷ []

    behind : end ≡ block.end + 1
    behind =
        let whole : min block.end (u64 (start + o.maximum_chars)) ≡ block.end = omega arith in
        ap (λ n. boundary_before text start n o.minimum_chars) whole
        ∙ boundary_before-line_break text start block.end o.minimum_chars here within (omega arith)
            far

    next : next_start end o.overlap_chars ≡ block.end + 1 - o.overlap_chars
    next =
        let over : ltb o.overlap_chars end ≡ true =
          lt→ltb o.overlap_chars end (omega (arith, behind)) in
        rw over (omega (arith, behind))

    not_last : (end == block.end) ≡ false
    not_last = ground (arith, behind)

    rest : Planned (List ChunkPlan)
    rest = dense_loop fuel text o block (next_start end o.overlap_chars) more

    round :
        (inside full last : Bool)
        → inside ≡ true
        → ltb o.maximum_chunks (length more) ≡ full
        → last ≡ false
        → (length more ≤ o.maximum_chunks → rest ≡ thrown PlanError.too_many_chunks)
        → dense_round inside full last chunks more rest ≡ thrown PlanError.too_many_chunks
    round = repeats chunks more rest o.maximum_chunks

-- Without the character rfind finds nothing.
rfind_missing :
    (c : ℕ) (text : List ℕ) (n : ℕ)
    → ((i : ℕ) → i ≤ n → is_at c text i ≡ false)
    → rfind c text n ≡ none
unfolding rfind
rfind_missing c text zero absent = rw (absent 0 (omega arith)) refl
rfind_missing c text (suc n) absent =
    rw (absent (suc n) (omega arith)) (rfind_missing c text n (λ i le. absent i (omega arith)))

-- No line break, full stop, semicolon or space before a position.
abbrev pub Unmarked : List ℕ → ℕ → Type 0
Unmarked text stop =
    (i : ℕ)
    → i < stop
    → (is_at 10 text i ≡ false)
      × (is_at 46 text i ≡ false)
      × (is_at 59 text i ≡ false)
      × (is_at 32 text i ≡ false)

boundary_before-Unmarked :
    (text : List ℕ) (start desired minimum stop : ℕ)
    → Unmarked text stop
    → desired < stop
    → stop < length text
    → boundary_before text start desired minimum ≡ desired
unfolding boundary_before first_boundary
boundary_before-Unmarked text start desired minimum stop unmarked lt within =
    let inside : leb (length text) desired ≡ false = ground arith in
    let breaks : rfind 10 text desired ≡ none =
      rfind_missing 10 text desired (λ i le. (unmarked i (omega arith)).0) in
    let stops : rfind 46 text desired ≡ none =
      rfind_missing 46 text desired (λ i le. (unmarked i (omega arith)).1) in
    let semicolons : rfind 59 text desired ≡ none =
      rfind_missing 59 text desired (λ i le. (unmarked i (omega arith)).2) in
    let spaces : rfind 32 text desired ≡ none =
      rfind_missing 32 text desired (λ i le. (unmarked i (omega arith)).3) in
    rw (inside, breaks, stops, semicolons, spaces) refl

module _ (text : List ℕ) (o : ChunkingOptions) (block : DocumentBlock) where
  -- The windows before the last one move on by the maximum less the overlap, and the last one stays.
  dense_loop-Unmarked :
      (fuel start : ℕ) (chunks : List ChunkPlan)
      → is_at 10 text block.end ≡ true
      → Unmarked text block.end
      → block.end < length text
      → length text + o.maximum_chars < 2 ^ 64
      → o.minimum_chars ≤ o.overlap_chars
      → 2 ≤ o.overlap_chars
      → o.overlap_chars < o.maximum_chars
      → o.maximum_chars < block.end
      → start < block.end
      → start + o.minimum_chars ≤ block.end + 1
      → o.maximum_chunks < fuel + length chunks
      → length chunks ≤ o.maximum_chunks
      → dense_loop fuel text o block start chunks ≡ thrown PlanError.too_many_chunks
  unfolding dense_loop
  dense_loop-Unmarked zero start chunks here unmarked within fits a b c large before far enough
        few =
      absurd (omega arith)
  dense_loop-Unmarked (suc fuel) start chunks here unmarked within fits a b c large before far
        enough few =
      elim (dec_lt (start + o.maximum_chars) block.end) [
        | no ge ↦
            dense_loop-stuck text o block (suc fuel) start chunks here within fits a b (omega arith)
              (omega arith) before (omega (arith, ge)) far enough few
        | yes lt ↦
            round (ltb start block.end) (ltb o.maximum_chunks (length more)) (end == block.end)
              (lt→ltb start block.end before) refl (not_last lt)
              (λ h.
                dense_loop-Unmarked fuel (next_start end o.overlap_chars) more here unmarked within
                  fits a b c large (omega (arith, next lt, lt)) (omega (arith, next lt, lt))
                  (omega (arith, length-append chunks (dense_chunk o block start end ∷ []))) h)
      ]
    where
      end : ℕ
      end =
          boundary_before text start (min block.end (u64 (start + o.maximum_chars))) o.minimum_chars

      more : List ChunkPlan
      more = chunks ++ dense_chunk o block start end ∷ []

      at_desired : start + o.maximum_chars < block.end → end ≡ start + o.maximum_chars
      at_desired lt =
          let whole : min block.end (u64 (start + o.maximum_chars)) ≡ start + o.maximum_chars =
            omega (arith, lt) in
          ap (λ n. boundary_before text start n o.minimum_chars) whole
          ∙ boundary_before-Unmarked text start (start + o.maximum_chars) o.minimum_chars block.end
              unmarked lt within

      next :
          start + o.maximum_chars < block.end
          → next_start end o.overlap_chars ≡ start + o.maximum_chars - o.overlap_chars
      next lt =
          let over : ltb o.overlap_chars end ≡ true =
            lt→ltb o.overlap_chars end (omega (arith, at_desired lt)) in
          rw over (omega (arith, at_desired lt))

      not_last : start + o.maximum_chars < block.end → (end == block.end) ≡ false
      not_last lt = ground (arith, at_desired lt)

      rest : Planned (List ChunkPlan)
      rest = dense_loop fuel text o block (next_start end o.overlap_chars) more

      round :
          (inside full last : Bool)
          → inside ≡ true
          → ltb o.maximum_chunks (length more) ≡ full
          → last ≡ false
          → (length more ≤ o.maximum_chunks → rest ≡ thrown PlanError.too_many_chunks)
          → dense_round inside full last chunks more rest ≡ thrown PlanError.too_many_chunks
      round = repeats chunks more rest o.maximum_chunks

-- In the structured or semantic mode with a valid budget, minimum_chars at most overlap_chars, and
-- overlap_chars at least 2 and below maximum_chars, a document is refused whose first block begins the
-- text, ends behind maximum_chars, has no line break, full stop, semicolon or space in it, and is
-- followed by a line break: the last window ends one behind the block, and the next starts at the same
-- place. The text and maximum_chars are together below 2 ^ 64 characters.
pub plan_chunks-line_break :
    (d : NormalizedDocument) (o : ChunkingOptions) (block : DocumentBlock)
    (blocks : List DocumentBlock)
    → is_valid_budget o ≡ true
    → same_text o.mode fast_word ≡ false
    → is_structured o ≡ true
    → d.blocks ≡ block ∷ blocks
    → block.start ≡ 0
    → o.maximum_chars < block.end
    → Unmarked d.source_text block.end
    → is_at 10 d.source_text block.end ≡ true
    → block.end < length d.source_text
    → length d.source_text + o.maximum_chars < 2 ^ 64
    → o.minimum_chars ≤ o.overlap_chars
    → 2 ≤ o.overlap_chars
    → o.overlap_chars < o.maximum_chars
    → plan_chunks d o ≡ thrown PlanError.too_many_chunks
unfolding plan_chunks plan_blocks take_blocks take_block flush
plan_chunks-line_break d o block blocks valid slow known first begins large unmarked here within
      fits a b c =
    let sized : is_large o block ≡ true =
      lt→ltb o.maximum_chars (sub_u64 block.end block.start) (omega (arith, begins)) in
    let stuck : dense_loop (o.maximum_chunks + 1) d.source_text o block block.start []
        ≡ thrown PlanError.too_many_chunks =
      dense_loop-Unmarked d.source_text o block (o.maximum_chunks + 1) block.start [] here unmarked
        within fits a b c large (omega (arith, begins)) (omega (arith, begins)) (omega arith)
        (omega arith) in
    rw (valid, slow, known, first, sized, stuck) refl
