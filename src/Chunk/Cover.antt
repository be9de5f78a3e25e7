-- ===== src/Chunk/Cover.antt =====
-- rag_cpp/src/document.cpp: the windows of the mode "fast" cover the text.
use mimic_rag.Chunk.{NormalizedDocument, ChunkPlan, ChunkingOptions, planned, next_start}
use mimic_rag.Chunk.Fast.{fast_end, fast_chunk, fast_round, fast_loop}
use mimic_rag.Chunk.Plan.{is_valid_budget, plan_chunks, fast_word}
use mimic_rag.Text.{same_text}
use mimic_rag.Chunk.Window.{next_start_lem, suc-times, IsWindow, fast_end-IsWindow}
use mimic_rag.Prelude.{
  ℕ, zero, suc, ◌+◌, ◌-◌, ◌*◌, ◌^◌, ◌≤◌, ◌<◌, ◌≡◌, refl, sym, ap, ◌∙◌, ◌≢◌, inl, inr, Bool, true,
  false, List, [], ◌∷◌, ◌++◌, arith, dec_lt, ℕ_discrete, ltb, leb, ◌==◌, lt→ltb, ==_iff, length,
  length-append, append_assoc,
}

module _ (text : List ℕ) (o : ChunkingOptions) where
  -- Chunks that go on from a position without a gap, each further than the ones before, none wider
  -- than the target, up to the end of the text.
  abbrev pub Covers : ℕ → List ChunkPlan → Type 0
  Covers reach [] = reach ≡ length text
  Covers reach (c ∷ cs) =
      (c.start ≤ reach) × (reach < c.end) × (c.end ≤ c.start + o.target_chars) × Covers c.end cs

  fast_loop-Covers :
      (left fuel start reach : ℕ) (chunks : List ChunkPlan)
      → 80 ≤ o.target_chars
      → length text + o.target_chars < 2 ^ 64
      → o.overlap_chars < 80
      → left + length chunks ≡ o.maximum_chunks
      → left < fuel
      → start ≤ reach
      → reach < start + 80
      → reach < length text
      → length text ≤ start + left * (80 - o.overlap_chars)
      → (new : List ChunkPlan) × (fast_loop fuel text o start chunks ≡ planned (chunks ++ new))
        × Covers reach new
  unfolding fast_loop
  fast_loop-Covers zero fuel start reach chunks wide fits small sum more_fuel a b c room =
      absurd (omega arith)
  fast_loop-Covers (suc left) zero start reach chunks wide fits small sum more_fuel a b c room =
      absurd (omega arith)
  fast_loop-Covers (suc left) (suc fuel) start reach chunks wide fits small sum more_fuel a b c
        room =
      round (ltb start (length text)) (end == length text) (leb o.maximum_chunks (length more))
        (lt→ltb start (length text) (omega arith)) refl refl
        (λ h.
          let next = next_start_lem start end o.overlap_chars small (not_last h) in
          fast_loop-Covers left fuel (next_start end o.overlap_chars) end more wide fits small
            (omega (arith, length-append chunks (fast_chunk start end ∷ []))) (omega arith) next.0
            next.1 (before_end h) (omega (arith, next.2, one_more)))
    where
      gain : ℕ
      gain = 80 - o.overlap_chars

      end : ℕ
      end = fast_end text o.target_chars start

      more : List ChunkPlan
      more = chunks ++ fast_chunk start end ∷ []

      window : IsWindow (length text) o.target_chars start end
      window = fast_end-IsWindow text o start (omega arith) wide fits

      further : reach < end
      further = elim window.far [ inl e ↦ omega arith | inr far ↦ omega arith ]

      one_more : length text ≤ start + gain + left * gain
      one_more = omega (arith, room, suc-times left gain)

      apart : (end == length text) ≡ false → end ≢ length text
      apart h e = ground arith

      not_last : (end == length text) ≡ false → start + 80 ≤ end
      not_last h = elim window.far [ inl e ↦ absurd (apart h e) | inr far ↦ far ]

      before_end : (end == length text) ≡ false → end < length text
      before_end h = elim (dec_lt end (length text)) [
        | yes lt ↦ lt
        | no ge ↦ omega (arith, window.inside, apart h, ge)
      ]

      left_over : (end == length text) ≡ false → 0 < left
      left_over h = elim (ℕ_discrete left 0) [
        | yes z ↦
            let none_left : left * gain ≡ 0 = ap (λ n. n * gain) z ∙ omega arith in
            absurd (omega (arith, one_more, before_end h, not_last h, none_left))
        | no ne ↦ omega (arith, ne)
      ]

      round :
          (inside last full : Bool)
          → inside ≡ true
          → (end == length text) ≡ last
          → leb o.maximum_chunks (length more) ≡ full
          → ((end == length text) ≡ false
              → (new : List ChunkPlan) × (fast_loop fuel text o
                    (next_start end o.overlap_chars)
                    more
                  ≡ planned (more ++ new))
                × Covers end new)
          → (new : List ChunkPlan) × (fast_round inside last full chunks more
                (fast_loop fuel text o (next_start end o.overlap_chars) more)
              ≡ planned (chunks ++ new))
            × Covers reach new
      round false last full h e g later = absurd (differ h)
        where
          differ : false ≡ true → ⊥
          differ q = cc
      round true true full h e g later = (
        fast_chunk start end ∷ [],
        refl,
        (a, further, window.narrow, (==_iff end (length text)).0 e),
      )
      round true false true h e g later =
          absurd (ground (arith, left_over e, length-append chunks (fast_chunk start end ∷ [])))
      round true false false h e g later =
          let (new, loop, covers) = later e in
          (
            fast_chunk start end ∷ new,
            loop ∙ ap planned (append_assoc chunks (fast_chunk start end ∷ []) new),
            (a, further, window.narrow, covers),
          )

-- In the mode "fast", with a valid budget, an overlap below 80 characters and a text for which
-- maximum_chunks windows that go on by 80 less the overlap are enough, PlanChunks returns chunks that
-- cover the text without a gap, each further than the ones before and none wider than the target.
pub plan_chunks-Covers :
    (d : NormalizedDocument) (o : ChunkingOptions)
    → is_valid_budget o ≡ true
    → same_text o.mode fast_word ≡ true
    → o.overlap_chars < 80
    → length d.source_text + o.target_chars < 2 ^ 64
    → length d.source_text ≤ o.maximum_chunks * (80 - o.overlap_chars)
    → (chunks : List ChunkPlan) × (plan_chunks d o ≡ planned chunks)
      × Covers d.source_text o 0 chunks
unfolding plan_chunks
plan_chunks-Covers d o valid fast small fits room =
    rw (valid, fast)
      (elim (ℕ_discrete (length d.source_text) 0) [
        | yes z ↦ ([], empty z, sym z)
        | no ne ↦
            let (new, e, covers) =
              fast_loop-Covers d.source_text o o.maximum_chunks (o.maximum_chunks + 1) 0 0 []
                (ground arith) fits small (omega arith) (omega arith) (omega arith) (omega arith)
                (omega (arith, ne)) (omega (arith, room)) in
            (new, e, covers)
      ])
  where
    empty :
        length d.source_text ≡ 0
        → fast_loop (o.maximum_chunks + 1) d.source_text o 0 [] ≡ planned []
    empty z =
        let one : o.maximum_chunks + 1 ≡ suc o.maximum_chunks = omega arith in
        let closed : ltb 0 (length d.source_text) ≡ false = ground (arith, z) in
        ap (λ n. fast_loop n d.source_text o 0 []) one ∙ (unfold fast_loop in rw closed refl)
