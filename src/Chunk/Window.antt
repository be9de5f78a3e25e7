-- ===== src/Chunk/Window.antt =====
-- rag_cpp/src/document.cpp: where rfind looks, and where a window of the mode "fast" ends.
use mimic_rag.Chunk.{ChunkingOptions, is_at, rfind, next_start}
use mimic_rag.Chunk.Fast.{at_space, fast_end}
use mimic_rag.Column.{u64}
use mimic_rag.Prelude.{
  ℕ, zero, suc, ◌+◌, ◌-◌, ◌*◌, ◌^◌, ◌≤◌, ◌<◌, min, ◌≡◌, refl, sym, ap, ◌∙◌, ◌⊎◌, inl, inr, Bool,
  true, false, Option, none, some, List, arith, ℕ_discrete, ltb, if◌then◌else◌, Bool-cases, length,
}

chosen_le :
    (b : Bool) (n m p : ℕ) (rest : Option ℕ)
    → n ≤ m
    → (rest ≡ some p → p ≤ m)
    → (if b then some n else rest) ≡ some p
    → p ≤ m
chosen_le true n m p rest le other h =
    let same : n ≡ p = ap (λ o. elim o [ none ↦ n | some x ↦ x ]) h in omega arith
chosen_le false n m p rest le other h = other h

rfind-le : (c : ℕ) (text : List ℕ) (n p : ℕ) → rfind c text n ≡ some p → p ≤ n
unfolding rfind
rfind-le c text zero p h =
    chosen_le (is_at c text 0) 0 0 p none (omega arith) (λ e. absurd (absent e)) h
  where
    absent : none ≡ some p → ⊥
    absent e = cc
rfind-le c text (suc n) p h =
    chosen_le (is_at c text (suc n)) (suc n) (suc n) p (rfind c text n) (omega arith)
      (λ e. omega (arith, rfind-le c text n p e)) h

-- The last occurrence up to a position is found.
pub rfind_lem :
    (c : ℕ) (text : List ℕ) (n p : ℕ)
    → is_at c text p ≡ true
    → p ≤ n
    → ((i : ℕ) → p < i → i ≤ n → is_at c text i ≡ false)
    → rfind c text n ≡ some p
unfolding rfind
rfind_lem c text zero p here le none_behind =
    let z : p ≡ 0 = omega arith in
    let found : is_at c text 0 ≡ true = ap (is_at c text) (sym z) ∙ here in
    rw found (ap some (sym z))
rfind_lem c text (suc n) p here le none_behind = elim (ℕ_discrete p (suc n)) [
  | yes z ↦
      let found : is_at c text (suc n) ≡ true = ap (is_at c text) (sym z) ∙ here in
      rw found (ap some (sym z))
  | no ne ↦
      let other : is_at c text (suc n) ≡ false =
        none_behind (suc n) (omega (arith, ne)) (omega arith) in
      rw other
        (rfind_lem c text n p here (omega (arith, ne)) (λ i lo hi. none_behind i lo (omega arith)))
]

-- The next window starts at most 80 before the end of one, and further on than it did.
pub next_start_lem :
    (start end overlap : ℕ)
    → overlap < 80
    → start + 80 ≤ end
    → (next_start end overlap ≤ end)
      × (end < next_start end overlap + 80)
      × (start + (80 - overlap) ≤ next_start end overlap)
next_start_lem start end overlap small far = elim (Bool-cases (ltb overlap end)) [
  | inl e ↦ rw e (omega arith, ground arith, ground arith)
  | inr e ↦ rw e (omega arith, omega arith, omega arith)
]

pub suc-times : (n g : ℕ) → suc n * g ≡ g + n * g
suc-times n g = grind arith

-- A window of the mode "fast" ends within the text and the target, and at the end of the text or at
-- least 80 behind its start.
pub record IsWindow (size target start end : ℕ) : Type 0 where
  pub inside : end ≤ size
  pub narrow : end ≤ start + target
  pub far : (end ≡ size) ⊎ (start + 80 ≤ end)

module _ (text : List ℕ) (o : ChunkingOptions) where
  pub fast_end-IsWindow :
      (start : ℕ)
      → start < length text
      → 80 ≤ o.target_chars
      → length text + o.target_chars < 2 ^ 64
      → IsWindow (length text) o.target_chars start (fast_end text o.target_chars start)
  unfolding fast_end
  fast_end-IsWindow start h wide fits = elim (Bool-cases (ltb desired (length text))) [
    | inl e ↦ rw e (spaced (rfind 32 text desired) (rfind-le 32 text desired) (ground arith))
    | inr e ↦ rw e (record { inside = omega arith; narrow = omega arith; far = inl (ground arith) })
  ]
    where
      desired : ℕ
      desired = min (length text) (u64 (start + o.target_chars))

      spaced :
          (found : Option ℕ)
          → ((p : ℕ) → found ≡ some p → p ≤ desired)
          → desired < length text
          → IsWindow (length text) o.target_chars start (at_space found start desired)
      spaced none below short = record {
        inside = omega arith;
        narrow = omega arith;
        far = inr (omega arith);
      }
      spaced (some b) below short = elim (Bool-cases (ltb (u64 (start + 80)) b)) [
        | inl e ↦ rw e (record {
          inside = omega (arith, below b refl);
          narrow = omega (arith, below b refl);
          far = inr (ground arith);
        })
        | inr e ↦
            rw e (record { inside = omega arith; narrow = omega arith; far = inr (omega arith) })
      ]
