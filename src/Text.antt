-- ===== src/Text.antt =====
-- Strings as the lists of their bytes, compared with operator==, for rag_cpp/src/catalog.cpp and
-- rag_cpp/src/document.cpp.
use mimic_rag.Prelude.{
  ℕ, ◌≡◌, refl, ap₂, Bool, true, false, ◌&&◌, List, [], ◌∷◌, arith, ◌==◌, and-parts, and-true,
  ==_refl, ==_iff,
}

-- operator== of two strings.
unfoldable pub same_text : List ℕ → List ℕ → Bool
same_text [] [] = true
same_text (x ∷ xs) (y ∷ ys) = (x == y) && same_text xs ys
same_text _ _ = false

pub same_text_refl : (a : List ℕ) → same_text a a ≡ true
unfolding same_text
same_text_refl [] = refl
same_text_refl (x ∷ xs) = and-true (x == x) (same_text xs xs) (==_refl x) (same_text_refl xs)

pub same_text_symm : (a b : List ℕ) → same_text a b ≡ same_text b a
unfolding same_text
same_text_symm [] [] = refl
same_text_symm [] (y ∷ ys) = refl
same_text_symm (x ∷ xs) [] = refl
same_text_symm (x ∷ xs) (y ∷ ys) = ap₂ (λ s t. s && t) (ground arith) (same_text_symm xs ys)

pub eq_of_same_text : (a b : List ℕ) → same_text a b ≡ true → a ≡ b
unfolding same_text
eq_of_same_text [] [] h = refl
eq_of_same_text [] (y ∷ ys) h = absurd (no h)
  where
    no : false ≡ true → ⊥
    no e = cc
eq_of_same_text (x ∷ xs) [] h = absurd (no h)
  where
    no : false ≡ true → ⊥
    no e = cc
eq_of_same_text (x ∷ xs) (y ∷ ys) h =
    let (first, rest) = and-parts (x == y) (same_text xs ys) h in
    ap₂ (λ a b. a ∷ b) ((==_iff x y).0 first) (eq_of_same_text xs ys rest)
