-- ===== src/Catalog/Latest.antt =====
-- rag_cpp/src/catalog.cpp, the bookkeeping of Compact: a map from each id to the index of its latest
-- record, by which the records before it are marked as superseded.
use mimic_rag.Prelude.{
  ℕ, suc, ◌≡◌, refl, sym, ap, ap₂, ◌∙◌, inl, inr, Bool, true, false, ◌||◌, Option, none, some, List,
  [], ◌∷◌, ◌++◌, arith, if◌then◌else◌, Bool-cases, Option-cases, length, set,
}
use mimic_rag.Text.{same_text, eq_of_same_text, same_text_symm}

-- The map: what was put last is found first.
unfoldable pub lookup {ℓ} : {A : Type ℓ} → List ℕ → List (List ℕ × A) → Option A
lookup id [] = none
lookup id ((k, v) ∷ entries) = if same_text k id then some v else lookup id entries

module _ {ℓ} {A : Type ℓ} where
  -- The ids of the records, with the records.
  unfoldable pub occurs : List ℕ → List (List ℕ × A) → Bool
  occurs id [] = false
  occurs id ((k, a) ∷ rest) = same_text k id || occurs id rest

  -- Each record that no later one supersedes.
  unfoldable pub newest : List (List ℕ × A) → List (Option A)
  newest [] = []
  newest ((id, a) ∷ rest) = (if occurs id rest then none else some a) ∷ newest rest

  unfoldable pub last_index : List ℕ → List (List ℕ × A) → Option ℕ
  last_index id [] = none
  last_index id ((k, a) ∷ rest) = elim (last_index id rest) [
    | some i ↦ some (suc i)
    | none ↦ if same_text k id then some 0 else none
  ]

  -- records[found->second].document = nullptr
  abbrev pub cleared : Option ℕ → List (Option A) → List (Option A)
  cleared none marks = marks
  cleared (some i) marks = set marks i none

  pub length-newest : (entries : List (List ℕ × A)) → length (newest entries) ≡ length entries
  unfolding newest
  length-newest [] = refl
  length-newest ((id, a) ∷ rest) = ap suc (length-newest rest)

  occurs-last_index :
      (id : List ℕ) (entries : List (List ℕ × A)) (i : ℕ)
      → last_index id entries ≡ some i
      → occurs id entries ≡ true
  unfolding occurs last_index
  occurs-last_index id [] i h = absurd (no h)
    where
      no : none ≡ some i → ⊥
      no e = cc
  occurs-last_index id ((k, a) ∷ rest) i h = elim (Option-cases (last_index id rest)) [
    | inr (j, e) ↦ ground (arith, occurs-last_index id rest j e)
    | inl e ↦ elim (Bool-cases (same_text k id)) [
      | inl same ↦ rw same refl
      | inr other ↦ absurd (no (sym (rw (e, other)) ∙ h))
    ]
  ]
    where
      no : none ≡ some i → ⊥
      no e = cc

  occurs-append :
      (id k : List ℕ) (a : A) (entries : List (List ℕ × A))
      → occurs id (entries ++ (k, a) ∷ []) ≡ (occurs id entries || same_text k id)
  unfolding occurs
  occurs-append id k a [] = ground arith
  occurs-append id k a ((q, b) ∷ rest) = ground (arith, occurs-append id k a rest)

  -- One more record: its id's latest index so far is marked, and it comes at the end.
  pub newest-append :
      (id : List ℕ) (a : A) (entries : List (List ℕ × A))
      → newest (entries ++ (id, a) ∷ [])
        ≡ cleared (last_index id entries) (newest entries) ++ some a ∷ []
  unfolding newest last_index
  newest-append id a [] = unfold occurs in refl
  newest-append id a ((k, b) ∷ rest) = elim (Option-cases (last_index id rest)) [
    | inr (i, e) ↦ rw e (
        ap₂ (λ h t. h ∷ t) (superseded i e)
          (newest-append id a rest ∙ ap (λ o. cleared o (newest rest) ++ some a ∷ []) e))
    | inl e ↦ rw e (elim (Bool-cases (same_text k id)) [
      | inl same ↦ rw same (
          ap₂ (λ h t. h ∷ t)
            (ap (λ t. if t then none else some b) (occurs-append k id a rest ∙ both same))
            (newest-append id a rest ∙ ap (λ o. cleared o (newest rest) ++ some a ∷ []) e))
      | inr other ↦ rw other (
          ap₂ (λ h t. h ∷ t)
            (ap (λ t. if t then none else some b) (occurs-append k id a rest ∙ neither other))
            (newest-append id a rest ∙ ap (λ o. cleared o (newest rest) ++ some a ∷ []) e))
    ])
  ]
    where
      both : same_text k id ≡ true → (occurs k rest || same_text id k) ≡ true
      both same = ground (arith, same_text_symm k id)

      neither : same_text k id ≡ false → (occurs k rest || same_text id k) ≡ occurs k rest
      neither other = ground (arith, same_text_symm k id)

      superseded :
          (i : ℕ)
          → last_index id rest ≡ some i
          → (if occurs k (rest ++ (id, a) ∷ []) then none else some b)
            ≡ (if occurs k rest then none else some b)
      superseded i e = ap (λ t. if t then none else some b) (occurs-append k id a rest ∙ known i e)
        where
          known :
              (i : ℕ)
              → last_index id rest ≡ some i
              → (occurs k rest || same_text id k) ≡ occurs k rest
          known i e = elim (Bool-cases (same_text id k)) [
            | inl same ↦
                let there : occurs k rest ≡ true =
                  ap (λ q. occurs q rest) (sym (eq_of_same_text id k same))
                  ∙ occurs-last_index id rest i e in
                rw there refl
            | inr other ↦ ground arith
          ]

  pub last_index-append :
      (q id : List ℕ) (a : A) (entries : List (List ℕ × A))
      → last_index q (entries ++ (id, a) ∷ [])
        ≡ (if same_text id q then some (length entries) else last_index q entries)
  unfolding last_index
  last_index-append q id a [] = refl
  last_index-append q id a ((k, b) ∷ rest) = elim (Bool-cases (same_text id q)) [
    | inl same ↦ rw (last_index-append q id a rest, same) refl
    | inr other ↦ rw (last_index-append q id a rest, other) refl
  ]
