-- ===== src/Catalog/Compact/Live.antt =====
-- rag_cpp/src/catalog.cpp: Compact keeps of a catalog the latest record of each document that is not
-- deleted, and so what a reader of the whole log knows of every document.
use mimic_rag.Catalog.{Codec, CatalogRecord}
use mimic_rag.Catalog.Compact.{delete_word}
use mimic_rag.Catalog.Latest.{occurs}
use mimic_rag.Text.{same_text, eq_of_same_text}
use mimic_rag.Catalog.Log.{Log}
use mimic_rag.Prelude.{
  ℕ, ◌<◌, ◌≡◌, refl, sym, ap, ◌∙◌, inl, inr, Bool, true, false, not, ◌||◌, Option, none, some, List,
  [], ◌∷◌, arith, Bool-cases, length,
}

abbrev pub or_empty : Option (List ℕ) → List ℕ
or_empty none = []
or_empty (some text) = text

module _ (c : Codec) where
  -- A record that Inspect and Compact do not throw on.
  pub record Named (r : CatalogRecord c) : Type 0 where
    pub id : List ℕ
    pub operation : List ℕ
    pub has_id : c.document_id r.document ≡ some id
    pub nonempty : 0 < length id
    pub has_operation : c.operation r.document ≡ some operation

  abbrev pub id_of : CatalogRecord c → List ℕ
  id_of r = or_empty (c.document_id r.document)

  abbrev pub is_deleted : CatalogRecord c → Bool
  is_deleted r = same_text (or_empty (c.operation r.document)) delete_word

  -- The records of a log with their ids.
  unfoldable pub keyed : Log c → List (List ℕ × CatalogRecord c)
  keyed [] = []
  keyed ((r, s) ∷ log) = (id_of r, r) ∷ keyed log

  abbrev pub AllNamed : Log c → Type 0
  AllNamed [] = Unit {0}
  AllNamed ((r, s) ∷ log) = Named r × AllNamed log

  abbrev pub keep_unless {ℓ} : {A : Type ℓ} → Bool → Bool → A → List A → List A
  keep_unless true deleted a rest = rest
  keep_unless false true a rest = rest
  keep_unless false false a rest = a ∷ rest

  -- What is kept: no later record has the id, and the record is no deletion.
  unfoldable pub live : Log c → Log c
  live [] = []
  live ((r, s) ∷ log) = keep_unless (occurs (id_of r) (keyed log)) (is_deleted r) (r, s) (live log)

  abbrev newer : Option (CatalogRecord c) → Bool → CatalogRecord c → Option (CatalogRecord c)
  newer (some q) same r = some q
  newer none true r = some r
  newer none false r = none

  -- What a log says of a document: its latest record, unless that deletes it.
  unfoldable pub latest : List ℕ → Log c → Option (CatalogRecord c)
  latest id [] = none
  latest id ((r, s) ∷ log) = newer (latest id log) (same_text (id_of r) id) r

  abbrev drop_if : Bool → CatalogRecord c → Option (CatalogRecord c)
  drop_if true r = none
  drop_if false r = some r

  abbrev pub unless_deleted : Option (CatalogRecord c) → Option (CatalogRecord c)
  unless_deleted none = none
  unless_deleted (some r) = drop_if (is_deleted r) r

  abbrev pub view : List ℕ → Log c → Option (CatalogRecord c)
  view id log = unless_deleted (latest id log)

  abbrev is_some : Option (CatalogRecord c) → Bool
  is_some none = false
  is_some (some r) = true

  latest-occurs : (id : List ℕ) (log : Log c) → is_some (latest id log) ≡ occurs id (keyed log)
  unfolding latest keyed occurs
  latest-occurs id [] = refl
  latest-occurs id ((r, s) ∷ log) =
      is_some-newer (latest id log) (same_text (id_of r) id) r
      ∙ ap (λ t. same_text (id_of r) id || t) (latest-occurs id log)
    where
      is_some-newer :
          (o : Option (CatalogRecord c)) (same : Bool) (r : CatalogRecord c)
          → is_some (newer o same r) ≡ (same || is_some o)
      is_some-newer (some q) same r = ground arith
      is_some-newer none true r = refl
      is_some-newer none false r = refl

  -- What occurs behind a record decides between them.
  latest_behind :
      (id : List ℕ) (r : CatalogRecord c) (log : Log c) (o : Option (CatalogRecord c))
      → latest id log ≡ o
      → occurs (id_of r) (keyed log) ≡ not (is_some o)
      → same_text (id_of r) id ≡ false
  latest_behind id r log o e h = elim (Bool-cases (same_text (id_of r) id)) [
    | inr other ↦ other
    | inl same ↦
        let there : is_some o ≡ not (is_some o) =
          ap is_some (sym e)
          ∙ latest-occurs id log
          ∙ ap (λ q. occurs q (keyed log)) (sym (eq_of_same_text (id_of r) id same))
          ∙ h in
        absurd (flip (is_some o) there)
  ]
    where
      flip : (b : Bool) → b ≡ not b → ⊥
      flip true e = cc
      flip false e = cc

  latest-live : (id : List ℕ) (log : Log c) → latest id (live log) ≡ view id log
  unfolding live latest
  latest-live id [] = refl
  latest-live id ((r, s) ∷ log) =
      at (occurs (id_of r) (keyed log)) (is_deleted r) (latest-live id log) refl refl
    where
      same : Bool
      same = same_text (id_of r) id

      hidden :
          (o : Option (CatalogRecord c))
          → latest id log ≡ o
          → occurs (id_of r) (keyed log) ≡ true
          → unless_deleted o ≡ unless_deleted (newer o same r)
      hidden (some q) e h = refl
      hidden none e h =
          ap (λ b. unless_deleted (newer none b r)) (sym (latest_behind id r log none e h))

      gone :
          (o : Option (CatalogRecord c)) (b : Bool)
          → is_deleted r ≡ true
          → unless_deleted o ≡ unless_deleted (newer o b r)
      gone (some q) b h = refl
      gone none true h = ap (λ t. drop_if t r) (sym h)
      gone none false h = refl

      newer_false : (o : Option (CatalogRecord c)) → newer o false r ≡ o
      newer_false none = refl
      newer_false (some q) = refl

      on_top : (b : Bool) → is_deleted r ≡ false → newer none b r ≡ unless_deleted (newer none b r)
      on_top true h = ap (λ t. drop_if t r) (sym h)
      on_top false h = refl

      kept :
          (o : Option (CatalogRecord c))
          → latest id log ≡ o
          → occurs (id_of r) (keyed log) ≡ false
          → is_deleted r ≡ false
          → newer (unless_deleted o) same r ≡ unless_deleted (newer o same r)
      kept (some q) e h k =
          ap (λ b. newer (unless_deleted (some q)) b r) (latest_behind id r log (some q) e h)
          ∙ newer_false (unless_deleted (some q))
      kept none e h k = on_top same k

      at :
          (later deleted : Bool)
          → latest id (live log) ≡ view id log
          → occurs (id_of r) (keyed log) ≡ later
          → is_deleted r ≡ deleted
          → latest id (keep_unless later deleted (r, s) (live log))
            ≡ unless_deleted (newer (latest id log) same r)
      at true deleted ih h k = ih ∙ hidden (latest id log) refl h
      at false true ih h k = ih ∙ gone (latest id log) same k
      at false false ih h k = ap (λ o. newer o same r) ih ∙ kept (latest id log) refl h k

  -- Compacting a log keeps what it says of every document, and leaves no deletion behind.
  pub view-live :
      (id : List ℕ) (log : Log c)
      → (view id (live log) ≡ view id log) × (latest id (live log) ≡ view id log)
  view-live id log =
      (ap unless_deleted (latest-live id log) ∙ twice (latest id log), latest-live id log)
    where
      twice : (o : Option (CatalogRecord c)) → unless_deleted (unless_deleted o) ≡ unless_deleted o
      twice none = refl
      twice (some r) = again (is_deleted r) refl
        where
          again : (b : Bool) → is_deleted r ≡ b → unless_deleted (drop_if b r) ≡ drop_if b r
          again true h = refl
          again false h = ap (λ t. drop_if t r) h
