-- ===== src/Catalog/Compact/Written.antt =====
-- rag_cpp/src/catalog.cpp: Compact of a catalog file leaves the file of its live records.
use mimic_rag.Catalog.{append, initialized, Codec, CatalogRecord}
use mimic_rag.Catalog.Compact.{
  delete_word, write_retained, written, unless_delete, CatalogError, Gathered, gather, noted,
  compact_consume,
}
use mimic_rag.Catalog.Latest.{
  lookup, occurs, newest, last_index, cleared, length-newest, newest-append, last_index-append,
}
use mimic_rag.Text.{same_text}
use mimic_rag.Catalog.Log.{append-initialized, initialized-file_of, file_of, Log, records_of}
use mimic_rag.Catalog.Log.Recovery.{hand_out}
use mimic_rag.Catalog.Replay.{Replayed, failed}
use mimic_rag.Catalog.Stored.{Storable}
use mimic_rag.Prelude.{
  ℕ, suc, ◌+◌, ◌≡◌, refl, sym, ap, ap₂, ◌∙◌, Bool, true, false, Option, none, some, List, [], ◌∷◌,
  ◌++◌, arith, ◌==◌, if◌then◌else◌, length, append-nil, append_assoc,
}
use mimic_rag.Catalog.Compact.Live.{or_empty, id_of, is_deleted, keyed, AllNamed, keep_unless, live}

module _ (c : Codec) where
  pub length-keyed : (log : Log c) → length (keyed c log) ≡ length log
  unfolding keyed
  length-keyed [] = refl
  length-keyed ((r, s) ∷ log) = ap suc (length-keyed log)

  keyed-append :
      (log : Log c) (r : CatalogRecord c) (s : Storable c r)
      → keyed c (log ++ (r, s) ∷ []) ≡ keyed c log ++ (id_of c r, r) ∷ []
  unfolding keyed
  keyed-append [] r s = refl
  keyed-append ((q, t) ∷ log) r s = ap (λ l. (id_of c q, q) ∷ l) (keyed-append log r s)

  module _ (end : Gathered c → ℕ → Replayed (Gathered c)) where
    -- The consumer of Compact, behind the records of a first part of the log.
    pub gathered :
        (before log : Log c) (entries : List (List ℕ × ℕ)) (n : ℕ)
        → AllNamed c log
        → ((q : List ℕ) → lookup q entries ≡ last_index q (keyed c before))
        → (after : List (List ℕ × ℕ)) × (hand_out c
              (compact_consume c)
              (records_of c log)
              end
              (newest (keyed c before), entries)
              n
            ≡ end (newest (keyed c (before ++ log)), after) (n + length log))
    unfolding records_of hand_out
    gathered before [] entries n named same = (
      entries,
      ap₂ (λ l m. end (newest (keyed c l), entries) m) (sym (append-nil before)) (omega arith),
    )
    gathered before ((r, s) ∷ log) entries n (named, rest) same =
        let (after, e) =
          gathered (before ++ (r, s) ∷ []) log ((named.id, length marks) ∷ entries) (n + 1) rest
            found in
        (
          after,
          ap
                (λ o. elim o [
                  | none ↦ failed (marks, entries) CatalogError.consumer_threw
                  | some g ↦ hand_out c (compact_consume c) (records_of c log) end g (n + 1)
                ])
                taken
              ∙ ap
                  (λ m.
                    hand_out c (compact_consume c) (records_of c log) end
                      (m, (named.id, length marks) ∷ entries) (n + 1))
                  marked
              ∙ e
              ∙ ap₂ (λ l m. end (newest (keyed c l), after) m)
                  (append_assoc before ((r, s) ∷ []) log) (omega arith),
        )
      where
        marks : List (Option (CatalogRecord c))
        marks = newest (keyed c before)

        named_id : id_of c r ≡ named.id
        named_id = ap (λ o. elim o [ none ↦ [] | some id ↦ id ]) named.has_id

        taken :
            compact_consume c r (marks, entries)
            ≡ some (
              cleared (lookup named.id entries) marks ++ some r ∷ [],
              (named.id, length marks) ∷ entries,
            )
        taken =
            unfold compact_consume in
            let present : (length named.id == 0) ≡ false = ground (arith, named.nonempty) in
            (ap (gather c r (marks, entries)) named.has_id
              ∙ ap (λ t. if t then none else some (noted c named.id r (marks, entries))) present)

        marked :
            cleared (lookup named.id entries) marks ++ some r ∷ []
            ≡ newest (keyed c (before ++ (r, s) ∷ []))
        marked =
            ap (λ o. cleared o marks ++ some r ∷ []) (same named.id)
            ∙ sym (newest-append named.id r (keyed c before))
            ∙ ap (λ k. newest (keyed c before ++ (k, r) ∷ [])) (sym named_id)
            ∙ ap newest (sym (keyed-append before r s))

        found :
            (q : List ℕ)
            → lookup q ((named.id, length marks) ∷ entries)
              ≡ last_index q (keyed c (before ++ (r, s) ∷ []))
        found q =
            unfold lookup in
            (ap₂ (λ m o. if same_text named.id q then some m else o)
                (length-newest (keyed c before)) (same q)
              ∙ sym (last_index-append q named.id r (keyed c before))
              ∙ ap (λ k. last_index q (keyed c before ++ (k, r) ∷ [])) (sym named_id)
              ∙ ap (last_index q) (sym (keyed-append before r s)))

  -- What the loop of appends writes behind the file of a log.
  pub write_retained-live :
      (log done_log : Log c) (file : Option (List ℕ)) (n : ℕ)
      → AllNamed c log
      → initialized file ≡ file_of c done_log
      → (out : Option (List ℕ)) × (write_retained c (newest (keyed c log)) file n
          ≡ some (out, n + length (live c log)))
        × (initialized out ≡ file_of c (done_log ++ live c log))
  unfolding write_retained newest keyed live
  write_retained-live [] done_log file n named e =
      (file, ap (λ m. some (file, m)) (omega arith), e ∙ ap (file_of c) (sym (append-nil done_log)))
  write_retained-live ((r, s) ∷ log) done_log file n (named, rest) e =
      at (occurs (id_of c r) (keyed c log)) (is_deleted c r) refl
        (write_retained-live log done_log file n rest e)
        (write_retained-live log (done_log ++ (r, s) ∷ [])
          (some (file_of c (done_log ++ (r, s) ∷ []))) (n + 1) rest
          (initialized-file_of c (done_log ++ (r, s) ∷ [])))
    where
      marks : List (Option (CatalogRecord c))
      marks = newest (keyed c log)

      Written : List (Option (CatalogRecord c)) → Log c → Option (List ℕ) → ℕ → Log c → Type 0
      Written ms l f k acc =
          (out : Option (List ℕ)) × (write_retained c ms f k ≡ some (out, k + length l))
          × (initialized out ≡ file_of c (acc ++ l))

      skipped : Option (Option (List ℕ) × ℕ)
      skipped = write_retained c marks file n

      kept : Option (Option (List ℕ) × ℕ)
      kept = written c (append c file r) (λ grown. write_retained c marks (some grown) (n + 1))

      chosen : Bool → Option (Option (List ℕ) × ℕ)
      chosen deleted = if deleted then skipped else kept

      one : write_retained c (some r ∷ marks) file n ≡ chosen (is_deleted c r)
      one =
          ap (λ o. unless_delete c o skipped kept) named.has_operation
          ∙ sym (ap (λ o. chosen (same_text (or_empty o) delete_word)) named.has_operation)

      grown : append c file r ≡ (file_of c (done_log ++ (r, s) ∷ []), none)
      grown = append-initialized c file done_log r s e

      at :
          (later deleted : Bool)
          → is_deleted c r ≡ deleted
          → Written marks (live c log) file n done_log
          → Written marks
              (live c log)
              (some (file_of c (done_log ++ (r, s) ∷ [])))
              (n + 1)
              (done_log ++ (r, s) ∷ [])
          → Written
              ((if later then none else some r) ∷ marks)
              (keep_unless c later deleted (r, s) (live c log))
              file
              n
              done_log
      at true deleted h skip more = skip
      at false true h (out, w, i) more = (out, one ∙ ap chosen h ∙ w, i)
      at false false h skip (out, w, i) = (
        out,
        one
            ∙ ap chosen h
            ∙ ap (λ g. written c g (λ f. write_retained c marks (some f) (n + 1))) grown
            ∙ w
            ∙ ap (λ m. some (out, m)) (omega arith),
        i ∙ ap (file_of c) (append_assoc done_log ((r, s) ∷ []) (live c log)),
      )
