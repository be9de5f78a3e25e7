-- ===== src/Catalog/Compact/Output.antt =====
-- rag_cpp/src/catalog.cpp: Compact as a whole, with the inspection of the new file before the switch.
use mimic_rag.Catalog.{Codec, CatalogRecord, exists, initialized, file_header}
use mimic_rag.Catalog.Compact.{
  Tally, Inspection, inspected, compacted, size_if_exists, inspect_consume, no_tally, tallied,
  tally_of, tally_named, reported, inspect, compact_consume, report_of, switched, output,
  compacted_from, compact,
}
use mimic_rag.Catalog.Compact.Live.{
  latest, view, view-live, Named, is_deleted, id_of, keyed, AllNamed, keep_unless, live,
}
use mimic_rag.Catalog.Compact.Written.{length-keyed, gathered, write_retained-live}
use mimic_rag.Catalog.Latest.{occurs, lookup, last_index, newest, length-newest}
use mimic_rag.Catalog.Log.{Log, records_of, body_of, file_of, long_enough}
use mimic_rag.Catalog.Log.Recovery.{hand_out, replay-file_of}
use mimic_rag.Catalog.Replay.{Replayed, done, failed}
use mimic_rag.Catalog.Stream.{CatalogError}
use mimic_rag.Prelude.{
  ℕ, ◌+◌, ◌≡◌, refl, sym, ap, ap₂, ◌∙◌, Bool, true, false, none, some, List, [], ◌∷◌, arith, ◌==◌,
  if◌then◌else◌, length, append-nil,
}

module _ (c : Codec) where
  AllNamed-live : (log : Log c) → AllNamed c log → AllNamed c (live c log)
  unfolding live
  AllNamed-live [] named = tt
  AllNamed-live ((r, s) ∷ log) (named, rest) =
      kept (occurs (id_of c r) (keyed c log)) (is_deleted c r) (AllNamed-live log rest)
    where
      kept :
          (later deleted : Bool)
          → AllNamed c (live c log)
          → AllNamed c (keep_unless c later deleted (r, s) (live c log))
      kept true deleted all = all
      kept false true all = all
      kept false false all = (named, all)

  pub exists-file_of : (log : Log c) → exists (some (file_of c log)) ≡ true
  exists-file_of log =
      ap (λ f. exists (some f)) (sym (append-nil (file_of c log))) ∙ long_enough c log []

  -- Inspect throws on no record that is named.
  inspect_consume-Named :
      (r : CatalogRecord c) (t : Tally) (named : Named c r)
      → inspect_consume c r t ≡ some (tallied c t named.id named.operation)
  unfolding inspect_consume tally_of tally_named
  inspect_consume-Named r t named =
      let present : (length named.id == 0) ≡ false = ground (arith, named.nonempty) in
      ap₂ (tally_of c t) named.has_id named.has_operation
      ∙ ap (λ b. if b then none else some (tallied c t named.id named.operation)) present

  tally_all :
      (log : Log c) (end : Tally → ℕ → Replayed Tally) (t : Tally) (n : ℕ)
      → AllNamed c log
      → (after : Tally) × (hand_out c (inspect_consume c) (records_of c log) end t n
          ≡ end after (n + length log))
  unfolding records_of hand_out
  tally_all [] end t n named = (t, ap (end t) (omega arith))
  tally_all ((r, s) ∷ log) end t n (named, rest) =
      let (after, e) = tally_all log end (tallied c t named.id named.operation) (n + 1) rest in
      (
        after,
        ap
              (λ o. elim o [
                | none ↦ failed t CatalogError.consumer_threw
                | some u ↦ hand_out c (inspect_consume c) (records_of c log) end u (n + 1)
              ])
              (inspect_consume-Named r t named)
            ∙ e
            ∙ ap (end after) (omega arith),
      )

  -- Inspect of the file of a log reads it whole and leaves it.
  inspect-file_of :
      (log : Log c)
      → AllNamed c log
      → (i : Inspection) × (inspect c (some (file_of c log)) ≡ inspected i (some (file_of c log)))
  unfolding inspect
  inspect-file_of log named =
      let (after, e) =
        tally_all log (λ s n. done s n (some (file_of c log))) (no_tally c) 0 named in
      (
        _,
        ap (reported c (size_if_exists (some (file_of c log))))
            (replay-file_of c (inspect_consume c) log (no_tally c) ∙ e),
      )

  compact-file_of :
      (log : Log c)
      → AllNamed c log
      → compact c (some (file_of c log))
        ≡ compacted
            (report_of c
              (length (file_of c log))
              (length log)
              (length (live c log))
              (file_of c (live c log)))
            (file_of c (live c log))
  unfolding compact
  compact-file_of log named =
      let there : exists (some (file_of c log)) ≡ true = exists-file_of log in
      let (entries, e) =
        gathered c (λ s n. done s n (some (file_of c log))) [] log [] 0 named nothing in
      let (out, w, i) = write_retained-live c log [] none 0 named fresh in
      let (report, seen) = inspect-file_of (live c log) (AllNamed-live log named) in
      rw there (
        ap (compacted_from c (length (file_of c log)))
          (replay-file_of c (compact_consume c) log ([], []) ∙ start ∙ e)
        ∙ ap (output c (length (file_of c log)) (length (newest (keyed c log))))
            (w ∙ ap (λ m. some (out, m)) (omega arith))
        ∙ ap
            (λ f.
              switched c (length (file_of c log)) (length (newest (keyed c log)))
                (length (live c log)) (inspect c (some f)))
            i
        ∙ ap
            (switched c (length (file_of c log)) (length (newest (keyed c log)))
              (length (live c log)))
            seen
        ∙ ap
            (λ n.
              compacted
                (report_of c (length (file_of c log)) n (length (live c log))
                  (file_of c (live c log)))
                (file_of c (live c log)))
            (length-newest (keyed c log) ∙ length-keyed c log))
    where
      nothing : (q : List ℕ) → lookup q [] ≡ last_index q (keyed c [])
      nothing q = unfold lookup keyed last_index in refl

      fresh : initialized none ≡ file_of c []
      fresh = unfold initialized body_of in sym (append-nil file_header)

      start :
          hand_out c
            (compact_consume c)
            (records_of c log)
            (λ s n. done s n (some (file_of c log)))
            ([], [])
            0
          ≡ hand_out c
              (compact_consume c)
              (records_of c log)
              (λ s n. done s n (some (file_of c log)))
              (newest (keyed c []), [])
              0
      start = unfold newest keyed in refl

  -- Compact of the file of a log, on no record of which Inspect or Compact throws, puts in its place
  -- the file of the live records, with nothing else, and reports how many records and bytes there
  -- were and are; the live records say of every document what the log did, without a deletion.
  pub compact-Log :
      (log : Log c)
      → AllNamed c log
      → (compact c (some (file_of c log))
          ≡ compacted
              (report_of c
                (length (file_of c log))
                (length log)
                (length (live c log))
                (file_of c (live c log)))
              (file_of c (live c log)))
        × ((id : List ℕ)
            → (view c id (live c log) ≡ view c id log) × (latest c id (live c log) ≡ view c id log))
  compact-Log log named = (compact-file_of log named, λ id. view-live c id log)
