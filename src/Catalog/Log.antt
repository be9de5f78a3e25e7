-- ===== src/Catalog/Log.antt =====
-- rag_cpp/src/catalog.cpp: a catalog file stands for the list of the records that were appended.
-- Append adds one at the end.
pub mod Recovery
use mimic_rag.Bytes.{le_bytes, length-le_bytes}
use mimic_rag.Catalog.{
  Codec, CatalogRecord, file_magic, file_header, header_bytes_of, record_bytes, exists, initialized,
  append, added,
}
use mimic_rag.Catalog.Replay.{
  read_file_header, read_record, Replayed, done, failed, replay_loop, replay_loop-suc, after_header,
  replay,
}
use mimic_rag.Catalog.Stored.{Storable}
use mimic_rag.Catalog.Stored.Record.{
  stored_bytes, bytes_under, content_hash, encode_record-Storable, Takes-read_record,
  Rejects-read_record,
}
use mimic_rag.Catalog.Stream.{
  CatalogError, got, short, bad, Takes, Takes-bind, Takes-last, Takes-require, Takes-read_block,
  Takes-read_int,
}
use mimic_rag.Prelude.{
  ℕ, zero, suc, ◌+◌, ◌-◌, ◌^◌, ◌≤◌, ◌<◌, ◌≡◌, refl, sym, ap, ap₂, ◌∙◌, ◌≢◌, inl, inr, true, Option,
  none, some, List, [], ◌∷◌, ◌++◌, arith, leb, le→leb, Option-cases, length, take, length-append,
  length-take, take-append, append-nil, append_assoc, false,
}

pub Takes-read_file_header : Takes read_file_header file_header tt
unfolding read_file_header file_header
Takes-read_file_header =
    Takes-bind _ _ file_magic _ file_magic tt (Takes-read_block 8 file_magic refl) (
      Takes-bind _ _ (le_bytes 4 1) _ 1 tt (Takes-read_int 4 1 (omega arith)) (
        Takes-last _ _ (le_bytes 4 0) 0 tt (Takes-read_int 4 0 (omega arith))
          (Takes-require _ CatalogError.invalid_header refl)))

pub length-file_header : length file_header ≡ 16
unfolding file_header
length-file_header = omega (
  arith,
  length-append file_magic (le_bytes 4 1 ++ le_bytes 4 0),
  length-append (le_bytes 4 1) (le_bytes 4 0),
  length-le_bytes 4 1,
  length-le_bytes 4 0,
)

module _ (c : Codec) where
  -- The abstract catalog: records that can be stored, in the order of their appends.
  abbrev pub Log : Type 0
  Log = List ((r : CatalogRecord c) × Storable c r)

  unfoldable pub records_of : Log → List (CatalogRecord c)
  records_of [] = []
  records_of ((r, s) ∷ log) = r ∷ records_of log

  unfoldable pub body_of : Log → List ℕ
  body_of [] = []
  body_of ((r, s) ∷ log) = stored_bytes c r s ++ body_of log

  -- The file that stands for a log.
  abbrev pub file_of : Log → List ℕ
  file_of log = file_header ++ body_of log

  body_of-append :
      (log : Log) (r : CatalogRecord c) (s : Storable c r)
      → body_of (log ++ (r, s) ∷ []) ≡ body_of log ++ stored_bytes c r s
  unfolding body_of
  body_of-append [] r s = append-nil (stored_bytes c r s)
  body_of-append ((q, t) ∷ log) r s =
      ap (λ l. stored_bytes c q t ++ l) (body_of-append log r s)
      ∙ sym (append_assoc (stored_bytes c q t) (body_of log) (stored_bytes c r s))

  pub stored_bytes-nonempty :
      (r : CatalogRecord c) (s : Storable c r) (hash : ℕ) → 0 < length (bytes_under c r s hash)
  unfolding record_bytes header_bytes_of le_bytes
  stored_bytes-nonempty r s hash = omega arith

  pub long_enough : (log : Log) (tail : List ℕ) → exists (some (file_of log ++ tail)) ≡ true
  unfolding exists
  long_enough log tail = le→leb 16 (length (file_of log ++ tail)) (
      omega (
        arith,
        length-file_header,
        length-append (file_of log) tail,
        length-append file_header (body_of log),
      ))

  pub initialized-file_of : (log : Log) → initialized (some (file_of log)) ≡ file_of log
  unfolding initialized
  initialized-file_of log =
      let long : leb 16 (length (file_of log)) ≡ true =
        le→leb 16 (length (file_of log))
          (omega (arith, length-file_header, length-append file_header (body_of log))) in
      rw long refl

  -- Behind whatever Append writes the record.
  pub append-initialized :
      (file : Option (List ℕ)) (log : Log) (r : CatalogRecord c) (s : Storable c r)
      → initialized file ≡ file_of log
      → append c file r ≡ (file_of (log ++ (r, s) ∷ []), none)
  unfolding append
  append-initialized file log r s e =
      ap₂ (λ f o. added c f o) e (encode_record-Storable c r s)
      ∙ ap (λ bytes. (bytes, none))
          (append_assoc file_header (body_of log) (stored_bytes c r s)
            ∙ ap (λ l. file_header ++ l) (sym (body_of-append log r s)))

  -- Append of a record that can be stored to a file that stands for a log gives the file that stands
  -- for the log with the record at its end; where there is no file, or one that is too short for a
  -- header, it starts a log.
  pub append-Log :
      (log : Log) (r : CatalogRecord c) (s : Storable c r) (stub : List ℕ)
      → length stub < 16
      → (append c (some (file_of log)) r ≡ (file_of (log ++ (r, s) ∷ []), none))
        × (append c none r ≡ (file_of ((r, s) ∷ []), none))
        × (append c (some stub) r ≡ (file_of ((r, s) ∷ []), none))
  append-Log log r s stub h = (
    append-initialized (some (file_of log)) log r s (initialized-file_of log),
    append-initialized none [] r s fresh,
    append-initialized (some stub) [] r s anew,
  )
    where
      fresh : initialized none ≡ file_of []
      fresh = unfold initialized body_of in sym (append-nil file_header)

      anew : initialized (some stub) ≡ file_of []
      anew =
          let few : leb 16 (length stub) ≡ false = ground arith in
          unfold initialized body_of in rw few (sym (append-nil file_header))
