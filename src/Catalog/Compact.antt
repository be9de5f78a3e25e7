-- ===== src/Catalog/Compact.antt =====
-- rag_cpp/src/catalog.cpp: Inspect and Compact. The temporary file is a value, and the renames that
-- put it in place of the catalog are taken to succeed.
pub mod Live
pub mod Written
pub mod Output
use mimic_rag.Catalog.{Codec, CatalogRecord, AppendError, exists, initialized, append}
use mimic_rag.Catalog.Latest.{lookup, cleared}
use mimic_rag.Text.{same_text}
use mimic_rag.Catalog.Replay.{Replayed, done, failed, replay}
use mimic_rag.Catalog.Stream.{CatalogError}
use mimic_rag.Prelude.{
  ℕ, zero, suc, ◌+◌, ◌-◌, ◌*◌, ◌/◌, ◌%◌, ◌^◌, ◌≤◌, ◌<◌, min, max, bit_and, bit_or, bit_xor, ◌≡◌,
  refl, sym, ap, ap₂, subst, ◌∙◌, ◌≢◌, ◌↔◌, ◌⊎◌, inl, inr, Bool, true, false, not, ◌&&◌, ◌||◌,
  Option, none, some, List, [], ◌∷◌, ◌++◌, map, arith, dec_lt, ℕ_discrete, ltb, leb, ◌==◌,
  if◌then◌else◌, lt→ltb, le→ltb, le→leb, and-parts, and-true, ==_refl, ==_iff, Bool-cases,
  Option-cases, length, get_or, get_elem?, count, count-append, count_single, set, take, drop,
  replicate, resize, All, length-append, length-replicate, length-set, length-take, length-drop,
  length-resize, take-append-drop, get_or-set_self, get_or-set_ne, get_or-replicate,
  get_or-ge_length, get_or-resize, get_or_ext, get_or-append_left, get_or-append_right, length-map,
  for_below, for_below_inv, for_below-add, unrolled, unrolled-for_below, fill_if, length-fill_if,
  get_or-fill_if, rank, passing, length-passing, count-passing, fill, length-fill, get_or-fill,
  take-append, drop-append, append-nil, append_assoc,
}

-- The text "delete".
abbrev pub delete_word : List ℕ
delete_word = 100 ∷ 101 ∷ 108 ∷ 101 ∷ 116 ∷ 101 ∷ []

-- live[id] = value
unfoldable pub assign : List ℕ → Bool → List (List ℕ × Bool) → List (List ℕ × Bool)
assign id value [] = (id, value) ∷ []
assign id value ((k, v) ∷ entries) =
    let rest = assign id value entries in
    if same_text k id then (k, value) ∷ entries else (k, v) ∷ rest

unfoldable pub count_live : List (List ℕ × Bool) → ℕ
count_live [] = 0
count_live ((k, v) ∷ entries) = (if v then 1 else 0) + count_live entries

pub record Tally : Type 0 where
  pub live : List (List ℕ × Bool)
  pub documents : ℕ
  pub tombstones : ℕ

pub record Inspection : Type 0 where
  pub bytes : ℕ
  pub records : ℕ
  pub document_versions : ℕ
  pub tombstones : ℕ
  pub live_documents : ℕ

pub data Inspected : Type 0 where
  inspected : Inspection → Option (List ℕ) → Inspected
  inspect_failed : CatalogError → Inspected

pub record CompactReport : Type 0 where
  pub records_before : ℕ
  pub records_after : ℕ
  pub bytes_before : ℕ
  pub bytes_after : ℕ
  pub reclaimed_bytes : ℕ

pub data CompactResult : Type 0 where
  not_found : CompactResult
  compacted : CompactReport → List ℕ → CompactResult
  replay_failed : CatalogError → CompactResult
  -- An exception of an append, or of a document whose operation is no text.
  write_failed : CompactResult

-- file_size, of a file that exists.
abbrev pub size_if_exists : Option (List ℕ) → ℕ
size_if_exists none = 0
size_if_exists (some file) = if exists (some file) then length file else 0

module _ (c : Codec) where
  abbrev pub tallied : Tally → List ℕ → List ℕ → Tally
  tallied t id operation =
      if same_text operation delete_word
      then record {
        live = assign id false t.live;
        documents = t.documents;
        tombstones = t.tombstones + 1;
      }
      else record {
        live = assign id true t.live;
        documents = t.documents + 1;
        tombstones = t.tombstones;
      }

  tally_named : Tally → List ℕ → Option (List ℕ) → Option Tally
  tally_named t id none = none
  tally_named t id (some operation) = if length id == 0 then none else some (tallied t id operation)

  tally_of : Tally → Option (List ℕ) → Option (List ℕ) → Option Tally
  unfolding tally_named
  tally_of t none operation = none
  tally_of t (some id) operation = tally_named t id operation

  -- The consumer of Inspect.
  unfoldable pub inspect_consume : CatalogRecord c → Tally → Option Tally
  unfolding tally_of
  inspect_consume r t = tally_of t (c.document_id r.document) (c.operation r.document)

  abbrev pub no_tally : Tally
  no_tally = record { live = []; documents = 0; tombstones = 0 }

  abbrev pub reported : ℕ → Replayed Tally → Inspected
  reported bytes (done t n file) =
      inspected
        (record {
          bytes = bytes;
          records = n;
          document_versions = t.documents;
          tombstones = t.tombstones;
          live_documents = count_live t.live;
        })
        file
  reported bytes (failed t e) = inspect_failed e

  unfoldable pub inspect : Option (List ℕ) → Inspected
  inspect file = reported (size_if_exists file) (replay c inspect_consume file no_tally)

  -- `records`, with nullptr for a superseded document, and `latest`.
  abbrev pub Gathered : Type 0
  Gathered = List (Option (CatalogRecord c)) × List (List ℕ × ℕ)

  abbrev pub noted : List ℕ → CatalogRecord c → Gathered → Gathered
  noted id r (marks, latest) =
      (cleared (lookup id latest) marks ++ some r ∷ [], (id, length marks) ∷ latest)

  abbrev pub gather : CatalogRecord c → Gathered → Option (List ℕ) → Option Gathered
  gather r g none = none
  gather r g (some id) = if length id == 0 then none else some (noted id r g)

  -- The consumer of Compact.
  unfoldable pub compact_consume : CatalogRecord c → Gathered → Option Gathered
  compact_consume r g = gather r g (c.document_id r.document)

  -- One append to the temporary file: on to the rest, unless it throws.
  abbrev pub written {ℓ} :
      {A : Type ℓ} → List ℕ × Option AppendError → (List ℕ → Option A) → Option A
  written (file, none) k = k file
  written (file, some e) k = none

  -- A record whose operation is "delete" is skipped; none where the operation is no text.
  abbrev pub unless_delete {ℓ} : {A : Type ℓ} → Option (List ℕ) → Option A → Option A → Option A
  unless_delete none skipped kept = none
  unless_delete (some operation) skipped kept =
      if same_text operation delete_word then skipped else kept

  -- The loop that writes what is retained: the file, where it has been begun, and the count.
  unfoldable pub write_retained :
      List (Option (CatalogRecord c)) → Option (List ℕ) → ℕ → Option (Option (List ℕ) × ℕ)
  write_retained [] file n = some (file, n)
  write_retained (none ∷ marks) file n = write_retained marks file n
  write_retained (some r ∷ marks) file n =
      let skipped = write_retained marks file n in
      let kept : Option (Option (List ℕ) × ℕ) =
        written (append c file r) (λ grown. write_retained marks (some grown) (n + 1)) in
      unless_delete (c.operation r.document) skipped kept

  abbrev pub report_of : ℕ → ℕ → ℕ → List ℕ → CompactReport
  report_of before all retained file = record {
    records_before = all;
    records_after = retained;
    bytes_before = before;
    bytes_after = length file;
    reclaimed_bytes = before - length file;
  }

  -- The validation of the new file, and the switch to it.
  abbrev pub switched : ℕ → ℕ → ℕ → Inspected → CompactResult
  switched before all retained (inspected i (some file)) =
      compacted (report_of before all retained file) file
  switched before all retained (inspected i none) = write_failed
  switched before all retained (inspect_failed e) = replay_failed e

  abbrev pub output : ℕ → ℕ → Option (Option (List ℕ) × ℕ) → CompactResult
  output before all none = write_failed
  output before all (some (file, retained)) =
      switched before all retained (inspect (some (initialized file)))

  abbrev pub compacted_from : ℕ → Replayed Gathered → CompactResult
  compacted_from before (failed g e) = replay_failed e
  compacted_from before (done (marks, latest) n file) =
      output before (length marks) (write_retained marks none 0)

  unfoldable pub compact : Option (List ℕ) → CompactResult
  compact file =
      if exists file
      then compacted_from (size_if_exists file) (replay c compact_consume file ([], []))
      else not_found
