-- ===== src/FieldVector/Offsets.antt =====
-- engine/src/field_vector.cpp: the table of offsets of a column of byte runs, and its cache.
use mimic_rag.Dictionary.{u32}
use mimic_rag.FieldVector.{FieldType, FieldVector, is_varlen, resize_rows, resize_storage}
use mimic_rag.FieldVector.Varlen.{offsets_from, offsets_on, with_offsets, start_of}
use mimic_rag.Prelude.{
  ℕ, zero, suc, ◌+◌, ◌≤◌, ◌<◌, ◌≡◌, refl, sym, ap, ap₂, subst, ◌∙◌, true, false, Option, none, some,
  List, [], ◌∷◌, arith, leb, ◌==◌, if◌then◌else◌, length, get_or, resize, length-resize,
}

get_or-offsets_from :
    (offset : ℕ) (lengths : List ℕ) (i : ℕ)
    → i < length lengths
    → get_or (offsets_from offset lengths) i 0 ≡ u32 (offset + start_of lengths (suc i))
unfolding offsets_from start_of
get_or-offsets_from offset [] i h = absurd (omega arith)
get_or-offsets_from offset (len ∷ lengths) zero h = omega arith
get_or-offsets_from offset (len ∷ lengths) (suc i) h =
    omega (arith, get_or-offsets_from (u32 (offset + len)) lengths i (omega arith))

get_or-offsets :
    (lengths : List ℕ) (i : ℕ)
    → i ≤ length lengths
    → get_or (0 ∷ offsets_from 0 lengths) i 0 ≡ u32 (start_of lengths i)
unfolding start_of
get_or-offsets lengths zero h = refl
get_or-offsets lengths (suc i) h =
    get_or-offsets_from 0 lengths i (omega arith)
    ∙ ap u32 (let e : 0 + start_of lengths (suc i) ≡ start_of lengths (suc i) = omega arith in e)

length-offsets_from :
    (offset : ℕ) (lengths : List ℕ) → length (offsets_from offset lengths) ≡ length lengths
unfolding offsets_from
length-offsets_from offset [] = refl
length-offsets_from offset (len ∷ lengths) =
    ap suc (length-offsets_from (u32 (offset + len)) lengths)

-- On a column of byte runs whose cache is not valid, DataOffsets returns a table with one entry more
-- than there are lengths: entry i is the sum of the first i lengths modulo 2 ^ 32. It keeps the
-- table as a valid cache, so that a second call returns the same.
pub with_offsets_lem :
    (f : FieldVector) (i : ℕ)
    → is_varlen f.type ≡ true
    → f.offsets_valid ≡ false
    → i ≤ length f.data_lengths
    → let f' = (with_offsets f).0 in
      ((with_offsets f).1 ≡ some f'.data_offsets)
      × (with_offsets f' ≡ with_offsets f)
      × (length f'.data_offsets ≡ length f.data_lengths + 1)
      × (get_or f'.data_offsets i 0 ≡ u32 (start_of f.data_lengths i))
with_offsets_lem f i varlen invalid h = subst Table (sym filled) (
  refl,
  again,
  omega (arith, length-offsets_from 0 f.data_lengths),
  get_or-offsets f.data_lengths i h,
)
  where
    table : List ℕ
    table = 0 ∷ offsets_from 0 f.data_lengths

    filled_field : FieldVector
    filled_field = record f { data_offsets = table; offsets_valid = true }

    Table : FieldVector × Option (List ℕ) → Type 0
    Table r =
        (r.1 ≡ some r.0.data_offsets)
        × (with_offsets r.0 ≡ r)
        × (length r.0.data_offsets ≡ length f.data_lengths + 1)
        × (get_or r.0.data_offsets i 0 ≡ u32 (start_of f.data_lengths i))

    filled : with_offsets f ≡ (filled_field, some table)
    filled = unfold with_offsets in ap₂ (offsets_on f) varlen invalid

    again : with_offsets filled_field ≡ (filled_field, some table)
    again =
        let some_entry : (length table == 0) ≡ false = ground arith in
        unfold with_offsets in
        (ap (λ v. offsets_on filled_field v true) varlen
          ∙ ap (λ t. (filled_field, (if t then none else some table))) some_entry)

clash : false ≡ true → ⊥
clash e = cc

varlen_lengths :
    (f : FieldVector) (n : ℕ) (t : FieldType)
    → is_varlen t ≡ true
    → resize_storage f n t ≡ record f { data_lengths = resize n 0 f.data_lengths }
unfolding resize_storage
varlen_lengths f n FieldType.string e = refl
varlen_lengths f n FieldType.bytes e = refl
varlen_lengths f n FieldType.array e = refl
varlen_lengths f n FieldType.vector_float32 e = refl
varlen_lengths f n FieldType.int32 e = absurd (clash e)
varlen_lengths f n FieldType.int64 e = absurd (clash e)
varlen_lengths f n FieldType.float64 e = absurd (clash e)
varlen_lengths f n FieldType.bool e = absurd (clash e)
varlen_lengths f n FieldType.dict_int32 e = absurd (clash e)
varlen_lengths f n FieldType.object e = absurd (clash e)

cached :
    (f : FieldVector)
    → is_varlen f.type ≡ true
    → f.offsets_valid ≡ true
    → 0 < length f.data_offsets
    → (with_offsets f).1 ≡ some f.data_offsets
unfolding with_offsets
cached f varlen valid pos =
    let entries : (length f.data_offsets == 0) ≡ false = ground arith in
    ap₂ (λ a b. (offsets_on f a b).1) varlen valid
    ∙ ap (λ t. if t then none else some f.data_offsets) entries

-- Resize of a column of byte runs adds lengths and leaves a valid cache valid: DataOffsets then
-- returns the table of the old rows, which has no entry for the end of the last row.
pub resize_rows-keeps_offsets :
    (f : FieldVector) (more : ℕ)
    → is_varlen f.type ≡ true
    → f.offsets_valid ≡ true
    → length f.data_offsets ≡ f.size + 1
    → 0 < more
    → (length (resize_rows f (f.size + more)).data_lengths ≡ f.size + more)
      × ((with_offsets (resize_rows f (f.size + more))).1 ≡ some f.data_offsets)
unfolding resize_rows
resize_rows-keeps_offsets f more varlen valid table pos =
    let grows : leb (f.size + more) f.size ≡ false = ground arith in
    rw (grows, varlen_lengths f (f.size + more) f.type varlen)
      (length-resize (f.size + more) 0 f.data_lengths, cached _ varlen valid (omega arith))
