-- ===== src/FieldVector/Rows.antt =====
-- A column of fixed-width values stands for the list of its rows, each a value or a null: the
-- appends add rows at the end and move no other.
pub mod Append
pub mod Grow
pub mod Nulls
use mimic_rag.Bitmap
use mimic_rag.Bitmap.{Bitmap}
use mimic_rag.Dictionary
use mimic_rag.Dictionary.Laws
use mimic_rag.FieldVector.{
  grow_valid, leb, all_valid, null_length, is_varlen, append_null, resize_rows, length-resize,
  replicate, resize_storage, is_type, append_bool, sym, append_float64, append_int64, append_valid,
  resize, append_int32, FieldType, FieldVector, is_valid,
}
use mimic_rag.FieldVector.Batch.{
  batch_validity, append_batch_int32, append_batch_int64, append_batch_float64, append_batch_bool,
}
use mimic_rag.FieldVector.Validity.{
  grow_valid-Extends, append_null-Extends, append_valid-Extends, shown, Fits, Extends,
}
use mimic_rag.FieldVector.Validity.Batch.{batch_validity-Extends, batch_shown}
use mimic_rag.Prelude.{
  zero, suc, ℕ, ◌+◌, ◌<◌, ◌≡◌, refl, ap, ◌∙◌, Bool, Option, none, some, List, [], ◌++◌, arith,
  if◌then◌else◌, length, get_or, count, length-append, get_or-append_left, get_or-append_right, ◌∷◌,
  true, ◌==◌, false, ◌≤◌, ◌-◌, length-replicate, ◌^◌,
}

-- The array that holds the values of a type; a dictionary column is read through its ids.
abbrev pub plain_array : FieldVector → FieldType → List ℕ
plain_array f FieldType.int32 = f.data_i32
plain_array f FieldType.int64 = f.data_i64
plain_array f FieldType.float64 = f.data_f64
plain_array f FieldType.bool = f.data_bool
plain_array f _ = []

abbrev pub IsPlain : FieldType → Type 0
IsPlain FieldType.int32 = Unit {0}
IsPlain FieldType.int64 = Unit {0}
IsPlain FieldType.float64 = Unit {0}
IsPlain FieldType.bool = Unit {0}
IsPlain _ = ⊥

-- The row that readers see: the stored value, or `none` for a null.
unfoldable pub row : FieldVector → ℕ → Option ℕ
row f j = if is_valid f j then some (get_or (plain_array f f.type) j 0) else none

-- The invariant of a column of int32, int64, float64 or bool: as many values as rows, and no bitmap
-- or one with a bit for each row.
pub record IsColumn (f : FieldVector) : Type 0 where
  pub plain : IsPlain f.type
  pub stored : length (plain_array f f.type) ≡ f.size
  pub fits : Fits f.size f.validity

-- `f'` has the rows of `f`, and then `count` rows more.
pub record Appends (f f' : FieldVector) (count : ℕ) (value : ℕ → Option ℕ) : Type 0 where
  pub column : IsColumn f'
  pub size : f'.size ≡ f.size + count
  pub kept : (j : ℕ) → j < f.size → row f' j ≡ row f j
  pub added : (i : ℕ) → i < count → row f' (f.size + i) ≡ value i

pub row-shown :
    (f : FieldVector) (j : ℕ)
    → row f j ≡ (if shown f.validity j then some (get_or (plain_array f f.type) j 0) else none)
unfolding row is_valid shown Bitmap.size
row-shown f j = refl

-- Every append puts new values behind the array and extends the bitmap.
pub extend_rows :
    (f f' : FieldVector) (count : ℕ) (values : List ℕ) (flag : ℕ → Bool)
    → IsColumn f
    → f'.type ≡ f.type
    → f'.size ≡ f.size + count
    → length values ≡ count
    → plain_array f' f'.type ≡ plain_array f f.type ++ values
    → Extends f.size count flag f.validity f'.validity
    → Appends f f' count (λ i. if flag i then some (get_or values i 0) else none)
extend_rows f f' count values flag column same_type size' len arrays grown = record {
  column = record {
    plain = rw same_type column.plain;
    stored =
        ap length arrays
        ∙ omega (arith, length-append (plain_array f f.type) values, column.stored);
    fits = rw size' grown.fits;
  };
  size = size';
  kept = λ j h. ground (
    arith,
    row-shown f' j,
    row-shown f j,
    grown.kept j h,
    ap (λ l. get_or l j 0) arrays,
    get_or-append_left (plain_array f f.type) values j 0,
    column.stored,
  );
  added = λ i h. ground (
    arith,
    row-shown f' (f.size + i),
    grown.added i h,
    ap (λ l. get_or l (f.size + i) 0) arrays,
    ap (λ k. get_or (plain_array f f.type ++ values) (k + i) 0) column.stored,
    get_or-append_right (plain_array f f.type) values i 0,
  );
}

abbrev pub new_rows : List ℕ → (ℕ → Bool) → ℕ → Option ℕ
new_rows values flag i = if flag i then some (get_or values i 0) else none

-- An append of one value to the array `stored`.
pub append_one :
    (f f' : FieldVector) (value : ℕ) (stored : List ℕ)
    → IsColumn f
    → f.size + 1 + 63 < 2 ^ 64
    → f'.type ≡ f.type
    → plain_array f f.type ≡ stored
    → plain_array f' f'.type ≡ stored ++ value ∷ []
    → f'.size ≡ length (stored ++ value ∷ [])
    → f'.validity ≡ append_valid f.validity (length (stored ++ value ∷ []))
    → Appends f f' 1 (new_rows (value ∷ []) (λ i. true))
append_one f f' value stored column small same_type before after size' validity' =
    let len : length (stored ++ value ∷ []) ≡ f.size + 1 =
      omega (arith, length-append stored (value ∷ []), ap length before, column.stored) in
    extend_rows f f' 1 (value ∷ []) (λ i. true) column same_type (size' ∙ len) refl
      (after ∙ ap (λ l. l ++ value ∷ []) (sym before))
      (rw (validity', len) (append_valid-Extends f.size f.validity column.fits small))

-- An append of a batch to the array `stored`.
pub append_many :
    (f f' : FieldVector) (values : List ℕ) (count : ℕ) (validity : Option (List ℕ))
    (stored : List ℕ)
    → IsColumn f
    → f.size + count + 63 < 2 ^ 64
    → f'.type ≡ f.type
    → plain_array f f.type ≡ stored
    → plain_array f' f'.type ≡ stored ++ resize count 0 values
    → f'.size ≡ length (stored ++ resize count 0 values)
    → f'.validity ≡ batch_validity f validity count
    → Appends f f' count (new_rows (resize count 0 values) (batch_shown validity))
append_many f f' values count validity stored column small same_type before after size' validity' =
    let len : length (stored ++ resize count 0 values) ≡ f.size + count = omega (
      arith,
      length-append stored (resize count 0 values),
      length-resize {A = ℕ} count 0 values,
      ap length before,
      column.stored,
    ) in
    extend_rows f f' count (resize count 0 values) (batch_shown validity) column same_type
      (size' ∙ len) (length-resize count 0 values)
      (after ∙ ap (λ l. l ++ resize count 0 values) (sym before))
      (rw validity' (batch_validity-Extends f validity count column.fits small))
