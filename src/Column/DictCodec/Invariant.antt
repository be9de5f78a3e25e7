-- ===== src/Column/DictCodec/Invariant.antt =====
-- engine/src/segment.cpp, EncodeDictionary: what holds after each round of its loop.
use mimic_rag.Column.Source.{int_value, HoldsInts, int_value-lt}
use mimic_rag.Dictionary
use mimic_rag.Dictionary.Laws.{add_lem, add-value_of, add-bounded, length-add}
use mimic_rag.Dictionary.{DictionaryInt32, add, value_of, u32}
use mimic_rag.FieldVector.{FieldVector, is_valid}
use mimic_rag.Prelude.{
  ℕ, zero, suc, ◌^◌, ◌≤◌, ◌<◌, ◌≡◌, sym, ap, ◌∙◌, ◌≢◌, inl, inr, true, false, List, [], ◌∷◌, arith,
  ℕ_discrete, Bool-cases, length, get_or, set, replicate, length-replicate, length-set,
  get_or-set_self, get_or-set_ne, get_or-replicate, for_below_inv,
}
use mimic_rag.Column.DictCodec.{dict_step, dict_rows}

-- What holds after n rounds of the encoder.
pub record Encoded (f : FieldVector) (n : ℕ) (s : DictionaryInt32 × List ℕ) : Type 0 where
  pub valid : Dictionary.Laws.IsValid s.0
  pub few : length s.0.values ≤ n
  pub rows : length s.1 ≡ f.size
  pub bounded : (k : ℕ) → get_or s.0.values k 0 < 2 ^ 64
  pub ids : (i : ℕ) → get_or s.1 i 0 < 2 ^ 32
  pub placed : (i : ℕ) → i < n → is_valid f i ≡ true → get_or s.1 i 0 < length s.0.values
  pub right : (i : ℕ) → i < n → is_valid f i ≡ true → value_of s.0 (get_or s.1 i 0) ≡ int_value f i

start-Encoded : (f : FieldVector) → Encoded f 0 (Dictionary.empty, replicate f.size 0)
start-Encoded f = record {
  valid = Dictionary.Laws.empty-IsValid;
  few = omega arith;
  rows = length-replicate f.size 0;
  bounded = λ k. omega arith;
  ids = λ i. omega (arith, get_or-replicate {A = ℕ} f.size i 0);
  placed = λ i h ok. absurd (omega arith);
  right = λ i h ok. absurd (omega arith);
}

set-bounded :
    (bound v : ℕ) (xs : List ℕ) (i k : ℕ)
    → v < bound
    → ((m : ℕ) → get_or xs m 0 < bound)
    → get_or (set xs i v) k 0 < bound
set-bounded bound v [] i k h all = all k
set-bounded bound v (x ∷ xs) zero zero h all = h
set-bounded bound v (x ∷ xs) zero (suc k) h all = all (suc k)
set-bounded bound v (x ∷ xs) (suc i) zero h all = all 0
set-bounded bound v (x ∷ xs) (suc i) (suc k) h all = set-bounded bound v xs i k h (λ m. all (suc m))

module _ (f : FieldVector) (n : ℕ) (d : DictionaryInt32) (out : List ℕ) where
  -- A null row takes the id 0 and leaves the table.
  null-Encoded :
      n < f.size → is_valid f n ≡ false → Encoded f n (d, out) → Encoded f (suc n) (d, set out n 0)
  null-Encoded h null e = record {
    valid = e.valid;
    few = omega (arith, e.few);
    rows = length-set out n 0 ∙ e.rows;
    bounded = e.bounded;
    ids = λ i. set-bounded (2 ^ 32) 0 out n i (omega arith) e.ids;
    placed = λ i p ok. rw (kept i p ok) (e.placed i (before i p ok) ok);
    right = λ i p ok. ap (value_of d) (kept i p ok) ∙ e.right i (before i p ok) ok;
  }
    where
      clash : true ≡ false → ⊥
      clash b = cc

      other : (i : ℕ) → is_valid f i ≡ true → n ≢ i
      other i ok same = clash (sym ok ∙ ap (is_valid f) (sym same) ∙ null)

      before : (i : ℕ) → i < suc n → is_valid f i ≡ true → i < n
      before i p ok = ground (arith, other i ok)

      kept : (i : ℕ) → i < suc n → is_valid f i ≡ true → get_or (set out n 0) i 0 ≡ get_or out i 0
      kept i p ok = get_or-set_ne out n i 0 0 (other i ok)

  -- A valid row takes the id at which the table holds its value.
  value-Encoded :
      n < f.size
      → f.size < 2 ^ 32
      → int_value f n < 2 ^ 64
      → Encoded f n (d, out)
      → Encoded f (suc n) ((add d (int_value f n)).0, set out n (add d (int_value f n)).1)
  value-Encoded h small fits e = record {
    valid = added.0;
    few = omega (arith, (length-add d (int_value f n)).1, e.few);
    rows = length-set out n id ∙ e.rows;
    bounded = add-bounded d (int_value f n) (2 ^ 64) e.valid fits e.bounded;
    ids = λ i.
        set-bounded (2 ^ 32) id out n i
          (omega (arith, added.1, (length-add d (int_value f n)).1, e.few)) e.ids;
    placed = λ i p ok. elim (ℕ_discrete n i) [
      | yes same ↦ rw (at_row i same) added.1
      | no ne ↦
          rw (get_or-set_ne out n i id 0 ne)
            (omega (arith, e.placed i (ground arith) ok, (length-add d (int_value f n)).0))
    ];
    right = λ i p ok. elim (ℕ_discrete n i) [
      | yes same ↦ ap (value_of d') (at_row i same) ∙ added.2 ∙ ap (int_value f) same
      | no ne ↦
          ap (value_of d') (get_or-set_ne out n i id 0 ne)
          ∙ add-value_of d (int_value f n) (get_or out i 0) e.valid (e.placed i (ground arith) ok)
          ∙ e.right i (ground arith) ok
    ];
  }
    where
      d' : DictionaryInt32
      d' = (add d (int_value f n)).0

      id : ℕ
      id = (add d (int_value f n)).1

      added :
          Dictionary.Laws.IsValid d' × (id < length d'.values) × (value_of d' id ≡ int_value f n)
      added =
          let laws = add_lem d (int_value f n) e.valid (omega (arith, e.few)) in
          (laws.0, laws.1, laws.2)

      at_row : (i : ℕ) → n ≡ i → get_or (set out n id) i 0 ≡ id
      at_row i same =
          ap (λ k. get_or (set out n id) k 0) (sym same)
          ∙ get_or-set_self out n id 0 (omega (arith, e.rows))

pub dict_rows-Encoded :
    (f : FieldVector) → HoldsInts f → f.size < 2 ^ 32 → Encoded f f.size (dict_rows f)
unfolding dict_rows dict_step
dict_rows-Encoded f ints small =
    for_below_inv (Encoded f) f.size (dict_step f) (Dictionary.empty, replicate f.size 0)
      (λ n (d, out) h e. elim (Bool-cases (is_valid f n)) [
        | inl ok ↦ rw ok (value-Encoded f n d out h small (int_value-lt f n ints) e)
        | inr null ↦ rw null (null-Encoded f n d out h null e)
      ])
      (start-Encoded f)
