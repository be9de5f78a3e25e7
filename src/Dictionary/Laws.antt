-- ===== src/Dictionary/Laws.antt =====
-- The dictionary is a bijection between the values that were added and the ids below its size.
use mimic_rag.Dictionary.{
  found_or, get_or-append_left, value_of, dec_lt, Option-cases, find_id, get_or-ge_length, add, suc,
  ap, get_or-append_right, [], length-append, DictionaryInt32, empty, find,
}
use mimic_rag.Prelude.{
  zero, suc, ℕ, ◌^◌, ◌≤◌, ◌<◌, ◌≡◌, none, some, arith, length, get_or, ◌∷◌, if◌then◌else◌, ◌==◌,
  ◌++◌, ◌+◌, refl, true, inl, ◌-◌, inr, ◌%◌, ◌↔◌, take, List, take-append, sym, ◌∙◌, append-nil,
}

-- The map holds exactly the positions of the values, and fits 32-bit ids.
pub record IsValid (d : DictionaryInt32) : Type 0 where
  pub located :
      (value id : ℕ)
      → find value d.index ≡ some id
      → (id < length d.values) × (get_or d.values id 0 ≡ value)
  pub indexed : (id : ℕ) → id < length d.values → find (get_or d.values id 0) d.index ≡ some id
  pub fits : length d.values ≤ 2 ^ 32

pub empty-IsValid : IsValid empty
unfolding find
empty-IsValid = record {
  located = λ value id e. absurd (omega (arith, none_of id e));
  indexed = λ id h. absurd (omega arith);
  fits = omega arith;
}
  where
    none_of : (id : ℕ) → none ≡ some id → ⊥
    none_of id e = cc

module _ (d : DictionaryInt32) (value : ℕ) (v : IsValid d) where
  -- The entry that Add makes for a value that is not there.
  abbrev grown : DictionaryInt32
  grown = record { index = (value, length d.values) ∷ d.index; values = d.values ++ value ∷ [] }

  found_after :
      (w : ℕ) → find w grown.index ≡ (if value == w then some (length d.values) else find w d.index)
  unfolding find
  found_after w = refl

  value_after :
      (id : ℕ)
      → get_or grown.values id 0 ≡ (if id == length d.values then value else get_or d.values id 0)
  value_after id = elim (dec_lt id (length d.values)) [
    | yes h ↦ ground (arith, get_or-append_left d.values (value ∷ []) id 0 h)
    | no h ↦ beyond (id - length d.values) (omega arith)
  ]
    where
      beyond :
          (k : ℕ)
          → id ≡ length d.values + k
          → get_or grown.values id 0
            ≡ (if id == length d.values then value else get_or d.values id 0)
      beyond zero e = ground (
        arith,
        get_or-append_right d.values (value ∷ []) 0 0,
        ap (λ i. get_or grown.values i 0) e,
      )
      beyond (suc k) e = ground (
        arith,
        get_or-append_right d.values (value ∷ []) (suc k) 0,
        ap (λ i. get_or grown.values i 0) e,
        get_or-ge_length d.values id 0,
      )

  grown-IsValid : find value d.index ≡ none → length d.values < 2 ^ 32 → IsValid grown
  grown-IsValid fresh room = record {
    located = λ w id e.
        ground (
          arith,
          found_after w,
          value_after id,
          v.located w id,
          length-append d.values (value ∷ []),
        );
    indexed = λ id h. ground (
      arith,
      found_after (get_or grown.values id 0),
      value_after id,
      v.indexed id,
      length-append d.values (value ∷ []),
    );
    fits = omega (arith, length-append d.values (value ∷ []));
  }

take_all : (xs : List ℕ) → take (length xs) xs ≡ xs
take_all xs = ap (take (length xs)) (sym (append-nil xs)) ∙ take-append xs []

-- On a valid dictionary with a free id left, Add keeps the dictionary valid, returns the id at which
-- Value then answers the value, keeps the value of every id that was given out before, and grows
-- the dictionary by one exactly when the value was not in it.
pub add_lem :
    (d : DictionaryInt32) (value : ℕ)
    → IsValid d
    → length d.values < 2 ^ 32
    → let d' = (add d value).0 in
      let id = (add d value).1 in
      IsValid d'
      × (id < length d'.values)
      × (value_of d' id ≡ value)
      × (take (length d.values) d'.values ≡ d.values)
      × (length d'.values
          ≡ (elim (find value d.index) [ none ↦ length d.values + 1 | some _ ↦ length d.values ]))
unfolding add value_of
add_lem d value v room = elim (Option-cases (find value d.index)) [
  | inl fresh ↦
      let id_fits : length d.values % 2 ^ 32 ≡ length d.values = omega arith in
      rw (fresh, id_fits)
        (
          grown-IsValid d value v fresh room,
          omega (arith, length-append d.values (value ∷ [])),
          ground (arith, value_after d value v (length d.values)),
          take-append d.values (value ∷ []),
          omega (arith, length-append d.values (value ∷ [])),
        )
  | inr (id, found) ↦
      rw found
        (v, (v.located value id found).0, (v.located value id found).1, take_all d.values, refl)
]

-- Add moves no value that was there, and keeps a bound of the values.
pub add-value_of :
    (d : DictionaryInt32) (value k : ℕ)
    → IsValid d
    → k < length d.values
    → value_of (add d value).0 k ≡ value_of d k
unfolding add value_of
add-value_of d value k v h = elim (Option-cases (find value d.index)) [
  | inl fresh ↦ rw fresh (get_or-append_left d.values (value ∷ []) k 0 h)
  | inr (id, found) ↦ rw found
]

pub add-bounded :
    (d : DictionaryInt32) (value bound : ℕ)
    → IsValid d
    → value < bound
    → ((k : ℕ) → get_or d.values k 0 < bound)
    → (k : ℕ) → get_or (add d value).0.values k 0 < bound
unfolding add
add-bounded d value bound v h all k = elim (Option-cases (find value d.index)) [
  | inl fresh ↦ rw fresh (ground (arith, value_after d value v k, all k))
  | inr (id, found) ↦ rw found (all k)
]

pub length-add :
    (d : DictionaryInt32) (value : ℕ)
    → (length d.values ≤ length (add d value).0.values)
      × (length (add d value).0.values ≤ length d.values + 1)
unfolding add
length-add d value = elim (Option-cases (find value d.index)) [
  | inl fresh ↦ rw fresh (omega (arith, length-append d.values (value ∷ [])))
  | inr (id, found) ↦ rw found (omega arith)
]

-- Adding a value again returns the same id and leaves the dictionary as it is.
pub add_again :
    (d : DictionaryInt32) (value : ℕ)
    → IsValid d
    → length d.values < 2 ^ 32
    → add (add d value).0 value ≡ add d value
unfolding add find
add_again d value v room = elim (Option-cases (find value d.index)) [
  | inl fresh ↦ ground (arith, fresh)
  | inr (id, found) ↦ rw found (rw found)
]

-- On a valid dictionary FindId answers true with an id exactly where that id is in use and Value
-- gives the asked value there, and where it answers false it writes nothing.
pub find_id_lem :
    (d : DictionaryInt32) (value out id : ℕ)
    → IsValid d
    → ((find_id d value (some out) ≡ (true, some id))
        ↔ ((id < length d.values) × (value_of d id ≡ value)))
      × ((find_id d value (some out)).1
          ≡ (if (find_id d value (some out)).0 then find value d.index else some out))
unfolding find_id value_of
find_id_lem d value out id v = (
  (
    (λ e. v.located value id (ground arith)),
    (λ p. ap (λ w. found_or out (find w d.index)) (sym p.1) ∙ ap (found_or out) (v.indexed id p.0)),
  ),
  (elim (Option-cases (find value d.index)) [ inl e ↦ rw e | inr (k, e) ↦ rw e ]),
)
