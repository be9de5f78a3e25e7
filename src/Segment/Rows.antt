-- ===== src/Segment/Rows.antt =====
-- engine/src/segment.cpp: a segment never holds more rows than its capacity, is sealed only when full,
-- and has the rows in every field.
use mimic_rag.Column.{u64}
use mimic_rag.FieldVector.{FieldVector, new_field, resize_rows}
use mimic_rag.Segment.{Segment, new_segment, append_rows}
use mimic_rag.Prelude.{
  ℕ, ◌+◌, ◌-◌, ◌^◌, ◌≤◌, ◌<◌, ◌≡◌, refl, sym, ap, ◌∙◌, ◌↔◌, ◌⊎◌, inl, inr, Bool, true, false, ◌||◌,
  List, [], ◌∷◌, map, arith, ℕ_discrete, ltb, leb, ◌==◌, if◌then◌else◌, le→ltb, ==_iff, Bool-cases,
  All,
}

pub record IsSegment (s : Segment) : Type 0 where
  pub bounded : s.row_count ≤ s.row_capacity
  pub full : s.sealed ≡ true → s.row_count ≡ s.row_capacity
  pub open_ended : s.sealed ≡ false → (s.row_count < s.row_capacity) ⊎ (s.row_capacity ≡ 0)
  pub holds : All (λ f. s.row_count ≤ f.size) s.fields

new_fields :
    (fields : List FieldVector) → All (λ f. 0 ≤ f.size) (map (λ f. new_field f.name f.type) fields)
new_fields [] = tt
new_fields (f ∷ fields) = (omega arith, new_fields fields)

-- Resize to a count of rows gives every field that many at least.
resized :
    (fields : List FieldVector) (n : ℕ) → All (λ f. n ≤ f.size) (map (λ f. resize_rows f n) fields)
resized [] n = tt
resized (f ∷ fields) n = (grown, resized fields n)
  where
    grown : n ≤ (resize_rows f n).size
    grown =
        unfold resize_rows in
        elim (Bool-cases (leb n f.size)) [
          | inl e ↦ rw e (ground arith)
          | inr e ↦ rw e (omega arith)
        ]

pub new_segment-IsSegment :
    (row_capacity : ℕ) (fields : List FieldVector) → IsSegment (new_segment row_capacity fields)
unfolding new_segment
new_segment-IsSegment row_capacity fields = record {
  bounded = omega arith;
  full = λ e. absurd (differ e);
  open_ended =
      λ e. elim (ℕ_discrete row_capacity 0) [ yes z ↦ inr z | no ne ↦ inl (omega (arith, ne)) ];
  holds = new_fields fields;
}
  where
    differ : false ≡ true → ⊥
    differ q = cc

-- Append of rows to a well-formed segment, counted within 64 bits, keeps it well-formed. It answers
-- true exactly if there are rows to append, the segment is not sealed and they fit its capacity, and
-- then adds their number to the count; otherwise nothing changes.
pub append_rows-IsSegment :
    (s : Segment) (rows : ℕ)
    → IsSegment s
    → s.row_count + rows < 2 ^ 64
    → IsSegment (append_rows s rows).0
      × (((append_rows s rows).1 ≡ true)
          ↔ ((0 < rows) × (s.sealed ≡ false) × (s.row_count + rows ≤ s.row_capacity)))
      × ((append_rows s rows).0.row_count
          ≡ s.row_count + (if (append_rows s rows).1 then rows else 0))
      × ((append_rows s rows).1 ≡ false → (append_rows s rows).0 ≡ s)
unfolding append_rows
append_rows-IsSegment s rows inv fits =
    elim (Bool-cases ((rows == 0) || (s.sealed || ltb s.row_capacity (u64 (s.row_count + rows))))) [
      | inl e ↦ rw e (inv, refused e, omega arith, λ h. refl)
      | inr e ↦
          rw e (kept (facts e), ((λ h. facts e), λ h. refl), omega arith, λ h. absurd (differ h))
    ]
  where
    differ : true ≡ false → ⊥
    differ q = cc

    stays : false ≡ true → ⊥
    stays q = cc

    either : (a b : Bool) → (a || b) ≡ false → (a ≡ false) × (b ≡ false)
    either true b h = absurd (differ h)
    either false b h = (refl, h)

    test : Bool
    test = (rows == 0) || (s.sealed || ltb s.row_capacity (u64 (s.row_count + rows)))

    facts : test ≡ false → (0 < rows) × (s.sealed ≡ false) × (s.row_count + rows ≤ s.row_capacity)
    facts e =
        let (some_rows, rest) =
          either (rows == 0) (s.sealed || ltb s.row_capacity (u64 (s.row_count + rows))) e in
        let (open_yet, fit) =
          either s.sealed (ltb s.row_capacity (u64 (s.row_count + rows))) rest in
        (ground (arith, some_rows), open_yet, ground (arith, fit))

    refused :
        test ≡ true
        → (false ≡ true → (0 < rows) × (s.sealed ≡ false) × (s.row_count + rows ≤ s.row_capacity))
          × ((0 < rows) × (s.sealed ≡ false) × (s.row_count + rows ≤ s.row_capacity) → false ≡ true)
    refused e = (
      (λ h. absurd (stays h)),
      λ p.
          let some_rows : (rows == 0) ≡ false = ground (arith, p.0) in
          let fit : ltb s.row_capacity (u64 (s.row_count + rows)) ≡ false =
            le→ltb s.row_capacity (u64 (s.row_count + rows)) (omega (arith, p.2)) in
          let none_holds : test ≡ false = rw (some_rows, p.1, fit) refl in sym none_holds ∙ e,
    )

    total : ℕ
    total = u64 (s.row_count + rows)

    kept :
        (0 < rows) × (s.sealed ≡ false) × (s.row_count + rows ≤ s.row_capacity)
        → IsSegment (record {
          row_capacity = s.row_capacity;
          row_count = total;
          fields = map (λ f. resize_rows f total) s.fields;
          sealed = s.sealed || (total == s.row_capacity);
        })
    kept (some_rows, open_yet, fit) = record {
      bounded = omega (arith, fit);
      full = λ h.
          (==_iff total s.row_capacity).0
            (sym (ap (λ b. b || (total == s.row_capacity)) open_yet) ∙ h);
      open_ended = λ h. inl (
          below (sym (ap (λ b. b || (total == s.row_capacity)) open_yet) ∙ h) (omega (arith, fit)));
      holds = resized s.fields total;
    }
      where
        below : (total == s.row_capacity) ≡ false → total ≤ s.row_capacity → total < s.row_capacity
        below h le = ground arith

-- Append counts modulo 2 ^ 64: rows that carry the count of an open segment past 2 ^ 64 pass the test
-- against the capacity, are accepted, and leave fewer rows than there were.
append_rows-wraps :
    (s : Segment) (rows : ℕ)
    → IsSegment s
    → s.sealed ≡ false
    → s.row_count < 2 ^ 64
    → rows < 2 ^ 64
    → 2 ^ 64 ≤ s.row_count + rows
    → ((append_rows s rows).1 ≡ true)
      × ((append_rows s rows).0.row_count ≡ s.row_count + rows - 2 ^ 64)
      × ((append_rows s rows).0.row_count < s.row_count)
unfolding append_rows
append_rows-wraps s rows inv open_yet counted small over =
    let some_rows : (rows == 0) ≡ false = ground arith in
    let fit : ltb s.row_capacity (u64 (s.row_count + rows)) ≡ false =
      le→ltb s.row_capacity (u64 (s.row_count + rows)) (omega (arith, inv.bounded)) in
    rw (some_rows, open_yet, fit) (refl, omega arith, omega arith)
