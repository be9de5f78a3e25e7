-- ===== src/Mask/Laws.antt =====
-- The invariant of a `Mask`, and what Get answers after Set.
use mimic_rag.Mask.{Mask, with_bits, size, get, set_value, set_each}
use mimic_rag.Prelude.{
  ℕ, zero, suc, ◌≤◌, ◌≡◌, refl, ap, subst, Bool, false, ◌&&◌, arith, dec_lt, ℕ_discrete, ltb, ◌==◌,
  if◌then◌else◌, length-replicate, for_below_inv,
}
use mimic_rag.Bits.Words.{
  get_bit_past, word_count, raw_bit, get_bit, Covers, length-set_bit, raw_bit-set_bit,
  get_bit-set_bit, set_bit_past, raw_bit-replicate, get_bit-replicate,
}

-- The words cover the bits, and no bit past the count is stored.
pub record IsValid (m : Mask) : Type 0 where
  pub covers : Covers m.words m.bit_count
  pub clean : (j : ℕ) → m.bit_count ≤ j → raw_bit m.words j ≡ false

-- On a valid mask the stored bit is the answer of Get at every index.
pub raw_bit-get : (m : Mask) (j : ℕ) → IsValid m → raw_bit m.words j ≡ get m j
unfolding get get_bit
raw_bit-get m j v = ground (arith, v.clean j)

-- Get answers false past the size.
pub get_past : (m : Mask) (j : ℕ) → size m ≤ j → get m j ≡ false
unfolding get size
get_past m j h = get_bit_past m.words m.bit_count j h

pub with_bits-IsValid : (n : ℕ) → IsValid (with_bits n)
unfolding with_bits
with_bits-IsValid n = record {
  covers = omega (arith, length-replicate {A = ℕ} (word_count n) 0);
  clean = λ j h. raw_bit-replicate (word_count n) j;
}

pub get-with_bits : (n j : ℕ) → get (with_bits n) j ≡ false
unfolding with_bits get
get-with_bits n j = get_bit-replicate (word_count n) n j

pub set_value-IsValid : (m : Mask) (i : ℕ) (b : Bool) → IsValid m → IsValid (set_value m i b)
unfolding set_value
set_value-IsValid m i b v = elim (dec_lt i m.bit_count) [
  | yes h ↦ record {
    covers = omega (arith, length-set_bit m.words m.bit_count i b, v.covers);
    clean = λ j p. ground (arith, raw_bit-set_bit m.words m.bit_count i j b v.covers h, v.clean j);
  }
  | no h ↦ rw (set_bit_past m.words m.bit_count i b (omega arith)) v
]

-- Set(i, b) on a valid mask keeps the mask valid and its size, and Get(j) then answers b at j = i
-- when i is in range, and what it answered before at every other index.
pub set_value_lem :
    (m : Mask) (i j : ℕ) (b : Bool)
    → IsValid m
    → IsValid (set_value m i b)
      × (size (set_value m i b) ≡ size m)
      × (get (set_value m i b) j ≡ (if ltb i m.bit_count && (i == j) then b else get m j))
set_value_lem m i j b v = (set_value-IsValid m i b v, (unfold size set_value in refl), answer)
  where
    answer : get (set_value m i b) j ≡ (if ltb i m.bit_count && (i == j) then b else get m j)
    answer =
        unfold get set_value in
        elim (dec_lt i m.bit_count) [
          | yes p ↦ ground (arith, get_bit-set_bit m.words m.bit_count i j b v.covers p)
          | no p ↦ ground (arith, set_bit_past m.words m.bit_count i b)
        ]

pub set_each-IsValid :
    (n : ℕ) (value : ℕ → Bool) (m : Mask) → IsValid m → IsValid (set_each n value m)
unfolding set_each
set_each-IsValid n value m v =
    for_below_inv (λ i t. IsValid t) n _ m (λ i t p h. set_value-IsValid t i (value i) h) v

pub size-set_each : (n : ℕ) (value : ℕ → Bool) (m : Mask) → size (set_each n value m) ≡ size m
unfolding set_each size set_value
size-set_each zero value m = refl
size-set_each (suc n) value m = size-set_each n value m

pub get-set_each :
    (n : ℕ) (value : ℕ → Bool) (m : Mask) (j : ℕ)
    → IsValid m
    → n ≤ size m
    → get (set_each n value m) j ≡ (if ltb j n then value j else get m j)
unfolding size
get-set_each zero value m j v h = unfold set_each in ground arith
get-set_each (suc n) value m j v h = elim (ℕ_discrete n j) [
  | yes e ↦ ground (arith, step, ap value e)
  | no ne ↦ ground (arith, step, get-set_each n value m j v (omega arith))
]
  where
    step :
        get (set_each (suc n) value m) j
        ≡ (if ltb n (size m) && (n == j) then value n else get (set_each n value m) j)
    step =
        subst
          (λ k.
            get (set_each (suc n) value m) j
            ≡ (if ltb n k && (n == j) then value n else get (set_each n value m) j))
          (size-set_each n value m)
          (unfold set_each in
            (set_value_lem (set_each n value m) n j (value n) (set_each-IsValid n value m v)).2)

-- A fresh mask of n bits, filled by the loop, answers the values and nothing else.
pub get-set_each_fresh :
    (n : ℕ) (value : ℕ → Bool) (j : ℕ)
    → get (set_each n value (with_bits n)) j ≡ (if ltb j n then value j else false)
get-set_each_fresh n value j = ground (
  arith,
  get-set_each n value (with_bits n) j (with_bits-IsValid n) (unfold size with_bits in omega arith),
  get-with_bits n j,
)
