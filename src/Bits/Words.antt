-- ===== src/Bits/Words.antt =====
-- A vector of 64-bit words read and written by bit index, the code that `Bitmap`, `Mask` and
-- `PackedMask` share word for word. A read past the last word, undefined in C++, is 0 here; the
-- laws below ask that the words cover the bits.
use native.Mathlib.Nat.{pow-le-pow_right}
use mimic_rag.Bits.Digit.{
  digit, digit-le_one, digit-bit_or, digit-bit_and, digit-pow_self, digit-pow_ne, digit-complement,
  digit-shift, digit-zero, bit_and-one, bit_or-lt, bit_and-lt,
}
use mimic_rag.Prelude.{
  ℕ, zero, suc, ◌+◌, ◌-◌, ◌/◌, ◌%◌, ◌^◌, ◌≤◌, ◌<◌, bit_and, bit_or, ◌≡◌, ◌≢◌, refl, subst, ◌∙◌,
  Bool, true, false, not, inl, inr, List, arith, ltb, leb, ◌==◌, if◌then◌else◌, Bool-cases, length,
  get_or, set, length-set, get_or-set_self, get_or-set_ne, replicate, get_or-replicate, ℕ_discrete,
  for_below, ◌&&◌, ap, ◌*◌,
}

abbrev pub word_bits : ℕ
word_bits = 64

-- (bits + kWordBits - 1) / kWordBits
abbrev pub word_count : ℕ → ℕ
word_count bits = (bits + word_bits - 1) / word_bits

-- (word >> bit_index) & 1ULL, as a bool
unfoldable pub word_bit : ℕ → ℕ → Bool
word_bit w j = not (bit_and (w / 2 ^ j) 1 == 0)

-- word |= mask, or word &= ~mask, for the mask 1ULL << bit_index
unfoldable pub put_bit : ℕ → ℕ → Bool → ℕ
put_bit w j v = if v then bit_or w (2 ^ j) else bit_and w (2 ^ 64 - 1 - 2 ^ j)

pub word_bit-digit : (w j : ℕ) → word_bit w j ≡ (digit j w == 1)
unfolding word_bit
word_bit-digit w j = ground (arith, bit_and-one (w / 2 ^ j), digit-shift j w, digit-le_one j w)

pub word_bit-zero : (j : ℕ) → word_bit 0 j ≡ false
word_bit-zero j = ground (arith, word_bit-digit 0 j, digit-zero j)

pow_lt_word : (b : ℕ) → b < 64 → 2 ^ b < 2 ^ 64
pow_lt_word b h =
    let e : 2 ^ b ≤ 2 ^ 63 = pow-le-pow_right {n = 2} (omega arith) {j = 63} (omega arith) in
    omega arith

digit-put_bit_self : (w b : ℕ) (v : Bool) → b < 64 → word_bit (put_bit w b v) b ≡ v
unfolding put_bit
digit-put_bit_self w b true h = ground (
  arith,
  word_bit-digit (bit_or w (2 ^ b)) b,
  digit-bit_or b w (2 ^ b),
  digit-pow_self b,
  digit-le_one b w,
)
digit-put_bit_self w b false h = ground (
  arith,
  word_bit-digit (bit_and w (2 ^ 64 - 1 - 2 ^ b)) b,
  digit-bit_and b w (2 ^ 64 - 1 - 2 ^ b),
  digit-complement 64 b (2 ^ b) (pow_lt_word b h) h,
  digit-pow_self b,
)

digit-put_bit_ne :
    (w b j : ℕ) (v : Bool) → b < 64 → j < 64 → b ≢ j → word_bit (put_bit w b v) j ≡ word_bit w j
unfolding put_bit
digit-put_bit_ne w b j true h k ne = ground (
  arith,
  word_bit-digit (bit_or w (2 ^ b)) j,
  digit-bit_or j w (2 ^ b),
  digit-pow_ne b j ne,
  word_bit-digit w j,
)
digit-put_bit_ne w b j false h k ne = ground (
  arith,
  word_bit-digit (bit_and w (2 ^ 64 - 1 - 2 ^ b)) j,
  digit-bit_and j w (2 ^ 64 - 1 - 2 ^ b),
  digit-complement 64 j (2 ^ b) (pow_lt_word b h) k,
  digit-pow_ne b j ne,
  word_bit-digit w j,
  digit-le_one j w,
)

pub word_bit-put_bit :
    (w b j : ℕ) (v : Bool)
    → b < 64
    → j < 64
    → word_bit (put_bit w b v) j ≡ (if b == j then v else word_bit w j)
word_bit-put_bit w b j v h k = elim (Bool-cases (b == j)) [
  | inl e ↦
      rw e (subst (λ t. word_bit (put_bit w b v) t ≡ v) (eq_of e) (digit-put_bit_self w b v h))
  | inr e ↦ rw e (digit-put_bit_ne w b j v h k (ne_of e))
]
  where
    eq_of : (b == j) ≡ true → b ≡ j
    eq_of e = ground arith

    ne_of : (b == j) ≡ false → b ≢ j
    ne_of e = ground arith

pub put_bit-lt : (w b : ℕ) (v : Bool) → b < 64 → w < 2 ^ 64 → put_bit w b v < 2 ^ 64
unfolding put_bit
put_bit-lt w b true h k = bit_or-lt 64 w (2 ^ b) k (pow_lt_word b h)
put_bit-lt w b false h k = bit_and-lt 64 w (2 ^ 64 - 1 - 2 ^ b) k

-- (words_[index / kWordBits] >> (index % kWordBits)) & 1ULL
unfoldable pub raw_bit : List ℕ → ℕ → Bool
raw_bit words i = word_bit (get_or words (i / word_bits) 0) (i % word_bits)

-- bool Get(index): false past the bit count
unfoldable pub get_bit : List ℕ → ℕ → ℕ → Bool
get_bit words bits i = if leb bits i then false else raw_bit words i

-- void Set(index, value): nothing past the bit count
unfoldable pub set_bit : List ℕ → ℕ → ℕ → Bool → List ℕ
set_bit words bits i v =
    if leb bits i
    then words
    else set words (i / word_bits) (put_bit (get_or words (i / word_bits) 0) (i % word_bits) v)

-- Every bit below the count has its word.
abbrev pub Covers : List ℕ → ℕ → Type 0
Covers words bits = bits ≤ word_bits * length words

pub word_in_range :
    (words : List ℕ) (bits i : ℕ) → Covers words bits → i < bits → i / 64 < length words
word_in_range words bits i c h = omega arith

pub length-set_bit :
    (words : List ℕ) (bits i : ℕ) (v : Bool) → length (set_bit words bits i v) ≡ length words
unfolding set_bit
length-set_bit words bits i v =
    ground (arith, length-set words (i / 64) (put_bit (get_or words (i / 64) 0) (i % 64) v))

pub get_bit_past : (words : List ℕ) (bits j : ℕ) → bits ≤ j → get_bit words bits j ≡ false
unfolding get_bit
get_bit_past words bits j h = ground arith

pub get_bit-raw_bit :
    (words : List ℕ) (bits j : ℕ) → j < bits → get_bit words bits j ≡ raw_bit words j
unfolding get_bit
get_bit-raw_bit words bits j h = ground arith

set_bit_within :
    (words : List ℕ) (bits i : ℕ) (v : Bool)
    → i < bits
    → set_bit words bits i v ≡ set words (i / 64) (put_bit (get_or words (i / 64) 0) (i % 64) v)
unfolding set_bit
set_bit_within words bits i v h = ground arith

pub set_bit_past :
    (words : List ℕ) (bits i : ℕ) (v : Bool) → bits ≤ i → set_bit words bits i v ≡ words
unfolding set_bit
set_bit_past words bits i v h = ground arith

same_word :
    (words : List ℕ) (bits i j : ℕ) (v : Bool)
    → Covers words bits
    → i < bits
    → i / 64 ≡ j / 64
    → raw_bit (set_bit words bits i v) j ≡ (if i == j then v else raw_bit words j)
unfolding raw_bit
same_word words bits i j v c hi e = rw (set_bit_within words bits i v hi) (
    ground (
      arith,
      get_or-set_self words (i / 64) (put_bit (get_or words (i / 64) 0) (i % 64) v) 0,
      word_bit-put_bit (get_or words (i / 64) 0) (i % 64) (j % 64) v,
    ))

other_word :
    (words : List ℕ) (bits i j : ℕ) (v : Bool)
    → i < bits
    → i / 64 ≢ j / 64
    → raw_bit (set_bit words bits i v) j ≡ (if i == j then v else raw_bit words j)
unfolding raw_bit
other_word words bits i j v hi ne = rw (set_bit_within words bits i v hi) (
    ground (
      arith,
      get_or-set_ne words (i / 64) (j / 64) (put_bit (get_or words (i / 64) 0) (i % 64) v) 0 ne,
    ))

-- The stored bit that was written, wherever it is read.
pub raw_bit-set_bit :
    (words : List ℕ) (bits i j : ℕ) (v : Bool)
    → Covers words bits
    → i < bits
    → raw_bit (set_bit words bits i v) j ≡ (if i == j then v else raw_bit words j)
raw_bit-set_bit words bits i j v c hi = elim (ℕ_discrete (i / 64) (j / 64)) [
  | yes e ↦ same_word words bits i j v c hi e
  | no ne ↦ other_word words bits i j v hi ne
]

pub get_bit-set_bit :
    (words : List ℕ) (bits i j : ℕ) (v : Bool)
    → Covers words bits
    → i < bits
    → get_bit (set_bit words bits i v) bits j ≡ (if i == j then v else get_bit words bits j)
unfolding get_bit
get_bit-set_bit words bits i j v c hi = ground (arith, raw_bit-set_bit words bits i j v c hi)

pub raw_bit-replicate : (n j : ℕ) → raw_bit (replicate n 0) j ≡ false
unfolding raw_bit
raw_bit-replicate n j =
    ground (arith, get_or-replicate {A = ℕ} n (j / 64) 0, word_bit-zero (j % 64))

pub get_bit-replicate : (n bits j : ℕ) → get_bit (replicate n 0) bits j ≡ false
unfolding get_bit
get_bit-replicate n bits j = ground (arith, raw_bit-replicate n j)

-- for (i = 0; i < n; ++i) Set(start + i, value(i))
unfoldable pub set_window : ℕ → ℕ → (ℕ → Bool) → ℕ → List ℕ → List ℕ
set_window bits start value n = for_below n (λ i w. set_bit w bits (start + i) (value i))

pub length-set_window :
    (bits start : ℕ) (value : ℕ → Bool) (n : ℕ) (words : List ℕ)
    → length (set_window bits start value n words) ≡ length words
unfolding set_window
length-set_window bits start value zero words = refl
length-set_window bits start value (suc n) words =
    length-set_bit (set_window bits start value n words) bits (start + n) (value n)
    ∙ length-set_window bits start value n words

raw_bit-set_window-suc :
    (bits start : ℕ) (value : ℕ → Bool) (n : ℕ) (words : List ℕ) (j : ℕ)
    → Covers words bits
    → start + suc n ≤ bits
    → raw_bit (set_window bits start value (suc n) words) j
      ≡ (if (start + n) == j then value n else raw_bit (set_window bits start value n words) j)
unfolding set_window
raw_bit-set_window-suc bits start value n words j c le =
    raw_bit-set_bit (set_window bits start value n words) bits (start + n) j (value n)
      (rw (length-set_window bits start value n words) c) (omega arith)

-- The window holds the values, and no stored bit outside of it moves.
pub raw_bit-set_window :
    (bits start : ℕ) (value : ℕ → Bool) (n : ℕ) (words : List ℕ) (j : ℕ)
    → Covers words bits
    → start + n ≤ bits
    → raw_bit (set_window bits start value n words) j
      ≡ (if leb start j && ltb j (start + n) then value (j - start) else raw_bit words j)
unfolding set_window
raw_bit-set_window bits start value zero words j c le = ground arith
raw_bit-set_window bits start value (suc n) words j c le = elim (ℕ_discrete (start + n) j) [
  | yes e ↦
      let gap : n ≡ j - start = omega arith in
      ground (arith, raw_bit-set_window-suc bits start value n words j c le, ap value gap)
  | no ne ↦ ground (
    arith,
    raw_bit-set_window-suc bits start value n words j c le,
    raw_bit-set_window bits start value n words j c (omega arith),
  )
]

pub get_bit-set_window :
    (bits start : ℕ) (value : ℕ → Bool) (n : ℕ) (words : List ℕ) (j : ℕ)
    → Covers words bits
    → start + n ≤ bits
    → get_bit (set_window bits start value n words) bits j
      ≡ (if leb start j && ltb j (start + n) then value (j - start) else get_bit words bits j)
unfolding get_bit
get_bit-set_window bits start value n words j c le =
    ground (arith, raw_bit-set_window bits start value n words j c le)
