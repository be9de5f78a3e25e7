-- ===== src/Bitmap/Laws.antt =====
-- What a `Bitmap` answers after each operation, and the invariant under which no access leaves
-- its words.
use mimic_rag.Bitmap.{
  words_for, Bitmap, empty, resize_bits, with_bits, get, set_value, size, load_words, append_loop,
  append_all_true, append_bits,
}
use mimic_rag.Prelude.{
  ℕ, ◌-◌, ◌/◌, ◌≤◌, ◌<◌, ◌≡◌, refl, ◌↔◌, Bool, true, false, not, ◌&&◌, List, arith, dec_lt, ltb,
  ◌==◌, zero, suc, ap, ap₂, ◌∙◌, [], ◌∷◌, ℕ_discrete, for_below, ◌+◌, ◌*◌, ◌%◌, ◌^◌, if◌then◌else◌,
  length, get_or, resize, length-resize, get_or-resize,
}
use mimic_rag.Bits.Words.{
  set_bit, set_window, raw_bit, get_bit, Covers, word_in_range, length-set_bit, get_bit-set_bit,
  set_bit_past, get_bit_past, get_bit-raw_bit, length-set_window, raw_bit-set_window,
}

-- The words cover the bits that are counted.
abbrev pub IsValid : Bitmap → Type 0
IsValid b = Covers b.words b.bit_count

-- Within the count, `Get` and `Set` read a word that is there.
pub access_in_range : (b : Bitmap) (i : ℕ) → IsValid b → i < b.bit_count → i / 64 < length b.words
access_in_range b i v h = word_in_range b.words b.bit_count i v h

pub resize_bits-IsValid :
    (b : Bitmap) (bits : ℕ) → bits + 63 < 2 ^ 64 → IsValid (resize_bits b bits)
unfolding resize_bits
resize_bits-IsValid b bits fits = omega (arith, fits, length-resize {0} (words_for bits) 0 b.words)

pub set_value-IsValid : (b : Bitmap) (i : ℕ) (v : Bool) → IsValid b → IsValid (set_value b i v)
unfolding set_value
set_value-IsValid b i v h = omega (arith, length-set_bit b.words b.bit_count i v)

-- Within 64 bits the appends write a window of bits.
wrapped_window :
    (bits start n : ℕ) (f : ℕ → Bool) (words : List ℕ)
    → start + n < 2 ^ 64
    → for_below n (λ i w. set_bit w bits ((start + i) % 2 ^ 64) (f i)) words
      ≡ set_window bits start f n words
unfolding set_window
wrapped_window bits start zero f words fits = refl
wrapped_window bits start (suc n) f words fits =
    let same : (start + n) % 2 ^ 64 ≡ start + n = omega arith in
    ap₂ (λ w i. set_bit w bits i (f n)) (wrapped_window bits start n f words (omega arith)) same

append_loop_window :
    (b : Bitmap) (f : ℕ → Bool) (n : ℕ)
    → b.bit_count + n + 63 < 2 ^ 64
    → append_loop b f n ≡ record {
      words =
          set_window
            (b.bit_count + n)
            b.bit_count
            f
            n
            (resize (words_for (b.bit_count + n)) 0 b.words);
      bit_count = b.bit_count + n;
    }
unfolding append_loop
append_loop_window b f n fits =
    let same : (b.bit_count + n) % 2 ^ 64 ≡ b.bit_count + n = omega arith in
    ap
      (λ total. record {
        words =
            for_below n (λ i w. set_bit w total ((b.bit_count + i) % 2 ^ 64) (f i))
              (resize (words_for total) 0 b.words);
        bit_count = total;
      })
      same
    ∙ ap (λ w. record { words = w; bit_count = b.bit_count + n })
        (wrapped_window (b.bit_count + n) b.bit_count n f
          (resize (words_for (b.bit_count + n)) 0 b.words) (omega arith))

pub append_all_true_window :
    (b : Bitmap) (n : ℕ)
    → b.bit_count + n + 63 < 2 ^ 64
    → append_all_true b n ≡ record {
      words =
          set_window
            (b.bit_count + n)
            b.bit_count
            (λ i. true)
            n
            (resize (words_for (b.bit_count + n)) 0 b.words);
      bit_count = b.bit_count + n;
    }
unfolding append_all_true
append_all_true_window b n fits = append_loop_window b (λ i. true) n fits

append_loop-IsValid :
    (b : Bitmap) (f : ℕ → Bool) (n : ℕ)
    → b.bit_count + n + 63 < 2 ^ 64
    → IsValid (append_loop b f n)
append_loop-IsValid b f n fits =
    let window : List ℕ =
      set_window (b.bit_count + n) b.bit_count f n
        (resize (words_for (b.bit_count + n)) 0 b.words) in
    rw (append_loop_window b f n fits) (
      omega (
        arith,
        length-set_window (b.bit_count + n) b.bit_count f n
            (resize (words_for (b.bit_count + n)) 0 b.words),
        length-resize {0} (words_for (b.bit_count + n)) 0 b.words,
      ))

-- With a count below 2 ^ 64 - 63, every operation that builds a bitmap by Resize, Set or an append
-- leaves words that cover its bits: every index below the count has its word. LoadWords does so
-- exactly when it is given a word for every index.
pub operations-IsValid :
    (b : Bitmap) (i n : ℕ) (v : Bool) (validity words : List ℕ)
    → IsValid b
    → b.bit_count + n + 63 < 2 ^ 64
    → IsValid (with_bits n)
      × IsValid (resize_bits b n)
      × IsValid (set_value b i v)
      × IsValid (append_all_true b n)
      × IsValid (append_bits b validity n)
      × (IsValid (load_words words n) ↔ ((j : ℕ) → j < n → j / 64 < length words))
unfolding with_bits append_all_true append_bits load_words
operations-IsValid b i n v validity words h fits = (
  resize_bits-IsValid empty n (omega arith),
  resize_bits-IsValid b n (omega arith),
  set_value-IsValid b i v h,
  append_loop-IsValid b _ n fits,
  append_loop-IsValid b _ n fits,
  ((λ p j lt. omega (arith, p, lt)), (λ each. enough each)),
)
  where
    enough : ((j : ℕ) → j < n → j / 64 < length words) → n ≤ 64 * length words
    enough each = elim (ℕ_discrete n 0) [
      | yes z ↦ omega (arith, z)
      | no ne ↦ omega (arith, each (n - 1) (omega (arith, ne)))
    ]

-- Resize to a count of 2 ^ 64 - 63 or more wraps around and leaves no words at all under that count,
-- so that an access within the count leaves the words.
resize_bits-wraps :
    (b : Bitmap) (bits : ℕ)
    → 2 ^ 64 ≤ bits + 63
    → bits < 2 ^ 64
    → ((resize_bits b bits).words ≡ [])
      × ((resize_bits b bits).bit_count ≡ bits)
      × ¬ (IsValid (resize_bits b bits))
unfolding resize_bits
resize_bits-wraps b bits high size =
    let none_left : words_for bits ≡ 0 = omega arith in
    rw none_left (empty_words b.words, refl, λ v. omega (arith, v, length-resize {0} 0 0 b.words))
  where
    empty_words : (words : List ℕ) → resize 0 0 words ≡ []
    empty_words [] = refl
    empty_words (w ∷ words) = refl

-- After Set(i, v) on a valid bitmap, Get(j) is v at j = i when i is in range, and what it was at
-- every other index; out of range Set changes nothing. The size stays.
pub get-set_value :
    (b : Bitmap) (i j : ℕ) (v : Bool)
    → IsValid b
    → (get (set_value b i v) j ≡ (if ltb i b.bit_count && (i == j) then v else get b j))
      × (size (set_value b i v) ≡ size b)
unfolding get set_value size
get-set_value b i j v h = elim (dec_lt i b.bit_count) [
  | yes p ↦ (ground (arith, get_bit-set_bit b.words b.bit_count i j v h p), refl)
  | no p ↦ (ground (arith, set_bit_past b.words b.bit_count i v), refl)
]

raw_bit-resize :
    (words : List ℕ) (n j : ℕ) → j / 64 < n → raw_bit (resize n 0 words) j ≡ raw_bit words j
unfolding raw_bit
raw_bit-resize words n j h = rw (get_or-resize n 0 words (j / 64) h)

-- Growing by Resize keeps the answers below the old count.
pub get-resize_bits_grow :
    (b : Bitmap) (n j : ℕ)
    → j < b.bit_count
    → j < n
    → n + 63 < 2 ^ 64
    → get (resize_bits b n) j ≡ get b j
unfolding get resize_bits
get-resize_bits_grow b n j h k fits = ground (
  arith,
  get_bit-raw_bit b.words b.bit_count j h,
  get_bit-raw_bit (resize (words_for n) 0 b.words) n j k,
  raw_bit-resize b.words (words_for n) j (omega arith),
)

get-append_loop :
    (b : Bitmap) (f : ℕ → Bool) (n j : ℕ)
    → b.bit_count + n + 63 < 2 ^ 64
    → get (append_loop b f n) j ≡ (
        if ltb j b.bit_count
        then get b j
        else if ltb j (b.bit_count + n)
        then f (j - b.bit_count)
        else false)
unfolding get get_bit
get-append_loop b f n j fits = rw (append_loop_window b f n fits) (
    ground (
      arith,
      raw_bit-set_window (b.bit_count + n) b.bit_count f n
          (resize (words_for (b.bit_count + n)) 0 b.words) j
          (omega (arith, length-resize {0} (words_for (b.bit_count + n)) 0 b.words)),
      there,
    ))
  where
    there :
        j < b.bit_count + n
        → raw_bit (resize (words_for (b.bit_count + n)) 0 b.words) j ≡ raw_bit b.words j
    there lt = raw_bit-resize b.words (words_for (b.bit_count + n)) j (omega (arith, lt))

-- AppendBits keeps the bits that were counted, appends for each validity byte whether it is
-- nonzero, and answers false past the new size, whatever the words held beyond the old size.
pub get-append_bits :
    (b : Bitmap) (validity : List ℕ) (n j : ℕ)
    → b.bit_count + n + 63 < 2 ^ 64
    → (get (append_bits b validity n) j ≡ (
        if ltb j b.bit_count
        then get b j
        else if ltb j (b.bit_count + n)
        then not (get_or validity (j - b.bit_count) 0 == 0)
        else false))
      × (size (append_bits b validity n) ≡ size b + n)
unfolding append_bits size
get-append_bits b validity n j fits =
    (get-append_loop b (λ i. not (get_or validity i 0 == 0)) n j fits, size_of)
  where
    size_of : (append_bits b validity n).bit_count ≡ b.bit_count + n
    size_of = unfold append_bits append_loop in omega arith

-- AppendAllTrue keeps the bits that were counted, answers true at each of the n new indices and
-- false past them.
pub get-append_all_true :
    (b : Bitmap) (n j : ℕ)
    → b.bit_count + n + 63 < 2 ^ 64
    → (get (append_all_true b n) j
        ≡ (if ltb j b.bit_count then get b j else ltb j (b.bit_count + n)))
      × (size (append_all_true b n) ≡ size b + n)
unfolding append_all_true size
get-append_all_true b n j fits = (ground (arith, get-append_loop b (λ i. true) n j fits), size_of)
  where
    size_of : (append_all_true b n).bit_count ≡ b.bit_count + n
    size_of = unfold append_all_true append_loop in omega arith

-- In a valid bitmap of fewer than 2 ^ 64 - 63 bits, a bit that was set is hidden when Resize shrinks
-- the bitmap to k bits, below it, and shows again when Resize grows it back, as long as the k bits
-- reach into the word of the bit.
pub get-resize_bits_stale :
    (b : Bitmap) (i k : ℕ)
    → IsValid b
    → i < b.bit_count
    → b.bit_count + 63 < 2 ^ 64
    → k ≤ i
    → i / 64 * 64 < k
    → get b i ≡ true
    → (get (resize_bits b k) i ≡ false) × (get (resize_bits (resize_bits b k) b.bit_count) i ≡ true)
unfolding get resize_bits
get-resize_bits_stale b i k v h fits le w on = (
  get_bit_past (resize (words_for k) 0 b.words) k i le,
  ground (
    arith,
    get_bit-raw_bit b.words b.bit_count i h,
    get_bit-raw_bit (resize (words_for b.bit_count) 0 (resize (words_for k) 0 b.words)) b.bit_count
        i h,
    raw_bit-resize (resize (words_for k) 0 b.words) (words_for b.bit_count) i (omega arith),
    raw_bit-resize b.words (words_for k) i (omega arith),
  ),
)
