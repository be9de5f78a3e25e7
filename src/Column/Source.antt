-- ===== src/Column/Source.antt =====
-- engine/src/segment.cpp: the int64_t values that the encoders take from a column, the loops that
-- find the least and the greatest of them, and the arithmetic of differences.
use mimic_rag.Column.{u64, sub_u64}
use mimic_rag.FieldVector.{FieldType, FieldVector, is_type, is_valid}
use mimic_rag.Predicate.{biased, lt_int64}
use mimic_rag.Prelude.{
  ℕ, suc, ◌+◌, ◌-◌, ◌^◌, ◌≤◌, ◌<◌, ◌≡◌, refl, sym, ap, ◌∙◌, ◌⊎◌, inl, inr, Bool, true, false, not,
  ◌||◌, Option, none, some, arith, ltb, ◌==◌, if◌then◌else◌, Bool-cases, get_or, for_below,
  for_below_inv,
}

abbrev pub sign_extend32 : ℕ → ℕ
sign_extend32 w = if ltb w (2 ^ 31) then w else w + 2 ^ 64 - 2 ^ 32

-- The types that the three encoders accept.
abbrev pub is_encodable : FieldType → Bool
is_encodable t = is_type t FieldType.int32 || is_type t FieldType.int64 || is_type t FieldType.bool

-- The `switch` on the type of a column, for row i.
int_value_at : FieldVector → FieldType → ℕ → ℕ
int_value_at f FieldType.int32 i = sign_extend32 (get_or f.data_i32 i 0)
int_value_at f FieldType.int64 i = get_or f.data_i64 i 0
int_value_at f FieldType.bool i = if get_or f.data_bool i 0 == 0 then 0 else 1
int_value_at f _ i = 0

unfoldable pub int_value : FieldVector → ℕ → ℕ
unfolding int_value_at
int_value f i = int_value_at f f.type i

-- The value that the second loops encode: a null row counts as 0.
unfoldable pub value_or_zero : FieldVector → ℕ → ℕ
value_or_zero f i = if is_valid f i then int_value f i else 0

-- The first loop of EncodeForDelta: the least valid value, once there is one.
pub min_step : FieldVector → ℕ → Option ℕ → Option ℕ
min_step f i least = if not (is_valid f i) then least else elim least [
  | none ↦ some (int_value f i)
  | some low ↦ if lt_int64 (int_value f i) low then some (int_value f i) else some low
]

-- min_value with its initial value 0, which stays where no row is valid.
abbrev pub or_zero : Option ℕ → ℕ
or_zero none = 0
or_zero (some v) = v

unfoldable pub min_value : FieldVector → ℕ
unfolding min_step
min_value f = or_zero (for_below f.size (min_step f) none)

-- The invariant of the loop after n rounds.
abbrev pub IsLeast : FieldVector → ℕ → Option ℕ → Type 0
IsLeast f n none = (i : ℕ) → i < n → is_valid f i ≡ false
IsLeast f n (some low) =
    ((m : ℕ) × (m < n) × (is_valid f m ≡ true) × (int_value f m ≡ low))
    × ((i : ℕ) → i < n → is_valid f i ≡ true → biased low ≤ biased (int_value f i))

last_or_before : (i n : ℕ) → i < suc n → (i < n) ⊎ (i ≡ n)
last_or_before i n h = ground arith

-- A row that is not valid moves nothing.
IsLeast-skip :
    (f : FieldVector) (n : ℕ) (least : Option ℕ)
    → is_valid f n ≡ false
    → IsLeast f n least
    → IsLeast f (suc n) least
IsLeast-skip f n none e inv =
    λ i h. elim (last_or_before i n h) [ inl p ↦ inv i p | inr q ↦ ap (is_valid f) q ∙ e ]
IsLeast-skip f n (some low) e ((m, lt, v, is), below) = (
  (m, omega arith, v, is),
  λ i h ok. elim (last_or_before i n h) [
    | inl p ↦ below i p ok
    | inr q ↦ absurd (clash (sym ok ∙ ap (is_valid f) q ∙ e))
  ],
)
  where
    clash : true ≡ false → ⊥
    clash b = cc

-- The row's own value, where it is the least so far.
IsLeast-take :
    (f : FieldVector) (n : ℕ)
    → is_valid f n ≡ true
    → ((i : ℕ) → i < n → is_valid f i ≡ true → biased (int_value f n) ≤ biased (int_value f i))
    → IsLeast f (suc n) (some (int_value f n))
IsLeast-take f n e below = (
  (n, omega arith, e, refl),
  λ i h ok. elim (last_or_before i n h) [
    | inl p ↦ below i p ok
    | inr q ↦ rw (ap (λ k. biased (int_value f k)) q) (omega arith)
  ],
)

IsLeast-keep :
    (f : FieldVector) (n low : ℕ)
    → biased low ≤ biased (int_value f n)
    → IsLeast f n (some low)
    → IsLeast f (suc n) (some low)
IsLeast-keep f n low le ((m, lt, v, is), below) = (
  (m, omega arith, v, is),
  λ i h ok. elim (last_or_before i n h) [
    | inl p ↦ below i p ok
    | inr q ↦ rw (ap (λ k. biased (int_value f k)) q) le
  ],
)

min_step-IsLeast :
    (f : FieldVector) (n : ℕ) (least : Option ℕ)
    → IsLeast f n least
    → IsLeast f (suc n) (min_step f n least)
unfolding min_step
min_step-IsLeast f n none inv = elim (Bool-cases (is_valid f n)) [
  | inr e ↦ rw e (IsLeast-skip f n none e inv)
  | inl e ↦ rw e (IsLeast-take f n e (λ i h ok. absurd (clash (sym ok ∙ inv i h))))
]
  where
    clash : true ≡ false → ⊥
    clash b = cc
min_step-IsLeast f n (some low) inv = elim (Bool-cases (is_valid f n)) [
  | inr e ↦ rw e (IsLeast-skip f n (some low) e inv)
  | inl e ↦ rw e (elim (Bool-cases (lt_int64 (int_value f n) low)) [
    | inl less ↦ rw less (IsLeast-take f n e (λ i h ok. ground (arith, inv.1 i h ok)))
    | inr more ↦ rw more (IsLeast-keep f n low (ground arith) inv)
  ])
]

-- After both loops the base of an encoding is at most every valid value, and is one of them.
pub min_value_lem :
    (f : FieldVector) (i : ℕ)
    → i < f.size
    → is_valid f i ≡ true
    → ((m : ℕ) × (m < f.size) × (is_valid f m ≡ true) × (int_value f m ≡ min_value f))
      × (biased (min_value f) ≤ biased (int_value f i))
unfolding min_value
min_value_lem f i h ok = at (for_below f.size (min_step f) none) loop
  where
    loop : IsLeast f f.size (for_below f.size (min_step f) none)
    loop =
        for_below_inv (IsLeast f) f.size (min_step f) none (λ n t p inv. min_step-IsLeast f n t inv)
          (λ k p. absurd (omega arith))

    clash : true ≡ false → ⊥
    clash b = cc

    at :
        (least : Option ℕ)
        → IsLeast f f.size least
        → ((m : ℕ) × (m < f.size) × (is_valid f m ≡ true) × (int_value f m ≡ or_zero least))
          × (biased (or_zero least) ≤ biased (int_value f i))
    at none inv = absurd (clash (sym ok ∙ inv i h))
    at (some low) (found, below) = (found, below i h ok)

-- Every value that the switch reads is a 64-bit pattern, if the arrays hold values of their types.
pub record HoldsInts (f : FieldVector) : Type 0 where
  pub int32s : (i : ℕ) → get_or f.data_i32 i 0 < 2 ^ 32
  pub int64s : (i : ℕ) → get_or f.data_i64 i 0 < 2 ^ 64

pub int_value-lt : (f : FieldVector) (i : ℕ) → HoldsInts f → int_value f i < 2 ^ 64
unfolding int_value
int_value-lt f i ints = at f.type
  where
    at : (t : FieldType) → int_value_at f t i < 2 ^ 64
    at FieldType.int32 = unfold int_value_at in ground (arith, ints.int32s i)
    at FieldType.int64 = ints.int64s i
    at FieldType.bool = unfold int_value_at in ground arith
    at _ = omega arith

-- Where two patterns are as many as `d` apart in the signed order, the 64-bit difference is `d`.
pub sub_u64-biased :
    (a b : ℕ) → a < 2 ^ 64 → b < 2 ^ 64 → biased b ≤ biased a → sub_u64 a b ≡ biased a - biased b
sub_u64-biased a b p q h = omega arith

pub add-sub_u64 : (a b : ℕ) → a < 2 ^ 64 → b < 2 ^ 64 → u64 (b + sub_u64 a b) ≡ a
add-sub_u64 a b p q = omega arith
