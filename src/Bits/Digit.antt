-- ===== src/Bits/Digit.antt =====
-- The binary digits of a number, and those of the results of the bit operations.
use Prim.Native.Nat.{bit_and-bitwise}
use native.Mathlib.Nat.{pow-suc, one-le-pow, div-div-eq-div-mul, div-one}
use mimic_rag.Bits.Step.{bit_or_step, bit_and_step}
use mimic_rag.Prelude.{
  ℕ, zero, suc, ◌-◌, ◌*◌, ◌/◌, ◌%◌, ◌^◌, ◌≤◌, ◌<◌, min, max, bit_and, bit_or, ◌≡◌, ◌≢◌, refl, sym,
  ap, ◌∙◌, arith,
}

-- The digit of weight 2 ^ j, as 0 or 1.
pub digit : ℕ → ℕ → ℕ
digit zero w = w % 2
digit (suc j) w = digit j (w / 2)

pub digit-le_one : (j w : ℕ) → digit j w ≤ 1
unfolding digit
digit-le_one zero w = omega arith
digit-le_one (suc j) w = digit-le_one j (w / 2)

pub digit-bit_or : (j a b : ℕ) → digit j (bit_or a b) ≡ max (digit j a) (digit j b)
unfolding digit
digit-bit_or zero a b = omega (arith, bit_or_step a b)
digit-bit_or (suc j) a b =
    let e : bit_or a b / 2 ≡ bit_or (a / 2) (b / 2) = omega (arith, bit_or_step a b) in
    rw e (digit-bit_or j (a / 2) (b / 2))

pub digit-bit_and : (j a b : ℕ) → digit j (bit_and a b) ≡ min (digit j a) (digit j b)
unfolding digit
digit-bit_and zero a b = omega (arith, bit_and_step a b)
digit-bit_and (suc j) a b =
    let e : bit_and a b / 2 ≡ bit_and (a / 2) (b / 2) = omega (arith, bit_and_step a b) in
    rw e (digit-bit_and j (a / 2) (b / 2))

pub digit-zero : (j : ℕ) → digit j 0 ≡ 0
unfolding digit
digit-zero zero = refl
digit-zero (suc j) = digit-zero j

pub digit-pow_self : (j : ℕ) → digit j (2 ^ j) ≡ 1
unfolding digit
digit-pow_self zero = refl
digit-pow_self (suc j) =
    let e : 2 ^ suc j / 2 ≡ 2 ^ j = omega (arith, pow-suc 2 j) in rw e (digit-pow_self j)

pub digit-pow_ne : (b j : ℕ) → b ≢ j → digit j (2 ^ b) ≡ 0
unfolding digit
digit-pow_ne zero zero ne = absurd (ne refl)
digit-pow_ne zero (suc j) ne = digit-zero j
digit-pow_ne (suc b) zero ne = omega (arith, pow-suc 2 b)
digit-pow_ne (suc b) (suc j) ne =
    let e : 2 ^ suc b / 2 ≡ 2 ^ b = omega (arith, pow-suc 2 b) in
    rw e (digit-pow_ne b j (λ p. ne (ap suc p)))

-- `~m` in a word of `n` bits.
pub digit-complement : (n j m : ℕ) → m < 2 ^ n → j < n → digit j (2 ^ n - 1 - m) ≡ 1 - digit j m
unfolding digit
digit-complement zero j m h lt = absurd (omega arith)
digit-complement (suc n) zero m h lt = omega (arith, pow-suc 2 n, one-le-pow n 2 (omega arith))
digit-complement (suc n) (suc j) m h lt =
    let e : (2 ^ suc n - 1 - m) / 2 ≡ 2 ^ n - 1 - m / 2 =
      omega (arith, pow-suc 2 n, one-le-pow n 2 (omega arith)) in
    rw e (digit-complement n j (m / 2) (omega (arith, pow-suc 2 n)) (omega arith))

div-pow-suc : (w j : ℕ) → w / 2 ^ suc j ≡ w / 2 / 2 ^ j
div-pow-suc w j =
    ap (λ t. w / t) (let e : 2 ^ suc j ≡ 2 * 2 ^ j = omega (arith, pow-suc 2 j) in e)
    ∙ sym (div-div-eq-div-mul w 2 (2 ^ j))

pub digit-shift : (j w : ℕ) → w / 2 ^ j % 2 ≡ digit j w
unfolding digit
digit-shift zero w = ap (λ t. t % 2) (div-one w)
digit-shift (suc j) w = ap (λ t. t % 2) (div-pow-suc w j) ∙ digit-shift j (w / 2)

pub bit_and-one : (a : ℕ) → bit_and a 1 ≡ a % 2
bit_and-one a = omega (arith, bit_and_step a 1, zero_right (a / 2) (a / 2) (omega arith))
  where
    zero_right : (n c : ℕ) → c ≤ n → bit_and c 0 ≡ 0
    zero_right n zero h = refl
    zero_right zero (suc c) h = absurd (omega arith)
    zero_right (suc n) (suc c) h =
        omega (arith, bit_and_step (suc c) 0, zero_right n (suc c / 2) (omega arith))

-- A number below 2 ^ n is determined by its first n digits.
pub digit_ext :
    (n a b : ℕ) → a < 2 ^ n → b < 2 ^ n → ((j : ℕ) → j < n → digit j a ≡ digit j b) → a ≡ b
unfolding digit
digit_ext zero a b p q h = omega arith
digit_ext (suc n) a b p q h =
    let lo : a % 2 ≡ b % 2 = h 0 (omega arith) in
    let hi : a / 2 ≡ b / 2 =
      digit_ext n (a / 2) (b / 2) (omega (arith, pow-suc 2 n)) (omega (arith, pow-suc 2 n))
        (λ j lt. h (suc j) (omega arith)) in
    omega arith

-- The digits of weight 2 ^ n and more are 0 below 2 ^ n.
pub digit-ge_width : (n j a : ℕ) → a < 2 ^ n → n ≤ j → digit j a ≡ 0
unfolding digit
digit-ge_width zero j a h le = rw (let e : a ≡ 0 = omega arith in e) (digit-zero j)
digit-ge_width (suc n) zero a h le = absurd (omega arith)
digit-ge_width (suc n) (suc j) a h le =
    digit-ge_width n j (a / 2) (omega (arith, pow-suc 2 n)) (omega arith)

pub bit_or-lt : (n a b : ℕ) → a < 2 ^ n → b < 2 ^ n → bit_or a b < 2 ^ n
bit_or-lt zero a b p q =
    rw (let e : a ≡ 0 = omega arith in e) (rw (let e : b ≡ 0 = omega arith in e) (omega arith))
bit_or-lt (suc n) a b p q = omega (
  arith,
  bit_or_step a b,
  pow-suc 2 n,
  bit_or-lt n (a / 2) (b / 2) (omega (arith, pow-suc 2 n)) (omega (arith, pow-suc 2 n)),
)

pub bit_and-lt : (n a b : ℕ) → a < 2 ^ n → bit_and a b < 2 ^ n
bit_and-lt zero a b p = rw (let e : a ≡ 0 = omega arith in e, bit_and-bitwise) (omega arith)
bit_and-lt (suc n) a b p = omega (
  arith,
  bit_and_step a b,
  pow-suc 2 n,
  bit_and-lt n (a / 2) (b / 2) (omega (arith, pow-suc 2 n)),
)
