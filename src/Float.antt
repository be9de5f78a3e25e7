-- ===== src/Float.antt =====
-- The type `double` with its comparisons, a parameter of the development: the laws are those that
-- IEEE 754 gives to every value, NaN included; a value is a number, not NaN, where it equals itself.
use mimic_rag.Prelude.{ℕ, ◌≡◌, refl, Bool, true, false, ◌||◌, Option, some, arith, ltb, leb, ◌==◌}

pub record Float64 : Type 1 where
  pub Value : Type 0
  pub feq : Value → Value → Bool
  pub flt : Value → Value → Bool
  pub fle : Value → Value → Bool
  pub fgt : Value → Value → Bool
  pub fge : Value → Value → Bool
  pub fle_def : (a b : Value) → fle a b ≡ (feq a b || flt a b)
  pub fgt_def : (a b : Value) → fgt a b ≡ flt b a
  pub fge_def : (a b : Value) → fge a b ≡ fle b a
  pub feq_symm : (a b : Value) → feq a b ≡ true → feq b a ≡ true
  pub feq_trans : (a b c : Value) → feq a b ≡ true → feq b c ≡ true → feq a c ≡ true
  pub flt_asymm : (a b : Value) → flt a b ≡ true → fle b a ≡ false
  pub fle_trans : (a b c : Value) → fle a b ≡ true → fle b c ≡ true → fle a c ≡ true
  pub flt-fle_trans : (a b c : Value) → flt a b ≡ true → fle b c ≡ true → flt a c ≡ true
  pub fle-flt_trans : (a b c : Value) → fle a b ≡ true → flt b c ≡ true → flt a c ≡ true
  pub fle_total : (a b : Value) → feq a a ≡ true → feq b b ≡ true → (fle a b || flt b a) ≡ true

-- A concrete instance: the natural numbers with one NaN, which no comparison accepts.
abbrev pub sample_eq : Option ℕ → Option ℕ → Bool
sample_eq (some a) (some b) = a == b
sample_eq _ _ = false

abbrev pub sample_lt : Option ℕ → Option ℕ → Bool
sample_lt (some a) (some b) = ltb a b
sample_lt _ _ = false

abbrev pub sample_le : Option ℕ → Option ℕ → Bool
sample_le (some a) (some b) = leb a b
sample_le _ _ = false

pub sample_le_def : (a b : Option ℕ) → sample_le a b ≡ (sample_eq a b || sample_lt a b)
sample_le_def a b = ground arith

pub sample_eq_symm : (a b : Option ℕ) → sample_eq a b ≡ true → sample_eq b a ≡ true
sample_eq_symm a b h = ground arith

pub sample_eq_trans :
    (a b c : Option ℕ) → sample_eq a b ≡ true → sample_eq b c ≡ true → sample_eq a c ≡ true
sample_eq_trans a b c h k = ground arith

pub sample_lt_asymm : (a b : Option ℕ) → sample_lt a b ≡ true → sample_le b a ≡ false
sample_lt_asymm a b h = ground arith

pub sample_le_trans :
    (a b c : Option ℕ) → sample_le a b ≡ true → sample_le b c ≡ true → sample_le a c ≡ true
sample_le_trans a b c h k = ground arith

pub sample_lt-le_trans :
    (a b c : Option ℕ) → sample_lt a b ≡ true → sample_le b c ≡ true → sample_lt a c ≡ true
sample_lt-le_trans a b c h k = ground arith

pub sample_le-lt_trans :
    (a b c : Option ℕ) → sample_le a b ≡ true → sample_lt b c ≡ true → sample_lt a c ≡ true
sample_le-lt_trans a b c h k = ground arith

pub sample_le_total :
    (a b : Option ℕ)
    → sample_eq a a ≡ true
    → sample_eq b b ≡ true
    → (sample_le a b || sample_lt b a) ≡ true
sample_le_total a b h k = ground arith

abbrev pub sample_float : Float64
sample_float = record {
  Value = Option ℕ;
  feq = sample_eq;
  flt = sample_lt;
  fle = sample_le;
  fgt = λ a b. sample_lt b a;
  fge = λ a b. sample_le b a;
  fle_def = sample_le_def;
  fgt_def = λ a b. refl;
  fge_def = λ a b. refl;
  feq_symm = sample_eq_symm;
  feq_trans = sample_eq_trans;
  flt_asymm = sample_lt_asymm;
  fle_trans = sample_le_trans;
  flt-fle_trans = sample_lt-le_trans;
  fle-flt_trans = sample_le-lt_trans;
  fle_total = sample_le_total;
}
