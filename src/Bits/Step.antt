-- ===== src/Bits/Step.antt =====
-- The lowest binary digit of the results of `&` and `|`. Their native definition is a recursion on
-- digits, with the left number as its fuel.
use Prim.Native.Nat.{digits, bitwise, bit_and-bitwise, bit_or-bitwise}
use native.Mathlib.Decide.{dec_lt}
use mimic_rag.Prelude.{
  ℕ, zero, suc, ◌+◌, ◌*◌, ◌/◌, ◌%◌, ◌≤◌, ◌<◌, min, max, bit_and, bit_or, ◌≡◌, refl, ap, ◌∙◌, arith,
}

module _ (alone : ℕ → ℕ) (both : ℕ → ℕ → ℕ) where
  -- A number that its fuel covers needs no further step.
  digits-suc :
      (fuel left right : ℕ)
      → left ≤ fuel
      → digits alone both (suc fuel) left right ≡ digits alone both fuel left right
  digits-suc zero zero right h = refl
  digits-suc (suc fuel) zero right h = refl
  digits-suc zero (suc left) right h = absurd (omega arith)
  digits-suc (suc fuel) (suc left) right h =
      ap (λ high. high * 2 + both (suc left % 2) (right % 2))
        (digits-suc fuel (suc left / 2) (right / 2) (omega arith))

  -- So any fuel that covers it gives the result of its own.
  digits-bitwise :
      (fuel left right : ℕ)
      → left ≤ fuel
      → digits alone both fuel left right ≡ bitwise alone both left right
  digits-bitwise fuel left right h = elim (dec_lt left fuel) [
    | no enough ↦ ap (λ n. digits alone both n left right) (omega arith)
    | yes less ↦ shrink fuel less
  ]
    where
      shrink : (n : ℕ) → left < n → digits alone both n left right ≡ bitwise alone both left right
      shrink zero p = absurd (omega arith)
      shrink (suc n) p = digits-suc n left right (omega arith) ∙ (elim (dec_lt left n) [
        | yes q ↦ shrink n q
        | no q ↦ ap (λ m. digits alone both m left right) (omega arith)
      ])

  bitwise-half :
      (k right : ℕ)
      → bitwise alone both (suc k) right
        ≡ bitwise alone both (suc k / 2) (right / 2) * 2 + both (suc k % 2) (right % 2)
  bitwise-half k right =
      ap (λ high. high * 2 + both (suc k % 2) (right % 2))
        (digits-bitwise k (suc k / 2) (right / 2) (omega arith))

pub bit_and_step : (v w : ℕ) → bit_and v w ≡ bit_and (v / 2) (w / 2) * 2 + min (v % 2) (w % 2)
bit_and_step (suc k) w = simp bit_and-bitwise (bitwise-half (λ y. 0) min k w)
bit_and_step zero w = simp bit_and-bitwise (omega arith)

pub bit_or_step : (v w : ℕ) → bit_or v w ≡ bit_or (v / 2) (w / 2) * 2 + max (v % 2) (w % 2)
bit_or_step (suc k) w = simp bit_or-bitwise (bitwise-half (λ y. y) max k w)
bit_or_step zero w = simp bit_or-bitwise (omega arith)
