-- ===== src/Prelude/Passing.antt =====
-- The indices below a bound that pass a test: how many, and the list of them.
use Prim.Native.Nat.{ℕ, zero, suc, ◌+◌}
use mathlib.Core.Path.{◌≡◌, refl, ap}
use mathlib.Core.Bool.{Bool, ◌&&◌}
use mathlib.Core.List.{List, [], ◌∷◌, ◌++◌}
use native.Mathlib.Decide.{ℕ_discrete}
use native.Mathlib.Omega.{arith}
use mimic_rag.Prelude.Lists.{length, length-append, count, count-append, count_single}
use mimic_rag.Prelude.Tests.{if◌then◌else◌, ltb}

-- How many of the indices below n pass the test.
unfoldable pub rank : (ℕ → Bool) → ℕ → ℕ
rank p zero = 0
rank p (suc n) = rank p n + (if p n then 1 else 0)

-- The indices below n that pass, in order.
unfoldable pub passing : (ℕ → Bool) → ℕ → List ℕ
passing p zero = []
passing p (suc n) = if p n then passing p n ++ n ∷ [] else passing p n

pub length-passing : (p : ℕ → Bool) (n : ℕ) → length (passing p n) ≡ rank p n
unfolding passing rank
length-passing p zero = refl
length-passing p (suc n) = ground (arith, length-append (passing p n) (n ∷ []), length-passing p n)

pub count-passing :
    (p : ℕ → Bool) (n i : ℕ) → count i (passing p n) ≡ (if ltb i n && p i then 1 else 0)
unfolding passing
count-passing p zero i = unfold count in ground arith
count-passing p (suc n) i = elim (ℕ_discrete n i) [
  | yes e ↦
      ground (
        arith,
        count-append i (passing p n) (n ∷ []),
        count_single i n,
        count-passing p n i,
        ap p e,
      )
  | no ne ↦
      ground (arith, count-append i (passing p n) (n ∷ []), count_single i n, count-passing p n i)
]
