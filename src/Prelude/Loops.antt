-- ===== src/Prelude/Loops.antt =====
-- The counted loop, with its invariant rule, and the loop that fills an array.
use Prim.Native.Nat.{ℕ, zero, suc, ◌+◌, ◌*◌, ◌/◌, ◌%◌, ◌≤◌, ◌<◌}
use mathlib.Core.Path.{◌≡◌, refl, sym, ap, ◌∙◌}
use mathlib.Core.List.{List}
use mathlib.Core.Bool.{Bool, ◌&&◌}
use native.Mathlib.Decide.{ℕ_discrete}
use native.Mathlib.Omega.{arith}
use mimic_rag.Prelude.Lists.{length, get_or, set, length-set, get_or-set_self, get_or-set_ne}
use mimic_rag.Prelude.Tests.{if◌then◌else◌, ltb}

module _ {ℓ} {S : Type ℓ} where
  -- for (i = 0; i < n; ++i) s = body i s: the round of the greatest index comes last.
  abbrev pub for_below : ℕ → (ℕ → S → S) → S → S
  for_below zero body s = s
  for_below (suc n) body s = body n (for_below n body s)

  pub for_below_inv {κ} :
      (P : ℕ → S → Type κ) (n : ℕ) (body : ℕ → S → S) (s : S)
      → ((i : ℕ) (t : S) → i < n → P i t → P (suc i) (body i t))
      → P 0 s
      → P n (for_below n body s)
  for_below_inv P zero body s keep h = h
  for_below_inv P (suc n) body s keep h =
      keep n _ (omega arith) (for_below_inv P n body s (λ i t p. keep i t (omega arith)) h)

module _ {ℓ} {S : Type ℓ} where
  -- A loop of a + b rounds is a loop of a rounds and then one of b rounds that starts at a.
  pub for_below-add :
      (a b : ℕ) (body : ℕ → S → S) (s : S)
      → for_below (a + b) body s ≡ for_below b (λ i t. body (a + i) t) (for_below a body s)
  for_below-add a zero body s =
      ap (λ k. for_below k body s) (let e : a + zero ≡ a = omega arith in e)
  for_below-add a (suc b) body s =
      ap (λ k. for_below k body s) (let e : a + suc b ≡ suc (a + b) = omega arith in e)
      ∙ ap (body (a + b)) (for_below-add a b body s)

  -- for (; i + 3 < n; i += 4) { body i; body (i + 1); body (i + 2); body (i + 3) } and then
  -- for (; i < n; ++i) body i: the first loop runs n / 4 rounds.
  abbrev pub unrolled : ℕ → (ℕ → S → S) → S → S
  unrolled n body s =
      for_below (n % 4) (λ i t. body (n / 4 * 4 + i) t)
        (for_below (n / 4)
          (λ q t. body (q * 4 + 3) (body (q * 4 + 2) (body (q * 4 + 1) (body (q * 4) t)))) s)

  quads :
      (q : ℕ) (body : ℕ → S → S) (s : S)
      → for_below q
          (λ k t. body (k * 4 + 3) (body (k * 4 + 2) (body (k * 4 + 1) (body (k * 4) t))))
          s
        ≡ for_below (q * 4) body s
  quads zero body s = refl
  quads (suc q) body s =
      ap (λ t. body (q * 4 + 3) (body (q * 4 + 2) (body (q * 4 + 1) (body (q * 4) t))))
        (quads q body s)
      ∙ sym (for_below-add (q * 4) 4 body s ∙ start)
      ∙ ap (λ k. for_below k body s) (let e : q * 4 + 4 ≡ suc q * 4 = omega arith in e)
    where
      start :
          for_below 4 (λ i t. body (q * 4 + i) t) (for_below (q * 4) body s)
          ≡ body
              (q * 4 + 3)
              (body (q * 4 + 2) (body (q * 4 + 1) (body (q * 4) (for_below (q * 4) body s))))
      start =
          ap
            (λ k.
              body (q * 4 + 3)
                (body (q * 4 + 2) (body (q * 4 + 1) (body k (for_below (q * 4) body s)))))
            (let e : q * 4 + 0 ≡ q * 4 = omega arith in e)

  -- The unrolled loop is the plain one.
  pub unrolled-for_below :
      (n : ℕ) (body : ℕ → S → S) (s : S) → unrolled n body s ≡ for_below n body s
  unrolled-for_below n body s =
      ap (for_below (n % 4) (λ i t. body (n / 4 * 4 + i) t)) (quads (n / 4) body s)
      ∙ sym (for_below-add (n / 4 * 4) (n % 4) body s)
      ∙ ap (λ k. for_below k body s) (let e : n / 4 * 4 + n % 4 ≡ n = omega arith in e)

module _ {ℓ} {A : Type ℓ} where
  -- for (i = 0; i < n; ++i) if (keep(i)) xs[i] = f(i)
  abbrev pub fill_if : ℕ → (ℕ → Bool) → (ℕ → A) → List A → List A
  fill_if n keep f = for_below n (λ i xs. if keep i then set xs i (f i) else xs)

  pub length-fill_if :
      (n : ℕ) (keep : ℕ → Bool) (f : ℕ → A) (xs : List A) → length (fill_if n keep f xs) ≡ length xs
  length-fill_if zero keep f xs = refl
  length-fill_if (suc n) keep f xs =
      ground (arith, length-set (fill_if n keep f xs) n (f n), length-fill_if n keep f xs)

  pub get_or-fill_if :
      (n : ℕ) (keep : ℕ → Bool) (f : ℕ → A) (xs : List A) (k : ℕ) (d : A)
      → n ≤ length xs
      → get_or (fill_if n keep f xs) k d ≡ (if ltb k n && keep k then f k else get_or xs k d)
  get_or-fill_if zero keep f xs k d h = ground arith
  get_or-fill_if (suc n) keep f xs k d h = elim (ℕ_discrete n k) [
    | yes e ↦ ground (
      arith,
      get_or-set_self (fill_if n keep f xs) n (f n) d,
      length-fill_if n keep f xs,
      get_or-fill_if n keep f xs k d,
      ap keep e,
    )
    | no ne ↦
        ground (
          arith,
          get_or-set_ne (fill_if n keep f xs) n k (f n) d ne,
          get_or-fill_if n keep f xs k d,
        )
  ]

module _ {ℓ} {A : Type ℓ} where
  -- for (i = 0; i < n; ++i) xs[i] = f(i)
  abbrev pub fill : ℕ → (ℕ → A) → List A → List A
  fill n f = for_below n (λ i xs. set xs i (f i))

  pub length-fill : (n : ℕ) (f : ℕ → A) (xs : List A) → length (fill n f xs) ≡ length xs
  length-fill zero f xs = refl
  length-fill (suc n) f xs = length-set (fill n f xs) n (f n) ∙ length-fill n f xs

  pub get_or-fill :
      (n : ℕ) (f : ℕ → A) (xs : List A) (k : ℕ) (d : A)
      → n ≤ length xs
      → get_or (fill n f xs) k d ≡ (if ltb k n then f k else get_or xs k d)
  get_or-fill zero f xs k d h = ground arith
  get_or-fill (suc n) f xs k d h = elim (ℕ_discrete n k) [
    | yes e ↦
        ground (
          arith,
          get_or-set_self (fill n f xs) n (f n) d,
          length-fill n f xs,
          get_or-fill n f xs k d,
        )
    | no ne ↦ ground (arith, get_or-set_ne (fill n f xs) n k (f n) d ne, get_or-fill n f xs k d)
  ]
