-- ===== src/Catalog/Stream.antt =====
-- rag_cpp/src/catalog.cpp: the input stream of a catalog file. A reader works on the bytes that are
-- left: it returns a value and the bytes behind it, finds too few bytes, or throws.
use mimic_rag.Bytes.{le_bytes, read_le, length-le_bytes, read_le-le_bytes}
use mimic_rag.Prelude.{
  ℕ, zero, suc, ◌-◌, ◌^◌, ◌≤◌, ◌<◌, ◌≡◌, refl, sym, ap, ap₂, ◌∙◌, Bool, true, false, Option, none,
  some, List, [], ◌∷◌, ◌++◌, arith, dec_lt, ltb, if◌then◌else◌, length, take, drop, length-append,
  length-take, take-append, drop-append, append_assoc, subst, append-nil,
}

-- What Replay throws.
pub data CatalogError : Type 0 where
  invalid_header invalid_record checksum_mismatch decompression_failed parse_failed consumer_threw :
      CatalogError

pub data Outcome {ℓ} (A : Type ℓ) : Type ℓ where
  got : A → List ℕ → Outcome A
  short : Outcome A
  bad : CatalogError → Outcome A

abbrev pub Reader {ℓ} : Type ℓ → Type ℓ
Reader A = List ℕ → Outcome A

module _ {ℓ κ} {A : Type ℓ} {B : Type κ} where
  abbrev pub continue : Outcome A → (A → Reader B) → Outcome B
  continue (got a rest) f = f a rest
  continue short f = short
  continue (bad e) f = bad e

  infixl 10 ◌>>=◌ ◌>>◌
  abbrev pub ◌>>=◌ : Reader A → (A → Reader B) → Reader B
  ◌>>=◌ p f bytes = continue (p bytes) f

  abbrev pub ◌>>◌ : Reader A → Reader B → Reader B
  p >> q = p >>= λ _. q

module _ {ℓ} {A : Type ℓ} where
  abbrev pub pure : A → Reader A
  pure a bytes = got a bytes

  abbrev pub too_short : Reader A
  too_short bytes = short

-- if (!test) throw
abbrev pub require : Bool → CatalogError → Reader (Unit {0})
require true e bytes = got tt bytes
require false e bytes = bad e

-- A result of a library call that throws on `none`.
abbrev pub or_throw {ℓ} : {A : Type ℓ} → Option A → CatalogError → Reader A
or_throw none e bytes = bad e
or_throw (some a) e bytes = got a bytes

-- input.read(data, n)
unfoldable pub read_block : ℕ → Reader (List ℕ)
read_block n bytes = if ltb (length bytes) n then short else got (take n bytes) (drop n bytes)

-- Read(input, &value) of a type of w bytes
unfoldable pub read_int : ℕ → Reader ℕ
read_int w bytes = if ltb (length bytes) w then short else got (read_le w bytes 0) (drop w bytes)

-- A reader takes exactly these bytes for this value, and on fewer of them it runs short.
pub record Takes {ℓ} {A : Type ℓ} (p : Reader A) (bytes : List ℕ) (value : A) : Type ℓ where
  pub whole : (rest : List ℕ) → p (bytes ++ rest) ≡ got value rest
  pub torn : (k : ℕ) → k < length bytes → p (take k bytes) ≡ short

take-append_short : (k : ℕ) (xs ys : List ℕ) → k ≤ length xs → take k (xs ++ ys) ≡ take k xs
take-append_short zero xs ys h = refl
take-append_short (suc k) [] ys h = absurd (omega arith)
take-append_short (suc k) (x ∷ xs) ys h = ap (λ l. x ∷ l) (take-append_short k xs ys (omega arith))

take-append_long :
    (k : ℕ) (xs ys : List ℕ) → length xs ≤ k → take k (xs ++ ys) ≡ xs ++ take (k - length xs) ys
take-append_long k [] ys h = ap (λ n. take n ys) (omega arith)
take-append_long zero (x ∷ xs) ys h = absurd (omega arith)
take-append_long (suc k) (x ∷ xs) ys h =
    ap (λ l. x ∷ l)
      (take-append_long k xs ys (omega arith)
        ∙ ap (λ n. xs ++ take n ys)
            (let e : k - length xs ≡ suc k - suc (length xs) = omega arith in e))

module _ {ℓ κ} {A : Type ℓ} {B : Type κ} where
  pub Takes-bind :
      (p : Reader A) (f : A → Reader B) (xs ys : List ℕ) (a : A) (b : B)
      → Takes p xs a
      → Takes (f a) ys b
      → Takes (p >>= f) (xs ++ ys) b
  Takes-bind p f xs ys a b first second = record {
    whole = λ rest.
        ap (λ l. continue (p l) f) (append_assoc xs ys rest)
        ∙ ap (λ o. continue o f) (first.whole (ys ++ rest))
        ∙ second.whole rest;
    torn = λ k h. elim (dec_lt k (length xs)) [
      | yes less ↦
          ap (λ l. continue (p l) f) (take-append_short k xs ys (omega arith))
          ∙ ap (λ o. continue o f) (first.torn k less)
      | no more ↦
          ap (λ l. continue (p l) f) (take-append_long k xs ys (omega arith))
          ∙ ap (λ o. continue o f) (first.whole (take (k - length xs) ys))
          ∙ second.torn (k - length xs) (omega (arith, length-append xs ys))
    ];
  }

-- A reader throws after these bytes, whatever follows them.
abbrev pub Rejects {ℓ} : {A : Type ℓ} → Reader A → List ℕ → CatalogError → Type ℓ
Rejects p bytes e = (rest : List ℕ) → p (bytes ++ rest) ≡ bad e

module _ {ℓ κ} {A : Type ℓ} {B : Type κ} where
  pub Rejects-bind :
      (p : Reader A) (f : A → Reader B) (xs ys : List ℕ) (a : A) (e : CatalogError)
      → Takes p xs a
      → Rejects (f a) ys e
      → Rejects (p >>= f) (xs ++ ys) e
  Rejects-bind p f xs ys a e first second rest =
      ap (λ l. continue (p l) f) (append_assoc xs ys rest)
      ∙ ap (λ o. continue o f) (first.whole (ys ++ rest))
      ∙ second rest

pub Rejects-require {ℓ} :
    {B : Type ℓ} (test : Bool) (e : CatalogError) (f : Unit {0} → Reader B)
    → test ≡ false
    → Rejects (require test e >>= f) [] e
Rejects-require test e f h rest = ap (λ t. continue (require t e rest) f) h

module _ {ℓ} {A : Type ℓ} where
  pub Takes-pure : (a : A) → Takes (pure a) [] a
  Takes-pure a = record { whole = λ rest. refl; torn = λ k h. absurd (omega arith) }

  pub Takes-value : (p : Reader A) (xs : List ℕ) (a b : A) → a ≡ b → Takes p xs a → Takes p xs b
  Takes-value p xs a b e t = subst (Takes p xs) e t

  -- Nothing but bytes is looked at, so an equal reader takes the same.
  pub Takes-nil : (p : Reader A) (a : A) → ((rest : List ℕ) → p rest ≡ got a rest) → Takes p [] a
  Takes-nil p a e = record { whole = e; torn = λ k h. absurd (omega arith) }

module _ {ℓ κ} {A : Type ℓ} {B : Type κ} where
  -- The last step of a reader only builds its value.
  pub Takes-map :
      (p : Reader A) (f : A → B) (xs : List ℕ) (a : A)
      → Takes p xs a
      → Takes (p >>= λ v. pure (f v)) xs (f a)
  Takes-map p f xs a first =
      subst (λ l. Takes (p >>= λ v. pure (f v)) l (f a)) (append-nil xs)
        (Takes-bind p (λ v. pure (f v)) xs [] a (f a) first (Takes-pure (f a)))

  -- The steps behind the last bytes take none.
  pub Takes-last :
      (p : Reader A) (f : A → Reader B) (xs : List ℕ) (a : A) (b : B)
      → Takes p xs a
      → Takes (f a) [] b
      → Takes (p >>= f) xs b
  Takes-last p f xs a b first second =
      subst (λ l. Takes (p >>= f) l b) (append-nil xs) (Takes-bind p f xs [] a b first second)

  pub Rejects-last :
      (p : Reader A) (f : A → Reader B) (xs : List ℕ) (a : A) (e : CatalogError)
      → Takes p xs a
      → Rejects (f a) [] e
      → Rejects (p >>= f) xs e
  Rejects-last p f xs a e first second =
      subst (λ l. Rejects (p >>= f) l e) (append-nil xs) (Rejects-bind p f xs [] a e first second)

  -- A step that takes no bytes.
  pub Takes-step :
      (p : Reader A) (f : A → Reader B) (ys : List ℕ) (a : A) (b : B)
      → Takes p [] a
      → Takes (f a) ys b
      → Takes (p >>= f) ys b
  Takes-step p f ys a b first second = Takes-bind p f [] ys a b first second

pub Takes-require : (test : Bool) (e : CatalogError) → test ≡ true → Takes (require test e) [] tt
Takes-require test e h = Takes-nil (require test e) tt (λ rest. ap (λ t. require t e rest) h)

pub Takes-or_throw {ℓ} :
    {A : Type ℓ} (o : Option A) (e : CatalogError) (a : A) → o ≡ some a → Takes (or_throw o e) [] a
Takes-or_throw o e a h = Takes-nil (or_throw o e) a (λ rest. ap (λ t. or_throw t e rest) h)

pub Takes-read_block :
    (n : ℕ) (bytes : List ℕ) → length bytes ≡ n → Takes (read_block n) bytes bytes
unfolding read_block
Takes-read_block n bytes e = record { whole = whole; torn = torn }
  where
    whole : (rest : List ℕ) → read_block n (bytes ++ rest) ≡ got bytes rest
    whole rest =
        unfold read_block in
        let enough : ltb (length (bytes ++ rest)) n ≡ false =
          ground (arith, length-append bytes rest) in
        rw enough (
          ap₂ (λ a b. got a b) (ap (λ m. take m (bytes ++ rest)) (sym e) ∙ take-append bytes rest)
            (ap (λ m. drop m (bytes ++ rest)) (sym e) ∙ drop-append bytes rest))

    torn : (k : ℕ) → k < length bytes → read_block n (take k bytes) ≡ short
    torn k h =
        unfold read_block in
        let few : ltb (length (take k bytes)) n ≡ true = ground (arith, length-take k bytes) in
        rw few refl

pub Takes-read_int : (w v : ℕ) → v < 256 ^ w → Takes (read_int w) (le_bytes w v) v
unfolding read_int
Takes-read_int w v fits = record { whole = whole; torn = torn }
  where
    whole : (rest : List ℕ) → read_int w (le_bytes w v ++ rest) ≡ got v rest
    whole rest =
        unfold read_int in
        let enough : ltb (length (le_bytes w v ++ rest)) w ≡ false =
          ground (arith, length-append (le_bytes w v) rest, length-le_bytes w v) in
        rw enough (
          ap₂ (λ a b. got a b) (read_le-le_bytes w v rest fits)
            (ap (λ m. drop m (le_bytes w v ++ rest)) (sym (length-le_bytes w v))
              ∙ drop-append (le_bytes w v) rest))

    torn : (k : ℕ) → k < length (le_bytes w v) → read_int w (take k (le_bytes w v)) ≡ short
    torn k h =
        unfold read_int in
        let few : ltb (length (take k (le_bytes w v))) w ≡ true =
          ground (arith, length-take k (le_bytes w v), length-le_bytes w v) in
        rw few refl
