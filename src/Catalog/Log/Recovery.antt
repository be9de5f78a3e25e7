-- ===== src/Catalog/Log/Recovery.antt =====
-- rag_cpp/src/catalog.cpp: Replay hands out the records of the log in order, also behind a torn last
-- write, which it cuts off, and throws on a record whose bytes do not have the hash stored with them.
use mimic_rag.Catalog.{Codec, CatalogRecord, file_header}
use mimic_rag.Catalog.Replay.{
  read_file_header, read_record, Replayed, done, failed, replay_loop, replay_loop-suc, after_header,
  replay,
}
use mimic_rag.Catalog.Stored.{Storable}
use mimic_rag.Catalog.Stored.Record.{
  stored_bytes, bytes_under, content_hash, Takes-read_record, Rejects-read_record,
}
use mimic_rag.Catalog.Stream.{CatalogError, got, short, bad}
use mimic_rag.Prelude.{
  ℕ, zero, suc, ◌+◌, ◌-◌, ◌^◌, ◌≤◌, ◌<◌, ◌≡◌, refl, sym, ap, ◌∙◌, ◌≢◌, inl, inr, Option, none, some,
  List, [], ◌∷◌, ◌++◌, arith, Option-cases, length, take, length-append, length-take, take-append,
  append-nil, append_assoc,
}
use mimic_rag.Catalog.Log.{
  Log, records_of, body_of, file_of, long_enough, Takes-read_file_header, stored_bytes-nonempty,
}

module _ {ℓ} (c : Codec) {S : Type ℓ} (consume : CatalogRecord c → S → Option S) where
  -- The specification of Replay: the records in their order, up to the first on which the consumer
  -- throws, and then the end.
  unfoldable pub hand_out : List (CatalogRecord c) → (S → ℕ → Replayed S) → S → ℕ → Replayed S
  hand_out [] end s n = end s n
  hand_out (r ∷ rs) end s n =
      let rest : S → Replayed S = λ s'. hand_out rs end s' (n + 1) in
      elim (consume r s) [ none ↦ failed s CatalogError.consumer_threw | some s' ↦ rest s' ]

  -- The loop over the records of a log, and a tail on which it ends.
  replay_loop-body_of :
      (log : Log c) (file tail : List ℕ) (end : S → ℕ → Replayed S) (fuel : ℕ) (s : S) (n : ℕ)
      → length (body_of c log ++ tail) ≤ fuel
      → ((f : ℕ) (t : S) (m : ℕ)
          → length tail ≤ f
          → replay_loop c consume f file tail t m ≡ end t m)
      → replay_loop c consume fuel file (body_of c log ++ tail) s n
        ≡ hand_out (records_of c log) end s n
  unfolding body_of records_of hand_out
  replay_loop-body_of [] file tail end fuel s n h ends = ends fuel s n h
  replay_loop-body_of ((r, t) ∷ log) file tail end zero s n h ends =
      absurd (omega (arith, longer, stored_bytes-nonempty c r t (content_hash c r t)))
    where
      longer :
          length (stored_bytes c r t ++ body_of c log ++ tail)
          ≡ length (stored_bytes c r t) + length (body_of c log) + length tail
      longer = omega (
        arith,
        length-append (stored_bytes c r t ++ body_of c log) tail,
        length-append (stored_bytes c r t) (body_of c log),
      )
  replay_loop-body_of ((r, t) ∷ log) file tail end (suc fuel) s n h ends =
      replay_loop-suc c consume fuel file (stored_bytes c r t ++ body_of c log ++ tail) s n
        (got r (body_of c log ++ tail)) (omega (arith, longer, pos)) read
      ∙ (elim (Option-cases (consume r s)) [
        | inl e ↦ rw e refl
        | inr (s', e) ↦ rw e (
            replay_loop-body_of log file tail end fuel s' (n + 1)
              (omega (arith, longer, pos, length-append (body_of c log) tail)) ends)
      ])
    where
      longer :
          length (stored_bytes c r t ++ body_of c log ++ tail)
          ≡ length (stored_bytes c r t) + length (body_of c log) + length tail
      longer = omega (
        arith,
        length-append (stored_bytes c r t ++ body_of c log) tail,
        length-append (stored_bytes c r t) (body_of c log),
      )

      pos : 0 < length (stored_bytes c r t)
      pos = stored_bytes-nonempty c r t (content_hash c r t)

      read :
          read_record c (stored_bytes c r t ++ body_of c log ++ tail)
          ≡ got r (body_of c log ++ tail)
      read =
          ap (read_record c) (append_assoc (stored_bytes c r t) (body_of c log) tail)
          ∙ (Takes-read_record c r t).whole (body_of c log ++ tail)

  -- Replay of a file for a log with such a tail.
  replay-body_of :
      (log : Log c) (tail : List ℕ) (end : S → ℕ → Replayed S) (s : S)
      → ((f : ℕ) (t : S) (m : ℕ)
          → length tail ≤ f
          → replay_loop c consume f (file_of c log ++ tail) tail t m ≡ end t m)
      → replay c consume (some (file_of c log ++ tail)) s ≡ hand_out (records_of c log) end s 0
  unfolding replay after_header
  replay-body_of log tail end s ends = rw (long_enough c log tail) (
      ap (after_header c consume (file_of c log ++ tail) s) opened
      ∙ replay_loop-body_of log (file_of c log ++ tail) tail end (length (file_of c log ++ tail)) s
          0
          (omega (
            arith,
            length-append (file_of c log) tail,
            length-append file_header (body_of c log),
            length-append (body_of c log) tail,
          ))
          ends)
    where
      opened : read_file_header (file_of c log ++ tail) ≡ got tt (body_of c log ++ tail)
      opened =
          ap read_file_header (append_assoc file_header (body_of c log) tail)
          ∙ Takes-read_file_header.whole (body_of c log ++ tail)

  -- Without a tail.
  pub replay-file_of :
      (log : Log c) (s : S)
      → replay c consume (some (file_of c log)) s
        ≡ hand_out (records_of c log) (λ s' n. done s' n (some (file_of c log))) s 0
  replay-file_of log s =
      ap (λ l. replay c consume (some l) s) (sym (append-nil (file_of c log)))
      ∙ replay-body_of log [] (λ s' n. done s' n (some (file_of c log))) s ends
    where
      ends :
          (f : ℕ) (u : S) (m : ℕ)
          → length {A = ℕ} [] ≤ f
          → replay_loop c consume f (file_of c log ++ []) [] u m ≡ done u m (some (file_of c log))
      ends f u m p = unfold replay_loop in ap (λ l. done u m (some l)) (append-nil (file_of c log))

  -- Replay of a file for a log, with any beginning of a further record that can be stored behind
  -- it (a write that was torn off, of no byte up to all but one), hands out the records of the log
  -- in their order and leaves the file for the log, with the tail cut off.
  pub replay-Log :
      (log : Log c) (r : CatalogRecord c) (t : Storable c r) (k : ℕ) (s : S)
      → k < length (stored_bytes c r t)
      → replay c consume (some (file_of c log ++ take k (stored_bytes c r t))) s
        ≡ hand_out (records_of c log) (λ s' n. done s' n (some (file_of c log))) s 0
  replay-Log log r t zero s h =
      ap (λ l. replay c consume (some l) s) (append-nil (file_of c log)) ∙ replay-file_of log s
  replay-Log log r t (suc k) s h =
      replay-body_of log (take (suc k) (stored_bytes c r t))
        (λ s' n. done s' n (some (file_of c log))) s ends
    where
      tail : List ℕ
      tail = take (suc k) (stored_bytes c r t)

      some_bytes : 0 < length tail
      some_bytes = omega (arith, length-take (suc k) (stored_bytes c r t))

      cut :
          take (length (file_of c log ++ tail) - length tail) (file_of c log ++ tail)
          ≡ file_of c log
      cut =
          ap (λ n. take n (file_of c log ++ tail))
            (omega (arith, length-append (file_of c log) tail))
          ∙ take-append (file_of c log) tail

      ends :
          (f : ℕ) (u : S) (m : ℕ)
          → length tail ≤ f
          → replay_loop c consume f (file_of c log ++ tail) tail u m
            ≡ done u m (some (file_of c log))
      ends zero u m p = absurd (omega (arith, some_bytes))
      ends (suc f) u m p =
          replay_loop-suc c consume f (file_of c log ++ tail) tail u m short some_bytes
            ((Takes-read_record c r t).torn (suc k) h)
          ∙ ap (λ l. done u m (some l)) cut

  -- Replay of a file for a log, with a record behind it that is stored under another checksum than
  -- its content has, hands out the records of the log and throws, whatever follows; the consumer
  -- keeps what it was handed.
  pub replay-corrupted :
      (log : Log c) (r : CatalogRecord c) (t : Storable c r) (hash : ℕ) (rest : List ℕ) (s : S)
      → hash < 2 ^ 64
      → hash ≢ content_hash c r t
      → replay c consume (some (file_of c log ++ (bytes_under c r t hash ++ rest))) s
        ≡ hand_out (records_of c log) (λ s' n. failed s' CatalogError.checksum_mismatch) s 0
  replay-corrupted log r t hash rest s fits other =
      replay-body_of log tail (λ s' n. failed s' CatalogError.checksum_mismatch) s ends
    where
      tail : List ℕ
      tail = bytes_under c r t hash ++ rest

      some_bytes : 0 < length tail
      some_bytes =
          omega
            (arith, length-append (bytes_under c r t hash) rest, stored_bytes-nonempty c r t hash)

      ends :
          (f : ℕ) (u : S) (m : ℕ)
          → length tail ≤ f
          → replay_loop c consume f (file_of c log ++ tail) tail u m
            ≡ failed u CatalogError.checksum_mismatch
      ends zero u m p = absurd (omega (arith, some_bytes))
      ends (suc f) u m p =
          replay_loop-suc c consume f (file_of c log ++ tail) tail u m
            (bad CatalogError.checksum_mismatch) some_bytes
            (Rejects-read_record c r t hash fits other rest)
