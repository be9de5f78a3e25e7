-- ===== src/Batch.antt =====
-- engine/src/batch.cpp, engine/include/mimicdb/batch.h: a segment's rows cut into batches.
use mathlib.Core.Option
use mimic_rag.Prelude.{
  ℕ, zero, suc, ◌+◌, ◌-◌, ◌≤◌, ◌<◌, ◌≡◌, refl, Bool, not, ◌||◌, Option, none, some, List, [], ◌∷◌,
  arith, dec_lt, ltb, ◌==◌, if◌then◌else◌, lt→ltb, le→ltb,
}

pub record Batch : Type 0 where
  pub offset : ℕ
  pub length : ℕ

pub record BatchIterator : Type 0 where
  pub total : ℕ
  pub batch_size : ℕ
  pub cursor : ℕ

-- The segment enters by its row count.
unfoldable pub begin : ℕ → ℕ → BatchIterator
begin row_count batch_size = record { total = row_count; batch_size = batch_size; cursor = 0 }

unfoldable pub has_next : BatchIterator → Bool
has_next it = ltb it.cursor it.total

unfoldable pub next : BatchIterator → BatchIterator × Batch
unfolding has_next
next it =
    if not (has_next it) || (it.batch_size == 0)
    then (it, record { offset = 0; length = 0 })
    else let remaining = it.total - it.cursor in
      let taken = if ltb remaining it.batch_size then remaining else it.batch_size in
      (record it { cursor = it.cursor + taken }, record { offset = it.cursor; length = taken })

-- while (it.HasNext()) use(it.Next()), with fuel for the rounds
unfoldable pub drain : ℕ → BatchIterator → Option (List Batch)
drain zero it = none
drain (suc fuel) it =
    let (it', batch) = next it in
    let rest = drain fuel it' in if has_next it then Option.map (λ l. batch ∷ l) rest else some []

-- The batches follow one another from `start`, each is nonempty and at most `limit` long, and they
-- end at `stop`.
abbrev pub Tiles : ℕ → ℕ → ℕ → List Batch → Type 0
Tiles limit start stop [] = start ≡ stop
Tiles limit start stop (b ∷ bs) =
    (b.offset ≡ start)
    × (0 < b.length)
    × (b.length ≤ limit)
    × Tiles limit (start + b.length) stop bs

-- Where rows are left, Next takes between one row and a batch of them, and moves past these.
next_advances :
    (it : BatchIterator)
    → 0 < it.batch_size
    → it.cursor < it.total
    → (n : ℕ) × (next it
        ≡ (record it { cursor = it.cursor + n }, record { offset = it.cursor; length = n }))
      × (0 < n)
      × (n ≤ it.batch_size)
      × (it.cursor + n ≤ it.total)
unfolding next has_next
next_advances it pos more = (
  (if ltb (it.total - it.cursor) it.batch_size then it.total - it.cursor else it.batch_size),
  ground arith,
  ground arith,
  ground arith,
  ground arith,
)

drain_more :
    (fuel : ℕ) (it it' : BatchIterator) (batch : Batch) (batches : List Batch)
    → it.cursor < it.total
    → next it ≡ (it', batch)
    → drain fuel it' ≡ some batches
    → drain (suc fuel) it ≡ some (batch ∷ batches)
unfolding drain has_next
drain_more fuel it it' batch batches more e d = rw (e, d, lt→ltb it.cursor it.total more)

drain_done : (fuel : ℕ) (it : BatchIterator) → it.total ≤ it.cursor → drain (suc fuel) it ≡ some []
unfolding drain has_next
drain_done fuel it h = rw (le→ltb it.cursor it.total h)

drain-Tiles :
    (fuel : ℕ) (it : BatchIterator)
    → 0 < it.batch_size
    → it.cursor ≤ it.total
    → it.total - it.cursor < fuel
    → (batches : List Batch) × (drain fuel it ≡ some batches)
      × Tiles it.batch_size it.cursor it.total batches
drain-Tiles zero it pos le h = absurd (omega arith)
drain-Tiles (suc fuel) it pos le h = elim (dec_lt it.cursor it.total) [
  | yes more ↦
      let (n, e, some_row, fits, inside) = next_advances it pos more in
      let (batches, d, tiles) =
        drain-Tiles fuel (record it { cursor = it.cursor + n }) pos inside (omega arith) in
      (
        record { offset = it.cursor; length = n } ∷ batches,
        drain_more fuel it _ _ batches more e d,
        (refl, some_row, fits, tiles),
      )
  | no done ↦ ([], drain_done fuel it (omega arith), omega arith)
]

-- A loop over the batches of a segment, with a batch size that is not 0, ends within one round more
-- than there are rows, and its batches tile the rows: they start at 0, each starts where the one
-- before it ends, none is empty or longer than the batch size, and the last one ends at the row
-- count.
pub drain_lem :
    (row_count batch_size : ℕ)
    → 0 < batch_size
    → (batches : List Batch) × (drain (row_count + 1) (begin row_count batch_size) ≡ some batches)
      × Tiles batch_size 0 row_count batches
unfolding begin
drain_lem row_count batch_size pos =
    drain-Tiles (row_count + 1) (begin row_count batch_size) pos (omega arith) (omega arith)

-- With batch size 0 Next stays where it is, and a loop over the batches of a segment that has rows
-- never ends, whatever the fuel.
pub drain_stuck : (fuel row_count : ℕ) → 0 < row_count → drain fuel (begin row_count 0) ≡ none
unfolding drain begin next has_next
drain_stuck zero row_count h = refl
drain_stuck (suc fuel) row_count h = ground (arith, drain_stuck fuel row_count h)
