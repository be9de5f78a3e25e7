-- ===== src/Metrics.antt =====
-- engine/src/metrics.cpp, engine/include/mimicdb/metrics.h: the counters of a scan, in uint64_t.
use mimic_rag.Prelude.{ℕ, ◌+◌, ◌%◌, ◌^◌, ◌≡◌, ap, ◌↔◌, arith}

pub record Metrics : Type 0 where
  pub rows : ℕ
  pub bytes : ℕ
  pub branch_misses : ℕ
  pub cache_misses : ℕ
  pub segments_total : ℕ
  pub segments_scanned : ℕ
  pub segments_pruned : ℕ

abbrev pub u64 : ℕ → ℕ
u64 n = n % 2 ^ 64

unfoldable pub reset : Metrics → Metrics
reset m = record m { rows = 0; bytes = 0; branch_misses = 0; cache_misses = 0 }

unfoldable pub add_rows : Metrics → ℕ → Metrics
add_rows m count = record m { rows = u64 (m.rows + count) }

unfoldable pub add_bytes : Metrics → ℕ → Metrics
add_bytes m count = record m { bytes = u64 (m.bytes + count) }

unfoldable pub add_segments_total : Metrics → ℕ → Metrics
add_segments_total m count = record m { segments_total = u64 (m.segments_total + count) }

unfoldable pub add_segments_scanned : Metrics → ℕ → Metrics
add_segments_scanned m count = record m { segments_scanned = u64 (m.segments_scanned + count) }

unfoldable pub add_segments_pruned : Metrics → ℕ → Metrics
add_segments_pruned m count = record m { segments_pruned = u64 (m.segments_pruned + count) }

-- Reset leaves the three segment counters as they were: it gives a fresh record of counters
-- exactly when these three are 0 already.
pub reset_fresh :
    (m : Metrics)
    → (reset m ≡ record {
      rows = 0;
      bytes = 0;
      branch_misses = 0;
      cache_misses = 0;
      segments_total = 0;
      segments_scanned = 0;
      segments_pruned = 0;
    })
      ↔ ((m.segments_total ≡ 0) × (m.segments_scanned ≡ 0) × (m.segments_pruned ≡ 0))
unfolding reset
reset_fresh m = (
  (λ e. (
    ap (λ (r : Metrics). r.segments_total) e,
    ap (λ (r : Metrics). r.segments_scanned) e,
    ap (λ (r : Metrics). r.segments_pruned) e,
  )),
  (λ h. ground arith),
)
