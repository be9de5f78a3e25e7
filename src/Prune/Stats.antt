-- ===== src/Prune/Stats.antt =====
-- engine/src/segment.cpp: what ComputeStats finds of one column. A column of integers or booleans is
-- converted to double. The sample of hashes gives nothing but the estimated cardinality, which is an
-- argument here.
use mimic_rag.Float.{Float64}
use mimic_rag.Metrics.{u64}
use mimic_rag.Dictionary
use mimic_rag.FieldVector.{FieldType, FieldVector, is_valid}
use mimic_rag.Prune.{SegmentColumnStats}
use mimic_rag.Prelude.{
  ℕ, ◌+◌, Bool, true, false, not, ◌&&◌, Option, none, some, ◌==◌, if◌then◌else◌, get_or, count,
  for_below,
}

-- The conversions static_cast<double> of an int32_t and of an int64_t, and the double of a bit
-- pattern, on the patterns that a column holds.
pub record Conversions (f : Float64) : Type 0 where
  pub of_int32 : ℕ → f.Value
  pub of_int64 : ℕ → f.Value
  pub of_bits : ℕ → f.Value

module _ (f : Float64) (conv : Conversions f) where
  -- The locals of the loop over the rows of a column.
  pub record StatsLoop : Type 0 where
    pub stats : SegmentColumnStats f
    pub non_decreasing : Bool
    pub non_increasing : Bool
    pub has_prev : Bool
    pub prev_value : f.Value

  unfoldable pub stats_begin : ℕ → StatsLoop
  stats_begin count = record {
    stats = record {
      lowest = conv.of_int32 0;
      highest = conv.of_int32 0;
      value_count = count;
      null_count = 0;
      estimated_cardinality = 0;
      monotonic_hint = 0;
      has_value = false;
    };
    non_decreasing = true;
    non_increasing = true;
    has_prev = false;
    prev_value = conv.of_int32 0;
  }

  -- The value that the loop reads at a row: none for the types that have no bounds.
  unfoldable pub stats_value : FieldType → FieldVector → ℕ → Option f.Value
  stats_value FieldType.int32 field i = some (conv.of_int32 (get_or field.data_i32 i 0))
  stats_value FieldType.int64 field i = some (conv.of_int64 (get_or field.data_i64 i 0))
  stats_value FieldType.float64 field i = some (conv.of_bits (get_or field.data_f64 i 0))
  stats_value FieldType.bool field i =
      some (conv.of_int32 (if get_or field.data_bool i 0 == 0 then 0 else 1))
  stats_value FieldType.dict_int32 field i =
      some (conv.of_int32 (Dictionary.value_of field.dictionary (get_or field.data_dict_ids i 0)))
  stats_value _ field i = none

  unfoldable pub update_monotonic : StatsLoop → f.Value → StatsLoop
  update_monotonic l value =
      if not l.has_prev then record l { prev_value = value; has_prev = true } else record l {
        non_decreasing = l.non_decreasing && not (f.flt value l.prev_value);
        non_increasing = l.non_increasing && not (f.fgt value l.prev_value);
        prev_value = value;
      }

  unfoldable pub update_bounds : SegmentColumnStats f → f.Value → SegmentColumnStats f
  update_bounds stats value =
      if not stats.has_value
      then record stats { lowest = value; highest = value; has_value = true }
      else record stats {
        lowest = if f.flt value stats.lowest then value else stats.lowest;
        highest = if f.fgt value stats.highest then value else stats.highest;
      }

  abbrev pub update_stats : StatsLoop → Option f.Value → StatsLoop
  update_stats l none = l
  update_stats l (some value) =
      let moved = update_monotonic l value in record moved { stats = update_bounds l.stats value }

  unfoldable pub stats_round : FieldVector → ℕ → StatsLoop → StatsLoop
  stats_round field i l =
      if not (is_valid field i)
      then record l { stats = record l.stats { null_count = u64 (l.stats.null_count + 1) } }
      else update_stats l (stats_value field.type field i)

  abbrev pub monotonic_hint_of : StatsLoop → ℕ
  monotonic_hint_of l =
      if not l.stats.has_value
      then 0
      else if l.non_decreasing
      then 1
      else if l.non_increasing
      then 2
      else 3

  -- The round of ComputeStats for one column.
  unfoldable pub compute_column_stats : FieldVector → ℕ → SegmentColumnStats f
  compute_column_stats field cardinality =
      let l = for_below field.size (stats_round field) (stats_begin field.size) in
      record l.stats { monotonic_hint = monotonic_hint_of l; estimated_cardinality = cardinality }
