-- ===== src/DiskPerformance/Uring/Best.antt =====
-- `build_max_iops_rows` of disk_performance/aio_vs_uring/aggregate.py.
pub mod Maximal
use benchhelpers.Prelude.{
  List, Option, String, [], if◌then◌else◌, map, none, some, ℕ, ◌*◌, ◌+◌, ◌/◌, ◌∷◌,
}
use benchhelpers.Prelude.Dict.{Dict, lookup, insert}
use benchhelpers.Prelude.Order.{pair_le, nat_ord, text_ord, pair_ord, sort_on}
use benchhelpers.DiskPerformance.Uring.{Row}

-- The tuple that decides which of two rows is better
abbrev pub rank : Row → ℕ × (ℕ × ℕ)
rank row = (row.iops, (row.queue_depth, row.speed_bps))

-- The later row replaces the earlier if its tuple is greater.
abbrev pub better : Row → Row → Row
better best row = if pair_le (rank row) (rank best) then best else row

abbrev pub best_or : Row → Option Row → Row
best_or row none = row
best_or row (some best) = better best row

-- Storing the best row again where it is not replaced changes nothing.
unfoldable pub best_by_engine : Dict Row → List Row → Dict Row
best_by_engine d [] = d
best_by_engine d (row ∷ rows) =
    best_by_engine (insert row.engine (best_or row (lookup row.engine d)) d) rows

pub record MaxRow : Type 0 where
  pub engine : String
  pub queue_depth : ℕ
  pub kiops : ℕ
  pub speed : String

-- `int(best["IOPS"] / 1000.0 + 0.5)`
abbrev pub max_row : String × Row → MaxRow
max_row entry = record {
  engine = entry.0;
  queue_depth = entry.1.queue_depth;
  kiops = (2 * entry.1.iops + 1000) / 2000;
  speed = entry.1.speed;
}

unfoldable pub build_max_iops_rows : List Row → List MaxRow
build_max_iops_rows rows = map max_row (sort_on (λ entry. entry.0) (best_by_engine [] rows))
