-- ===== src/DiskPerformance/Uring/Points.antt =====
-- `group_rows_by_point` and `pick_median_run_rows` of disk_performance/aio_vs_uring/aggregate.py.
-- `statistics.median` is defined as the library documents it, doubled so that it is whole.
pub mod Middle
pub mod Nearest
use benchhelpers.Prelude.{
  List, Option, Result, String, [], err, get_elem?, if◌then◌else◌, length, map, none, ok, some,
  value_error, ℕ, ◌%◌, ◌*◌, ◌+◌, ◌-◌, ◌/◌, ◌==◌, ◌>>=◌, ◌>>◌, ◌∷◌,
}
use benchhelpers.Prelude.Order.{pair_le, nat_ord, text_ord, pair_ord, sort_on}
use benchhelpers.Prelude.Sorting.{sort_by}
use benchhelpers.Prelude.Groups.{Groups, group_onto}
use benchhelpers.DiskPerformance.Uring.{Row}

-- An engine, a queue depth and a workload, as a tuple
abbrev pub Point : Type 0
Point = String × (ℕ × String)

abbrev pub point_of : Row → Point
point_of row = (row.engine, (row.queue_depth, row.workload))

unfoldable pub group_rows_by_point : List Row → Groups Point Row
group_rows_by_point rows = group_onto point_of [] rows

abbrev pub added : Option ℕ → Option ℕ → Option ℕ
added (some a) (some b) = some (a + b)
added (some a) none = none
added none b = none

-- Twice `statistics.median(values)`; without values there is none.
unfoldable pub doubled_median : List ℕ → Option ℕ
doubled_median ns =
    let sorted = sort_by (λ n. n) ns in
    let half = length ns / 2 in
    if length ns % 2 == 1
    then added (get_elem? sorted half) (get_elem? sorted half)
    else added (get_elem? sorted (half - 1)) (get_elem? sorted half)

-- Twice the distance from the median, then the run
abbrev pub nearness : ℕ → Row → ℕ × ℕ
nearness m row = (2 * row.speed_bps - m + (m - 2 * row.speed_bps), row.run)

-- `min(rows, key=...)`: the first of the least
abbrev pub nearer : ℕ → Row → Row → Row
nearer m best row = if pair_le (nearness m best) (nearness m row) then best else row

abbrev pub nearest : ℕ → Row → List Row → Row
nearest m best [] = best
nearest m best (row ∷ rows) = nearest m (nearer m best row) rows

-- A copy of a row with `MedianRun` and `RunsInGroup`
pub record MedianRow : Type 0 where
  pub row : Row
  pub median_run : ℕ
  pub runs_in_group : ℕ

abbrev pub with_median : Row → List Row → Option ℕ → Result MedianRow
with_median row rows none = err value_error
with_median row rows (some m) =
    let selected_row = nearest m row rows in
    ok (record {
      row = selected_row;
      median_run = selected_row.run;
      runs_in_group = length (row ∷ rows);
    })

-- The median of no values raises `StatisticsError`.
abbrev pub median_row : List Row → Result MedianRow
median_row [] = err value_error
median_row (row ∷ rows) =
    with_median row rows (doubled_median (map (λ r. r.speed_bps) (row ∷ rows)))

abbrev pub median_rows : Groups Point Row → Result (List MedianRow)
median_rows [] = ok []
median_rows (g ∷ groups) = do first ← median_row g.1; rest ← median_rows groups; ok (first ∷ rest)

unfoldable pub pick_median_run_rows : List Row → Result (List MedianRow)
pick_median_run_rows rows =
    median_rows (group_rows_by_point rows) >>= λ picked. ok (sort_on (λ m. point_of m.row) picked)
