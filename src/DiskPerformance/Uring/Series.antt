-- ===== src/DiskPerformance/Uring/Series.antt =====
-- `build_metric_series` and the lines of `plot_speed_by_inflight`, `plot_iops_by_inflight` and
-- `plot_latency_by_inflight` of disk_performance/aio_vs_uring/aggregate.py. A field of the rows is
-- the function that reads it. What is given to matplotlib is data, all values doubled, so that a
-- median is whole; the plots divide them by a constant.
pub mod Whiskers
use mathlib.Core.Option
use benchhelpers.Prelude.{
  Bool, List, Option, String, [], false, if◌then◌else◌, ltb, map, none, some, str_eq, ℕ, ◌*◌, ◌<>◌,
  ◌∷◌,
}
use benchhelpers.Prelude.Int.{ℤ, sub_ℕ}
use benchhelpers.Prelude.Order.{nat_ord, text_ord, pair_ord, sort_on}
use benchhelpers.Prelude.Sorting.{sort_by}
use benchhelpers.Prelude.Groups.{Groups, append_at}
use benchhelpers.DiskPerformance.Stats.{minimum, maximum}
use benchhelpers.DiskPerformance.Uring.{Row}
use benchhelpers.DiskPerformance.Uring.Points.{Point, doubled_median, group_rows_by_point}

pub record SeriesPoint : Type 0 where
  pub queue_depth : ℕ
  pub twice_median : ℕ
  pub lowest : ℕ
  pub highest : ℕ

-- Without values there is no point.
unfoldable pub series_point : ℕ → List ℕ → Option SeriesPoint
series_point queue_depth [] = none
series_point queue_depth (v ∷ vs) =
    Option.map
      (λ m. record {
        queue_depth = queue_depth;
        twice_median = m;
        lowest = minimum v vs;
        highest = maximum v vs;
      })
      (doubled_median (v ∷ vs))

abbrev pub series_key : Point → String
series_key (engine, (queue_depth, workload)) =
    if str_eq workload "write" then engine else engine <> "-" <> workload

abbrev pub is_deeper : Option ℕ → ℕ → Bool
is_deeper none queue_depth = false
is_deeper (some limit) queue_depth = ltb limit queue_depth

abbrev pub Series : Type 0
Series = Groups String SeriesPoint

abbrev pub add_point : String → Option SeriesPoint → Series → Series
add_point key none d = d
add_point key (some point) d = append_at key point d

module _ (value : Row → ℕ) (max_queue_depth : Option ℕ) where
  abbrev pub series_onto : Series → Groups Point Row → Series
  series_onto d [] = d
  series_onto d ((p, point_rows) ∷ groups) =
      series_onto
        (if is_deeper max_queue_depth p.1.0
          then d
          else add_point (series_key p) (series_point p.1.0 (map value point_rows)) d)
        groups

  unfoldable pub build_metric_series : List Row → Series
  build_metric_series rows =
      map (λ g. (g.0, sort_by (λ r. r.queue_depth) g.1)) (series_onto [] (group_rows_by_point rows))

-- The arguments of `ax.errorbar`
pub record ErrorBar : Type 0 where
  pub label : String
  pub x_vals : List ℕ
  pub y_vals : List ℕ
  pub lower : List ℤ
  pub upper : List ℤ

abbrev pub error_bar : String × List SeriesPoint → ErrorBar
error_bar (series_name, points) = record {
  label = series_name;
  x_vals = map (λ r. r.queue_depth) points;
  y_vals = map (λ r. r.twice_median) points;
  lower = map (λ r. sub_ℕ r.twice_median (2 * r.lowest)) points;
  upper = map (λ r. sub_ℕ (2 * r.highest) r.twice_median) points;
}

-- A series without points is left out.
abbrev pub drawn_series : Series → Series
drawn_series [] = []
drawn_series ((name, []) ∷ series) = drawn_series series
drawn_series ((name, p ∷ points) ∷ series) = (name, p ∷ points) ∷ drawn_series series

unfoldable pub error_bars : Series → List ErrorBar
error_bars series = map error_bar (drawn_series (sort_on (λ g. g.0) series))
