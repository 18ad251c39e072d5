-- ===== src/DiskPerformance/Uring/Plots/Bars.antt =====
-- `plot_latency_percentile_bars` of disk_performance/aio_vs_uring/aggregate.py. Whether a file can be
-- copied is an argument.
use benchhelpers.Prelude.{
  Bool, List, Option, String, [], false, if◌then◌else◌, length, map, none, path_join, range, show,
  some, str_eq, true, ℕ, ◌*◌, ◌++◌, ◌+◌, ◌<>◌, ◌==◌, ◌||◌, ◌∷◌,
}
use benchhelpers.Prelude.Int.{ℤ, sub_ℕ}
use benchhelpers.Prelude.Order.{nat_ord, text_ord, pair_ord, sort_on}
use benchhelpers.Prelude.Groups.{of_key, select}
use benchhelpers.DiskPerformance.Uring.{Row}
use benchhelpers.DiskPerformance.Uring.Points.{Point, group_rows_by_point}
use benchhelpers.DiskPerformance.Uring.Series.{SeriesPoint, series_point}
use benchhelpers.DiskPerformance.Uring.Plots.{percentile_fields}

-- `sorted(set(names))`
abbrev pub is_among : String → List String → Bool
is_among s [] = false
is_among s (t ∷ rest) = str_eq s t || is_among s rest

abbrev pub without_repeats : List String → List String
without_repeats [] = []
without_repeats (s ∷ rest) =
    let more = without_repeats rest in if is_among s more then more else s ∷ more

unfoldable pub sorted_set : List String → List String
sorted_set names = sort_on (λ s. s) (without_repeats names)

abbrev pub any_depth : ℕ → List Row → Bool
any_depth depth [] = false
any_depth depth (row ∷ rows) = row.queue_depth == depth || any_depth depth rows

abbrev pub is_depth_among : List ℕ → ℕ → Bool
is_depth_among [] depth = false
is_depth_among (d ∷ depths) depth = d == depth || is_depth_among depths depth

-- An engine's values at each percentile, doubled; the positions are in units of 1 / (10 * engines).
pub record EngineBar : Type 0 where
  pub label : String
  pub x_vals : List ℤ
  pub y_vals : List ℕ
  pub lower : List ℤ
  pub upper : List ℤ

pub record BarAxis : Type 0 where
  pub title : String
  pub bars : List EngineBar

pub record BarFigure : Type 0 where
  pub path : String
  pub axes : List BarAxis

abbrev pub positions : ℕ → ℕ → List ℤ
positions engines engine_idx =
    map (λ x. sub_ℕ (10 * engines * x + 4 + 8 * engine_idx) (4 * engines)) (range 0 5)

abbrev pub or_zeros : Option SeriesPoint → SeriesPoint
or_zeros none = record { queue_depth = 0; twice_median = 0; lowest = 0; highest = 0 }
or_zeros (some p) = p

abbrev pub engine_bar : String → List ℤ → List SeriesPoint → EngineBar
engine_bar engine x_vals points = record {
  label = engine;
  x_vals = x_vals;
  y_vals = map (λ p. p.twice_median) points;
  lower = map (λ p. sub_ℕ p.twice_median (2 * p.lowest)) points;
  upper = map (λ p. sub_ℕ (2 * p.highest) p.twice_median) points;
}

module _ (rows : List Row) (output_dir prefix : String) where
  -- The values of an engine at a depth, for each percentile
  abbrev pub points_at : Point → List SeriesPoint
  points_at p =
      let point_rows = of_key p (group_rows_by_point rows) in
      map (λ k. or_zeros (series_point p.1.0 (map (λ r. r.percentile k) point_rows)))
        (percentile_fields rows)

  abbrev pub engine_bars : ℕ → String → ℕ → ℕ → List String → List EngineBar
  engine_bars depth workload engines engine_idx [] = []
  engine_bars depth workload engines engine_idx (engine ∷ rest) =
      let more = engine_bars depth workload engines (engine_idx + 1) rest in
      elim (of_key (engine, (depth, workload)) (group_rows_by_point rows)) [
        | [] ↦ more
        | row ∷ point_rows ↦
            engine_bar engine (positions engines engine_idx) (points_at (engine, (depth, workload)))
            ∷ more
      ]

  abbrev pub bar_axis : String → List String → ℕ → BarAxis
  bar_axis workload engines depth = record {
    title = workload <> ", iodepth=" <> show depth <> ", usec (median with min/max whiskers)";
    bars = engine_bars depth workload (length engines) 0 engines;
  }

  abbrev pub has_bars : List BarAxis → Bool
  has_bars [] = false
  has_bars (axis ∷ axes) = elim axis.bars [ [] ↦ has_bars axes | bar ∷ bars ↦ true ]

  -- `workload_rows`, `qds_present` and `engines`
  abbrev pub rows_of : String → List Row
  rows_of workload = select (λ r. str_eq r.workload workload) rows

  abbrev pub qds_present : String → List ℕ
  qds_present workload = select (λ qd. any_depth qd (rows_of workload)) (1 ∷ 4 ∷ 16 ∷ [])

  abbrev pub engines_of : String → List String
  engines_of workload = sorted_set (
      map (λ r. r.engine)
        (select (λ r. is_depth_among (qds_present workload) r.queue_depth) (rows_of workload)))

  abbrev pub bar_path : String → String
  bar_path workload =
      path_join output_dir (prefix <> "_" <> workload <> "_latency_bars_qd_1_4_16.png")

  -- Without a depth there is no axis, and without an engine no bar.
  abbrev pub workload_figure : String → List BarFigure
  workload_figure workload =
      let axes = map (bar_axis workload (engines_of workload)) (qds_present workload) in
      if has_bars axes then record { path = bar_path workload; axes = axes } ∷ [] else []

  abbrev pub workload_figures : List String → List BarFigure
  workload_figures [] = []
  workload_figures (workload ∷ workloads) = workload_figure workload ++ workload_figures workloads

  abbrev pub generic_path : String
  generic_path = path_join output_dir (prefix <> "_latency_bars_qd_1_4_16.png")

  -- The paths of the figures, and of the copy that a single workload has
  abbrev pub with_copy : (String → Bool) → List String → List BarFigure → List String
  with_copy can_copy (workload ∷ []) (figure ∷ []) =
      figure.path ∷ (if can_copy generic_path then generic_path ∷ [] else [])
  with_copy can_copy workloads figures = map (λ f. f.path) figures

  unfoldable pub plot_latency_percentile_bars : (String → Bool) → List BarFigure × List String
  plot_latency_percentile_bars can_copy =
      let workloads = sorted_set (map (λ r. r.workload) rows) in
      let figures = workload_figures workloads in (figures, with_copy can_copy workloads figures)
