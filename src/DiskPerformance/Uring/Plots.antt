-- ===== src/DiskPerformance/Uring/Plots.antt =====
-- The plots of disk_performance/aio_vs_uring/aggregate.py as data: a file with its axes and their
-- lines, whose values are doubled.
pub mod Bars
use benchhelpers.Prelude.{
  Bool, List, Option, String, [], false, if◌then◌else◌, map, none, not, path_join, show, some, true,
  ℕ, ◌<>◌, ◌==◌, ◌||◌, ◌∷◌,
}
use benchhelpers.Prelude.Int.{ℤ, sub_ℕ}
use benchhelpers.Prelude.Order.{nat_ord, text_ord, pair_ord, sort_on}
use benchhelpers.Prelude.Groups.{Groups, of_key, select}
use benchhelpers.DiskPerformance.Uring.{Percentile, Row}
use benchhelpers.DiskPerformance.Uring.Points.{Point, group_rows_by_point}
use benchhelpers.DiskPerformance.Uring.Series.{
  SeriesPoint, series_point, build_metric_series, ErrorBar, error_bars,
}

pub record Axis : Type 0 where
  pub title : String
  pub y_label : String
  pub bars : List ErrorBar

pub record Figure : Type 0 where
  pub path : String
  pub axes : List Axis

-- `<= limit, ` in a title, and the end of a file's name
abbrev pub limit_title : Option ℕ → String
limit_title none = ""
limit_title (some limit) = "<= " <> show limit <> ", "

abbrev pub limit_name : Option ℕ → String
limit_name none = ""
limit_name (some limit) = "_upto_" <> show limit

abbrev pub has_bars : List Axis → Bool
has_bars [] = false
has_bars (axis ∷ axes) = elim axis.bars [ [] ↦ has_bars axes | bar ∷ bars ↦ true ]

-- A figure without points is not saved.
abbrev pub saved : String → List Axis → Option Figure
saved path axes = if has_bars axes then some (record { path = path; axes = axes }) else none

module _ (rows : List Row) where
  -- `any(row.get("LatP50_us", 0) for row in rows)`
  abbrev pub has_lat : Bool
  has_lat = any_lat rows
    where
      any_lat : List Row → Bool
      any_lat [] = false
      any_lat (row ∷ rest) = not (row.percentile Percentile.lat50 == 0) || any_lat rest

  abbrev pub lat_or_clat : Percentile → Percentile → Percentile
  lat_or_clat lat clat = if has_lat then lat else clat

  abbrev pub latency_axis : Option ℕ → String × Percentile → Axis
  latency_axis max_queue_depth (suffix, k) = record {
    title =
        suffix
        <> " vs Inflight ("
        <> limit_title max_queue_depth
        <> "median with min/max whiskers)";
    y_label = "Latency (us)";
    bars = error_bars (build_metric_series (λ r. r.percentile k) max_queue_depth rows);
  }

  abbrev pub percentile_fields : List Percentile
  percentile_fields =
      lat_or_clat Percentile.lat50 Percentile.clat50
      ∷ lat_or_clat Percentile.lat90 Percentile.clat90
      ∷ lat_or_clat Percentile.lat95 Percentile.clat95
      ∷ lat_or_clat Percentile.lat99 Percentile.clat99
      ∷ lat_or_clat Percentile.lat99_9 Percentile.clat99_9
      ∷ []

module _ (rows : List Row) (output_dir prefix : String) where
  unfoldable pub plot_speed_by_inflight : Option Figure
  plot_speed_by_inflight = saved (path_join output_dir (prefix <> ".png")) (
      record {
        title = "Speed vs Inflight (median with min/max whiskers)";
        y_label = "Speed (MiB/s)";
        bars = error_bars (build_metric_series (λ r. r.speed_bps) none rows);
      }
      ∷ [])

  unfoldable pub plot_iops_by_inflight : Option ℕ → Option Figure
  plot_iops_by_inflight max_queue_depth =
      saved (path_join output_dir (prefix <> "_iops" <> limit_name max_queue_depth <> ".png")) (
        record {
          title =
              "KIOPS vs Inflight ("
              <> limit_title max_queue_depth
              <> "median with min/max whiskers)";
          y_label = "KIOPS";
          bars = error_bars (build_metric_series (λ r. r.iops) max_queue_depth rows);
        }
        ∷ [])

  unfoldable pub plot_latency_by_inflight : Option ℕ → Option Figure
  plot_latency_by_inflight max_queue_depth =
      saved (path_join output_dir (prefix <> "_latency" <> limit_name max_queue_depth <> ".png")) (
        map (latency_axis rows max_queue_depth) (
          ("p50", lat_or_clat rows Percentile.lat50 Percentile.clat50)
          ∷ ("p90", lat_or_clat rows Percentile.lat90 Percentile.clat90)
          ∷ ("p99", lat_or_clat rows Percentile.lat99 Percentile.clat99)
          ∷ []))
