-- ===== src/DiskPerformance/Uring/Tests.antt =====
-- Three runs of one point and a run of another, the files of three runs, and small results.
use mathlib.Core.List.{Perm}
use benchhelpers.Prelude.{
  All, List, Option, String, [], chars, drop_chars, false, find, if◌then◌else◌, is_digit, join,
  length, map, min, none, ok, path_join, read_number, refl, rfind, show, some, split_at, str_eq,
  take_chars, true, ℕ, ◌/◌, ◌<>◌, ◌∷◌, ◌≡◌,
}
use benchhelpers.Prelude.Dict.{Dict, lookup, insert}
use benchhelpers.Prelude.Int.{pos}
use benchhelpers.Prelude.Order.{nat_ord, text_ord, pair_ord, sort_on, IsOrdered}
use benchhelpers.Prelude.Sorting.{sort_by, count_if}
use benchhelpers.Prelude.Groups.{same}
use benchhelpers.DiskPerformance.Uring.{
  Job, Json, json, Read, contents, parsed, Row, human_bytes_per_second, load_fio_json, job_errors,
  parse_one_result,
}
use benchhelpers.DiskPerformance.Uring.Names.{match_name}
use benchhelpers.DiskPerformance.Uring.Collect.{collect_rows, row_key}
use benchhelpers.DiskPerformance.Uring.Collect.Skipped.{
  IsRead, attempts, rows_in, failures_in, collect_rows-rows_in,
}
use benchhelpers.DiskPerformance.Uring.Points.{
  Point, point_of, group_rows_by_point, doubled_median, MedianRow, pick_median_run_rows,
}
use benchhelpers.DiskPerformance.Uring.Points.Nearest.{
  IsMedianOf, at_point, pick_median_run_rows-IsMedianOf,
}
use benchhelpers.DiskPerformance.Uring.Best.{best_by_engine, build_max_iops_rows}
use benchhelpers.DiskPerformance.Uring.Best.Maximal.{
  IsMaxOf, of_engine, build_max_iops_rows-IsMaxOf,
}
use benchhelpers.DiskPerformance.Uring.Series.{build_metric_series, error_bars}
use benchhelpers.DiskPerformance.Uring.Series.Whiskers.{IsDrawable, error_bars-IsDrawable}
use benchhelpers.DiskPerformance.Uring.Main.{Arguments}

with_run_name :
    match_name "io_uring_qd16_write_run2.json"
    ≡ some (record { engine = "io_uring"; queue_depth = 16; workload = "write"; run = some 2 })
unfolding match_name drop_chars chars take_chars split_at join is_digit read_number
with_run_name = refl

without_run_name :
    match_name "aio_qd1_read.json"
    ≡ some (record { engine = "aio"; queue_depth = 1; workload = "read"; run = none })
unfolding match_name drop_chars chars take_chars split_at join is_digit read_number
without_run_name = refl

other_name : match_name "_qd1_read.json" ≡ none
unfolding match_name drop_chars chars take_chars split_at join is_digit read_number
other_name = refl

speed_text : human_bytes_per_second 1572864 ≡ "1.50 MiB/s"
unfolding human_bytes_per_second show
speed_text = refl

abbrev row : String → ℕ → ℕ → ℕ → Row
row engine queue_depth run speed = record {
  engine = engine;
  queue_depth = queue_depth;
  workload = "write";
  run = run;
  speed = "";
  speed_bps = speed;
  iops = speed;
  percentile = λ k. speed;
}

abbrev some_rows : List Row
some_rows = row "b" 8 1 300 ∷ row "b" 8 2 100 ∷ row "a" 1 1 50 ∷ row "b" 8 3 220 ∷ []

medians :
    pick_median_run_rows some_rows
    ≡ ok (
        record { row = row "a" 1 1 50; median_run = 1; runs_in_group = 1 }
        ∷ record { row = row "b" 8 3 220; median_run = 3; runs_in_group = 3 }
        ∷ [])
unfolding pick_median_run_rows group_rows_by_point doubled_median sort_on sort_by
medians = refl

pick_median_run_rows-IsMedianOf_example :
    (ms : List MedianRow) × (pick_median_run_rows some_rows ≡ ok ms)
    × All (IsMedianOf some_rows) ms
    × IsOrdered (λ m. point_of m.row) ms
    × ((p : Point)
        → count_if (λ m. same (point_of m.row) p) ms ≡ min 1 (length (at_point p some_rows)))
pick_median_run_rows-IsMedianOf_example = pick_median_run_rows-IsMedianOf some_rows

best_rows :
    map (λ m. m.engine <> "=" <> show m.queue_depth) (build_max_iops_rows some_rows)
    ≡ "a=1" ∷ "b=8" ∷ []
unfolding build_max_iops_rows best_by_engine insert lookup sort_on show
best_rows = refl

build_max_iops_rows-IsMaxOf_example :
    All (IsMaxOf some_rows) (build_max_iops_rows some_rows)
    × IsOrdered (λ m. m.engine) (build_max_iops_rows some_rows)
    × ((e : String)
        → count_if (λ m. str_eq m.engine e) (build_max_iops_rows some_rows)
          ≡ min 1 (length (of_engine e some_rows)))
build_max_iops_rows-IsMaxOf_example = build_max_iops_rows-IsMaxOf some_rows

error_bars-IsDrawable_example :
    All
      (IsDrawable (λ r. r.iops) (some 4))
      (error_bars (build_metric_series (λ r. r.iops) (some 4) some_rows))
error_bars-IsDrawable_example = error_bars-IsDrawable (λ r. r.iops) (some 4) some_rows

-- Two jobs of which one has a percentile, and a job that failed
abbrev job : ℕ → Option (Dict ℕ) → Job
job bw lat = record {
  error = none;
  directions =
      (
        "write",
        record { bw_bytes = some bw; iops = some 2500000; clat_ns = none; lat_ns = some lat },
      )
      ∷ [];
}

abbrev good_jobs : List Job
good_jobs = job 1000 (some (("50.000000", 7000) ∷ [])) ∷ job 500 none ∷ []

abbrev bad_jobs : List Job
bad_jobs = record { error = some (pos 5); directions = [] } ∷ []

abbrev read_file : String → Read String
read_file path =
    if str_eq path "d/a_qd1_write_run1.json" then contents "x{good}" else contents "{bad}"

-- Thousandths stand for the floats, which are rounded down.
abbrev load_text : Json
load_text = record {
  loads = λ text. if str_eq text "{good}" then json (some good_jobs) else json (some bad_jobs);
  unit = 1000;
  rounded = λ n d. n / d;
}

is_good : load_fio_json load_text read_file "d/a_qd1_write_run1.json" ≡ parsed (some good_jobs)
unfolding load_fio_json find rfind take_chars drop_chars
is_good = refl

abbrev files : List String
files = "notes.txt" ∷ "b_qd1_write_run1.json" ∷ "a_qd1_write_run1.json" ∷ []

files-IsRead : All IsRead (attempts load_text read_file "d" (sort_on (λ file. file) files))
unfolding sort_on match_name parse_one_result load_fio_json find rfind take_chars drop_chars chars
    split_at join is_digit read_number path_join job_errors
files-IsRead = (tt, (tt, tt))

collect_rows-rows_in_example :
    (rows : List Row) × (collect_rows load_text read_file "d" (contents files)
      ≡ parsed
          (rows, failures_in (attempts load_text read_file "d" (sort_on (λ file. file) files))))
    × Perm rows (rows_in (attempts load_text read_file "d" (sort_on (λ file. file) files)))
    × IsOrdered row_key rows
collect_rows-rows_in_example = collect_rows-rows_in load_text read_file "d" files files-IsRead

abbrev arguments : Arguments
arguments = record { results_dir = "d"; csv = false; plot = true; prefix = "p" }
