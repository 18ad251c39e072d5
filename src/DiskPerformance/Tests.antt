-- ===== src/DiskPerformance/Tests.antt =====
-- Two runs, of which the files are missing, and small results.
use benchhelpers.Prelude.{
  List, Option, String, [], chars, drop_chars, false, find, is_digit, none, ok, path_join,
  read_number, refl, rfind, some, take_chars, true, ℕ, ◌∷◌, ◌≡◌, ◌≢◌,
}
use benchhelpers.Prelude.Dict.{lookup}
use benchhelpers.Prelude.Sorting.{sort_by}
use benchhelpers.DiskPerformance.{
  Fio, Direction, payload, sample_of, add_jobs, add_job, parse_result,
}
use benchhelpers.DiskPerformance.Stats.{median}
use benchhelpers.DiskPerformance.Stats.Median.{Halves, median-Halves}
use benchhelpers.DiskPerformance.Runs.{Entry, numeric_dir_names, collect_run_dirs}
use benchhelpers.DiskPerformance.Slug.{
  has_double, collapse, make_plot_slug, plain, replace_double, lstrip_score, rstrip_score,
}
use benchhelpers.DiskPerformance.Tables.{
  Row, latency_ops, rows_of, rows_of_specs, rank, build_latency_run_rows,
}

small-Halves : (m : ℕ) × (median (9 ∷ 4 ∷ 3 ∷ 7 ∷ []) ≡ some m) × Halves m (9 ∷ 4 ∷ 3 ∷ 7 ∷ [])
small-Halves = median-Halves 9 (4 ∷ 3 ∷ 7 ∷ [])

five : median (9 ∷ 4 ∷ 3 ∷ 7 ∷ []) ≡ some 5
unfolding median sort_by
five = refl

abbrev listing : List Entry
listing = ("10", true) ∷ ("notes", true) ∷ ("9", true) ∷ ("8", false) ∷ []

abbrev tail_of : List String → List String
tail_of [] = []
tail_of (name ∷ names) = names

has_runs : numeric_dir_names listing ≢ []
unfolding numeric_dir_names is_digit
has_runs e = cc

nine_first : collect_run_dirs "results" listing ≡ "results/9" ∷ "results/10" ∷ []
unfolding collect_run_dirs numeric_dir_names is_digit sort_by read_number path_join
nine_first = refl

slug : make_plot_slug "Random (read)  4K" ≡ "random_read_4k"
unfolding make_plot_slug plain has_double replace_double collapse lstrip_score rstrip_score chars
slug = refl

abbrev load : String → Option Fio
load raw = none

abbrev read : String → Option String
read path = none

abbrev dirs : List String
dirs = "a" ∷ "b" ∷ []

missing : (rows : List Row) × (build_latency_run_rows load read dirs latency_ops ≡ ok rows)
unfolding build_latency_run_rows rows_of rows_of_specs rank sort_by
missing = (_, refl)

-- The percentiles of two jobs are not kept.
abbrev direction : Direction
direction = record {
  bw = some 2048;
  iops = some 1500000000;
  clat_ns = some (some (("50.000000", 12000) ∷ []));
}

one_job :
    parse_result (λ text. some (some ((("read", direction) ∷ []) ∷ []))) "{}" "read"
    ≡ ok (record {
      bw = 2;
      iops = 1;
      p50 = some 12;
      p90 = some 0;
      p95 = some 0;
      p99 = some 0;
      p99_9 = some 0;
    })
unfolding parse_result payload lookup sample_of add_jobs add_job find rfind take_chars drop_chars
one_job = refl
