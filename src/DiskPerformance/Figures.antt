-- ===== src/DiskPerformance/Figures.antt =====
-- `plot_latency_runs` and `main` of disk_performance/aggregate.py. What is given to matplotlib is data;
-- whether it can be imported is an argument.
use benchhelpers.Prelude.{
  Bool, List, Option, Result, String, [], false, if◌then◌else◌, map, none, not, ok, path_join, some,
  true, ℕ, ◌++◌, ◌<>◌, ◌>>=◌, ◌∷◌,
}
use benchhelpers.Prelude.Dict.{Dict, lookup, insert}
use benchhelpers.Prelude.Sorting.{sort_by}
use benchhelpers.DiskPerformance.{Fio}
use benchhelpers.DiskPerformance.Stats.{Key}
use benchhelpers.DiskPerformance.Runs.{Entry, collect_run_dirs}
use benchhelpers.DiskPerformance.Slug.{make_plot_slug}
use benchhelpers.DiskPerformance.Tables.{
  Row, throughput_ops, latency_ops, build_detailed_table, build_variance_table,
  build_latency_run_rows, detailed_table, variance_table, latency_runs_table,
}

-- A file with a line for each percentile that has a value
pub record Figure : Type 0 where
  pub path : String
  pub title : String
  pub x_vals : List ℕ
  pub lines : List (String × List (Option ℕ))

abbrev pub percentile_fields : List (String × Key)
percentile_fields =
    ("p50", Key.p50) ∷ ("p90", Key.p90) ∷ ("p99", Key.p99) ∷ ("p99.9", Key.p99_9) ∷ []

abbrev pub operation_order : List String
operation_order = "Random read 4K" ∷ "Random write 4K" ∷ "Random read 8K" ∷ "Random write 8K" ∷ []

abbrev pub or_no_rows : Option (List Row) → List Row
or_no_rows none = []
or_no_rows (some rows) = rows

-- `rows_by_operation.setdefault(row["operation"], []).append(row)`
unfoldable pub group_rows : Dict (List Row) → List Row → Dict (List Row)
group_rows d [] = d
group_rows d (row ∷ rows) =
    group_rows (insert row.operation (or_no_rows (lookup row.operation d) ++ row ∷ []) d) rows

-- `any(v is not None for v in y_vals)`
unfoldable pub has_value : List (Option ℕ) → Bool
has_value [] = false
has_value (some v ∷ vs) = true
has_value (none ∷ vs) = has_value vs

unfoldable pub lines_of : List Row → List (String × Key) → List (String × List (Option ℕ))
lines_of rows [] = []
lines_of rows ((label, key) ∷ fields) =
    let y_vals = map (λ row. row.value key) rows in
    let rest = lines_of rows fields in if has_value y_vals then (label, y_vals) ∷ rest else rest

module _ (results_dir prefix : String) where
  abbrev pub figure_of : String → List Row → List (String × List (Option ℕ)) → List Figure
  figure_of operation rows [] = []
  figure_of operation rows (line ∷ lines) =
      record {
        path = path_join results_dir (prefix <> "_" <> make_plot_slug operation <> ".png");
        title = operation <> " latency by run";
        x_vals = map (λ row. row.run) rows;
        lines = line ∷ lines;
      }
      ∷ []

  -- An operation without rows has no lines, and so no figure.
  unfoldable pub figures : Dict (List Row) → List String → List Figure
  figures grouped [] = []
  figures grouped (operation ∷ operations) =
      let op_rows = sort_by (λ row. row.run) (or_no_rows (lookup operation grouped)) in
      figure_of operation op_rows (lines_of op_rows percentile_fields) ++ figures grouped operations

  unfoldable pub plot_latency_runs : List Row → List Figure
  plot_latency_runs rows = figures (group_rows [] rows) operation_order

pub record Arguments : Type 0 where
  pub results_dir : String
  pub plot : Bool
  pub prefix : String

-- What `main` prints, draws and returns
pub record Outcome : Type 0 where
  pub code : ℕ
  pub out : List String
  pub messages : List String
  pub drawn : List Figure

abbrev pub plot_messages : List Figure → List String
plot_messages [] = "plot: no data to plot" ∷ []
plot_messages (figure ∷ more) = map (λ f. "plot: " <> f.path) (figure ∷ more)

abbrev pub plotted : Arguments → (has_matplotlib : Bool) → List Row → List String → Outcome
plotted args has_matplotlib rows out =
    let drawn = plot_latency_runs args.results_dir args.prefix rows in
    if not args.plot
    then record { code = 0; out = out; messages = []; drawn = [] }
    else if has_matplotlib
    then record { code = 0; out = out; messages = plot_messages drawn; drawn = drawn }
    else record {
      code = 1;
      out = out;
      messages = "plotting requires matplotlib (pip install matplotlib)" ∷ [];
      drawn = [];
    }

module _ (load : String → Option Fio) (read : String → Option String) {F : Type 0} (zero_stddev : F)
    (pstdev : List ℕ → F) (show_stddev : F → String) where
  unfoldable pub report : List String → (List Row → List String → Outcome) → Result Outcome
  report run_dirs finish = do
    latency_run_rows ← build_latency_run_rows load read run_dirs latency_ops
    throughput ← build_detailed_table load read run_dirs throughput_ops
    latency ← build_detailed_table load read run_dirs latency_ops
    throughput_runs ← build_variance_table load read run_dirs zero_stddev pstdev throughput_ops
    latency_runs ← build_variance_table load read run_dirs zero_stddev pstdev latency_ops
    ok (
        finish latency_run_rows (
          detailed_table "THROUGHPUT SUMMARY" throughput
          ++ "" ∷ detailed_table "LATENCY SUMMARY" latency
          ++ "" ∷ latency_runs_table "LATENCY RUNS DETAIL" latency_run_rows
          ++ "" ∷ variance_table show_stddev "THROUGHPUT RUNS VARIANCE" throughput_runs
          ++ "" ∷ variance_table show_stddev "LATENCY RUNS VARIANCE" latency_runs))

  -- `none` is a directory that does not exist. An exception ends the script, here without what was
  -- printed before.
  unfoldable pub main : Arguments → Option (List Entry) → (has_matplotlib : Bool) → Result Outcome
  main args none has_matplotlib = ok (record {
    code = 1;
    out = [];
    messages = ("results dir does not exist: " <> args.results_dir) ∷ [];
    drawn = [];
  })
  main args (some listing) has_matplotlib =
      report (collect_run_dirs args.results_dir listing) (plotted args has_matplotlib)
