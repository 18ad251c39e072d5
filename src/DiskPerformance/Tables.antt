-- ===== src/DiskPerformance/Tables.antt =====
-- The tables of disk_performance/aggregate.py: their rows, and the lines that are printed. The text of
-- a standard deviation is the argument `show_stddev`.
pub mod Rows
use benchhelpers.Prelude.{
  List, Option, Result, String, [], basename, chars, if◌then◌else◌, is_digit, join, ljust, none, ok,
  path_join, read_number, rjust, show, some, str_eq, suc, zero, ℕ, ◌++◌, ◌+◌, ◌<>◌, ◌>>=◌, ◌>>◌,
  ◌∷◌,
}
use benchhelpers.Prelude.Sorting.{sort_by}
use benchhelpers.DiskPerformance.{Fio, Sample}
use benchhelpers.DiskPerformance.Stats.{Key, metric_median, get, BwStats, make_bw_stats}
use benchhelpers.DiskPerformance.Stats as Key
use benchhelpers.DiskPerformance.Runs.{parse_at, collect_result_samples}

pub record Spec : Type 0 where
  pub operation : String
  pub qd : ℕ
  pub filename : String
  pub test_type : String

abbrev spec : String → ℕ → String → String → Spec
spec operation qd filename test_type = record {
  operation = operation;
  qd = qd;
  filename = filename;
  test_type = test_type;
}

abbrev pub throughput_ops : List Spec
throughput_ops =
    spec "Random read 4K" 256 "read_iops_test.json" "read"
    ∷ spec "Random write 4K" 256 "write_iops_test.json" "write"
    ∷ spec "Random read 8K" 256 "read_iops_test_8K.json" "read"
    ∷ spec "Random write 8K" 256 "write_iops_test_8K.json" "write"
    ∷ spec "Read 1M" 64 "read_bandwidth_test.json" "read"
    ∷ spec "Write 1M" 64 "write_bandwidth_test.json" "write"
    ∷ []

abbrev pub latency_ops : List Spec
latency_ops =
    spec "Random read 4K" 1 "read_latency_test.json" "read"
    ∷ spec "Random write 4K" 1 "write_latency_test.json" "write"
    ∷ spec "Random read 8K" 1 "read_latency_test_8K.json" "read"
    ∷ spec "Random write 8K" 1 "write_latency_test_8K.json" "write"
    ∷ []

abbrev pub latency_op_order : List String
latency_op_order = "Random read 4K" ∷ "Random read 8K" ∷ "Random write 4K" ∷ "Random write 8K" ∷ []

-- `run` is 0 in a row of a summary, which has none.
pub record Row : Type 0 where
  pub run : ℕ
  pub operation : String
  pub qd : ℕ
  pub value : Key → Option ℕ

-- `op_rank.get(operation, len(op_rank))`
unfoldable pub rank : List String → String → ℕ
rank [] operation = 0
rank (first ∷ rest) operation =
    let later = rank rest operation in if str_eq first operation then 0 else suc later

abbrev pub of_sample : Option Sample → Key → Option ℕ
of_sample none key = none
of_sample (some sample) key = get key sample

-- `int(run_name) if run_name.isdigit() else idx`
abbrev pub run_id : String → ℕ → ℕ
run_id run_name idx = if is_digit run_name then read_number run_name else idx

module _ (load : String → Option Fio) (read : String → Option String) where
  unfoldable pub rows_of : Spec → ℕ → List String → Result (List Row)
  rows_of s idx [] = ok []
  rows_of s idx (run_dir ∷ dirs) = do
    parsed ← parse_at load read (path_join run_dir s.filename) s.test_type
    rows ← rows_of s (idx + 1) dirs
    ok (
        record {
          run = run_id (basename run_dir) idx;
          operation = s.operation;
          qd = s.qd;
          value = of_sample parsed;
        }
        ∷ rows)

module _ (load : String → Option Fio) (read : String → Option String) (run_dirs : List String) where
  unfoldable pub build_detailed_table : List Spec → Result (List Row)
  build_detailed_table [] = ok []
  build_detailed_table (s ∷ specs) = do
    samples ← collect_result_samples load read run_dirs s.filename s.test_type
    rows ← build_detailed_table specs
    ok (
        record { run = 0; operation = s.operation; qd = s.qd; value = metric_median samples }
        ∷ rows)

  module _ {F : Type 0} (zero_stddev : F) (pstdev : List ℕ → F) where
    unfoldable pub build_variance_table : List Spec → Result (List (String × ℕ × BwStats F))
    build_variance_table [] = ok []
    build_variance_table (s ∷ specs) = do
      samples ← collect_result_samples load read run_dirs s.filename s.test_type
      rows ← build_variance_table specs
      ok ((s.operation, s.qd, make_bw_stats zero_stddev pstdev samples) ∷ rows)

  unfoldable pub rows_of_specs : List Spec → Result (List Row)
  rows_of_specs [] = ok []
  rows_of_specs (s ∷ specs) = do
    first ← rows_of load read s 1 run_dirs
    rest ← rows_of_specs specs
    ok (first ++ rest)

  unfoldable pub build_latency_run_rows : List Spec → Result (List Row)
  build_latency_run_rows specs =
      rows_of_specs (sort_by (λ s. rank latency_op_order s.operation) specs)

unfoldable pub fmt_num : Option ℕ → String
fmt_num none = "n/a"
fmt_num (some n) = show n

abbrev pub dashes : ℕ → String
dashes zero = ""
dashes (suc n) = "-" <> dashes n

-- The seven values of a row, in the fields `{:>12} {:>12} {:>10} ...`
abbrev pub value_fields : (Key → Option ℕ) → List String
value_fields value =
    rjust 12 (fmt_num (value Key.bw))
    ∷ rjust 12 (fmt_num (value Key.iops))
    ∷ rjust 10 (fmt_num (value Key.p50))
    ∷ rjust 10 (fmt_num (value Key.p90))
    ∷ rjust 10 (fmt_num (value Key.p95))
    ∷ rjust 10 (fmt_num (value Key.p99))
    ∷ rjust 10 (fmt_num (value Key.p99_9))
    ∷ []

abbrev pub value_names : List String
value_names =
    rjust 12 "BW, MiB/s"
    ∷ rjust 12 "IOPS (K)"
    ∷ rjust 10 "p50 us"
    ∷ rjust 10 "p90 us"
    ∷ rjust 10 "p95 us"
    ∷ rjust 10 "p99 us"
    ∷ rjust 10 "p99.9 us"
    ∷ []

abbrev pub each_row {ℓ} : {A : Type ℓ} → String → (A → String) → List A → List String
each_row separator line [] = []
each_row separator line (row ∷ rows) = separator ∷ line row ∷ each_row separator line rows

unfoldable pub detailed_table : String → List Row → List String
detailed_table title rows =
    let header = join " " (ljust 20 "Operation" ∷ rjust 8 "QD" ∷ value_names) in
    title
    ∷ header
    ∷ each_row (dashes (chars header))
        (λ row. join " " (ljust 20 row.operation ∷ rjust 8 (show row.qd) ∷ value_fields row.value))
        rows

module _ {F : Type 0} (show_stddev : F → String) where
  abbrev pub fmt_stddev : Option F → String
  fmt_stddev none = "n/a"
  fmt_stddev (some v) = show_stddev v

  unfoldable pub variance_table : String → List (String × ℕ × BwStats F) → List String
  variance_table title rows =
      let header = join " " (
        ljust 20 "Operation"
        ∷ rjust 6 "QD"
        ∷ rjust 10 "BW min"
        ∷ rjust 10 "BW max"
        ∷ rjust 12 "BW median"
        ∷ rjust 10 "BW stddev"
        ∷ []) in
      title
      ∷ header
      ∷ each_row (dashes (chars header))
          (λ row. join " " (
            ljust 20 row.0
            ∷ rjust 6 (show row.1)
            ∷ rjust 10 (fmt_num row.2.min_bw)
            ∷ rjust 10 (fmt_num row.2.max_bw)
            ∷ rjust 12 (fmt_num row.2.median_bw)
            ∷ rjust 10 (fmt_stddev row.2.stddev)
            ∷ []))
          rows

-- A heading before the rows of each operation, and an empty line between two.
abbrev pub heading : Option String → String → List String
heading none operation = ("# " <> operation) ∷ []
heading (some current) operation =
    if str_eq operation current then [] else "" ∷ ("# " <> operation) ∷ []

unfoldable pub run_lines : String → Option String → List Row → List String
run_lines separator current [] = []
run_lines separator current (row ∷ rows) =
    heading current row.operation
    ++ separator
      ∷ join " " (
          rjust 6 (show row.run)
          ∷ ljust 20 row.operation
          ∷ rjust 6 (show row.qd)
          ∷ value_fields row.value)
      ∷ run_lines separator (some row.operation) rows

unfoldable pub latency_runs_table : String → List Row → List String
latency_runs_table title rows =
    let header = join " " (rjust 6 "Run" ∷ ljust 20 "Operation" ∷ rjust 6 "QD" ∷ value_names) in
    title ∷ header ∷ run_lines (dashes (chars header)) none rows
