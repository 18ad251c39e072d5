-- ===== src/Ycsb.antt =====
-- ycsb/multinode_aggegate_result.py: the results of the instances of a workload and their total,
-- and the parser of the Java YCSB log. What a regular expression finds in a line is an argument.
-- Latencies are in microseconds: the code divides each by 1000. `per_host`, which is only printed,
-- is left out.
pub mod Totals
pub mod Logs
pub mod Go
pub mod Cockroach
pub mod Upload
mod Tests
use benchhelpers.Prelude.{
  Bool, List, Option, String, [], if◌then◌else◌, map, max, min, none, some, str_eq, ℕ, ◌++◌, ◌+◌,
  ◌==◌, ◌∷◌,
}

pub record WorkloadResult : Type 0 where
  pub host : String
  pub workload : String
  pub distribution : String
  pub ycsb_instances_count : String
  pub when : ℕ
  pub throughput : ℕ
  pub latency : ℕ
  pub oks : ℕ
  pub errors : ℕ
  pub not_found : ℕ
  pub max_time_ms : ℕ
  pub min_time_ms : ℕ

-- `WorkloadResult()`
abbrev pub no_result : WorkloadResult
no_result = record {
  host = "";
  workload = "";
  distribution = "";
  ycsb_instances_count = "0";
  when = 0;
  throughput = 0;
  latency = 0;
  oks = 0;
  errors = 0;
  not_found = 0;
  max_time_ms = 0;
  min_time_ms = 0;
}

abbrev pub add_result : WorkloadResult → WorkloadResult → WorkloadResult
add_result total r = record {
  host = total.host;
  workload = total.workload;
  distribution = total.distribution;
  ycsb_instances_count = total.ycsb_instances_count;
  when = total.when;
  throughput = total.throughput + r.throughput;
  latency = max total.latency r.latency;
  oks = total.oks + r.oks;
  errors = total.errors + r.errors;
  not_found = total.not_found + r.not_found;
  max_time_ms = max total.max_time_ms r.max_time_ms;
  min_time_ms = min total.min_time_ms r.min_time_ms;
}

abbrev pub first_min : List WorkloadResult → ℕ
first_min [] = 0
first_min (r ∷ rs) = r.min_time_ms

unfoldable pub add_each : WorkloadResult → List WorkloadResult → WorkloadResult
add_each total [] = total
add_each total (r ∷ rs) = add_each (add_result total r) rs

-- `calc_aggregated_result`
unfoldable pub calc_aggregated_result : List WorkloadResult → WorkloadResult
calc_aggregated_result results =
    add_each (record no_result { host = "total"; min_time_ms = first_min results }) results

-- The header of a workload, and the results by time.
pub record Header : Type 0 where
  pub distribution : String
  pub workload : String
  pub ycsb_instances_count : String
  pub when : ℕ

abbrev pub Results : Type 0
Results = List (ℕ × WorkloadResult)

-- `self.results[when] = total`
abbrev pub set_result : ℕ → WorkloadResult → Results → Results
set_result when total [] = (when, total) ∷ []
set_result when total ((t, r) ∷ results) =
    let rest = set_result when total results in
    if t == when then (t, total) ∷ results else (t, r) ∷ rest

abbrev pub workload_total : Header → List WorkloadResult → WorkloadResult
workload_total h results = record (calc_aggregated_result results) {
  workload = h.workload;
  when = h.when;
  distribution = h.distribution;
  ycsb_instances_count = h.ycsb_instances_count;
}

-- `add_workload`
unfoldable pub add_workload : Header → List WorkloadResult → Results → Results
add_workload h workload_results results =
    let total = workload_total h workload_results in
    if str_eq h.workload ""
    then results
    else if total.max_time_ms == 0
    then results
    else set_result h.when total results

-- A line of the log, by the first regular expression that it matches.
pub data Line : Type 0 where
  workload_line : Header → Line
  host_line : String → Line
  ops_line time_line latency_line oks_line errors_line not_found_line : ℕ → Line
  done_line other_line : Line

-- What `parse` keeps while it reads.
pub record ParseState : Type 0 where
  pub workload_results : List WorkloadResult
  pub header : Header
  pub host_result : WorkloadResult
  pub results : Results

-- `if current_host_result.host: current_workload_results.append(current_host_result)`
abbrev pub appended : ParseState → List WorkloadResult
appended st =
    if str_eq st.host_result.host ""
    then st.workload_results
    else st.workload_results ++ st.host_result ∷ []

abbrev pub no_header : Header
no_header = record { distribution = ""; workload = ""; ycsb_instances_count = "0"; when = 0 }

unfoldable pub parse_line : Line → ParseState → ParseState
parse_line (workload_line h) st = record st {
  host_result = no_result;
  workload_results = [];
  header = h;
}
parse_line (host_line host) st = record st {
  workload_results = appended st;
  host_result = record no_result { host = host };
}
parse_line (ops_line n) st = record st { host_result = record (st.host_result) { throughput = n } }
parse_line (time_line n) st = record st {
  host_result = record (st.host_result) { max_time_ms = n; min_time_ms = n };
}
parse_line (latency_line n) st = record st {
  host_result = record (st.host_result) { latency = max st.host_result.latency n };
}
parse_line (oks_line n) st = record st { host_result = record (st.host_result) { oks = n } }
parse_line (errors_line n) st = record st { host_result = record (st.host_result) { errors = n } }
parse_line (not_found_line n) st = record st {
  host_result = record (st.host_result) { not_found = n };
}
parse_line done_line st = record st {
  workload_results = appended st;
  results = add_workload st.header (appended st) st.results;
  host_result = no_result;
  header = record (st.header) { workload = "" };
}
parse_line other_line st = st

unfoldable pub parse_lines : List Line → ParseState → ParseState
parse_lines [] st = st
parse_lines (line ∷ lines) st = parse_lines lines (parse_line line st)

abbrev pub start : Results → ParseState
start results = record {
  workload_results = [];
  header = no_header;
  host_result = no_result;
  results = results;
}

-- The end of `parse`, after the last line
abbrev pub finish : ParseState → Results
finish st = add_workload st.header (appended st) st.results

-- The regular expressions, in the order in which they are tried.
pub record Patterns : Type 0 where
  pub workload_p : String → Option Header
  pub host_p : String → Option String
  pub ops_p : String → Option ℕ
  pub time_p : String → Option ℕ
  pub latency_99_p : String → Option ℕ
  pub oks_p : String → Option ℕ
  pub errors_p : String → Option ℕ
  pub not_found_p : String → Option ℕ
  pub workload_done_p : String → Bool

abbrev pub or_else : {A : Type 0} → Option A → (A → Line) → Line → Line
or_else none f rest = rest
or_else (some a) f rest = f a

abbrev pub classify : Patterns → String → Line
classify p line = or_else (p.workload_p line) workload_line (
    or_else (p.host_p line) host_line (
      or_else (p.ops_p line) ops_line (
        or_else (p.time_p line) time_line (
          or_else (p.latency_99_p line) latency_line (
            or_else (p.oks_p line) oks_line (
              or_else (p.errors_p line) errors_line (
                or_else (p.not_found_p line) not_found_line
                  (if p.workload_done_p line then done_line else other_line))))))))

-- `Parser.parse`, on the lines of a Java log
unfoldable pub parse : Patterns → List String → Results → Results
parse p lines results = finish (parse_lines (map (classify p) lines) (start results))
