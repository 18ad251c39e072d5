-- ===== src/Tpcc/RunLog/Tests.antt =====
-- A short log, and the theorems at it.
use benchhelpers.Prelude.{List, String, [], if◌then◌else◌, none, ok, refl, some, str_eq, ◌∷◌, ◌≡◌}
use benchhelpers.Tpcc.RunLog.{RunResult, Patterns, scan, process_run_file, read_results}

-- Expressions that tell the lines of the test apart; the efficiency is kept as text.
abbrev patterns : Patterns String
patterns = record {
  scale = λ line. if str_eq line "Scale Factor: 20" then some 20 else none;
  start_measure = λ line. if str_eq line "Warmup complete" then some 1700 else none;
  is_results_line = λ line. str_eq line "RESULTS";
  entry = λ line. if str_eq line "" then none else some line;
  rate = λ line. if str_eq line "Rate" then some (70, 60) else none;
  int_of_float = λ s. 5;
  int_of = λ s. some 250;
  float_of = λ s. s;
}

abbrev tail : List String
tail = "|5" ∷ "|250" ∷ "|50" ∷ "|97.2%" ∷ "Rate" ∷ []

abbrev run : RunResult String
run = record {
  name = "";
  measure_start_ts = 1700;
  time_seconds = 5;
  warehouses = 20;
  new_orders = 250;
  tpmc = 5;
  efficiency = "|97.2%";
  throughput = 70;
  goodput = 60;
}

log_read :
    process_run_file patterns
      ("x" ∷ "Scale Factor: 20" ∷ "y" ∷ "Warmup complete" ∷ "z" ∷ "RESULTS" ∷ tail)
    ≡ ok run
unfolding process_run_file scan read_results
log_read = refl

abbrev earlier : RunResult String
earlier = record run { measure_start_ts = 1690 }
