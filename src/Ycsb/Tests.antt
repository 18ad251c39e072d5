-- ===== src/Ycsb/Tests.antt =====
-- A log of one run of two instances, a Go log of two workloads, and a line of CockroachDB.
use benchhelpers.Prelude.{
  List, Option, String, [], chars, drop_chars, err, if◌then◌else◌, is_space, length, map, none, ok,
  refl, show, some, str_eq, take_chars, true, value_error, words, ℕ, ◌++◌, ◌∷◌, ◌≡◌, ◌≢◌, ◌≤◌,
}
use benchhelpers.Ycsb.{
  Results, WorkloadResult, no_result, Header, Patterns, parse, parse_line, parse_lines,
  add_workload, add_each, calc_aggregated_result,
}
use benchhelpers.Uploads.{Files, credentials, create_table, upsert}
use benchhelpers.Uploads.Memory.{Rows, empty, database}
use benchhelpers.Ycsb.Go.{GoPatterns, parse_go_lines, parse_go}
use benchhelpers.Ycsb.Go.Single.{parse_go-one}
use benchhelpers.Ycsb.Cockroach.{Conversions, read_host_result}
use benchhelpers.Ycsb.Upload.{Arguments, YcsbRow, format_number, insert_rows, dump_workloads_ydb}
use benchhelpers.Ycsb.Upload.Stored.{ReadBack, AllReadBack, AreStored, dump_workloads_ydb-AreStored}
use benchhelpers.Ycsb.Logs.{Instance, Run, add_runs, parse-runs}

abbrev header : Header
header = record {
  distribution = "uniform";
  workload = "a";
  ycsb_instances_count = "24";
  when = 1678230636;
}

abbrev only : String → Option ℕ → String → Option ℕ
only expected n line = if str_eq line expected then n else none

-- Patterns that know the lines of one log.
abbrev patterns : Patterns
patterns = record {
  workload_p = λ line. if str_eq line "workload" then some header else none;
  host_p = λ line. if str_eq line "host" then some "127.0.0.1" else none;
  ops_p = only "ops" (some 40000);
  time_p = only "time" (some 8200);
  latency_99_p = only "latency" (some 1835);
  oks_p = only "oks" (some 331628);
  errors_p = only "errors" (some 0);
  not_found_p = only "not found" (some 3);
  workload_done_p = λ line. str_eq line "done";
}

abbrev instance_lines : List String
instance_lines = "host" ∷ "time" ∷ "ops" ∷ "latency" ∷ "oks" ∷ "errors" ∷ "not found" ∷ []

abbrev log : List String
log = "workload" ∷ instance_lines ++ (instance_lines ++ ("done" ∷ []))

abbrev instance_one : Instance
instance_one = record {
  host = "127.0.0.1";
  ops = 40000;
  time = 8200;
  latency = 1835;
  oks = 331628;
  errors = 0;
  not_found = 3;
}

abbrev runs : List Run
runs = record { header = header; instances = instance_one ∷ instance_one ∷ [] } ∷ []

runs_parsed : parse patterns log [] ≡ add_runs runs []
runs_parsed = parse-runs patterns log runs [] refl ((refl, (refl, _)), _)

abbrev two_results : List WorkloadResult
two_results =
    record no_result { throughput = 3; min_time_ms = 5; max_time_ms = 5 }
    ∷ record no_result { throughput = 4; min_time_ms = 6; max_time_ms = 6 }
    ∷ []

-- A Go log of two workloads, of which the second is lost
abbrev go_patterns : GoPatterns
go_patterns = record {
  common = patterns;
  result_title_p = only "finished" (some 8259992138);
  error_p = only "error" (some 2);
  total_p = λ line. if str_eq line "total" then some (331628, 40308, 1835) else none;
}

abbrev go_log : List String
go_log =
    "workload" ∷ "host" ∷ "finished" ∷ "error" ∷ "total" ∷ "done" ∷ "workload" ∷ "host" ∷ "finished"
    ∷ "total" ∷ "done" ∷ []

one_result : map (λ e. e.1.errors) (parse_go go_patterns go_log []) ≡ 2 ∷ []
unfolding parse_go parse_go_lines parse_line add_workload calc_aggregated_result add_each
one_result = refl

parse_go-one_example : length (parse_go go_patterns go_log []) ≤ 1
parse_go-one_example = parse_go-one go_patterns go_log

abbrev conversions : Conversions
conversions = record {
  result_title_p = λ line. str_eq line "title";
  int_of = only "0" (some 0);
  round_of = only "2507.4" (some 2507);
  round_ms_of = only "15952.9" (some 15952900);
}

bad_count : read_host_result conversions "15952.9s 0 x 2507.4" no_result ≡ err value_error
unfolding read_host_result words is_space take_chars drop_chars chars
bad_count = refl

thousands : format_number 40301 ≡ "40.4K"
unfolding format_number show
thousands = refl

abbrev arguments : Arguments
arguments = record {
  database = some "/db";
  table = some "ycsb";
  token = some "token";
  sa_token = none;
  ydb_version = none;
  record_count = some 1000;
  label = "";
  label_cluster = none;
  git_repository = none;
  git_commit_timestamp = none;
  git_branch = none;
  run_type = none;
}

abbrev one_line : Files
one_line path = some "line"

abbrev after_dump : Rows YcsbRow
after_dump p j =
    (dump_workloads_ydb (database YcsbRow) one_line (λ c. true) arguments (parse patterns log [])
        (empty YcsbRow)).1
      p j

some_results : parse patterns log [] ≢ []
unfolding parse parse_lines parse_line add_workload calc_aggregated_result add_each
some_results e = cc

dumped :
    dump_workloads_ydb
      (database YcsbRow)
      one_line
      (λ c. true)
      arguments
      (parse patterns log [])
      (empty YcsbRow)
    ≡ (ok tt, after_dump)
unfolding dump_workloads_ydb credentials create_table upsert insert_rows parse parse_lines
    parse_line add_workload calc_aggregated_result add_each
dumped = refl

all_read_back :
    AllReadBack (database YcsbRow) one_line (λ c. true) arguments (parse patterns log [])
all_read_back path is_path = each (parse patterns log [])
  where
    each : (results : Results) → ReadBack (database YcsbRow) path arguments results
    each [] = tt
    each (e ∷ results) = (refl, each results)

dump_workloads_ydb-AreStored_example :
    AreStored (database YcsbRow) one_line (λ c. true) arguments (parse patterns log []) after_dump
dump_workloads_ydb-AreStored_example =
    dump_workloads_ydb-AreStored (database YcsbRow) one_line (λ c. true) arguments patterns log
      (empty YcsbRow) after_dump some_results all_read_back dumped
