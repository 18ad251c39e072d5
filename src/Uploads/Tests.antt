-- ===== src/Uploads/Tests.antt =====
-- The results of a run of three kinds, and those of a TPC-C run.
use benchhelpers.Prelude.{
  All, [], ap, arith, false, if◌then◌else◌, map, none, ok, refl, some, suc, true, ℕ, ◌<◌, ◌==◌, ◌∷◌,
  ◌≡◌,
}
use benchhelpers.Prelude.Dict.{lookup}
use benchhelpers.Uploads.{Files, credentials, drop, create_table, upsert}
use benchhelpers.Uploads.Memory.{Rows, empty, database}
use benchhelpers.Uploads.Latency.{
  LatencyRow, upsert_each, rows_of, insert_ydb_results_row as insert_latency,
}
use benchhelpers.Uploads.Latency as Latency
use benchhelpers.Uploads.Latency.{get_or_zero, or_empty}
use benchhelpers.Uploads.Latency.Overwritten.{IsLast, insert_ydb_results_row-last}
use benchhelpers.Uploads.Results.{ResultRow, row_of, insert_ydb_results_row, main}
use benchhelpers.Uploads.Results as Upload
use benchhelpers.Uploads.Results.Stored.{IsStored, main-IsStored}

abbrev entry : ℕ → ℕ → Latency.Inflight
entry n p = record { inflight = some n; p50 = some p; p90 = some p; p99 = some p }

abbrev latencies : Latency.Results
latencies = record {
  throughputs = some (("PlainGrpc", 19752) ∷ ("PlainKqp", 16796) ∷ []);
  raw_results = some (
      (("PlainGrpc", entry 1 97 ∷ []) ∷ [])
      ∷ (("PlainKqp", entry 2 50 ∷ entry 1 120 ∷ []) ∷ [])
      ∷ (("Select1", entry 4 300 ∷ []) ∷ [])
      ∷ []);
}

abbrev latency_arguments : Latency.Arguments
latency_arguments = record {
  ydb_path = "ydb";
  database = "/db";
  test_endpoint = "e";
  test_database = "t";
  table = "latency";
  token = none;
  sa_token = none;
  ydb_version = "24";
  label_cluster = "c";
  git_commit_timestamp = "1";
  git_repository = "r";
  git_branch = "b";
  drop = false;
}

two_kinds : map (λ r. r.kind) (rows_of latency_arguments latencies) ≡ "PlainGrpc" ∷ "PlainKqp" ∷ []
unfolding rows_of lookup
two_kinds = refl

abbrev after_latencies : Rows LatencyRow
after_latencies p j =
    (insert_latency (database LatencyRow) "/db/latency" 7 latency_arguments latencies
        (empty LatencyRow)).1
      p j

latencies_inserted :
    insert_latency
      (database LatencyRow)
      "/db/latency"
      7
      latency_arguments
      latencies
      (empty LatencyRow)
    ≡ (ok tt, after_latencies)
unfolding insert_latency upsert_each rows_of upsert lookup
latencies_inserted = refl

second-IsLast : IsLast latencies "PlainKqp" (entry 1 120)
second-IsLast = record {
  before = ("PlainGrpc", entry 1 97 ∷ []) ∷ [];
  later = ("Select1", entry 4 300 ∷ []) ∷ [];
  firsts = entry 2 50 ∷ [];
  others = [];
  in_order = refl;
  is_first = (λ h. two_or_four 1 (ap get_or_zero h) (omega arith), tt);
  has_one = refl;
  is_last = ((λ h. two_or_four 3 (ap get_or_zero h) (omega arith), tt), tt);
}
  where
    two_or_four : (n : ℕ) → suc n ≡ 1 → 0 < n → ⊥
    two_or_four n h pos = omega arith

rows_given :
    All
      (λ row. (database LatencyRow).as_given "/db/latency" row ≡ true)
      (rows_of latency_arguments latencies)
unfolding rows_of lookup
rows_given = (refl, (refl, tt))

insert_ydb_results_row-last_example : after_latencies "/db/latency" 7 ≡ (
    if 7 == 7
    then some (record {
      cluster = "c";
      version = "24";
      git_repository = "r";
      git_commit_timestamp = "1";
      git_branch = "b";
      kind = "PlainKqp";
      throughput = get_or_zero (lookup "PlainKqp" (or_empty latencies.throughputs));
      latency_p50 = 120;
      latency_p90 = 120;
      latency_p99 = 120;
    })
    else none)
insert_ydb_results_row-last_example =
    insert_ydb_results_row-last (database LatencyRow) "/db/latency" 7 latency_arguments latencies
      "PlainKqp" (entry 1 120) (empty LatencyRow) after_latencies second-IsLast rows_given
      latencies_inserted 7

abbrev results : Upload.Results
results = record {
  summary = some (record {
    measure_start_ts = some 1700;
    warehouses = some 10;
    time_seconds = some 600;
    tpmc = some 120;
    efficiency = some "93.3";
    throughput = some 5;
    goodput = some 4;
  });
  transactions = some (("NewOrder", some (("90", 30) ∷ [])) ∷ []);
}

abbrev result_arguments : Upload.Arguments
result_arguments = record {
  results_file = "r.json";
  database = some "/db";
  table = some "tpcc";
  token = some "token";
  sa_token = none;
  ydb_version = none;
  label = none;
  label_cluster = none;
  git_commit_timestamp = none;
  git_repository = none;
  git_branch = none;
  run_type = none;
  drop = false;
}

abbrev one_line : Files
one_line path = some "line"

abbrev after_results : Rows ResultRow
after_results p j =
    (main (database ResultRow) (λ r. "{}") one_line (λ f. some results) (λ c. true) result_arguments
        (empty ResultRow)).1
      p j

results_uploaded :
    main
      (database ResultRow)
      (λ r. "{}")
      one_line
      (λ f. some results)
      (λ c. true)
      result_arguments
      (empty ResultRow)
    ≡ (ok tt, after_results)
unfolding main credentials drop create_table insert_ydb_results_row row_of upsert lookup
results_uploaded = refl

main-IsStored_example :
    IsStored
      (database ResultRow)
      (λ r. "{}")
      one_line
      (λ f. some results)
      (λ c. true)
      result_arguments
      (empty ResultRow)
      after_results
main-IsStored_example =
    main-IsStored (database ResultRow) (λ r. "{}") one_line (λ f. some results) (λ c. true)
      result_arguments (empty ResultRow) after_results (λ path r key row is_read is_row. refl)
      results_uploaded
