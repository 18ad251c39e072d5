-- ===== src/Uploads/Latency.antt =====
-- debug_latency/wrapper.py. The command line tool, JSON and the pool that may run an
-- operation again are arguments; the time is that of each run.
pub mod Overwritten
use benchhelpers.Prelude.{
  Bool, List, Option, Result, String, [], err, exit, false, if◌then◌else◌, none, ok, show, some, ℕ,
  ◌++◌, ◌<>◌, ◌==◌, ◌∷◌,
}
use benchhelpers.Prelude.Dict.{Dict, lookup}
use benchhelpers.Uploads.{
  Executed, Database, Session, and_then, prepare, upsert, Credentials, anonymous, Files,
  credentials,
}

-- An entry of `RawResults`
pub record Inflight : Type 0 where
  pub inflight : Option ℕ
  pub p50 : Option ℕ
  pub p90 : Option ℕ
  pub p99 : Option ℕ

pub record Results : Type 0 where
  pub throughputs : Option (Dict ℕ)
  pub raw_results : Option (List (Dict (List Inflight)))

pub record Arguments : Type 0 where
  pub ydb_path : String
  pub database : String
  pub test_endpoint : String
  pub test_database : String
  pub table : String
  pub token : Option String
  pub sa_token : Option String
  pub ydb_version : String
  pub label_cluster : String
  pub git_commit_timestamp : String
  pub git_repository : String
  pub git_branch : String
  pub drop : Bool

-- The columns but `timestamp`
pub record LatencyRow : Type 0 where
  pub cluster : String
  pub version : String
  pub git_repository : String
  pub git_commit_timestamp : String
  pub git_branch : String
  pub kind : String
  pub throughput : ℕ
  pub latency_p50 : ℕ
  pub latency_p90 : ℕ
  pub latency_p99 : ℕ

abbrev pub get_or_zero : Option ℕ → ℕ
get_or_zero none = 0
get_or_zero (some n) = n

abbrev pub is_one : Option ℕ → Bool
is_one none = false
is_one (some n) = n == 1

-- The first entry for inflight 1
abbrev pub inflight_1_data : List Inflight → Option Inflight
inflight_1_data [] = none
inflight_1_data (entry ∷ rest) =
    let later = inflight_1_data rest in if is_one entry.inflight then some entry else later

-- `.get(key, default)`
abbrev pub or_empty : Option (Dict ℕ) → Dict ℕ
or_empty none = []
or_empty (some d) = d

abbrev pub or_none : Option (List (Dict (List Inflight))) → List (Dict (List Inflight))
or_none none = []
or_none (some groups) = groups

module _ (args : Arguments) (throughputs : Dict ℕ) where
  abbrev pub row_of : String → Inflight → LatencyRow
  row_of kind entry = record {
    cluster = args.label_cluster;
    version = args.ydb_version;
    git_repository = args.git_repository;
    git_commit_timestamp = args.git_commit_timestamp;
    git_branch = args.git_branch;
    kind = kind;
    throughput = get_or_zero (lookup kind throughputs);
    latency_p50 = get_or_zero entry.p50;
    latency_p90 = get_or_zero entry.p90;
    latency_p99 = get_or_zero entry.p99;
  }

  abbrev pub kind_rows : Dict (List Inflight) → List LatencyRow
  kind_rows [] = []
  kind_rows ((kind, inflight_results) ∷ kinds) =
      let rest = kind_rows kinds in
      elim (inflight_1_data inflight_results) [
        | none ↦ rest
        | some entry ↦ row_of kind entry ∷ rest
      ]

  abbrev pub group_rows : List (Dict (List Inflight)) → List LatencyRow
  group_rows [] = []
  group_rows (result_group ∷ groups) = kind_rows result_group ++ group_rows groups

-- The rows of a run, in the order of their statements
unfoldable pub rows_of : Arguments → Results → List LatencyRow
rows_of args results = group_rows args (or_empty results.throughputs) (or_none results.raw_results)

module _ {S : Type 0} (db : Database S LatencyRow) where
  unfoldable pub upsert_each : String → ℕ → List LatencyRow → Session S (Unit {0})
  upsert_each path current_timestamp [] s = (ok tt, s)
  upsert_each path current_timestamp (row ∷ rows) s =
      and_then (upsert db path current_timestamp row)
        (λ ignored. upsert_each path current_timestamp rows) s

  unfoldable pub insert_ydb_results_row : String → ℕ → Arguments → Results → Session S (Unit {0})
  insert_ydb_results_row path current_timestamp args results =
      upsert_each path current_timestamp (rows_of args results)

-- The command ends with an error, or prints a text
pub data Command : Type 0 where
  called_process_error : Command
  stdout : String → Command

-- `MIN_INFLIGHT`, `MAX_INFLIGHT`, `INTERVAL` and `RUN_KIND` are in the command's arguments.
abbrev pub cmd : String → String → String → List String
cmd ydb_path endpoint database =
    ydb_path
    ∷ "-e"
    ∷ endpoint
    ∷ "-d"
    ∷ database
    ∷ "debug"
    ∷ "latency"
    ∷ "-k"
    ∷ "AllKinds"
    ∷ "--min-inflight"
    ∷ show 1
    ∷ "--max-inflight"
    ∷ show 64
    ∷ "--interval"
    ∷ show 5
    ∷ "-f"
    ∷ "JSON"
    ∷ []

abbrev pub loaded : (String → Option Results) → Command → Result Results
loaded load called_process_error = err (exit 1)
loaded load (stdout text) = elim (load text) [ none ↦ err (exit 1) | some results ↦ ok results ]

unfoldable pub run_cli :
    Files
    → (List String → Command)
    → (String → Option Results)
    → String
    → String
    → String
    → Result Results
run_cli files run load ydb_path endpoint database = elim (files ydb_path) [
  | none ↦ err (exit 1)
  | some line ↦ loaded load (run (cmd ydb_path endpoint database))
]

module _ {S : Type 0} (db : Database S LatencyRow) (files : Files) (run : List String → Command)
    (load : String → Option Results) (connects : Credentials → Bool)
    (retry_operation_sync : (ℕ → Session S (Unit {0})) → Session S (Unit {0})) where
  -- A run of the insertion that is repeated takes the time anew.
  abbrev pub upload : Arguments → (ℕ → ℕ) → Results → Session S (Unit {0})
  upload args now results =
      let table_path = args.database <> "/" <> args.table in
      and_then (prepare db args.drop table_path) (λ ignored.
        retry_operation_sync (λ run. insert_ydb_results_row db table_path (now run) args results))

  -- `driver.wait` may time out.
  abbrev pub connected : Arguments → (ℕ → ℕ) → Credentials → Results → Session S (Unit {0})
  connected args now auth results s =
      if connects auth then upload args now results s else (err (exit 1), s)

  abbrev pub uploaded : Arguments → (ℕ → ℕ) → Credentials → Result Results → Session S (Unit {0})
  uploaded args now auth (err raised) s = (err raised, s)
  uploaded args now auth (ok results) s = connected args now auth results s

  abbrev pub authorized : Arguments → (ℕ → ℕ) → Result Credentials → Session S (Unit {0})
  authorized args now (err raised) s = (err raised, s)
  authorized args now (ok auth) s =
      uploaded args now auth
        (run_cli files run load args.ydb_path args.test_endpoint args.test_database) s

  unfoldable pub main : Arguments → (ℕ → ℕ) → Session S (Unit {0})
  main args now = authorized args now (credentials files (ok anonymous) args.token args.sa_token)
