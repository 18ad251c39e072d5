-- ===== src/Uploads/Results.antt =====
-- tpcc/ydb/insert_tpcc_results.py. JSON is read and written by arguments; the numbers of a result are
-- what `json` makes of them, and the shares are texts.
pub mod Stored
use benchhelpers.Prelude.{
  Bool, Option, Result, String, err, exit, if◌then◌else◌, key_error, none, ok, other_exception,
  some, value_error, ℕ, ◌<>◌, ◌>>=◌, ◌>>◌,
}
use benchhelpers.Prelude.Dict.{Dict, lookup}
use benchhelpers.Uploads.{
  Executed, Database, Session, continue, and_then, prepare, upsert, Credentials, Files, credentials,
}

pub record Summary : Type 0 where
  pub measure_start_ts : Option ℕ
  pub warehouses : Option ℕ
  pub time_seconds : Option ℕ
  pub tpmc : Option ℕ
  pub efficiency : Option String
  pub throughput : Option ℕ
  pub goodput : Option ℕ

-- `transactions` has for each name the `percentiles`.
pub record Results : Type 0 where
  pub summary : Option Summary
  pub transactions : Option (Dict (Option (Dict ℕ)))

pub record Arguments : Type 0 where
  pub results_file : String
  pub database : Option String
  pub table : Option String
  pub token : Option String
  pub sa_token : Option String
  pub ydb_version : Option String
  pub label : Option String
  pub label_cluster : Option String
  pub git_commit_timestamp : Option String
  pub git_repository : Option String
  pub git_branch : Option String
  pub run_type : Option String
  pub drop : Bool

-- The columns but `timestamp`
pub record ResultRow : Type 0 where
  pub version : String
  pub label : String
  pub cluster : String
  pub git_repository : String
  pub git_commit_timestamp : String
  pub git_branch : String
  pub run_type : String
  pub warehouses : ℕ
  pub duration_seconds : ℕ
  pub tpmc : ℕ
  pub efficiency : String
  pub throughput : ℕ
  pub goodput : ℕ
  pub new_order_latency90 : ℕ
  pub json : String

-- `d[key]`
abbrev pub required {ℓ} : {V : Type ℓ} → Option V → Result V
required none = err key_error
required (some v) = ok v

-- An option that is not given is written `None`.
abbrev pub formatted : Option String → String
formatted none = "None"
formatted (some text) = text

-- The key and the row of the statement
unfoldable pub row_of : (Results → String) → Arguments → Results → Result (ℕ × ResultRow)
row_of dumps args results = do
  summary ← required results.summary
  measure_start_ts ← required summary.measure_start_ts
  warehouses ← required summary.warehouses
  time_seconds ← required summary.time_seconds
  tpmc ← required summary.tpmc
  efficiency ← required summary.efficiency
  throughput ← required summary.throughput
  goodput ← required summary.goodput
  transactions ← required results.transactions
  new_order ← required (lookup "NewOrder" transactions)
  percentiles ← required new_order
  latency ← required (lookup "90" percentiles)
  ok (
    measure_start_ts,
    record {
      version = formatted args.ydb_version;
      label = formatted args.label;
      cluster = formatted args.label_cluster;
      git_repository = formatted args.git_repository;
      git_commit_timestamp = formatted args.git_commit_timestamp;
      git_branch = formatted args.git_branch;
      run_type = formatted args.run_type;
      warehouses = warehouses;
      duration_seconds = time_seconds;
      tpmc = tpmc;
      efficiency = efficiency;
      throughput = throughput;
      goodput = goodput;
      new_order_latency90 = latency;
      json = dumps results;
    },
  )

-- `args.database + "/" + args.table`: adding to `None` raises `TypeError`.
abbrev pub table_path : Option String → Option String → Result String
table_path (some database) (some table) = ok (database <> "/" <> table)
table_path (some database) none = err other_exception
table_path none table = err other_exception

module _ {S : Type 0} (db : Database S ResultRow) (dumps : Results → String) where
  abbrev pub insert_row : String → Result (ℕ × ResultRow) → Session S (Unit {0})
  insert_row path (err raised) s = (err raised, s)
  insert_row path (ok keyed) s = upsert db path keyed.0 keyed.1 s

  unfoldable pub insert_ydb_results_row : String → Arguments → Results → Session S (Unit {0})
  insert_ydb_results_row path args results = insert_row path (row_of dumps args results)

  module _ (files : Files) (load : String → Option Results) (connects : Credentials → Bool) where
    -- `json.load` of the file, and `results['summary']`
    abbrev pub insert_file : String → Arguments → Option Results → Session S (Unit {0})
    insert_file path args none s = (err value_error, s)
    insert_file path args (some results) s =
        continue (required results.summary, s) (λ summary. insert_ydb_results_row path args results)

    abbrev pub upload : Arguments → Result String → Session S (Unit {0})
    upload args (err raised) s = (err raised, s)
    upload args (ok path) s =
        and_then (prepare db args.drop path)
          (λ ignored. insert_file path args (load args.results_file)) s

    abbrev pub authorized : Arguments → Result Credentials → Session S (Unit {0})
    authorized args (err raised) s = (err raised, s)
    authorized args (ok auth) s =
        if connects auth
        then upload args (table_path args.database args.table) s
        else (err (exit 1), s)

    abbrev pub checked : Arguments → Option String → Session S (Unit {0})
    checked args none s = (err (exit 1), s)
    checked args (some line) s =
        authorized args (credentials files (err (exit 1)) args.token args.sa_token) s

    unfoldable pub main : Arguments → Session S (Unit {0})
    main args = checked args (files args.results_file)
