-- ===== src/Ycsb/Upload.antt =====
-- `dump_workloads_ydb` and `format_number` of ycsb/multinode_aggegate_result.py, over the interface of
-- the database.
pub mod Keys
pub mod Stored
use benchhelpers.Prelude.{
  Bool, Option, Result, String, [], err, exit, if◌then◌else◌, ltb, none, ok, show, some, ℕ, ◌%◌,
  ◌+◌, ◌/◌, ◌<>◌, ◌==◌, ◌∷◌,
}
use benchhelpers.Uploads.{
  Executed, Database, Session, and_then, create_table, upsert, Credentials, Files, credentials,
}
use benchhelpers.Uploads.Results.{formatted, table_path}
use benchhelpers.Ycsb.{WorkloadResult, Results}

-- `format_number(num)`, whose number is rounded up to a tenth of a thousand
unfoldable pub format_number : ℕ → String
format_number num =
    let tenths = (num + 99) / 100 in
    if ltb num 1000
    then show num
    else if tenths % 10 == 0
    then show (tenths / 10) <> "K"
    else show (tenths / 10) <> "." <> show (tenths % 10) <> "K"

pub record Arguments : Type 0 where
  pub database : Option String
  pub table : Option String
  pub token : Option String
  pub sa_token : Option String
  pub ydb_version : Option String
  pub record_count : Option ℕ
  pub label : String
  pub label_cluster : Option String
  pub git_repository : Option String
  pub git_commit_timestamp : Option String
  pub git_branch : Option String
  pub run_type : Option String

-- The columns but `datetime`
pub record YcsbRow : Type 0 where
  pub version : String
  pub record_count : String
  pub label : String
  pub cluster : String
  pub git_repository : String
  pub git_commit_timestamp : String
  pub git_branch : String
  pub run_type : String
  pub workload : String
  pub ycsb_instances_count : String
  pub distribution : String
  pub rps_k : ℕ
  pub latency99ms : ℕ
  pub oks : ℕ
  pub errors : ℕ
  pub not_found : ℕ
  pub min_instance_time_ms : ℕ
  pub max_instance_time_ms : ℕ

abbrev pub count_text : Option ℕ → String
count_text none = "None"
count_text (some n) = show n

-- The throughput in whole thousands, and the latency in milliseconds, rounded up
abbrev pub row_of : Arguments → WorkloadResult → YcsbRow
row_of args result = record {
  version = formatted args.ydb_version;
  record_count = count_text args.record_count;
  label = args.label;
  cluster = formatted args.label_cluster;
  git_repository = formatted args.git_repository;
  git_commit_timestamp = formatted args.git_commit_timestamp;
  git_branch = formatted args.git_branch;
  run_type = formatted args.run_type;
  workload = result.workload;
  ycsb_instances_count = result.ycsb_instances_count;
  distribution = result.distribution;
  rps_k = result.throughput / 1000;
  latency99ms = (result.latency + 999) / 1000;
  oks = result.oks;
  errors = result.errors;
  not_found = result.not_found;
  min_instance_time_ms = result.min_time_ms;
  max_instance_time_ms = result.max_time_ms;
}

module _ {S : Type 0} (db : Database S YcsbRow) where
  unfoldable pub insert_rows : String → Arguments → Results → Session S (Unit {0})
  insert_rows path args [] s = (ok tt, s)
  insert_rows path args ((ts, result) ∷ results) s =
      and_then (upsert db path ts (row_of args result)) (λ ignored. insert_rows path args results) s

  module _ (files : Files) (connects : Credentials → Bool) where
    abbrev pub to_table : Arguments → Results → Result String → Session S (Unit {0})
    to_table args results (err raised) s = (err raised, s)
    to_table args results (ok path) s =
        and_then (create_table db path) (λ ignored. insert_rows path args results) s

    abbrev pub authorized : Arguments → Results → Result Credentials → Session S (Unit {0})
    authorized args results (err raised) s = (err raised, s)
    authorized args results (ok auth) s =
        if connects auth
        then to_table args results (table_path args.database args.table) s
        else (err (exit 1), s)

    unfoldable pub dump_workloads_ydb : Arguments → Results → Session S (Unit {0})
    dump_workloads_ydb args [] s = (ok tt, s)
    dump_workloads_ydb args (entry ∷ results) s =
        authorized args (entry ∷ results)
          (credentials files (err (exit 1)) args.token args.sa_token) s
