-- ===== src/Tpcc/Transfer/Tests.antt =====
-- An import into a database that has the nine tables.
use benchhelpers.Prelude.{String, suc, true, zero, ℕ, ◌-◌}
use benchhelpers.Tpcc.Schema.Run.{Statement, Outcome, done}
use benchhelpers.Tpcc.Operations.{progress, Attempt, answered, refused}
use benchhelpers.Tpcc.Transfer.{Options}

abbrev options : Options
options = record {
  endpoint = "grpc://host:2135";
  database = "/Root/db1";
  s3_endpoint = "storage";
  bucket = "tpcc";
  src_dir = "1000";
  dst_dir = "1000";
}

abbrev done_at_once : String → ℕ → Attempt
done_at_once id zero = refused
done_at_once id (suc k) = answered (record { metadata = progress "PROGRESS_DONE"; ready = true })

-- The database is the number of its tables.
abbrev remove_table : Statement → ℕ → Outcome × ℕ
remove_table s d = (done, d - 1)
