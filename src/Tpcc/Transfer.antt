-- ===== src/Tpcc/Transfer.antt =====
-- `ImportInitialData` and `ExportInitialData` of tpcc/ydb/tpcc_helper.py: they start an operation of
-- the database and poll it. What a command prints, and what a statement does, are arguments.
pub mod Done
mod Tests
use benchhelpers.Prelude.{
  List, Option, Result, String, [], err, exit, false, join, key_error, ok, value_error, ℕ, ◌++◌,
  ◌<>◌, ◌>>=◌, ◌∷◌,
}
use benchhelpers.Tpcc.SplitKeys.{Table, tables}
use benchhelpers.Tpcc.Schema.Run.{Statement, Outcome, drop_tables}
use benchhelpers.Tpcc.Schema.Split.{table_name}
use benchhelpers.Tpcc.Operations.{Attempt, wait}

-- The options of the script.
pub record Options : Type 0 where
  pub endpoint : String
  pub database : String
  pub s3_endpoint : String
  pub bucket : String
  pub src_dir : String
  pub dst_dir : String

abbrev pub common_command : Options → String → List String
common_command o verb =
    "ydb" ∷ "--endpoint" ∷ o.endpoint ∷ "--database" ∷ o.database ∷ verb ∷ "s3" ∷ "--s3-endpoint"
    ∷ o.s3_endpoint ∷ "--bucket" ∷ o.bucket ∷ "--format" ∷ "proto-json-base64" ∷ []

-- `--item src=…,dst=…` for each table
abbrev pub items : String → List Table → List String
items src_dir [] = []
items src_dir (t ∷ ts) =
    "--item"
    ∷ ("src=" <> src_dir <> "/" <> table_name t <> ",dst=" <> table_name t)
    ∷ items src_dir ts

abbrev pub import_command : Options → List String
import_command o = common_command o "import" ++ items o.src_dir tables

abbrev pub export_command : Options → List String
export_command o = common_command o "export" ++ ("--item" ∷ ("src=.,dst=" <> o.dst_dir) ∷ [])

-- What the command that starts an operation prints: nothing of use, text that is not JSON, JSON
-- without a status, with another status than SUCCESS, or without an id, and an operation.
pub data Reply : Type 0 where
  command_failed not_json no_status not_success no_id : Reply
  started : String → Reply

abbrev pub operation_id : Reply → Result String
operation_id command_failed = err (exit 1)
operation_id not_json = err value_error
operation_id no_status = err key_error
operation_id not_success = err (exit 1)
operation_id no_id = err key_error
operation_id (started id) = ok id

module _ (reply : String → Reply) (attempts : String → ℕ → Attempt) where
  -- The command is run as one text, and the operation that it names is polled, on fuel.
  unfoldable pub start_and_wait : ℕ → List String → Result (Option ℕ)
  start_and_wait fuel command =
      operation_id (reply (join " " command)) >>= λ id. wait (attempts id) fuel 0 false

  -- `ExportInitialData.run`
  unfoldable pub export_data : ℕ → Options → Result (Option ℕ)
  export_data fuel o = start_and_wait fuel (export_command o)

-- What the commands print and what the polls answer depends on the database as it is then.
module _ {D : Type 0} (execute : Statement → D → Outcome × D) (reply : D → String → Reply)
    (attempts : D → String → ℕ → Attempt) where
  -- `ImportInitialData.run`: the database after the tables are dropped, and the poll.
  unfoldable pub import_data : ℕ → Options → D → Result (D × Option ℕ)
  import_data fuel o d = drop_tables execute tables d >>= λ d'.
      start_and_wait (reply d') (attempts d') fuel (import_command o) >>= λ polled. ok (d', polled)
