-- ===== src/Tpcc/Schema/Split.antt =====
-- `EnableSplitByLoad` of tpcc/ydb/tpcc_helper.py. Whether a request can be started, and whether it
-- succeeds, are arguments.
pub mod Minimum
use benchhelpers.Prelude.{
  Bool, List, Result, String, [], err, exit, if◌then◌else◌, ok, true, ℕ, ◌&&◌, ◌<>◌, ◌>>=◌, ◌∷◌,
}
use benchhelpers.Tpcc.SplitKeys.{
  Table, warehouse, district, customer, history, new_order, oorder, order_line, item, stock, tables,
  default_shard_size_mb, split_by_load_min_parts,
}

abbrev pub table_name : Table → String
table_name warehouse = "warehouse"
table_name district = "district"
table_name customer = "customer"
table_name history = "history"
table_name new_order = "new_order"
table_name oorder = "oorder"
table_name order_line = "order_line"
table_name item = "item"
table_name stock = "stock"

-- `async_alter_table` with its settings
pub record AlterTable : Type 0 where
  pub path : String
  pub partitioning_by_load : Bool
  pub min_partitions_count : ℕ
  pub partition_size_mb : ℕ

-- The request of `enable_split_on_load`
unfoldable pub alter_table : String → ℕ → Table → Result AlterTable
alter_table database warehouse_count table =
    split_by_load_min_parts warehouse_count table >>= λ min_parts. ok (record {
      path = database <> "/" <> table_name table;
      partitioning_by_load = true;
      min_partitions_count = min_parts;
      partition_size_mb = default_shard_size_mb;
    })

module _ (starts succeeds : AlterTable → Bool) where
  abbrev start_request : AlterTable → Result AlterTable
  start_request r = if starts r then ok r else err (exit 1)

  -- The requests are started one after the other.
  unfoldable pub start_requests : String → ℕ → List Table → Result (List AlterTable)
  start_requests database warehouse_count [] = ok []
  start_requests database warehouse_count (t ∷ ts) = alter_table database warehouse_count t >>= λ r.
      start_request r >>= λ r'. start_requests database warehouse_count ts >>= λ rs. ok (r' ∷ rs)

  abbrev pub all_succeed : List AlterTable → Bool
  all_succeed [] = true
  all_succeed (r ∷ rs) = succeeds r && all_succeed rs

  -- `EnableSplitByLoad.run`
  unfoldable pub enable_split_by_load : String → ℕ → Result (List AlterTable)
  enable_split_by_load database warehouse_count =
      start_requests database warehouse_count tables >>= λ rs.
      if all_succeed rs then ok rs else err (exit 1)
