-- ===== src/Tpcc/Schema/Run.antt =====
-- `DropTables.run` and `CreateTables.run` of tpcc/ydb/tpcc_helper.py. The database is an argument:
-- what a statement answers in a state, and the state after it.
use benchhelpers.Prelude.{List, Result, String, [], err, exit, ok, ℕ, ◌>>=◌, ◌∷◌}
use benchhelpers.Tpcc.SplitKeys.{
  Table, warehouse, district, customer, history, new_order, oorder, order_line, item, stock, tables,
  get_split_keys_str,
}
use benchhelpers.Tpcc.Schema.{
  TableDdl, create_warehouse, create_item, create_stock, create_district, create_customer,
  create_history, create_oorder, create_new_order, create_order_line,
}

pub data Statement : Type 0 where
  drop_statement : Table → Statement
  create_statement : TableDdl → Statement

-- `missing` is the exception NotFound or SchemeError, `failed` any other.
pub data Outcome : Type 0 where
  done missing failed : Outcome

-- The three small tables are cut at the keys of `warehouse`.
abbrev pub keys_of : Table → Table
keys_of district = warehouse
keys_of new_order = warehouse
keys_of table = table

abbrev pub ddl_with : Table → String → ℕ → TableDdl
ddl_with warehouse = create_warehouse
ddl_with item = create_item
ddl_with stock = create_stock
ddl_with district = create_district
ddl_with customer = create_customer
ddl_with history = create_history
ddl_with oorder = create_oorder
ddl_with new_order = create_new_order
ddl_with order_line = create_order_line

-- The statement of a table for a number of warehouses.
unfoldable pub table_ddl : ℕ → Table → Result TableDdl
table_ddl warehouse_count table =
    get_split_keys_str warehouse_count (keys_of table) >>= λ (split_keys, shard_count).
    ok (ddl_with table split_keys shard_count)

-- The order of the statements in `CreateTables.run`.
abbrev pub creation_order : List Table
creation_order =
    warehouse ∷ item ∷ stock ∷ district ∷ customer ∷ history ∷ oorder ∷ new_order ∷ order_line ∷ []

module _ {D : Type 0} (execute : Statement → D → Outcome × D) where
  -- `drop_table`: a table that is not there is no error.
  abbrev pub after_drop : Outcome × D → Result D
  after_drop (failed, d) = err (exit 1)
  after_drop (_, d) = ok d

  unfoldable pub drop_tables : List Table → D → Result D
  drop_tables [] d = ok d
  drop_tables (t ∷ ts) d = after_drop (execute (drop_statement t) d) >>= drop_tables ts

  -- `create_table`: every exception ends the script.
  abbrev pub after_create : Outcome × D → Result D
  after_create (done, d) = ok d
  after_create (_, d) = err (exit 1)

  abbrev create_table : TableDdl → D → Result D
  create_table ddl d = after_create (execute (create_statement ddl) d)

  unfoldable pub create_each : ℕ → List Table → D → Result D
  create_each warehouse_count [] d = ok d
  create_each warehouse_count (t ∷ ts) d =
      table_ddl warehouse_count t >>= λ ddl. create_table ddl d >>= create_each warehouse_count ts

  -- `CreateTables.run`
  unfoldable pub create_tables : ℕ → D → Result D
  create_tables warehouse_count d =
      drop_tables tables d >>= create_each warehouse_count creation_order
