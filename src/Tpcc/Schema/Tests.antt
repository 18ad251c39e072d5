-- ===== src/Tpcc/Schema/Tests.antt =====
-- A database that keeps a catalogue, and the script run on it twice.
use benchhelpers.Prelude.{Bool, List, Option, none, ok, refl, some, true, ◌≡◌}
use benchhelpers.Tpcc.SplitKeys.{
  Table, calc_min_parts, warehouses_per_shard, split_by_load_min_parts, get_split_keys, stock,
}
use benchhelpers.Tpcc.Schema.{TableDdl}
use benchhelpers.Tpcc.Schema.Run.{
  Statement, drop_statement, create_statement, Outcome, done, missing, failed, table_ddl,
  create_tables,
}
use benchhelpers.Tpcc.Schema.Keyed.{IsKeyed, table_ddl-IsKeyed}
use benchhelpers.Tpcc.Schema.Split.{AlterTable, alter_table, start_requests, enable_split_by_load}
use benchhelpers.Tpcc.Schema.Split.Minimum.{AsCreated, enable_split_by_load-AsCreated}
use benchhelpers.Tpcc.Schema.Catalogue.{Catalogue, set_table, IsDatabase, create_tables_lem}

table_ddl-IsKeyed_example :
    (ddl : TableDdl) × (table_ddl 10000 stock ≡ ok ddl)
    × (ddl.table ≡ stock)
    × IsKeyed (calc_min_parts 10000) ddl
table_ddl-IsKeyed_example = table_ddl-IsKeyed 10000 stock

abbrev create_in : Option TableDdl → TableDdl → Catalogue → Outcome × Catalogue
create_in none ddl c = (done, set_table ddl.table (some ddl) c)
create_in (some old) ddl c = (failed, c)

abbrev execute_in : Statement → Catalogue → Outcome × Catalogue
execute_in (drop_statement t) c =
    (elim (c t) [ none ↦ missing | some ddl ↦ done ], set_table t none c)
execute_in (create_statement ddl) c = create_in (c ddl.table) ddl c

execute_in-IsDatabase : IsDatabase execute_in
execute_in-IsDatabase = record { dropped = λ t c. refl; created = λ ddl c new. rw new refl }

create_tables_lem_example :
    (after : Catalogue) × (create_tables execute_in 10000 (λ t. none) ≡ ok after)
    × ((t : Table) → (ddl : TableDdl) × (after t ≡ some ddl) × (table_ddl 10000 t ≡ ok ddl))
create_tables_lem_example = create_tables_lem execute_in execute_in-IsDatabase 10000 (λ t. none)

abbrev accepts : AlterTable → Bool
accepts r = true

enabled : (rs : List AlterTable) × (enable_split_by_load accepts accepts "/Root/db1" 100 ≡ ok rs)
unfolding enable_split_by_load start_requests alter_table split_by_load_min_parts get_split_keys
    warehouses_per_shard calc_min_parts
enabled = (_, refl)

enable_split_by_load-AsCreated_example : AsCreated "/Root/db1" 100 enabled.0
enable_split_by_load-AsCreated_example =
    enable_split_by_load-AsCreated accepts accepts "/Root/db1" 100 enabled.1
