-- ===== src/Tpcc/Maintenance.antt =====
-- `PostLoad` and `VacuumAnalyze` of tpcc/postgres/tpcc_postgres_helper.py: the memory setting that
-- they raise for their statements. Which statements fail is an argument, and so is the text by which
-- the server shows a value that a setting is given. The statements
-- that give and load a setting may raise too.
pub mod Restored
mod Tests
use benchhelpers.Prelude.{
  Bool, List, Option, Result, String, [], err, exit, false, if◌then◌else◌, map, none, ok,
  other_exception, some, str_eq, ◌++◌, ◌<>◌, ◌||◌, ◌∷◌,
}

-- The server: its setting `maintenance_work_mem`, and the statements that were run.
pub record Server : Type 0 where
  pub maintenance_work_mem : String
  pub statements : List String

-- `TABLES`
abbrev pub table_names : List String
table_names =
    "warehouse" ∷ "district" ∷ "customer" ∷ "history" ∷ "new_order" ∷ "oorder" ∷ "order_line"
    ∷ "item" ∷ "stock" ∷ []

abbrev pub index_statements : List String
index_statements =
    "CREATE INDEX idx_customer_name ON customer (c_w_id, c_d_id, c_last, c_first);"
    ∷ "CREATE INDEX idx_order ON oorder (o_w_id, o_d_id, o_c_id, o_id);" ∷ []

abbrev pub vacuum_statements : List String
vacuum_statements = map (λ table. "VACUUM ANALYZE " <> table <> ";") table_names

-- What is run on a server, and what it comes to
abbrev pub Outcome : Type 0 → Type 0
Outcome A = Server × Result A

abbrev pub and_then : {A B : Type 0} → Outcome A → (A → Server → Outcome B) → Outcome B
and_then (s, err raised) next = (s, err raised)
and_then (s, ok a) next = next a s

-- `fails` holds of a server and a statement that then raises.
module _ (shown : String → String) (fails : Server → String → Bool) where
  abbrev pub alter_system : String → String
  alter_system value = "ALTER SYSTEM SET maintenance_work_mem='" <> value <> "';"

  abbrev pub reload_conf : String
  reload_conf = "SELECT pg_reload_conf();"

  -- Only the loaded setting is shown.
  abbrev pub set_work_mem : String → Server → Outcome (Unit {0})
  set_work_mem value s =
      if fails s (alter_system value) || fails s reload_conf
      then (s, err other_exception)
      else (record s { maintenance_work_mem = shown value }, ok _)

  abbrev pub raised_from : Server → Outcome (Unit {0}) → Outcome (Option String)
  raised_from s (after, err raised) = (after, err raised)
  raised_from s (after, ok set) = (after, ok (some s.maintenance_work_mem))

  -- The setting before, where `max_work_mem` is given, and the server with the new one.
  unfoldable pub raise_work_mem : String → Server → Outcome (Option String)
  raise_work_mem max_work_mem s =
      if str_eq max_work_mem "" then (s, ok none) else raised_from s (set_work_mem max_work_mem s)

  -- `if current_work_mem: …`
  unfoldable pub restore_work_mem : Option String → Server → Outcome (Unit {0})
  restore_work_mem none s = (s, ok _)
  restore_work_mem (some value) s = if str_eq value "" then (s, ok _) else set_work_mem value s

  -- All the statements are started; the result is an exception if one fails.
  abbrev pub any_fails : Server → List String → Bool
  any_fails s [] = false
  any_fails s (q ∷ qs) = fails s q || any_fails s qs

  abbrev pub run_all : List String → Server → Server
  run_all qs s = record s { statements = s.statements ++ qs }

  -- `PostLoad.run`: a failed index ends the script.
  abbrev pub create_indices : Option String → Server → Outcome (Unit {0})
  create_indices current s =
      let after = run_all index_statements s in
      if any_fails s index_statements then (after, err (exit 1)) else restore_work_mem current after

  unfoldable pub post_load : String → Server → Outcome (Unit {0})
  post_load max_work_mem s = and_then (raise_work_mem max_work_mem s) create_indices

  -- `VacuumAnalyze.run`: an error of a table is only printed.
  abbrev pub vacuum_tables : Option String → Server → Outcome (Unit {0})
  vacuum_tables current s = restore_work_mem current (run_all vacuum_statements s)

  unfoldable pub vacuum_analyze : String → Server → Outcome (Unit {0})
  vacuum_analyze max_work_mem s = and_then (raise_work_mem max_work_mem s) vacuum_tables
