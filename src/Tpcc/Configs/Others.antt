-- ===== src/Tpcc/Configs/Others.antt =====
-- The configurations of tpcc/postgres/tpcc_postgres_helper.py and tpcc/oracle/tpcc_oracle_helper.py,
-- which have classes `HostConfig`, `GenerateConfig`, `GetLoadArgs` and `GetStartArgs` of their own.
use benchhelpers.Prelude.{
  Error, List, Option, Result, String, ap, arith, assertion_error, ceil_div, err, exit,
  if◌then◌else◌, leb, ltb, ok, refl, show, ℕ, ◌*◌, ◌+◌, ◌-◌, ◌/◌, ◌<>◌, ◌==◌, ◌>>=◌, ◌||◌, ◌∙◌, ◌≡◌,
}
use benchhelpers.Tpcc.HostConfig.{HostConfig, host_config}
use benchhelpers.Tpcc.Configs.{generate, ConfigFile, start_args}

-- The fields of their `HostConfig`: there is no last warehouse.
pub record NodeConfig : Type 0 where
  pub warehouses : ℕ
  pub node_num : ℕ
  pub node_count : ℕ
  pub warehouses_per_host : ℕ
  pub start_warehouse : ℕ
  pub terminals_per_host : ℕ

abbrev node_share : ℕ → ℕ → ℕ → ℕ
node_share warehouses node_count node_num =
    let per_host = (warehouses + node_count - 1) / node_count in
    if node_num == node_count then warehouses - per_host * (node_count - 1) else per_host

abbrev node_assigned : ℕ → ℕ → ℕ → NodeConfig
node_assigned warehouses node_count node_num =
    let per_host = (warehouses + node_count - 1) / node_count in
    record {
      warehouses = warehouses;
      node_num = node_num;
      node_count = node_count;
      warehouses_per_host = node_share warehouses node_count node_num;
      start_warehouse = 1 + per_host * (node_num - 1);
      terminals_per_host = node_share warehouses node_count node_num * 10;
    }

-- `HostConfig.__init__` of the PostgreSQL helper, and of the Oracle helper
unfoldable pub node_config : ℕ → ℕ → ℕ → Result NodeConfig
node_config warehouses node_count node_num =
    if leb node_num 0 || ltb node_count node_num
    then err (exit 1)
    else if ltb 0 (node_share warehouses node_count node_num)
    then ok (node_assigned warehouses node_count node_num)
    else err assertion_error

-- What the templates of the two helpers are filled with.
pub record PostgresValues : Type 0 where
  pub warehouse : ℕ
  pub terminals : ℕ
  pub loader_threads : String
  pub execute_time_seconds : String
  pub warmup_time_seconds : String
  pub max_connections : String
  pub mport : ℕ
  pub mname : String

pub record OracleValues : Type 0 where
  pub warehouse : ℕ
  pub terminals : ℕ
  pub loader_threads : String
  pub execute_time_seconds : String
  pub warmup_time_seconds : String
  pub max_connections : String
  pub mname : String
  pub ddl_path : String

pub record LoadOptions : Type 0 where
  pub loader_threads : String
  pub execute_time : String
  pub warmup_time : String
  pub max_connections : String

abbrev pub postgres_values : LoadOptions → HostConfig → ℕ → ℕ → PostgresValues
postgres_values o config port node_num = record {
  warehouse = config.warehouses_per_host;
  terminals = config.terminals_per_host;
  loader_threads = o.loader_threads;
  execute_time_seconds = o.execute_time;
  warmup_time_seconds = o.warmup_time;
  max_connections = o.max_connections;
  mport = port;
  mname = "node_" <> show node_num;
}

abbrev pub oracle_values : LoadOptions → HostConfig → ℕ → ℕ → OracleValues
oracle_values o config port node_num = record {
  warehouse = config.warehouses_per_host;
  terminals = config.terminals_per_host;
  loader_threads = o.loader_threads;
  execute_time_seconds = o.execute_time;
  warmup_time_seconds = o.warmup_time;
  max_connections = o.max_connections;
  mname = "node_" <> show node_num;
  ddl_path = "tpcc-recreate.sql";
}

-- `GenerateConfig.run` of the two helpers: the loop is that of the first helper, and the Oracle
-- one has no ports.
abbrev pub generate_postgres :
    LoadOptions → ℕ → List String → List (ConfigFile PostgresValues) × Option Error
generate_postgres o = generate (postgres_values o)

abbrev pub generate_oracle :
    LoadOptions → ℕ → List String → List (ConfigFile OracleValues) × Option Error
generate_oracle o = generate (oracle_values o)

-- `GetLoadArgs.run` of the Oracle helper, and `GetStartArgs.run` of both
unfoldable pub oracle_load_args : ℕ → ℕ → ℕ → Result String
oracle_load_args warehouses nodes node_num = node_config warehouses nodes node_num >>= λ config.
    ok
      ("--create=false --load=true --execute=false --start-from-id " <> show config.start_warehouse)

unfoldable pub other_start_args : ℕ → ℕ → ℕ → Result String
other_start_args warehouses nodes node_num = node_config warehouses nodes node_num >>= λ config.
    ok (
      "--create=false --load=false --execute=true --start-from-id "
      <> show config.start_warehouse
      <> " ")

abbrev pub forget_last : HostConfig → NodeConfig
forget_last c = record {
  warehouses = c.warehouses;
  node_num = c.node_num;
  node_count = c.node_count;
  warehouses_per_host = c.warehouses_per_host;
  start_warehouse = c.start_warehouse;
  terminals_per_host = c.terminals_per_host;
}

-- The helpers give a node the same share, or end with the same error.
pub node_config-eq :
    (warehouses nodes node_num : ℕ)
    → node_config warehouses nodes node_num
      ≡ (host_config warehouses nodes node_num >>= λ c. ok (forget_last c))
unfolding node_config host_config ceil_div
node_config-eq w n k = ground arith

-- The helpers start a node with the same arguments, or end with the same error.
pub other_start_args-eq :
    (warehouses nodes node_num : ℕ)
    → other_start_args warehouses nodes node_num ≡ start_args warehouses nodes node_num
unfolding other_start_args start_args
other_start_args-eq w n k =
    ap (λ m. m >>= start_text) (node_config-eq w n k) ∙ forgotten (host_config w n k)
  where
    start_text : NodeConfig → Result String
    start_text config = ok (
        "--create=false --load=false --execute=true --start-from-id "
        <> show config.start_warehouse
        <> " ")

    forgotten :
        (m : Result HostConfig)
        → ((m >>= λ c. ok (forget_last c)) >>= start_text) ≡ (m >>= λ c. start_text (forget_last c))
    forgotten (ok c) = refl
    forgotten (err e) = refl
