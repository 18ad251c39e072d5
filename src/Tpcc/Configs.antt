-- ===== src/Tpcc/Configs.antt =====
-- `GenerateConfig`, `GetLoadArgs` and `GetStartArgs` of tpcc/ydb/tpcc_helper.py, and the loop that
-- tpcc/postgres/tpcc_postgres_helper.py and tpcc/oracle/tpcc_oracle_helper.py share with it. The
-- template is filled with the values; what is formatted is outside.
pub mod Ports
pub mod Blank
pub mod Others
mod Tests
use benchhelpers.Prelude.{
  Bool, Error, List, Option, Result, String, [], basename, err, exit, false, if◌then◌else◌, none,
  not, ok, show, some, str_eq, strip, suc, ℕ, ◌&&◌, ◌+◌, ◌<>◌, ◌==◌, ◌>>=◌, ◌||◌, ◌∷◌,
}
use benchhelpers.Prelude.Dict.{Dict, lookup, insert}
use benchhelpers.Tpcc.HostConfig.{HostConfig, host_config}

-- The options of the script that go to the template, and the environment it reads.
pub record Settings : Type 0 where
  pub loader_threads : String
  pub execute_time : String
  pub warmup_time : String
  pub max_sessions : String
  pub ydb_host : String
  pub database : String
  pub ca_file : Option String
  pub secure : Bool

pub record Environment : Type 0 where
  pub anonymous_token : Option String
  pub access_token : Option String
  pub sa_key : Option String
  pub user : Option String
  pub password : Option String

pub record Auth : Type 0 where
  pub auth_url_part : String
  pub auth_params : String
  pub grpc_scheme : String

-- The truth value of an optional text.
abbrev pub truthy : Option String → Bool
truthy none = false
truthy (some s) = not (str_eq s "")

abbrev text : Option String → String
text none = ""
text (some s) = s

-- What the credentials add to the URL, and the parameters.
abbrev pub credentials : Environment → String × String
credentials env = elim env.anonymous_token [
  | some token ↦ ("", "")
  | none ↦
      if truthy env.access_token
      then ("&amp;token=file:" <> basename (text env.access_token), "")
      else if truthy env.sa_key
      then ("&amp;saFile=file:" <> basename (text env.sa_key), "")
      else if truthy env.user && truthy env.password
      then (
        "",
        "<username>"
            <> text env.user
            <> "</username><password>"
            <> text env.password
            <> "</password>",
      )
      else ("", "")
]

abbrev pub auth : Settings → Environment → Auth
auth settings env =
    let certificate =
      if truthy settings.ca_file
      then "&amp;secureConnectionCertificate=file:" <> text settings.ca_file
      else "" in
    let (url_part, params) = credentials env in
    record {
      auth_url_part = certificate <> url_part;
      auth_params = params;
      grpc_scheme = if truthy settings.ca_file || settings.secure then "grpcs" else "grpc";
    }

-- What the template of a node is filled with.
pub record Values : Type 0 where
  pub warehouse : ℕ
  pub terminals : ℕ
  pub settings : Settings
  pub auth : Auth
  pub mport : ℕ
  pub mname : String

-- A file that is written: its name and the values in it.
pub record ConfigFile (V : Type 0) : Type 0 where
  pub output : String
  pub values : V

abbrev pub is_blank : String → Bool
is_blank line = str_eq (strip line) ""

-- `num_nodes`
unfoldable pub count_hosts : List String → ℕ
count_hosts [] = 0
count_hosts (line ∷ lines) =
    let rest = count_hosts lines in if is_blank line then rest else suc rest

-- `host_to_monport[host]` of a `defaultdict`
abbrev pub port_or : Option ℕ → ℕ
port_or none = 8080
port_or (some port) = port

abbrev pub port_of : Dict ℕ → String → ℕ
port_of ports host = port_or (lookup host ports)

-- A file is written, then the rest, unless the node has no share.
abbrev pub write_file :
    {V : Type 0}
    → Result HostConfig
    → (HostConfig → ConfigFile V)
    → List (ConfigFile V) × Option Error
    → List (ConfigFile V) × Option Error
write_file (err e) file rest = ([], some e)
write_file (ok config) file rest = (file config ∷ rest.0, rest.1)

abbrev pub config_file : {V : Type 0} → (HostConfig → ℕ → ℕ → V) → ℕ → ℕ → HostConfig → ConfigFile V
config_file values port node_num config = record {
  output = "config." <> show node_num <> ".xml";
  values = values config port node_num;
}

module _ {V : Type 0} (values : HostConfig → ℕ → ℕ → V) (warehouses nodes : ℕ) where
  -- The loop over the lines, which are numbered from 1, blank ones too: the files it writes, and
  -- the error that ends it.
  unfoldable pub write_configs : Dict ℕ → ℕ → List String → List (ConfigFile V) × Option Error
  write_configs ports node_num [] = ([], none)
  write_configs ports node_num (line ∷ lines) =
      let port = port_of ports (strip line) in
      let next = write_configs (insert (strip line) (port + 1) ports) (suc node_num) lines in
      let skipped = write_configs ports (suc node_num) lines in
      if is_blank line
      then skipped
      else write_file (host_config warehouses nodes node_num) (config_file values port node_num)
          next

-- `GenerateConfig.run`, with the values of a node.
unfoldable pub generate :
    {V : Type 0} → (HostConfig → ℕ → ℕ → V) → ℕ → List String → List (ConfigFile V) × Option Error
generate values warehouses lines =
    let written = write_configs values warehouses (count_hosts lines) [] 1 lines in
    if count_hosts lines == 0 then ([], some (exit 1)) else written

abbrev pub ydb_values : Settings → Environment → HostConfig → ℕ → ℕ → Values
ydb_values settings env config port node_num = record {
  warehouse = config.warehouses_per_host;
  terminals = config.terminals_per_host;
  settings = settings;
  auth = auth settings env;
  mport = port;
  mname = "node_" <> show node_num;
}

-- `GetLoadArgs.run`
unfoldable pub load_args : ℕ → ℕ → ℕ → Result String
load_args warehouses nodes node_num = host_config warehouses nodes node_num >>= λ config. ok (
    "--create=false --load=true --execute=false --start-from-id "
    <> show config.start_warehouse
    <> " --total-warehouses "
    <> show warehouses)

-- `GetStartArgs.run`
unfoldable pub start_args : ℕ → ℕ → ℕ → Result String
start_args warehouses nodes node_num = host_config warehouses nodes node_num >>= λ config. ok (
    "--create=false --load=false --execute=true --start-from-id "
    <> show config.start_warehouse
    <> " ")
