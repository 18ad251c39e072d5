-- ===== src/Installers/Yugabyte.antt =====
-- The class `Start` of db_installers/yugabyte/control.py. The settings that the configuration file
-- assigns are the record `Config`. The share of the memory, `round(0.85 / n, 2)` as text, is an
-- argument: `none` where it rounds to 0.
pub mod Disks
pub mod Control
mod Tests
use benchhelpers.Prelude.{
  Bool, List, Option, Result, String, [], basename, drop, err, error_exit, get_elem?, if◌then◌else◌,
  join, length, ltb, map, none, not, ok, other_exception, positive, show, some, str_eq, suc, take,
  zero, ℕ, ◌%◌, ◌&&◌, ◌*◌, ◌+◌, ◌-◌, ◌/◌, ◌<>◌, ◌==◌, ◌||◌, ◌∷◌,
}
use benchhelpers.Prelude.Dict.{Dict, lookup}
use benchhelpers.Installers.Jobs.{Process}
use benchhelpers.Installers.Actions.{◌then_run◌}
use benchhelpers.Installers.Actions.Ssh as Ssh
use benchhelpers.Installers.Actions.Pssh.{PsshAction}

-- The ports of a server
pub record Ports : Type 0 where
  pub server : ℕ
  pub psql : ℕ
  pub cql : ℕ
  pub redis_webserver : ℕ
  pub webserver : ℕ
  pub cql_webserver : ℕ
  pub psql_webserver : ℕ

pub record Config : Type 0 where
  pub deploy_path : String
  pub hosts : List String
  pub local_ip : Dict String
  pub listen_port_master : ℕ
  pub master_webserver_port : ℕ
  pub ports : Ports
  pub disks : List String
  pub cores : ℕ
  pub task_sets : List String
  pub master_task_set : Option String

-- The options of `Start`
pub record Arguments : Type 0 where
  pub dry_run : Bool
  pub fail_on_error : Bool
  pub sudo_user : String
  pub tservers_per_host : ℕ

-- `Start.__init__`, after that of `PSSHAction`
unfoldable pub check_start : Config → ℕ → Result (Unit {0})
check_start c tservers_per_host =
    let disks = length c.disks in
    let sets = length c.task_sets in
    if ltb 1 tservers_per_host
      && (ltb disks tservers_per_host || not (disks % tservers_per_host == 0))
    then err error_exit
    else if ltb 0 sets && not (sets == tservers_per_host)
    then err error_exit
    else ok _

-- `LOCAL_IP.get(host, host)`
abbrev pub local_ip : Config → String → String
local_ip c host = elim (lookup host c.local_ip) [ some ip ↦ ip | none ↦ host ]

abbrev pub disk2mnt : Config → String → String
disk2mnt c disk = c.deploy_path <> "/data/" <> basename disk

abbrev pub mount_dirs : Config → List String
mount_dirs c = map (disk2mnt c) c.disks

abbrev pub get_master_hosts : Config → List String
get_master_hosts c = take 3 c.hosts

abbrev pub master_addr : Config → String → String
master_addr c host = local_ip c host <> ":" <> show c.listen_port_master

-- A server of a host
pub record Server : Type 0 where
  pub dirs : List String
  pub ports : Ports
  pub task_set : Option String

abbrev pub next_ports : Ports → Ports
next_ports p = record {
  server = p.server + 1;
  psql = p.psql + 1;
  cql = p.cql + 1;
  redis_webserver = p.redis_webserver + 1;
  webserver = p.webserver + 1;
  cql_webserver = p.cql_webserver + 1;
  psql_webserver = p.psql_webserver + 1;
}

-- `str(n - 1)`
abbrev pub show_pred : ℕ → String
show_pred zero = "-1"
show_pred (suc n) = show n

-- `TaskSets[i]`, or the computed range if there are none
abbrev pub task_set_of : List String → ℕ → (start_core next_core : ℕ) → Option String
task_set_of [] i start_core next_core = some (show start_core <> "-" <> show_pred next_core)
task_set_of (set ∷ sets) i start_core next_core = get_elem? (set ∷ sets) i

module _ (c : Config) (disks_per_instance cores_per_instance : ℕ) where
  -- The servers from the `i`-th on, `left` of them
  unfoldable pub servers : (i left : ℕ) → Ports → (start_core cores_reminder : ℕ) → List Server
  servers i zero ports start_core cores_reminder = []
  servers i (suc left) ports start_core cores_reminder =
      let next_core = start_core + cores_per_instance + positive cores_reminder in
      record {
        dirs = take disks_per_instance (drop (i * disks_per_instance) (mount_dirs c));
        ports = ports;
        task_set = task_set_of c.task_sets i start_core next_core;
      }
      ∷ servers (i + 1) left (next_ports ports) next_core (cores_reminder - positive cores_reminder)

-- The servers of a host. With one server or none, the variable `task_set` is bound only if there are
-- task sets.
abbrev pub single_server : Config → List String → Result (List Server)
single_server c [] = err other_exception
single_server c (set ∷ sets) =
    ok (record { dirs = mount_dirs c; ports = c.ports; task_set = some set } ∷ [])

unfoldable pub host_servers : Config → ℕ → Result (List Server)
host_servers c n =
    let several = servers c (length c.disks / n) (c.cores / n) 0 n c.ports 0 (c.cores % n) in
    if ltb 1 n then ok several else single_server c c.task_sets

abbrev pub taskset : Option String → String
taskset none = ""
taskset (some cpus) = if str_eq cpus "" then "" else "taskset -c " <> cpus <> " "

abbrev pub store_args : List String → String
store_args dirs = "--fs_data_dirs=" <> join "," dirs

module _ (c : Config) (args : Arguments) (memory_ratio : Option String) where
  abbrev pub master_hosts : String
  master_hosts = join "," (map (master_addr c) (get_master_hosts c))

  unfoldable pub master_command : String → String
  master_command host =
      "sudo -u "
      <> args.sudo_user
      <> " sh -c \""
      <> taskset c.master_task_set
      <> c.deploy_path
      <> "/yugabyte_wrapper "
      <> c.deploy_path
      <> "/bin/yb-master --rpc_bind_addresses="
      <> master_addr c host
      <> " --master_addresses="
      <> master_hosts
      <> "  --default_memory_limit_to_ram_ratio 0.15 --webserver_port "
      <> show c.master_webserver_port
      <> " "
      <> store_args (mount_dirs c)
      <> " \""

  abbrev pub ratio_option : Option String → String
  ratio_option none = ""
  ratio_option (some ratio) = " --default_memory_limit_to_ram_ratio " <> ratio

  unfoldable pub server_command : String → Server → String
  server_command host s =
      "sudo -u "
      <> args.sudo_user
      <> " sh -c \""
      <> taskset s.task_set
      <> c.deploy_path
      <> "/yugabyte_wrapper "
      <> c.deploy_path
      <> "/bin/yb-tserver --rpc_bind_addresses="
      <> local_ip c host
      <> ":"
      <> show s.ports.server
      <> " --tserver_master_addrs="
      <> master_hosts
      <> " --pgsql_proxy_webserver_port "
      <> show s.ports.psql_webserver
      <> " --cql_proxy_webserver_port "
      <> show s.ports.cql_webserver
      <> " --webserver_port "
      <> show s.ports.webserver
      <> " --redis_proxy_webserver_port "
      <> show s.ports.redis_webserver
      <> " "
      <> store_args s.dirs
      <> " --pgsql_proxy_bind_address "
      <> local_ip c host
      <> ":"
      <> show s.ports.psql
      <> " --cql_proxy_bind_address "
      <> local_ip c host
      <> ":"
      <> show s.ports.cql
      <> " --ysql_max_connections 1000 --start_redis_proxy=false"
      <> ratio_option memory_ratio
      <> " \""

  module _ (over : ℕ → ℕ → Bool) (system : List String → Process) (fuel : ℕ) where
    -- The action on the one host does not have the option `ssh_user`.
    unfoldable pub on_host : String → String → Option (Result (Unit {0}))
    on_host host cmd = elim (Ssh.init host args.dry_run args.fail_on_error none) [
      | err e ↦ some (err e)
      | ok action ↦
          Ssh.ssh_cmd over system fuel action (if args.dry_run then "echo '" <> cmd <> "'" else cmd)
    ]

    abbrev pub start_masters : List String → Option (Result (Unit {0}))
    start_masters [] = some (ok _)
    start_masters (host ∷ hosts) = on_host host (master_command host) then_run start_masters hosts

    abbrev pub start_servers : String → List Server → Option (Result (Unit {0}))
    start_servers host [] = some (ok _)
    start_servers host (s ∷ rest) =
        on_host host (server_command host s) then_run start_servers host rest

    unfoldable pub start_hosts : Result (List Server) → List String → Option (Result (Unit {0}))
    start_hosts made [] = some (ok _)
    start_hosts (err e) (host ∷ hosts) = some (err e)
    start_hosts (ok each) (host ∷ hosts) =
        start_servers host each then_run start_hosts (ok each) hosts

    -- `Start.run`
    unfoldable pub start : Option (Result (Unit {0}))
    start =
        start_masters (get_master_hosts c)
        then_run start_hosts (host_servers c args.tservers_per_host) c.hosts
