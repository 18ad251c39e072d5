-- ===== src/Installers/Cockroach.antt =====
-- The class `Start` of db_installers/cockroach/control.py: the instances that it starts, with their
-- cores and memory. The settings that the configuration file assigns are the record `Config`.
pub mod Share
pub mod Control
mod Tests
use benchhelpers.Prelude.{
  Bool, List, Option, Result, String, [], basename, err, if◌then◌else◌, join, length, map, max,
  none, ok, positive, show, some, str_eq, take, zero_division_error, ℕ, ◌%◌, ◌++◌, ◌+◌, ◌-◌, ◌/◌,
  ◌<>◌, ◌==◌, ◌>>=◌, ◌∷◌,
}
use benchhelpers.Installers.Jobs.{Process}
use benchhelpers.Installers.Actions.{◌then_run◌}
use benchhelpers.Installers.Actions.Ssh.{SshAction}
use benchhelpers.Installers.Actions.Ssh as Ssh

pub record Region : Type 0 where
  pub name : String
  pub hosts : List String

pub record Config : Type 0 where
  pub deploy_path : String
  pub deploy_tmp_path : String
  pub ha_proxy_setup_path : String
  pub listen_port : ℕ
  pub http_port : ℕ
  pub cores : ℕ
  pub cache_size_gb : ℕ
  pub sql_memory_size_gb : ℕ
  pub disks : List String
  pub regions : List Region
  pub ha_proxy_hosts : List String

unfoldable pub disk2mnt : Config → String → String
disk2mnt c disk = c.deploy_path <> "/data/" <> basename disk

-- The arguments of `start_instance`
pub record Instance : Type 0 where
  pub store_args : String
  pub listen_addr : String
  pub http_addr : String
  pub task_set : Option String
  pub cache_size : ℕ
  pub sql_mem_size : ℕ

-- The variables of the loop over the disks of a host
pub record Loop : Type 0 where
  pub port : ℕ
  pub http_port : ℕ
  pub start_core : ℕ
  pub cores_reminder : ℕ
  pub cache_reminder : ℕ
  pub sql_mem_reminder : ℕ

-- What an instance gets, before it is written out
pub record Part : Type 0 where
  pub disk : String
  pub port : ℕ
  pub http_port : ℕ
  pub start_core : ℕ
  pub end_core : ℕ
  pub cache : ℕ
  pub sql_mem : ℕ

module _ (cores_per_instance cache_per_instance sql_mem_per_instance : ℕ) where
  abbrev pub end_core : Loop → ℕ
  end_core s = s.start_core + cores_per_instance - 1 + positive s.cores_reminder

  abbrev pub next_loop : Loop → Loop
  next_loop s = record {
    port = s.port + 1;
    http_port = s.http_port + 1;
    start_core = end_core s + 1;
    cores_reminder = s.cores_reminder - positive s.cores_reminder;
    cache_reminder = s.cache_reminder - positive s.cache_reminder;
    sql_mem_reminder = s.sql_mem_reminder - positive s.sql_mem_reminder;
  }

  unfoldable pub parts : Loop → List String → List Part
  parts s [] = []
  parts s (d ∷ ds) =
      record {
        disk = d;
        port = s.port;
        http_port = s.http_port;
        start_core = s.start_core;
        end_core = end_core s;
        cache = cache_per_instance + positive s.cache_reminder;
        sql_mem = sql_mem_per_instance + positive s.sql_mem_reminder;
      }
      ∷ parts (next_loop s) ds

-- `max(1, n // len(Disks))`, where there are disks
abbrev pub per_instance : ℕ → ℕ → ℕ
per_instance n disks = max 1 (n / disks)

-- The parts of a host; without disks the script divides by zero before it starts any.
unfoldable pub host_parts : Config → Result (List Part)
host_parts c =
    let n = length c.disks in
    if n == 0
    then err zero_division_error
    else ok (
        parts (per_instance c.cores n) (per_instance c.cache_size_gb n)
          (per_instance c.sql_memory_size_gb n)
          (record {
            port = c.listen_port;
            http_port = c.http_port;
            start_core = 0;
            cores_reminder = c.cores % n;
            cache_reminder = c.cache_size_gb % n;
            sql_mem_reminder = c.sql_memory_size_gb % n;
          })
          c.disks)

abbrev pub store : Config → String → String
store c disk = "--store " <> disk2mnt c disk <> " "

abbrev pub instance_of : Config → Part → Instance
instance_of c p = record {
  store_args = store c p.disk;
  listen_addr = ":" <> show p.port;
  http_addr = ":" <> show p.http_port;
  task_set = some (show p.start_core <> "-" <> show p.end_core);
  cache_size = p.cache;
  sql_mem_size = p.sql_mem;
}

abbrev pub all_stores : Config → List String → String
all_stores c [] = ""
all_stores c (disk ∷ disks) = store c disk <> all_stores c disks

-- The one instance of a host that has all disks
unfoldable pub whole_instance : Config → Option String → Instance
whole_instance c task_set = record {
  store_args = all_stores c c.disks;
  listen_addr = ":" <> show c.listen_port;
  http_addr = ":" <> show c.http_port;
  task_set = task_set;
  cache_size = c.cache_size_gb;
  sql_mem_size = c.sql_memory_size_gb;
}

abbrev pub taskset : Option String → String
taskset none = ""
taskset (some cpus) = if str_eq cpus "" then "" else "taskset -c " <> cpus <> " "

-- The text of the command. An empty mark of `str.format` in a path or a task set is not modelled.
unfoldable pub start_command :
    Config → (user : String) (join_hosts : List String) (region : String) → Instance → String
start_command c user join_hosts region i =
    "sudo -u "
    <> user
    <> " sh -c \""
    <> taskset i.task_set
    <> c.deploy_path
    <> "/cockroach_wrapper start --insecure --listen-addr="
    <> i.listen_addr
    <> " --http-addr="
    <> i.http_addr
    <> " --join="
    <> join "," join_hosts
    <> " --locality=region="
    <> region
    <> " "
    <> i.store_args
    <> "--cache="
    <> show i.cache_size
    <> "GB --max-sql-memory="
    <> show i.sql_mem_size
    <> "GB\""

-- `Hosts`, extended by the hosts of each region
unfoldable pub all_hosts : List Region → List String
all_hosts [] = []
all_hosts (region ∷ regions) = region.hosts ++ all_hosts regions

unfoldable pub get_join_hosts : Config → List String
get_join_hosts c = map (λ host. host <> ":" <> show c.listen_port) (take 3 (all_hosts c.regions))

-- The options of an action
pub record Arguments : Type 0 where
  pub hosts : Option String
  pub dry_run : Bool
  pub fail_on_error : Bool
  pub username : Option String
  pub ssh_user : Option String
  pub sudo_user : String
  pub task_set : Option String
  pub per_disk_instance : Bool

module _ (over : ℕ → ℕ → Bool) (system : List String → Process) (fuel : ℕ) (c : Config)
    (args : Arguments) where
  abbrev pub run_ssh : Result SshAction → String → Option (Result (Unit {0}))
  run_ssh (err e) cmd = some (err e)
  run_ssh (ok action) cmd = Ssh.ssh_cmd over system fuel action cmd

  unfoldable pub start_instance : (host region : String) → Instance → Option (Result (Unit {0}))
  start_instance host region i =
      let cmd = start_command c args.sudo_user (get_join_hosts c) region i in
      run_ssh (Ssh.init host args.dry_run args.fail_on_error args.ssh_user)
        (if args.dry_run then "echo '" <> cmd <> "'" else cmd)

  abbrev pub start_each : (host region : String) → List Instance → Option (Result (Unit {0}))
  start_each host region [] = some (ok _)
  start_each host region (i ∷ is) = start_instance host region i then_run start_each host region is

  abbrev pub start_hosts : String → List Instance → List String → Option (Result (Unit {0}))
  start_hosts region instances [] = some (ok _)
  start_hosts region instances (host ∷ hosts) =
      start_each host region instances then_run start_hosts region instances hosts

  unfoldable pub start_regions : List Instance → List Region → Option (Result (Unit {0}))
  start_regions instances [] = some (ok _)
  start_regions instances (region ∷ regions) =
      start_hosts region.name instances region.hosts then_run start_regions instances regions

  -- The instances do not depend on the host.
  unfoldable pub instances : Result (List Instance)
  instances =
      let per_disk = host_parts c >>= (λ ps. ok (map (instance_of c) ps)) in
      if args.per_disk_instance then per_disk else ok (whole_instance c args.task_set ∷ [])

  -- `Start.run`
  unfoldable pub start : Option (Result (Unit {0}))
  start = elim instances [ err e ↦ some (err e) | ok is ↦ start_regions is c.regions ]
