-- ===== src/Installers/YdbConfigs.antt =====
-- The cluster configuration of db_installers/ydb/generate_ydb_configs.py, section by section, and
-- the settings file. The YAML printer is outside.
pub mod Zones
mod Tests
use benchhelpers.Prelude.{
  Bool, List, Result, String, [], err, exit, false, if◌then◌else◌, length, map, not, ok, range,
  replicate, show, strip, true, ℕ, ◌%◌, ◌*◌, ◌++◌, ◌+◌, ◌-◌, ◌/◌, ◌<>◌, ◌==◌, ◌>>=◌, ◌∷◌,
}

-- `generate_host_config_section`: one configuration with one drive.
pub record HostConfigEntry : Type 0 where
  pub host_config_id : ℕ
  pub drive_path : String
  pub drive_type : String

abbrev pub host_config_section : String → String → List HostConfigEntry
host_config_section disk disk_type =
    record { host_config_id = 1; drive_path = disk; drive_type = disk_type } ∷ []

pub record HostEntry : Type 0 where
  pub host : String
  pub node_id : ℕ
  pub host_config_id : ℕ
  pub body : ℕ
  pub rack : String
  pub data_center : String

-- The zone of a host by its number from 0.
abbrev pub zone_number : ℕ → ℕ
zone_number host_num = host_num / 3 + 1

-- The loop over `enumerate(hosts)`, where `body` and `rack` count from 1.
unfoldable pub describe_hosts : ℕ → ℕ → ℕ → List String → List HostEntry
describe_hosts host_num body rack [] = []
describe_hosts host_num body rack (host ∷ hosts) =
    record {
      host = host;
      node_id = host_num + 1;
      host_config_id = 1;
      body = body;
      rack = show rack;
      data_center = "zone-" <> show (zone_number host_num);
    }
    ∷ describe_hosts (host_num + 1) (body + 1) (rack + 1) hosts

-- `generate_hosts_section`
unfoldable pub hosts_section : List String → Result (List HostEntry)
hosts_section lines =
    if length lines == 0
    then err (exit 1)
    else if not (length lines % 3 == 0)
    then err (exit 1)
    else ok (describe_hosts 0 1 1 (map strip lines))

-- `[zone * per_zone + i for i in range(1, 4)]` of the three zones
unfoldable pub ring_nodes : ℕ → List ℕ
ring_nodes num_hosts =
    let per_zone = num_hosts / 3 in
    map (λ i. 0 * per_zone + i) (range 1 3)
    ++ map (λ i. 1 * per_zone + i) (range 1 3)
    ++ map (λ i. 2 * per_zone + i) (range 1 3)

pub record StoragePoolType : Type 0 where
  pub kind : String
  pub box_id : ℕ
  pub erasure_species : String
  pub pool_kind : String
  pub filter_type : String
  pub vdisk_kind : String

pub record StateStorage : Type 0 where
  pub node : List ℕ
  pub nto_select : ℕ
  pub ssid : ℕ

pub record Domains : Type 0 where
  pub name : String
  pub storage_pool_types : List StoragePoolType
  pub enforce_user_token_requirement : Bool
  pub state_storage : List StateStorage

-- `generate_domains_section`; `lower` is `str.lower`.
unfoldable pub domains_section : (String → String) → ℕ → String → Domains
domains_section lower num_hosts disk_type = record {
  name = "Root";
  storage_pool_types =
      record {
        kind = lower disk_type;
        box_id = 1;
        erasure_species = "mirror-3-dc";
        pool_kind = lower disk_type;
        filter_type = disk_type;
        vdisk_kind = "Default";
      }
      ∷ [];
  enforce_user_token_requirement = false;
  state_storage =
      record { node = ring_nodes num_hosts; nto_select = length (ring_nodes num_hosts); ssid = 1 }
      ∷ [];
}

pub record VdiskLocation : Type 0 where
  pub node_id : ℕ
  pub pdisk_category : String
  pub path : String

-- The fail domains of a ring, each of one disk.
pub record Ring : Type 0 where
  pub fail_domains : List VdiskLocation

-- `range(zone * per_zone + 1, (zone + 1) * per_zone + 1)`
abbrev pub zone_nodes : ℕ → ℕ → List ℕ
zone_nodes per_zone zone = range (zone * per_zone + 1) per_zone

abbrev pub ring_of : String → String → ℕ → ℕ → Ring
ring_of disk_type disk_path per_zone zone = record {
  fail_domains =
      map (λ id. record { node_id = id; pdisk_category = disk_type; path = disk_path })
        (zone_nodes per_zone zone);
}

-- `generate_blobstorage_section`: the rings of its one group.
unfoldable pub blobstorage_section : ℕ → String → String → List Ring
blobstorage_section num_hosts disk_type disk_path =
    map (ring_of disk_type disk_path (num_hosts / 3)) (range 0 3)

pub record Channel : Type 0 where
  pub erasure_species : String
  pub pdisk_category : String
  pub storage_pool_kind : String

-- `get_channel_profile_config`: the channels of profile 0.
abbrev pub channel_profile_config : (String → String) → String → List Channel
channel_profile_config lower disk_type = replicate 3 (record {
  erasure_species = "mirror-3-dc";
  pdisk_category = disk_type;
  storage_pool_kind = lower disk_type;
})

-- A number of cores: a default of the script, or the text of its option, which stays text.
pub data Cores : Type 0 where
  default_cores : ℕ → Cores
  given_cores : String → Cores

pub record ActorSystem : Type 0 where
  pub use_auto_config : Bool
  pub node_type : String
  pub cpu_count : Cores

abbrev pub actor_system_config : String → Cores → ActorSystem
actor_system_config node_type cores = record {
  use_auto_config = true;
  node_type = node_type;
  cpu_count = cores;
}

pub record TableService : Type 0 where
  pub sql_version : ℕ
  pub enable_kqp_data_query_stream_lookup : Bool
  pub enable_sequential_reads : Bool

abbrev pub table_config : TableService
table_config = record {
  sql_version = 1;
  enable_kqp_data_query_stream_lookup = true;
  enable_sequential_reads = true;
}

-- `memory_limit`
abbrev pub cache_config : ℕ
cache_config = 16000000000

-- `hosts_num * 4 // 3 - 1`, which a run without hosts does not reach.
unfoldable pub pool_size : ℕ → ℕ
pool_size hosts_num = hosts_num * 4 / 3 - 1

-- The options of the script.
pub record Options : Type 0 where
  pub disk : String
  pub disk_type : String
  pub storage_cores : Cores
  pub compute_cores : Cores
  pub storage_cores_taskset : String
  pub compute_cores_taskset : String
  pub hosts_file : String
  pub output_dir : String

-- The values of `write_setup_config`
pub record SetupConfig : Type 0 where
  pub hosts_file : String
  pub disks : String
  pub config_dir : String
  pub static_taskset_cpu : String
  pub dynnode_taskset_cpu : String
  pub storage_pools : String

abbrev pub setup_config : (String → String) → Options → ℕ → SetupConfig
setup_config lower o hosts_num = record {
  hosts_file = o.hosts_file;
  disks = o.disk;
  config_dir = o.output_dir;
  static_taskset_cpu = o.storage_cores_taskset;
  dynnode_taskset_cpu = o.compute_cores_taskset;
  storage_pools = lower o.disk_type <> ":" <> show (pool_size hosts_num);
}

-- The sections of the two YAML files: `blob_storage` is only in the one of the storage
-- nodes, `table_service` and `shared_cache` only in the other.
pub record Cluster : Type 0 where
  pub host_configs : List HostConfigEntry
  pub hosts : List HostEntry
  pub domains : Domains
  pub blob_storage : List Ring
  pub channels : List Channel
  pub storage_actors : ActorSystem
  pub compute_actors : ActorSystem
  pub table_service : TableService
  pub shared_cache : ℕ
  pub setup : SetupConfig

-- `main`, on the lines of a file of hosts that exists
unfoldable pub cluster : (String → String) → Options → List String → Result Cluster
cluster lower o lines = hosts_section lines >>= λ hosts. ok (record {
  host_configs = host_config_section o.disk o.disk_type;
  hosts = hosts;
  domains = domains_section lower (length hosts) o.disk_type;
  blob_storage = blobstorage_section (length hosts) o.disk_type o.disk;
  channels = channel_profile_config lower o.disk_type;
  storage_actors = actor_system_config "STORAGE" o.storage_cores;
  compute_actors = actor_system_config "COMPUTE" o.compute_cores;
  table_service = table_config;
  shared_cache = cache_config;
  setup = setup_config lower o (length hosts);
})
