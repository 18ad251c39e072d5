-- ===== src/Installers/Cockroach/Tests.antt =====
-- A host of 8 cores and 3 disks, and one of 2 cores.
use benchhelpers.Prelude.{
  List, String, [], arith, false, map, none, ok, range, refl, some, sum, true, ℕ, ◌∷◌, ◌≡◌,
}
use benchhelpers.Prelude.Int.{negsuc}
use benchhelpers.Installers.Jobs.{Process}
use benchhelpers.Installers.Cockroach.{Config, Part, host_parts, Arguments}
use benchhelpers.Installers.Cockroach.Share.{all_cores, host_parts-shared}
use benchhelpers.Installers.Cockroach.Control.{Command, main}

abbrev host_with : ℕ → Config
host_with cores = record {
  deploy_path = "/opt/cockroach";
  deploy_tmp_path = "/tmp";
  ha_proxy_setup_path = "/opt/haproxy";
  listen_port = 26257;
  http_port = 8080;
  cores = cores;
  cache_size_gb = 10;
  sql_memory_size_gb = 3;
  disks = "/dev/nvme0n1" ∷ "/dev/nvme1n1" ∷ "/dev/nvme2n1" ∷ [];
  regions = record { name = "one"; hosts = "host-1" ∷ [] } ∷ [];
  ha_proxy_hosts = [];
}

host_parts-shared_example :
    (ps : List Part) × (host_parts (host_with 8) ≡ ok ps)
    × (all_cores ps ≡ range 0 8)
    × (sum (map (λ p. p.cache) ps) ≡ 10)
    × (sum (map (λ p. p.sql_mem) ps) ≡ 3)
host_parts-shared_example =
    host_parts-shared (host_with 8) (omega arith) (omega arith) (omega arith) (omega arith)

abbrev arguments : Arguments
arguments = record {
  hosts = none;
  dry_run = false;
  fail_on_error = true;
  username = none;
  ssh_user = none;
  sudo_user = "root";
  task_set = none;
  per_disk_instance = true;
}

abbrev refuses : List String → Process
refuses command = record { starts = false; polls = λ n. none }

no_archive :
    main
      (λ n m. true)
      refuses
      1
      (λ xs. xs)
      (λ s. s)
      (λ path. false)
      (some (host_with 8))
      arguments
      (Command.deploy "cockroach.tgz")
    ≡ some (ok (negsuc 0, []))
unfolding main
no_archive = refl
