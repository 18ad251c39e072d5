-- ===== src/Installers/Yugabyte/Tests.antt =====
-- A cluster of one host with two disks, whose commands succeed at once.
use benchhelpers.Prelude.{
  Bool, List, String, [], false, ltb, none, ok, refl, some, split_at, true, ℕ, ◌*◌, ◌∷◌, ◌≡◌,
}
use benchhelpers.Prelude.Int.{pos}
use benchhelpers.Installers.Jobs.{Process, round, wait_exit_code, run, safe_run}
use benchhelpers.Installers.Actions.{after_job, run_job, with_user}
use benchhelpers.Installers.Actions.Ssh as Ssh
use benchhelpers.Installers.Actions.Ssh.{SshAction}
use benchhelpers.Installers.Yugabyte.{Config, Arguments, start_masters, get_master_hosts, on_host}

abbrev cluster : Config
cluster = record {
  deploy_path = "/opt/yugabyte";
  hosts = "host-1" ∷ [];
  local_ip = [];
  listen_port_master = 7100;
  master_webserver_port = 7000;
  ports = record {
    server = 9100;
    psql = 5433;
    cql = 9042;
    redis_webserver = 11001;
    webserver = 9000;
    cql_webserver = 12000;
    psql_webserver = 13000;
  };
  disks = "/dev/nvme0n1" ∷ "/dev/nvme1n1" ∷ [];
  cores = 5;
  task_sets = [];
  master_task_set = none;
}

abbrev arguments : Arguments
arguments = record {
  dry_run = false;
  fail_on_error = true;
  sudo_user = "root";
  tservers_per_host = 1;
}

abbrev system : List String → Process
system command = record { starts = true; polls = λ n. some (pos 0) }

abbrev over : ℕ → ℕ → Bool
over n limit = ltb (10 * limit) n

masters_started :
    start_masters cluster arguments (some "0.85") over system 1 (get_master_hosts cluster)
    ≡ some (ok _)
unfolding on_host Ssh.init Ssh.ssh_cmd run_job after_job safe_run run wait_exit_code round with_user
    split_at
masters_started = refl
