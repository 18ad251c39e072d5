-- ===== src/Installers/Yugabyte/Control.antt =====
-- The other actions of db_installers/yugabyte/control.py and its `Main`. `pipes.quote`, what the
-- configuration file assigns when it is executed, and whether the package is a file are arguments.
use benchhelpers.Prelude.{
  Bool, List, Option, Result, String, [], basename, err, error_exit, if◌then◌else◌, join, map, none,
  ok, path_join, some, str_eq, ℕ, ◌<>◌, ◌∷◌,
}
use benchhelpers.Prelude.Int.{ℤ, pos, negsuc}
use benchhelpers.Installers.Jobs.{Process}
use benchhelpers.Installers.Actions.{◌then_run◌}
use benchhelpers.Installers.Actions.Pssh.{PsshAction, no_hosts, pssh_run, pssh_upload}
use benchhelpers.Installers.Actions.Pssh as Pssh
use benchhelpers.Installers.Yugabyte.{Config, Arguments, disk2mnt, check_start, start}

-- The commands, of which argparse lets exactly one be given
pub data Command : Type 0 where
  start_cluster stop format clean : Command
  deploy : String → Command
  list_hosts deploy_path deploy_tmp_path : Command

module _ (c : Config) (args : Arguments) where
  abbrev sudo : String
  sudo = "sudo -u " <> args.sudo_user

  -- `Deploy._get_mkdir_cmd` and the rest of its command
  unfoldable pub deploy_command : (quote : String → String) (tmp_path archive : String) → String
  deploy_command quote tmp_path archive =
      let src = quote (path_join tmp_path (basename archive)) in
      "sudo mkdir -p "
      <> quote (path_join c.deploy_path "data")
      <> " "
      <> quote (path_join c.deploy_path "logs")
      <> "; "
      <> sudo
      <> " tar -xzf "
      <> src
      <> " -C "
      <> quote c.deploy_path
      <> " --strip-components=1 | tail; rm -f "
      <> src
      <> "; cd "
      <> quote c.deploy_path
      <> "; sudo ./bin/post_install.sh"

  unfoldable pub stop_command : String
  stop_command =
      sudo <> " sh -c 'pkill yb-master; pkill yb-tserver; pkill haproxy; sleep 5;"
      <> " pkill -9 yb-master; pkill -9 yb-tserver; pkill -9 haproxy; echo \"DONE\"'"

  unfoldable pub umount_command : String → String
  umount_command disk = sudo <> " umount " <> disk2mnt c disk <> " 2>&1"

  unfoldable pub format_command : String → String
  format_command disk =
      umount_command disk
      <> ";"
      <> sudo
      <> " mkfs.xfs -f "
      <> disk
      <> " 2>&1;"
      <> sudo
      <> " mkdir -p "
      <> disk2mnt c disk
      <> ";"
      <> sudo
      <> " mount -o defaults,noatime,nodiratime "
      <> disk
      <> " "
      <> disk2mnt c disk

module _ (over : ℕ → ℕ → Bool) (system : List String → Process) (fuel : ℕ)
    (as_set : List String → List String) (quote : String → String) (memory_ratio : Option String)
    (c : Config) (args : Arguments) (tmp_path : String) where
  abbrev pub on_hosts : String → PsshAction → Option (Result (Unit {0}))
  on_hosts cmd action = pssh_run as_set over system fuel action cmd no_hosts

  -- `Start`, whose options are checked after its hosts
  unfoldable pub run_start : PsshAction → Option (Result (Unit {0}))
  run_start action =
      some (check_start c args.tservers_per_host)
      then_run start c args memory_ratio over system fuel

  unfoldable pub run_stop : PsshAction → Option (Result (Unit {0}))
  run_stop action = on_hosts (stop_command c args) action

  unfoldable pub run_clean : PsshAction → Option (Result (Unit {0}))
  run_clean action =
      run_stop action then_run on_hosts (join ";" (map (umount_command c args) c.disks)) action

  unfoldable pub run_format : PsshAction → Option (Result (Unit {0}))
  run_format action = on_hosts (join ";" (map (format_command c args) c.disks)) action

  unfoldable pub run_deploy : String → PsshAction → Option (Result (Unit {0}))
  run_deploy archive action =
      pssh_upload as_set over system fuel action archive tmp_path
      then_run on_hosts (deploy_command c args quote tmp_path archive) action

  module _ (hosts username : Option String) where
    abbrev pub silent : Option (Result (Unit {0})) → Option (Result (List String))
    silent none = none
    silent (some (err e)) = some (err e)
    silent (some (ok done)) = some (ok [])

    -- An action on all hosts: none is made if there are none.
    abbrev pub with_action :
        (PsshAction → Option (Result (Unit {0}))) → Option (Result (List String))
    with_action act = elim (Pssh.init hosts c.hosts args.dry_run args.fail_on_error username none) [
      | err e ↦ some (err e)
      | ok action ↦ silent (act action)
    ]

    abbrev pub host_lines : Option String → List String
    host_lines none = join " " c.hosts ∷ []
    host_lines (some given) =
        if str_eq given "" then join " " c.hosts ∷ [] else given ∷ join " " c.hosts ∷ []

    -- The lines that the chosen command prints
    unfoldable pub run_command : Command → Option (Result (List String))
    run_command start_cluster = with_action run_start
    run_command stop = with_action run_stop
    run_command format = with_action run_format
    run_command clean = with_action run_clean
    run_command (deploy archive) = with_action (run_deploy archive)
    run_command list_hosts = some (ok (host_lines hosts))
    run_command deploy_path = some (ok (c.deploy_path ∷ []))
    run_command deploy_tmp_path = some (ok (tmp_path ∷ []))

    -- `Main.run` once the configuration is read: the status, and what is printed
    abbrev pub status : Option (Result (List String)) → Option (Result (ℤ × List String))
    status none = none
    status (some (ok lines)) = some (ok (pos 0, lines))
    status (some (err error_exit)) = some (ok (pos 1, []))
    status (some (err e)) = some (err e)

    unfoldable pub select : (is_file : String → Bool) → Command → Option (Result (ℤ × List String))
    select is_file (deploy archive) =
        if str_eq archive ""
        then some (ok (pos 1, []))
        else if is_file archive
        then status (run_command (deploy archive))
        else some (ok (negsuc 0, []))
    select is_file command = status (run_command command)
