-- ===== src/Installers/Cockroach/Control.antt =====
-- The other actions of db_installers/cockroach/control.py and its `Main`. `pipes.quote`, what the
-- configuration file assigns when it is executed, and whether the package is a file are arguments.
use benchhelpers.Prelude.{
  Bool, List, Option, Result, String, [], basename, err, error_exit, if◌then◌else◌, join, map, none,
  ok, other_exception, path_join, show, some, split_at, str_eq, ℕ, ◌<>◌, ◌∷◌,
}
use benchhelpers.Prelude.Int.{ℤ, pos, negsuc}
use benchhelpers.Installers.Jobs.{Process}
use benchhelpers.Installers.Actions.Ssh.{SshAction}
use benchhelpers.Installers.Actions.{◌then_run◌}
use benchhelpers.Installers.Actions.Ssh as Ssh
use benchhelpers.Installers.Actions.Pssh.{PsshAction, AddHosts, no_hosts, pssh_run, pssh_upload}
use benchhelpers.Installers.Actions.Pssh as Pssh
use benchhelpers.Installers.Cockroach.{Config, disk2mnt, all_hosts, Arguments, start}

-- The commands, of which argparse lets exactly one be given
pub data Command : Type 0 where
  start_cluster stop format clean init : Command
  deploy : String → Command
  list_hosts listen_port ha_proxy_hosts ha_proxy_setup_path deploy_path deploy_tmp_path : Command

-- `host.split('@')[-1]`
abbrev pub last_part : List String → String
last_part [] = ""
last_part (s ∷ []) = s
last_part (s ∷ t ∷ rest) = last_part (t ∷ rest)

module _ (c : Config) (args : Arguments) where
  unfoldable pub init_command : String → String
  init_command host =
      "sudo -u "
      <> args.sudo_user
      <> " "
      <> c.deploy_path
      <> "/cockroach init --insecure --host="
      <> last_part (split_at 64 host)

  -- `Deploy._get_mkdir_cmd` and the rest of its command
  unfoldable pub deploy_command : (quote : String → String) → String → String
  deploy_command quote archive =
      let src = quote (path_join c.deploy_tmp_path (basename archive)) in
      "sudo mkdir -p "
      <> quote (path_join c.deploy_path "data")
      <> " "
      <> quote (path_join c.deploy_path "logs")
      <> "; sudo -u "
      <> args.sudo_user
      <> " tar -xzf "
      <> src
      <> " -C "
      <> quote c.deploy_path
      <> " --strip-components=1 | tail; rm -f "
      <> src

  unfoldable pub kill_command : String → String
  kill_command program =
      "sudo -u " <> args.sudo_user <> " sh -c 'pkill " <> program <> "; sleep 1;pkill -9 "
      <> program <> "; echo \"DONE\"'"

  unfoldable pub umount_command : String → String
  umount_command disk = "sudo -u " <> args.sudo_user <> " umount " <> disk2mnt c disk <> " 2>&1"

  unfoldable pub format_command : String → String
  format_command disk =
      let sudo = "sudo -u " <> args.sudo_user in
      umount_command disk
      <> ";"
      <> sudo
      <> " mkfs -t ext4 "
      <> disk
      <> " 2>&1;"
      <> sudo
      <> " mkdir -p "
      <> disk2mnt c disk
      <> ";"
      <> sudo
      <> " mount -o defaults,noatime,nodiratime,nobarrier "
      <> disk
      <> " "
      <> disk2mnt c disk

module _ (over : ℕ → ℕ → Bool) (system : List String → Process) (fuel : ℕ)
    (as_set : List String → List String) (quote : String → String) (c : Config)
    (args : Arguments) where
  -- An action on all hosts: none is made if there are none.
  abbrev pub with_action :
      Result PsshAction → (PsshAction → Option (Result (Unit {0}))) → Option (Result (Unit {0}))
  with_action (err e) act = some (err e)
  with_action (ok action) act = act action

  abbrev pub pssh : Result PsshAction
  pssh =
      Pssh.init args.hosts (all_hosts c.regions) args.dry_run args.fail_on_error args.username
        args.ssh_user

  abbrev pub on_hosts : String → PsshAction → Option (Result (Unit {0}))
  on_hosts cmd action = pssh_run as_set over system fuel action cmd no_hosts

  -- `Deploy.run`
  unfoldable pub run_deploy : String → Option (Result (Unit {0}))
  run_deploy archive = with_action pssh λ action.
      pssh_upload as_set over system fuel action archive c.deploy_tmp_path
      then_run on_hosts (deploy_command c args quote archive) action

  -- `Init`, on the one host that is given
  unfoldable pub run_init : String → Option (Result (Unit {0}))
  run_init hosts = elim (Ssh.init hosts args.dry_run args.fail_on_error args.ssh_user) [
    | err e ↦ some (err e)
    | ok action ↦ Ssh.ssh_cmd over system fuel action (init_command c args action.host)
  ]

  -- The action on the proxies does not have the option `ssh_user`.
  abbrev pub stop_proxies : List String → Option (Result (Unit {0}))
  stop_proxies [] = some (ok _)
  stop_proxies (host ∷ hosts) =
      with_action
        (Pssh.init (some (join " " (host ∷ hosts))) (all_hosts c.regions) args.dry_run
          args.fail_on_error args.username none)
        (on_hosts (kill_command c args "haproxy"))

  -- `Stop.run` of an action that is made
  unfoldable pub run_stop : PsshAction → Option (Result (Unit {0}))
  run_stop action =
      stop_proxies c.ha_proxy_hosts then_run on_hosts (kill_command c args "cockroach") action

  -- `Clean.run`
  unfoldable pub run_clean : PsshAction → Option (Result (Unit {0}))
  run_clean action =
      run_stop action then_run on_hosts (join ";" (map (umount_command c args) c.disks)) action

  -- `Format.run`
  unfoldable pub run_format : PsshAction → Option (Result (Unit {0}))
  run_format action = on_hosts (join ";" (map (format_command c args) c.disks)) action

  abbrev pub printing : List String → Option (Result (List String))
  printing lines = some (ok lines)

  abbrev pub silent : Option (Result (Unit {0})) → Option (Result (List String))
  silent none = none
  silent (some (err e)) = some (err e)
  silent (some (ok done)) = some (ok [])

  -- The lines that the chosen command prints. `Init` is given `--hosts`, which may be absent.
  unfoldable pub run_command : Command → Option (Result (List String))
  run_command start_cluster = silent (with_action pssh (λ action. start over system fuel c args))
  run_command stop = silent (with_action pssh run_stop)
  run_command format = silent (with_action pssh run_format)
  run_command clean = silent (with_action pssh run_clean)
  run_command init =
      silent (elim args.hosts [ none ↦ some (err other_exception) | some hosts ↦ run_init hosts ])
  run_command (deploy archive) = silent (run_deploy archive)
  run_command list_hosts = printing (elim args.hosts [
    | none ↦ join " " (all_hosts c.regions) ∷ []
    | some hosts ↦
        if str_eq hosts ""
        then join " " (all_hosts c.regions) ∷ []
        else hosts ∷ join " " (all_hosts c.regions) ∷ []
  ])
  run_command listen_port = printing (show c.listen_port ∷ [])
  run_command ha_proxy_hosts =
      printing (elim c.ha_proxy_hosts [ [] ↦ [] | host ∷ hosts ↦ join " " (host ∷ hosts) ∷ [] ])
  run_command ha_proxy_setup_path = printing (c.ha_proxy_setup_path ∷ [])
  run_command deploy_path = printing (c.deploy_path ∷ [])
  run_command deploy_tmp_path = printing (c.deploy_tmp_path ∷ [])

  -- `Main.run` once the configuration is read: the status, and what is printed. `ErrorExit` is caught.
  abbrev pub status : Option (Result (List String)) → Option (Result (ℤ × List String))
  status none = none
  status (some (ok lines)) = some (ok (pos 0, lines))
  status (some (err error_exit)) = some (ok (pos 1, []))
  status (some (err e)) = some (err e)

  abbrev pub select : (is_file : String → Bool) → Command → Option (Result (ℤ × List String))
  select is_file (deploy archive) =
      if str_eq archive ""
      then some (ok (pos 1, []))
      else if is_file archive
      then status (run_command (deploy archive))
      else some (ok (negsuc 0, []))
  select is_file command = status (run_command command)

module _ (over : ℕ → ℕ → Bool) (system : List String → Process) (fuel : ℕ)
    (as_set : List String → List String) (quote : String → String) (is_file : String → Bool) where
  -- `Main.run`; `none` is a configuration that cannot be executed.
  unfoldable pub main : Option Config → Arguments → Command → Option (Result (ℤ × List String))
  main none args command = some (ok (negsuc 0, []))
  main (some c) args command = select over system fuel as_set quote c args is_file command
