-- ===== src/Installers/Actions/Pssh.antt =====
-- The class `PSSHAction` of db_installers/pylib/common.py. The order in which Python goes through a
-- set is the argument `as_set`.
use benchhelpers.Prelude.{
  Bool, List, Option, Result, String, [], err, error_exit, join, map, none, ok, some, value_error,
  words, ℕ, ◌*◌, ◌++◌, ◌>>=◌, ◌∷◌,
}
use benchhelpers.Installers.Jobs.{Process}
use benchhelpers.Installers.Actions.{with_user, echo, run_job}

pub record PsshAction : Type 0 where
  pub dry_run : Bool
  pub fail_on_error : Bool
  pub username : Option String
  pub pssh_hosts : List String

-- The argument `add_hosts`: nothing or empty, a list, or something that is neither.
pub data AddHosts : Type 0 where
  no_hosts : AddHosts
  these : List String → AddHosts
  not_a_list : AddHosts

abbrev pub timeout : ℕ
timeout = 5 * 60

-- `if len(self.pssh_hosts) == 0`
abbrev pub some_hosts : List String → Result (List String)
some_hosts [] = err error_exit
some_hosts (host ∷ more) = ok (host ∷ more)

-- `_select_hosts`: `--hosts`, or the global `Hosts` that the configuration has filled
unfoldable pub select_hosts :
    (hosts : Option String) (configured : List String) → Result (List String)
select_hosts none configured = some_hosts configured
select_hosts (some hosts) configured = some_hosts (words hosts)

-- `__init__`
unfoldable pub init :
    (hosts : Option String) (configured : List String) (dry_run fail_on_error : Bool)
    (username ssh_user : Option String)
    → Result PsshAction
init hosts configured dry_run fail_on_error username ssh_user = do
  selected ← select_hosts hosts configured
  ok (record {
    dry_run = dry_run;
    fail_on_error = fail_on_error;
    username = username;
    pssh_hosts = map (with_user ssh_user) selected;
  })

abbrev pub get_base_pssh_args : PsshAction → List String
get_base_pssh_args action = elim action.username [ none ↦ [] | some name ↦ "-l" ∷ name ∷ [] ]

module _ (as_set : List String → List String) where
  -- `_get_hosts`
  unfoldable pub get_hosts : PsshAction → AddHosts → Result String
  get_hosts action no_hosts = ok (join " " (as_set action.pssh_hosts))
  get_hosts action (these more) = ok (join " " (as_set (action.pssh_hosts ++ more)))
  get_hosts action not_a_list = err value_error

  module _ (over : ℕ → ℕ → Bool) (system : List String → Process) (fuel : ℕ) where
    -- The exception of `_get_hosts` comes before the job.
    abbrev pub with_hosts :
        Result String → (String → Option (Result (Unit {0}))) → Option (Result (Unit {0}))
    with_hosts (err e) job = some (err e)
    with_hosts (ok hosts) job = job hosts

    unfoldable pub pssh_cmd : PsshAction → List String → AddHosts → Option (Result (Unit {0}))
    pssh_cmd action cmd add_hosts = with_hosts (get_hosts action add_hosts) λ hosts.
        run_job over system fuel timeout action.fail_on_error (
          echo action.dry_run
          ++ "parallel-ssh" ∷ "-i" ∷ "-t" ∷ "0" ∷ "-p" ∷ "100" ∷ "-H" ∷ hosts ∷ cmd)

    unfoldable pub pssh_run : PsshAction → String → AddHosts → Option (Result (Unit {0}))
    pssh_run action cmd add_hosts =
        pssh_cmd action (get_base_pssh_args action ++ cmd ∷ []) add_hosts

    unfoldable pub pssh_upload : PsshAction → (src dst_dir : String) → Option (Result (Unit {0}))
    pssh_upload action src dst_dir = with_hosts (get_hosts action no_hosts) λ hosts.
        run_job over system fuel timeout action.fail_on_error (
          echo action.dry_run
          ++ "parallel-scp" ∷ "-t" ∷ "0" ∷ "-p" ∷ "100" ∷ "-H" ∷ hosts ∷ src ∷ dst_dir ∷ [])
