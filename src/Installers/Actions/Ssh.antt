-- ===== src/Installers/Actions/Ssh.antt =====
-- The class `SSHAction` of db_installers/pylib/common.py.
use benchhelpers.Prelude.{
  Bool, List, Option, Result, String, [], err, error_exit, if◌then◌else◌, length, ok, split_at, ℕ,
  ◌++◌, ◌==◌, ◌∷◌,
}
use benchhelpers.Installers.Jobs.{Process}
use benchhelpers.Installers.Actions.{with_user, echo, run_job}

pub record SshAction : Type 0 where
  pub host : String
  pub dry_run : Bool
  pub fail_on_error : Bool

abbrev pub timeout : ℕ
timeout = 60

-- `__init__`
unfoldable pub init :
    (hosts : String) (dry_run fail_on_error : Bool) (ssh_user : Option String) → Result SshAction
init hosts dry_run fail_on_error ssh_user =
    if length (split_at 44 hosts) == 1
    then ok (record {
      host = with_user ssh_user hosts;
      dry_run = dry_run;
      fail_on_error = fail_on_error;
    })
    else err error_exit

unfoldable pub ssh_cmd :
    (ℕ → ℕ → Bool) → (List String → Process) → ℕ → SshAction → String → Option (Result (Unit {0}))
ssh_cmd over system fuel action cmd =
    run_job over system fuel timeout action.fail_on_error
      (echo action.dry_run ++ "ssh" ∷ action.host ∷ cmd ∷ [])
