-- ===== src/Installers/Actions.antt =====
-- What the classes `SSHAction` and `PSSHAction` of db_installers/pylib/common.py share: the user's
-- name before a host, and what becomes of a job. What the system does with a command is the argument
-- `system`.
pub mod Ssh
pub mod Pssh
pub mod Hosts
pub mod Outcome
mod Tests
use mathlib.Core.Option
use benchhelpers.Prelude.{
  Bool, List, Option, Result, String, [], err, error_exit, exit, has_char, if◌then◌else◌,
  job_exception, map, none, not, ok, some, str_eq, ℕ, ◌&&◌, ◌<>◌, ◌∷◌,
}
use benchhelpers.Installers.Jobs.{Process, safe_run}

-- An option that is absent or empty is no user, and a host that names its user keeps it.
unfoldable pub with_user : Option String → String → String
with_user none host = host
with_user (some user) host =
    if not (str_eq user "") && not (has_char 64 host) then user <> "@" <> host else host

-- `if self.dry_run: ssh_cmd.append("echo")`
abbrev pub echo : Bool → List String
echo dry_run = if dry_run then "echo" ∷ [] else []

-- What the `try` statements make of `safe_run`; `SystemExit` is no `Exception`.
unfoldable pub after_job : Bool → Result (Unit {0}) → Result (Unit {0})
after_job fail_on_error (ok done) = ok _
after_job fail_on_error (err job_exception) = if fail_on_error then err error_exit else ok _
after_job fail_on_error (err (exit n)) = err (exit n)
after_job fail_on_error (err e) = err error_exit

module _ (over : ℕ → ℕ → Bool) (system : List String → Process) (fuel : ℕ) where
  -- `Job(command, timeout=...)`, with the kill timeout of 5 s, and the statement around its run
  unfoldable pub run_job : ℕ → Bool → List String → Option (Result (Unit {0}))
  run_job timeout fail_on_error command =
      Option.map (after_job fail_on_error) (safe_run over timeout 5 (system command) fuel)

infixl 5 ◌then_run◌
-- The next statement, after one that returned
abbrev pub ◌then_run◌ :
    Option (Result (Unit {0})) → Option (Result (Unit {0})) → Option (Result (Unit {0}))
none then_run next = none
some (err e) then_run next = some (err e)
some (ok done) then_run next = next
