-- ===== src/Installers/Actions/Tests.antt =====
-- Two hosts given on the command line, and a command that cannot be started.
use benchhelpers.Prelude.{
  Bool, List, Result, String, [], err, error_exit, false, has_char, is_space, ltb, map, none, ok,
  refl, some, split_at, true, words, ℕ, ◌*◌, ◌∷◌, ◌≡◌,
}
use benchhelpers.Installers.Jobs.{Process}
use benchhelpers.Installers.Actions.{with_user, run_job}
use benchhelpers.Installers.Actions.Ssh
use benchhelpers.Installers.Actions.Pssh.{PsshAction, no_hosts, init, get_hosts, select_hosts}
use benchhelpers.Installers.Actions.Hosts.{get_hosts-words}
use benchhelpers.Installers.Actions.Outcome.{Comes, run_job_ends}

abbrev selected : PsshAction
selected = record {
  dry_run = false;
  fail_on_error = true;
  username = none;
  pssh_hosts = "admin@host-1" ∷ "root@host-2" ∷ [];
}

selects : init (some "host-1 root@host-2 ") [] false true none (some "admin") ≡ ok selected
unfolding init select_hosts with_user words is_space has_char
selects = refl

get_hosts-words_example :
    (line : String) × (get_hosts (λ xs. xs) selected no_hosts ≡ ok line)
    × (words line ≡ map (with_user (some "admin")) (words "host-1 root@host-2 "))
unfolding is_space
get_hosts-words_example =
    get_hosts-words (λ xs. xs) "host-1 root@host-2 " [] false true none (some "admin")
      {action = selected} (λ P xs h. h) (refl, (refl, (refl, (refl, (refl, tt))))) selects

abbrev refuses : List String → Process
refuses command = record { starts = false; polls = λ n. none }

abbrev over : ℕ → ℕ → Bool
over n limit = ltb (10 * limit) n

run_job_ends_example :
    (result : Result (Unit {0})) × (run_job over refuses 651 60 true ("ssh" ∷ []) ≡ some result)
    × Comes (refuses ("ssh" ∷ [])) true result
run_job_ends_example = run_job_ends over refuses 650 60 true ("ssh" ∷ []) refl

-- One host, or the action is not made.
two_hosts : Ssh.init "host-1,host-2" false true none ≡ err error_exit
unfolding Ssh.init split_at
two_hosts = refl
