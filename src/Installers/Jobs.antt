-- ===== src/Installers/Jobs.antt =====
-- The class `Job` of db_installers/pylib/common.py: a command with a time limit. The elapsed time is
-- counted in rounds of 0.1 s; whether so many rounds, summed in floating point, are over a number of
-- seconds is an argument, and so is what each poll of the process returns.
pub mod Signals
pub mod Limits
mod Tests
use mathlib.Core.Option
use benchhelpers.Prelude.{
  Bool, List, Option, Result, [], err, false, if◌then◌else◌, job_exception, map, none, not, ok,
  other_exception, some, suc, true, zero, ℕ, ◌++◌, ◌+◌, ◌==◌, ◌||◌, ◌∷◌,
}
use benchhelpers.Prelude.Int.{ℤ, pos, negsuc}

pub data Signal : Type 0 where
  terminate kill : Signal

-- The fields of a job that change while it runs, and the signals that were sent, also in vain: an
-- exception of `terminate` or `kill` is only logged.
pub record Job : Type 0 where
  pub rounds : ℕ
  pub terminated : Bool
  pub signals : List Signal

-- `time_elapsed = 0; terminated = False`
abbrev pub fresh : Job
fresh = record { rounds = 0; terminated = false; signals = [] }

module _ (over : ℕ → ℕ → Bool) (timeout kill_timeout : ℕ) where
  unfoldable pub check_terminate_timeout : Job → Job
  check_terminate_timeout job =
      if job.terminated || not (over job.rounds timeout)
      then job
      else record job { signals = job.signals ++ terminate ∷ []; terminated = true }

  unfoldable pub check_kill_timeout : Job → Job × Bool
  check_kill_timeout job =
      if over job.rounds (timeout + kill_timeout)
      then (record job { signals = job.signals ++ kill ∷ [] }, true)
      else (job, false)

  -- `time.sleep(0.1); self.time_elapsed += 0.1`
  abbrev pub sleep : Job → Job
  sleep job = record job { rounds = job.rounds + 1 }

  module _ (polls : ℕ → Option ℤ) where
    -- A job that goes on, or has an exit code.
    abbrev pub after_kill : Job × Bool → Job × Option ℤ
    after_kill (job, true) = (job, some (negsuc 8))
    after_kill (job, false) = (job, none)

    abbrev pub after_poll : Option ℤ → Job → Job × Option ℤ
    after_poll (some code) job = (job, some code)
    after_poll none job = after_kill (check_kill_timeout (check_terminate_timeout job))

    -- The body of `while True`
    unfoldable pub round : Job → Job × Option ℤ
    round job = after_poll (polls (job.rounds + 1)) (sleep job)

    abbrev pub continue_with : Job × Option ℤ → (Job → Option (Job × ℤ)) → Option (Job × ℤ)
    continue_with (job, some code) rest = some (job, code)
    continue_with (job, none) rest = rest job

    -- `wait_exit_code`, on fuel
    unfoldable pub wait_exit_code : ℕ → Job → Option (Job × ℤ)
    wait_exit_code zero job = none
    wait_exit_code (suc fuel) job = continue_with (round job) (λ next. wait_exit_code fuel next)

    -- `run`: `Popen` may raise an exception.
    unfoldable pub run : Bool → ℕ → Option (Result (Job × ℤ))
    run starts fuel =
        if starts then Option.map ok (wait_exit_code fuel fresh) else some (err other_exception)

-- `return_code != 0`
abbrev pub is_zero : ℤ → Bool
is_zero (pos n) = n == 0
is_zero (negsuc n) = false

-- What `safe_run` makes of a run: its value, or an exception.
abbrev pub safe_result : Result (Job × ℤ) → Result (Unit {0})
safe_result (err e) = err e
safe_result (ok (job, code)) = if is_zero code then ok _ else err job_exception

-- What the operating system does with a command: whether it starts, and what the polls return.
pub record Process : Type 0 where
  pub starts : Bool
  pub polls : ℕ → Option ℤ

-- `Job(command, timeout, kill_timeout).safe_run()`, on fuel
unfoldable pub safe_run : (ℕ → ℕ → Bool) → ℕ → ℕ → Process → ℕ → Option (Result (Unit {0}))
safe_run over timeout kill_timeout process fuel =
    Option.map safe_result (run over timeout kill_timeout process.polls process.starts fuel)

-- `get_output`: the elapsed time and the mark of an earlier run are not reset. The pipe that it
-- returns is left out.
unfoldable pub get_output : (ℕ → ℕ → Bool) → ℕ → ℕ → Process → ℕ → Job → Option (Result (Unit {0}))
get_output over timeout kill_timeout process fuel job =
    if process.starts
    then Option.map (λ ended. safe_result (ok ended))
        (wait_exit_code over timeout kill_timeout process.polls fuel job)
    else some (err other_exception)
