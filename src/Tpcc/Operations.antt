-- ===== src/Tpcc/Operations.antt =====
-- `wait_ydb_operation_done` of tpcc/ydb/tpcc_helper.py: polling an operation of the database. What
-- each run of the command gives is an argument, by the number of the run; the pauses are left out.
pub mod Finished
pub mod Sound
mod Tests
use benchhelpers.Prelude.{
  Bool, Option, Result, String, err, exit, if◌then◌else◌, key_error, none, ok, other_exception,
  some, str_eq, suc, true, zero, ℕ, ◌&&◌, ◌+◌, ◌>>=◌,
}

-- `result_json["metadata"]["progress"]`, where there is metadata, and perhaps no progress in it
pub data Metadata : Type 0 where
  no_metadata no_progress : Metadata
  progress : String → Metadata

pub record Operation : Type 0 where
  pub metadata : Metadata
  pub ready : Bool

-- A run of the command: with the status SUCCESS, with another outcome, or not started at all.
pub data Attempt : Type 0 where
  answered : Operation → Attempt
  refused not_run : Attempt

-- What an answer means for the loop.
pub data Verdict : Type 0 where
  finished cancelled malformed again : Verdict

abbrev pub verdict_of : Metadata → Bool → Verdict
verdict_of no_metadata ready = again
verdict_of no_progress ready = malformed
verdict_of (progress p) ready =
    if str_eq p "PROGRESS_CANCELLED"
    then cancelled
    else if str_eq p "PROGRESS_DONE" && ready
    then finished
    else again

abbrev pub verdict : Operation → Verdict
verdict op = verdict_of op.metadata op.ready

abbrev pub try_once :
    Attempt → ℕ → Result (Operation × ℕ) → Result (Operation × ℕ) → Result (Operation × ℕ)
try_once (answered op) k rest_refused rest_not_run = ok (op, k + 1)
try_once refused k rest_refused rest_not_run = rest_refused
try_once not_run k rest_refused rest_not_run = rest_not_run

abbrev pub act : Verdict → ℕ → Result (Option ℕ) → Result (Option ℕ)
act finished k rest = ok (some k)
act cancelled k rest = err (exit 1)
act malformed k rest = err key_error
act again k rest = rest

module _ (attempts : ℕ → Attempt) where
  -- `for i in range(10) … else`, from attempt `k` on. Without any result, the report of the error
  -- fails itself: `seen` says that there is one.
  unfoldable pub tries : ℕ → ℕ → Bool → Result (Operation × ℕ)
  tries zero k seen = if seen then err (exit 1) else err other_exception
  tries (suc n) k seen = try_once (attempts k) k (tries n (k + 1) true) (tries n (k + 1) seen)

  -- `while True`, on fuel: the number of runs until the operation is done, or `none`.
  unfoldable pub wait : ℕ → ℕ → Bool → Result (Option ℕ)
  wait zero k seen = ok none
  wait (suc fuel) k seen =
      tries 10 k seen >>= λ (op, next). act (verdict op) next (wait fuel next true)
