-- ===== src/Installers/Actions/Outcome.antt =====
-- What becomes of a command: it ends, and how.
use benchhelpers.Prelude.{
  Bool, Bool-cases, List, Result, String, ap, arith, err, error_exit, false, inl, inr, ok, refl,
  some, suc, true, ℕ, ◌+◌, ◌∙◌, ◌≡◌, ◌⊎◌,
}
use benchhelpers.Prelude.Int.{ℤ}
use benchhelpers.Installers.Jobs.{Job, fresh, run, is_zero, safe_result, Process, safe_run}
use benchhelpers.Installers.Jobs.Limits.{wait_ends}
use benchhelpers.Installers.Actions.{after_job, run_job}

-- The command returned, or it was given up for a reason.
abbrev pub Comes : Process → Bool → Result (Unit {0}) → Type 0
Comes process fail_on_error result =
    (result ≡ ok _)
    ⊎ ((result ≡ err error_exit) × ((process.starts ≡ false) ⊎ (fail_on_error ≡ true)))

after_result :
    (process : Process) (fail_on_error : Bool) (job : Job) (code : ℤ)
    → Comes process fail_on_error (after_job fail_on_error (safe_result (ok (job, code))))
unfolding after_job
after_result process true job code = elim (Bool-cases (is_zero code)) [
  | inl zero_code ↦ rw zero_code (inl refl)
  | inr failed ↦ rw failed (inr (refl, inr refl))
]
after_result process false job code = elim (Bool-cases (is_zero code)) [
  | inl zero_code ↦ rw zero_code (inl refl)
  | inr failed ↦ rw failed (inl refl)
]

module _ (over : ℕ → ℕ → Bool) (system : List String → Process) where
  -- With as much fuel as the limits are passed after, the job of a command has an outcome: the caller
  -- goes on, or it raises `ErrorExit`, which it does only where the command could not be started or
  -- errors are not to be passed over.
  pub run_job_ends :
      (left timeout : ℕ) (fail_on_error : Bool) (command : List String)
      → over (suc left) (timeout + 5) ≡ true
      → (result : Result (Unit {0})) × (run_job over system (suc left) timeout fail_on_error command
          ≡ some result)
        × Comes (system command) fail_on_error result
  unfolding run_job safe_run run after_job
  run_job_ends left timeout fail_on_error command late = elim (Bool-cases (system command).starts) [
    | inl starts ↦
        let same : 0 + suc left ≡ suc left = omega arith in
        let late' : over (0 + suc left) (timeout + 5) ≡ true =
          ap (λ n. over n (timeout + 5)) same ∙ late in
        let (last, code, e) = wait_ends over timeout 5 (system command).polls left fresh late' in
        (
          after_job fail_on_error (safe_result (ok (last, code))),
          rw (starts, e) refl,
          after_result (system command) fail_on_error last code,
        )
    | inr not_started ↦ (err error_exit, rw not_started refl, inr (refl, inl not_started))
  ]
