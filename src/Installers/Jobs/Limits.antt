-- ===== src/Installers/Jobs/Limits.antt =====
-- The loop of a job is a run of the relation, and it ends.
use benchhelpers.Prelude.{
  Bool, Bool-cases, Option, Option-cases, ap, arith, false, if◌then◌else◌, inl, inr, none, not,
  refl, some, suc, true, zero, ℕ, ◌+◌, ◌||◌, ◌∙◌, ◌≡◌, ◌⊎◌,
}
use benchhelpers.Prelude.Int.{ℤ, negsuc}
use benchhelpers.Installers.Jobs.{
  Job, check_terminate_timeout, check_kill_timeout, sleep, after_kill, round, continue_with,
  wait_exit_code,
}
use benchhelpers.Installers.Jobs.Signals.{Step, goes_on, Reach, later}

module _ (over : ℕ → ℕ → Bool) (timeout kill_timeout : ℕ) (polls : ℕ → Option ℤ) where
  abbrev step : Job → Job × Option ℤ
  step = round over timeout kill_timeout polls

  -- A loop that begins at a job the relation reaches, and ends, followed its steps to a job whose next
  -- round gives that end.
  pub wait-Reach :
      (fuel : ℕ) (job : Job) {last : Job} {code : ℤ}
      → Reach over timeout kill_timeout polls job
      → wait_exit_code over timeout kill_timeout polls fuel job ≡ some (last, code)
      → (before : Job) × Reach over timeout kill_timeout polls before
        × (step before ≡ (last, some code))
  unfolding wait_exit_code
  wait-Reach zero job r h = cc
  wait-Reach (suc fuel) job {last} {code} r h =
      ended (step job) refl h (λ next s. wait-Reach fuel next (later r s))
    where
      ended :
          (res : Job × Option ℤ)
          → step job ≡ res
          → continue_with over timeout kill_timeout polls res
              (λ next. wait_exit_code over timeout kill_timeout polls fuel next)
            ≡ some (last, code)
          → ((next : Job)
              → Step over timeout kill_timeout polls job next
              → wait_exit_code over timeout kill_timeout polls fuel next ≡ some (last, code)
              → (before : Job) × Reach over timeout kill_timeout polls before
                × (step before ≡ (last, some code)))
          → (before : Job) × Reach over timeout kill_timeout polls before
            × (step before ≡ (last, some code))
      ended (now, some c) e h' ih = (job, r, e ∙ cc)
      ended (next, none) e h' ih = ih next (goes_on job e) h'

  rounds_after_terminate :
      (job : Job) → (check_terminate_timeout over timeout kill_timeout job).rounds ≡ job.rounds
  unfolding check_terminate_timeout
  rounds_after_terminate job = elim (Bool-cases (job.terminated || not (over job.rounds timeout))) [
    | inl e ↦ rw e refl
    | inr e ↦ rw e refl
  ]

  -- What the test of the second limit makes of a job.
  kill_test :
      (job : Job) (killed : Bool)
      → over job.rounds (timeout + kill_timeout) ≡ killed
      → let r =
          after_kill over timeout kill_timeout polls
            (check_kill_timeout over timeout kill_timeout job) in
        (r.0.rounds ≡ job.rounds) × (r.1 ≡ (if killed then some (negsuc 8) else none))
  unfolding check_kill_timeout
  kill_test job true e = rw e (refl, refl)
  kill_test job false e = rw e (refl, refl)

  -- A round in which the process has not ended.
  silent_round :
      (job : Job) (killed : Bool)
      → polls (job.rounds + 1) ≡ none
      → over (job.rounds + 1) (timeout + kill_timeout) ≡ killed
      → ((step job).0.rounds ≡ job.rounds + 1)
        × ((step job).1 ≡ (if killed then some (negsuc 8) else none))
  unfolding round
  silent_round job killed quiet e =
      let counted = rounds_after_terminate (sleep over timeout kill_timeout job) in
      let (same, ends) =
        kill_test
          (check_terminate_timeout over timeout kill_timeout (sleep over timeout kill_timeout job))
          killed (ap (λ n. over n (timeout + kill_timeout)) counted ∙ e) in
      rw quiet (same ∙ counted, ends)

  polled_round :
      (job : Job) (code : ℤ) → polls (job.rounds + 1) ≡ some code → (step job).1 ≡ some code
  unfolding round
  polled_round job code e = rw e refl

  -- A round ends the job, or the job has one round more and is not past the limits.
  round_progress :
      (job : Job)
      → ((code : ℤ) × ((step job).1 ≡ some code))
        ⊎ (((step job).1 ≡ none)
            × ((step job).0.rounds ≡ job.rounds + 1)
            × (over (job.rounds + 1) (timeout + kill_timeout) ≡ false))
  round_progress job = elim (Option-cases (polls (job.rounds + 1))) [
    | inr (code, e) ↦ inl (code, polled_round job code e)
    | inl e ↦ elim (Bool-cases (over (job.rounds + 1) (timeout + kill_timeout))) [
      | inl late ↦ inl (negsuc 8, (silent_round job true e late).1)
      | inr early ↦
          let (counted, quiet) = silent_round job false e early in inr (quiet, counted, early)
    ]
  ]

  -- One round of the loop, by what it gives.
  wait_stops :
      (fuel : ℕ) (job : Job) (code : ℤ)
      → (step job).1 ≡ some code
      → wait_exit_code over timeout kill_timeout polls (suc fuel) job ≡ some ((step job).0, code)
  unfolding wait_exit_code
  wait_stops fuel job code e =
      ap
        (λ c.
          continue_with over timeout kill_timeout polls ((step job).0, c)
            (λ next. wait_exit_code over timeout kill_timeout polls fuel next))
        e

  wait_goes_on :
      (fuel : ℕ) (job : Job)
      → (step job).1 ≡ none
      → wait_exit_code over timeout kill_timeout polls (suc fuel) job
        ≡ wait_exit_code over timeout kill_timeout polls fuel (step job).0
  unfolding wait_exit_code
  wait_goes_on fuel job e =
      ap
        (λ c.
          continue_with over timeout kill_timeout polls ((step job).0, c)
            (λ next. wait_exit_code over timeout kill_timeout polls fuel next))
        e

  -- A job ends: if both limits are passed after a number of rounds more, the loop of that many rounds
  -- gives a result.
  pub wait_ends :
      (left : ℕ) (job : Job)
      → over (job.rounds + suc left) (timeout + kill_timeout) ≡ true
      → (last : Job) × (code : ℤ) × (wait_exit_code over timeout kill_timeout polls (suc left) job
          ≡ some (last, code))
  wait_ends zero job late = elim (round_progress job) [
    | inl (code, e) ↦ ((step job).0, code, wait_stops 0 job code e)
    | inr (quiet, counted, early) ↦ absurd cc
  ]
  wait_ends (suc left) job late = elim (round_progress job) [
    | inl (code, e) ↦ ((step job).0, code, wait_stops (suc left) job code e)
    | inr (quiet, counted, early) ↦
        let same : (step job).0.rounds + suc left ≡ job.rounds + suc (suc left) = omega arith in
        let (last, code, e) =
          wait_ends left (step job).0 (ap (λ n. over n (timeout + kill_timeout)) same ∙ late) in
        (last, code, wait_goes_on (suc left) job quiet ∙ e)
  ]
