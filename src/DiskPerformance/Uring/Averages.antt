-- ===== src/DiskPerformance/Uring/Averages.antt =====
-- Files in which fio reports an error.
use benchhelpers.Prelude.{
  All, Bool-cases, List, String, [], inl, inr, refl, some, true, ℕ, ◌∷◌, ◌≡◌, ◌⊎◌,
}
use benchhelpers.Prelude.Int.{ℤ}
use benchhelpers.DiskPerformance.Uring.{
  Job, Json, Read, parsed, run_failed, load_fio_json, job_errors, error_message, parse_one_result,
  is_zero, error_code,
}

-- Every job's error code is zero.
abbrev pub AreGood : List Job → Type 0
AreGood jobs = All (λ job. is_zero (error_code job) ≡ true) jobs

job_errors-AreGood : (jobs : List Job) → AreGood jobs → job_errors jobs ≡ []
unfolding job_errors
job_errors-AreGood [] h = refl
job_errors-AreGood (job ∷ jobs) (e, rest) = rw e (job_errors-AreGood jobs rest)

pub job_errors-nil : (jobs : List Job) → job_errors jobs ≡ [] → AreGood jobs
unfolding job_errors
job_errors-nil [] h = tt
job_errors-nil (job ∷ jobs) h = elim (Bool-cases (is_zero (error_code job))) [
  | inl e ↦ (e, job_errors-nil jobs (rw e at h))
  | inr e ↦ absurd (let f : error_code job ∷ job_errors jobs ≡ [] = rw e at h in cc)
]

-- If fio reports an error in some job, the file raises `FioRunFailedError`
-- with the codes that are not zero.
pub parse_one_result-failed :
    (load : Json) (read : String → Read String) (path engine : String) (queue_depth : ℕ)
    (workload : String) (run_index : ℕ) (job : Job) (jobs : List Job)
    → load_fio_json load read path ≡ parsed (some (job ∷ jobs))
    → ¬ AreGood (job ∷ jobs)
    → parse_one_result load read path engine queue_depth workload run_index
      ≡ run_failed (error_message path (job_errors (job ∷ jobs)))
unfolding parse_one_result
parse_one_result-failed load read path engine queue_depth workload run_index job jobs is_loaded
      bad =
    elim (errors (job_errors (job ∷ jobs))) [
      | inl e ↦ absurd (bad (job_errors-nil (job ∷ jobs) e))
      | inr (code, codes, e) ↦ rw (is_loaded, e) refl
    ]
  where
    errors : (es : List ℤ) → (es ≡ []) ⊎ ((c : ℤ) × (cs : List ℤ) × (es ≡ c ∷ cs))
    errors [] = inl refl
    errors (c ∷ cs) = inr (c, cs, refl)
