-- ===== src/Installers/Jobs/Tests.antt =====
-- A process that never ends, and one that ends after it was sent `terminate`.
use benchhelpers.Prelude.{
  Bool, Option, [], arith, false, if◌then◌else◌, ltb, none, refl, some, true, ℕ, ◌*◌, ◌==◌, ◌∷◌,
  ◌≡◌,
}
use benchhelpers.Prelude.Int.{ℤ, negsuc}
use benchhelpers.Installers.Jobs.{
  terminate, kill, Job, fresh, check_terminate_timeout, check_kill_timeout, round, wait_exit_code,
}
use benchhelpers.Installers.Jobs.Signals.{Passes, Reach, begins, later, goes_on, Ended, Reach-Ended}
use benchhelpers.Installers.Jobs.Limits.{wait-Reach}

-- Ten rounds to a second.
abbrev over : ℕ → ℕ → Bool
over n limit = ltb (10 * limit) n

-- One round to a second.
abbrev over_seconds : ℕ → ℕ → Bool
over_seconds n limit = ltb limit n

over-Passes : Passes over_seconds
over-Passes rounds timeout more h = ground arith

abbrev never : ℕ → Option ℤ
never n = none

-- `terminate` ends it one round later.
abbrev obeys : ℕ → Option ℤ
obeys n = if n == 3 then some (negsuc 14) else none

killed :
    wait_exit_code over 1 1 never 21 fresh
    ≡ some (record { rounds = 21; terminated = true; signals = terminate ∷ kill ∷ [] }, negsuc 8)
unfolding wait_exit_code round check_terminate_timeout check_kill_timeout
killed = refl

obeyed :
    wait_exit_code over_seconds 1 1 obeys 3 fresh
    ≡ some (record { rounds = 3; terminated = true; signals = terminate ∷ [] }, negsuc 14)
unfolding wait_exit_code round check_terminate_timeout check_kill_timeout
obeyed = refl

wait_reaches :
    (before : Job) × Reach over_seconds 1 1 obeys before
    × (round over_seconds 1 1 obeys before
        ≡ (record { rounds = 3; terminated = true; signals = terminate ∷ [] }, some (negsuc 14)))
wait_reaches = wait-Reach over_seconds 1 1 obeys 3 fresh begins obeyed

abbrev second : Job
second = record { rounds = 2; terminated = true; signals = terminate ∷ [] }

terminated_first : Reach over_seconds 1 1 never second
unfolding round check_terminate_timeout check_kill_timeout
terminated_first =
    later (later begins (goes_on fresh refl))
      (goes_on (record { rounds = 1; terminated = false; signals = [] }) refl)

then_killed :
    round over_seconds 1 1 never second
    ≡ (record { rounds = 3; terminated = true; signals = terminate ∷ kill ∷ [] }, some (negsuc 8))
unfolding round check_terminate_timeout check_kill_timeout
then_killed = refl

Reach-Ended_example :
    Ended over_seconds 1 1 never
      (record { rounds = 3; terminated = true; signals = terminate ∷ kill ∷ [] })
      (negsuc 8)
Reach-Ended_example = Reach-Ended over_seconds 1 1 never over-Passes terminated_first then_killed
