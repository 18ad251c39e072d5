-- ===== src/Tpcc/Operations/Tests.antt =====
-- An operation that is done at the third run of the command.
use benchhelpers.Prelude.{ap, arith, false, ok, refl, some, suc, sym, true, zero, ℕ, ◌+◌, ◌≡◌}
use benchhelpers.Tpcc.Operations.{Operation, progress, Attempt, answered, refused, verdict, wait}
use benchhelpers.Tpcc.Operations.Finished.{Responsive, Unfinished, wait_finishes}

abbrev running : Operation
running = record { metadata = progress "PROGRESS_TRANSFER_DATA"; ready = false }

abbrev ended : Operation
ended = record { metadata = progress "PROGRESS_DONE"; ready = true }

abbrev third : ℕ → Attempt
third zero = refused
third (suc zero) = answered running
third (suc (suc k)) = answered ended

third-Responsive : Responsive third 2
third-Responsive k le = (2, ended, le, omega arith, omega arith, refl)

third-Unfinished : Unfinished third 2
third-Unfinished zero op lt e = cc
third-Unfinished (suc zero) op lt e = let p : running ≡ op = cc in ap verdict (sym p)
third-Unfinished (suc (suc k)) op lt e = absurd (omega arith)

wait_finishes_example : wait third (2 + 1) 0 false ≡ ok (some (2 + 1))
wait_finishes_example = wait_finishes third 2 ended third-Responsive third-Unfinished refl refl
