-- ===== src/Tpcc/Indices/Tests.antt =====
-- Two indices, of which one is ready in the second round.
use benchhelpers.Prelude.{
  [], arith, err, exit, false, if◌then◌else◌, ltb, none, ok, refl, some, suc, true, zero, ℕ, ◌*◌,
  ◌+◌, ◌<◌, ◌∷◌, ◌≡◌,
}
use benchhelpers.Tpcc.Indices.{
  IndexOperation, all_ready, Listing, operations, last_run, wait_ready, Waited, create_indices,
  start_indices, wait_started,
}
use benchhelpers.Tpcc.Indices.Ready.{AreElsewhere, wait_ready-AreElsewhere}
use benchhelpers.Tpcc.Indices.Progress.{wait_ready_finishes}

abbrev built : IndexOperation
built = record { state = some "STATE_DONE"; ready = some true; status = some "SUCCESS" }

abbrev building : IndexOperation
building = record { state = some "STATE_TRANSFERING_DATA"; ready = some false; status = none }

-- The listing of the runs 0 to 9, and of those after.
abbrev listings : ℕ → Listing
listings k = operations (built ∷ (if ltb k 10 then building else built) ∷ [])

ends : wait_ready listings 2 0 Listing.empty_output ≡ ok (some 20)
unfolding wait_ready last_run all_ready
ends = refl

wait_ready-AreElsewhere_example :
    (rounds : ℕ) × (◌≡◌ {A = ℕ} 20 (0 + (10 * rounds + 10)))
    × AreElsewhere (listings (0 + (10 * rounds + 9)))
wait_ready-AreElsewhere_example = wait_ready-AreElsewhere listings 2 0 Listing.empty_output ends

first_round :
    (j : ℕ)
    → j < 1
    → all_ready (built ∷ (if ltb (10 * j + 9) 10 then building else built) ∷ []) ≡ ok false
unfolding all_ready
first_round zero lt = refl
first_round (suc j) lt = absurd (omega arith)

second_round : all_ready (built ∷ (if ltb (10 * 1 + 9) 10 then building else built) ∷ []) ≡ ok true
unfolding all_ready
second_round = refl

wait_ready_finishes_example :
    wait_ready listings (1 + 1) (10 * 0) Listing.empty_output ≡ ok (some (10 * 1 + 10))
wait_ready_finishes_example =
    wait_ready_finishes listings 1 Listing.empty_output first_round second_round

-- A deadline on the first request is no error, another exception is.
tolerated : create_indices (λ sql. true) (λ index. Waited.deadline_exceed) ≡ ok _
unfolding create_indices start_indices wait_started
tolerated = refl

refused_index : create_indices (λ sql. true) (λ index. Waited.failed) ≡ err (exit 1)
unfolding create_indices start_indices wait_started
refused_index = refl
