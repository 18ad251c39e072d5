-- ===== src/Tpcc/Indices/Progress.antt =====
-- When the wait for the indices ends.
use benchhelpers.Prelude.{
  Bool, ap, arith, false, ok, refl, some, suc, true, zero, ℕ, ℕ_discrete, ◌*◌, ◌+◌, ◌<◌, ◌∙◌, ◌≡◌,
  ◌≤◌,
}
use benchhelpers.Tpcc.Indices.{Listing, read_listing, last_run, next_round, wait_ready}
use benchhelpers.Tpcc.Indices.Ready.{last_run-last}

-- What the listing shows at the end of round `i`.
abbrev pub Shows : (ℕ → Listing) → ℕ → Bool → Type 0
Shows listing i done = read_listing (listing (10 * i + 9)) ≡ ok done

wait_ready-step :
    (listing : ℕ → Listing) (fuel i : ℕ) (l : Listing) (done : Bool)
    → Shows listing i done
    → wait_ready listing (suc fuel) (10 * i) l
      ≡ next_round done
          (10 * i + 10)
          (wait_ready listing fuel (10 * i + 10) (last_run listing 10 (10 * i) l))
unfolding wait_ready
wait_ready-step listing fuel i l done shows =
    let e : read_listing (last_run listing 10 (10 * i) l) ≡ ok done =
      ap read_listing (last_run-last listing 9 (10 * i) l) ∙ shows in
    rw e refl

wait_ready-from :
    (listing : ℕ → Listing) (n fuel i : ℕ) (l : Listing)
    → ((j : ℕ) → j < n → Shows listing j false)
    → Shows listing n true
    → i ≤ n
    → n < i + fuel
    → wait_ready listing fuel (10 * i) l ≡ ok (some (10 * n + 10))
wait_ready-from listing n zero i l pending done low high = absurd (omega arith)
wait_ready-from listing n (suc fuel) i l pending done low high = elim (ℕ_discrete i n) [
  | yes same ↦
      let now : Shows listing i true = rw same done in
      wait_ready-step listing fuel i l true now ∙ ap (λ k. ok (some (10 * k + 10))) same
  | no differ ↦
      let later : 10 * i + 10 ≡ 10 * (i + 1) = omega arith in
      let rest =
        wait_ready-from listing n fuel (i + 1) (last_run listing 10 (10 * i) l) pending done
          (omega (arith, differ)) (omega arith) in
      wait_ready-step listing fuel i l false (pending i (omega (arith, differ)))
      ∙ ap (λ k. wait_ready listing fuel k (last_run listing 10 (10 * i) l)) later
      ∙ rest
]

-- If the listing shows an index in progress at the end of each round before `n` and all ready at the
-- end of round `n`, the wait ends there, and the command has run ten times in each round.
pub wait_ready_finishes :
    (listing : ℕ → Listing) (n : ℕ) (l : Listing)
    → ((j : ℕ) → j < n → Shows listing j false)
    → Shows listing n true
    → wait_ready listing (n + 1) (10 * 0) l ≡ ok (some (10 * n + 10))
wait_ready_finishes listing n l pending done =
    wait_ready-from listing n (n + 1) 0 l pending done (omega arith) (omega arith)
