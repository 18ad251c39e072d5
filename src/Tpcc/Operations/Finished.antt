-- ===== src/Tpcc/Operations/Finished.antt =====
-- When the polling ends.
use benchhelpers.Prelude.{
  Bool, Error, Result, ap, arith, err, exit, false, inl, inr, ok, other_exception, refl, some, suc,
  sym, true, zero, ℕ, ℕ_discrete, ◌+◌, ◌<◌, ◌∙◌, ◌≡◌, ◌≢◌, ◌≤◌, ◌⊎◌,
}
use benchhelpers.Tpcc.Operations.{
  Operation, Attempt, answered, refused, not_run, finished, again, verdict, tries, wait,
}

Attempt-cases :
    (a : Attempt) → ((op : Operation) × (a ≡ answered op)) ⊎ ((a ≡ refused) ⊎ (a ≡ not_run))
Attempt-cases (answered op) = inl (op, refl)
Attempt-cases refused = inr (inl refl)
Attempt-cases not_run = inr (inr refl)

answered_injective : {a b : Operation} → answered a ≡ answered b → a ≡ b
answered_injective e = cc

later :
    (attempts : ℕ → Attempt) (k j : ℕ) (op : Operation)
    → k ≤ j
    → attempts j ≡ answered op
    → ((attempts k ≡ refused) ⊎ (attempts k ≡ not_run))
    → k + 1 ≤ j
later attempts k j op low e silent = elim (ℕ_discrete k j) [
  | no differ ↦ omega (arith, differ)
  | yes same ↦ let e' : attempts k ≡ answered op = ap attempts same ∙ e in absurd (clash silent e')
]
  where
    clash : ((attempts k ≡ refused) ⊎ (attempts k ≡ not_run)) → attempts k ≡ answered op → ⊥
    clash (inl r) a = cc
    clash (inr r) a = cc

module _ (attempts : ℕ → Attempt) where
  -- The first answer within the tries, not after attempt `j`.
  abbrev Found : ℕ → ℕ → Result (Operation × ℕ) → Type 0
  Found k j r =
      (first : Operation) × (i : ℕ) × (r ≡ ok (first, i + 1))
      × (attempts i ≡ answered first)
      × (k ≤ i)
      × (i ≤ j)

  weaken : (k j : ℕ) (r : Result (Operation × ℕ)) → Found (k + 1) j r → Found k j r
  weaken k j r (first, i, made, e, low, high) = (first, i, made, e, omega arith, high)

  -- An answer within the tries left is found.
  tries-Found :
      (n k j : ℕ) (seen : Bool) (op : Operation)
      → k ≤ j
      → j < k + n
      → attempts j ≡ answered op
      → Found k j (tries attempts n k seen)
  unfolding tries
  tries-Found zero k j seen op low high e = absurd (omega arith)
  tries-Found (suc n) k j seen op low high e = elim (Attempt-cases (attempts k)) [
    | inl (first, here) ↦ rw here (first, k, refl, here, omega arith, low)
    | inr (inl r) ↦
        let up = later attempts k j op low e (inl r) in
        rw r (weaken k j _ (tries-Found n (k + 1) j true op up (omega arith) e))
    | inr (inr r) ↦
        let up = later attempts k j op low e (inr r) in
        rw r (weaken k j _ (tries-Found n (k + 1) j seen op up (omega arith) e))
  ]

  -- The service answers within any ten runs up to run `n`.
  abbrev pub Responsive : ℕ → Type 0
  Responsive n =
      (k : ℕ)
      → k ≤ n
      → (j : ℕ) × (op : Operation) × (k ≤ j) × (j ≤ n) × (j < k + 10) × (attempts j ≡ answered op)

  abbrev pub Unfinished : ℕ → Type 0
  Unfinished n = (k : ℕ) (op : Operation) → k < n → attempts k ≡ answered op → verdict op ≡ again

  wait-done :
      (fuel k n : ℕ) (seen : Bool) (last : Operation)
      → Responsive n
      → Unfinished n
      → attempts n ≡ answered last
      → verdict last ≡ finished
      → k ≤ n
      → n < k + fuel
      → wait attempts fuel k seen ≡ ok (some (n + 1))
  unfolding wait
  wait-done zero k n seen last responsive unfinished at_n done low high = absurd (omega arith)
  wait-done (suc fuel) k n seen last responsive unfinished at_n done low high =
      let (j, op, from, to, near, e) = responsive k low in
      let (first, i, made, here, above, below) = tries-Found 10 k j seen op from near e in
      elim (ℕ_discrete i n) [
        | yes same ↦
            let p : answered first ≡ answered last = sym here ∙ ap attempts same ∙ at_n in
            let q : first ≡ last = answered_injective p in
            let ended = ap verdict q ∙ done in rw (made, ended) (ap (λ m. ok (some (m + 1))) same)
        | no differ ↦
            let going = unfinished i first (omega (arith, differ)) here in
            rw (made, going)
              (wait-done fuel (i + 1) n true last responsive unfinished at_n done
                (omega (arith, differ)) (omega arith))
      ]

-- If the service answers at least once in any ten runs of the command, with an operation in
-- progress before run `n` and a finished one at run `n`, the polling ends after that run.
pub wait_finishes :
    (attempts : ℕ → Attempt) (n : ℕ) (last : Operation)
    → Responsive attempts n
    → Unfinished attempts n
    → attempts n ≡ answered last
    → verdict last ≡ finished
    → wait attempts (n + 1) 0 false ≡ ok (some (n + 1))
wait_finishes attempts n last responsive unfinished at_n done =
    wait-done attempts (n + 1) 0 n false last responsive unfinished at_n done (omega arith)
      (omega arith)

-- If the command has no answer ten times, the script ends with an error.
tries-silent :
    (attempts : ℕ → Attempt) (m k : ℕ) (seen : Bool)
    → ((i : ℕ) → (op : Operation) → attempts i ≢ answered op)
    → (e : Error) × (tries attempts m k seen ≡ err e)
unfolding tries
tries-silent attempts zero k true silent = (exit 1, refl)
tries-silent attempts zero k false silent = (other_exception, refl)
tries-silent attempts (suc m) k seen silent = elim (Attempt-cases (attempts k)) [
  | inl (op, here) ↦ absurd (silent k op here)
  | inr (inl r) ↦ rw r (tries-silent attempts m (k + 1) true silent)
  | inr (inr r) ↦ rw r (tries-silent attempts m (k + 1) seen silent)
]

-- If no run of the command is answered, the script ends with an error, whatever the fuel.
pub wait_fails :
    (attempts : ℕ → Attempt) (fuel : ℕ)
    → ((i : ℕ) → (op : Operation) → attempts i ≢ answered op)
    → (e : Error) × (wait attempts (suc fuel) 0 false ≡ err e)
unfolding wait
wait_fails attempts fuel silent =
    let (e, made) = tries-silent attempts 10 0 false silent in (e, rw made refl)
