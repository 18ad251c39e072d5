-- ===== src/Tpcc/Operations/Sound.antt =====
-- What a finished poll has seen.
use benchhelpers.Prelude.{
  >>=-eq-ok, Bool, Option, Result, ap, arith, dec_lt, false, inl, inr, ok, refl, some, suc, sym,
  true, zero, ℕ, ℕ_discrete, ◌+◌, ◌<◌, ◌∙◌, ◌≡◌, ◌≢◌, ◌≤◌, ◌⊎◌,
}
use benchhelpers.Tpcc.Operations.{
  Operation, Attempt, answered, refused, not_run, Verdict, finished, cancelled, malformed, again,
  verdict, try_once, tries, act, wait,
}

module _ (attempts : ℕ → Attempt) where
  -- No answer from attempt `k` up to attempt `i`.
  abbrev Silent : ℕ → ℕ → Type 0
  Silent k i = (j : ℕ) (op : Operation) → k ≤ j → j < i → attempts j ≢ answered op

  record IsFirst (k : ℕ) (op : Operation) (next : ℕ) : Type 0 where
    at : ℕ
    here : attempts at ≡ answered op
    counted : next ≡ at + 1
    from : k ≤ at
    silent : Silent k at

  Silent-one : (k : ℕ) → Silent k k
  Silent-one k j op low high = absurd (omega arith)

  Silent-before :
      (k i : ℕ) → ((op : Operation) → attempts k ≢ answered op) → Silent (k + 1) i → Silent k i
  Silent-before k i quiet later j op low high e = elim (ℕ_discrete k j) [
    | yes same ↦ quiet op (ap attempts same ∙ e)
    | no differ ↦ later j op (omega (arith, differ)) high e
  ]

  IsFirst-before :
      (k next : ℕ) (op : Operation)
      → ((op' : Operation) → attempts k ≢ answered op')
      → IsFirst (k + 1) op next
      → IsFirst k op next
  IsFirst-before k next op quiet f = record {
    at = f.at;
    here = f.here;
    counted = f.counted;
    from = omega (arith, f.from);
    silent = Silent-before k f.at quiet f.silent;
  }

  -- A successful round of tries stops at the first answer.
  tries-IsFirst :
      (n k : ℕ) (seen : Bool) {op : Operation} {next : ℕ}
      → tries attempts n k seen ≡ ok (op, next)
      → IsFirst k op next
  unfolding tries
  tries-IsFirst zero k true h = cc
  tries-IsFirst zero k false h = cc
  tries-IsFirst (suc n) k seen {op} {next} h =
      once (attempts k) refl (λ h. tries-IsFirst n (k + 1) true h)
        (λ h. tries-IsFirst n (k + 1) seen h) h
    where
      once :
          (a : Attempt)
          → attempts k ≡ a
          → (tries attempts n (k + 1) true ≡ ok (op, next) → IsFirst (k + 1) op next)
          → (tries attempts n (k + 1) seen ≡ ok (op, next) → IsFirst (k + 1) op next)
          → try_once a k (tries attempts n (k + 1) true) (tries attempts n (k + 1) seen)
            ≡ ok (op, next)
          → IsFirst k op next
      once (answered found) e ih ih' h' = record {
        at = k;
        here = (let p : found ≡ op = cc in e ∙ ap (λ o. answered o) p);
        counted = cc;
        from = omega arith;
        silent = Silent-one k;
      }
      once refused e ih ih' h' = IsFirst-before k next op (λ o q. cc) (ih h')
      once not_run e ih ih' h' = IsFirst-before k next op (λ o q. cc) (ih' h')

  -- The answers from attempt `k` up to attempt `i` show an operation that goes on.
  abbrev pub GoesOn : ℕ → ℕ → Type 0
  GoesOn k i =
      (j : ℕ) (op : Operation) → k ≤ j → j < i → attempts j ≡ answered op → verdict op ≡ again

  -- Attempt `at`, before the count `m`, is the first that shows the operation other than going on: it
  -- shows it finished.
  pub record EndsAt (k m : ℕ) : Type 0 where
    pub at : ℕ
    pub last : Operation
    pub counted : m ≡ at + 1
    pub from : k ≤ at
    pub here : attempts at ≡ answered last
    pub over : verdict last ≡ finished
    pub before : GoesOn k at

  GoesOn-after :
      (k i next at : ℕ) (op : Operation)
      → Silent k i
      → attempts i ≡ answered op
      → verdict op ≡ again
      → next ≡ i + 1
      → GoesOn next at
      → GoesOn k at
  GoesOn-after k i next at op silent here goes counted later j o low high e = elim (dec_lt j i) [
    | yes early ↦ absurd (silent j o low early e)
    | no late ↦ elim (ℕ_discrete j i) [
      | yes same ↦
          let p : answered op ≡ answered o = sym here ∙ ap attempts (sym same) ∙ e in
          let q : op ≡ o = cc in ap verdict (sym q) ∙ goes
      | no differ ↦ later j o (omega (arith, late, differ, counted)) high e
    ]
  ]

  act-some :
      (v : Verdict) (next : ℕ) (rest : Result (Option ℕ)) {m : ℕ}
      → act v next rest ≡ ok (some m)
      → ((v ≡ finished) × (m ≡ next)) ⊎ ((v ≡ again) × (rest ≡ ok (some m)))
  act-some finished next rest h = inl (refl, cc)
  act-some cancelled next rest h = cc
  act-some malformed next rest h = cc
  act-some again next rest h = inr (refl, h)

  wait-EndsAt :
      (fuel k : ℕ) (seen : Bool) {m : ℕ} → wait attempts fuel k seen ≡ ok (some m) → EndsAt k m
  unfolding wait
  wait-EndsAt zero k seen h = cc
  wait-EndsAt (suc fuel) k seen h =
      let ((op, next), tried, after) = >>=-eq-ok (tries attempts 10 k seen) _ h in
      let first = tries-IsFirst 10 k seen tried in
      elim (act-some (verdict op) next _ after) [
        | inl (over, count) ↦ record {
          at = first.at;
          last = op;
          counted = count ∙ first.counted;
          from = first.from;
          here = first.here;
          over = over;
          before = λ j o low high e. absurd (first.silent j o low high e);
        }
        | inr (goes, later) ↦
            let rest = wait-EndsAt fuel next true later in
            record {
              at = rest.at;
              last = rest.last;
              counted = rest.counted;
              from = omega (arith, first.from, first.counted, rest.from);
              here = rest.here;
              over = rest.over;
              before =
                  GoesOn-after k first.at next rest.at op first.silent first.here goes first.counted
                    rest.before;
            }
      ]

-- If the poll ends without an error, its last run showed the operation done and ready, and each
-- answer before showed it in progress, never cancelled.
pub wait_sound :
    (attempts : ℕ → Attempt) (fuel : ℕ) {m : ℕ}
    → wait attempts fuel 0 false ≡ ok (some m)
    → EndsAt attempts 0 m
wait_sound attempts fuel h = wait-EndsAt attempts fuel 0 false h
