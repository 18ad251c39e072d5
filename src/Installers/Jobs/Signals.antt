-- ===== src/Installers/Jobs/Signals.antt =====
-- Which signals a job sends, and in which order.
use benchhelpers.Prelude.{
  Bool, Bool-cases, Option, Option-cases, [], ap, false, if◌then◌else◌, inl, inr, none, refl, some,
  sym, true, ℕ, ◌++◌, ◌+◌, ◌||◌, ◌∙◌, ◌∷◌, ◌≡◌, ◌⊎◌,
}
use benchhelpers.Prelude.Int.{ℤ, negsuc}
use benchhelpers.Installers.Jobs.{
  terminate, kill, Job, fresh, check_terminate_timeout, check_kill_timeout, after_kill, after_poll,
  round,
}

-- Where the sum of the limits is passed, so is the first.
abbrev pub Passes : (ℕ → ℕ → Bool) → Type 0
Passes over =
    (rounds timeout more : ℕ) → over rounds (timeout + more) ≡ true → over rounds timeout ≡ true

module _ (over : ℕ → ℕ → Bool) (timeout kill_timeout : ℕ) (polls : ℕ → Option ℤ) where
  -- A round that does not end the job.
  pub data Step : Job → Job → Type 0 where
    goes_on :
        (job : Job) {next : Job}
        → round over timeout kill_timeout polls job ≡ (next, none)
        → Step job next

  -- What a run reaches.
  pub data Reach : Job → Type 0 where
    begins : Reach fresh
    later : {job next : Job} → Reach job → Step job next → Reach next

  -- The job after so many rounds, with `terminate` sent or nothing.
  abbrev at : ℕ → Bool → Job
  at n sent = record {
    rounds = n;
    terminated = sent;
    signals = if sent then terminate ∷ [] else [];
  }

  check_terminate-at :
      (n : ℕ) (sent : Bool)
      → check_terminate_timeout over timeout kill_timeout (at n sent)
        ≡ at n (sent || over n timeout)
  unfolding check_terminate_timeout
  check_terminate-at n true = refl
  check_terminate-at n false = elim (Bool-cases (over n timeout)) [
    | inl late ↦ rw late refl
    | inr early ↦ rw early refl
  ]

  -- A job that goes on is one of these: it has sent `terminate` once, or nothing.
  abbrev pub Running : Job → Type 0
  Running job = (n : ℕ) × (sent : Bool) × (job ≡ at n sent)

  -- How a run ends: the process ended, and it was sent at most `terminate`; or it did not, it was sent
  -- `terminate` and `kill`, both limits are passed, and the code is -9.
  abbrev pub Ended : Job → ℤ → Type 0
  Ended job code =
      ((polls job.rounds ≡ some code) × ((job.signals ≡ []) ⊎ (job.signals ≡ terminate ∷ [])))
      ⊎ ((polls job.rounds ≡ none)
          × (code ≡ negsuc 8)
          × (job.signals ≡ terminate ∷ kill ∷ [])
          × (over job.rounds (timeout + kill_timeout) ≡ true))

  at-signals :
      (n : ℕ) (sent : Bool) → ((at n sent).signals ≡ []) ⊎ ((at n sent).signals ≡ terminate ∷ [])
  at-signals n true = inr refl
  at-signals n false = inl refl

  -- What a round makes of such a job.
  round-at :
      (n : ℕ) (sent : Bool) (poll : Option ℤ)
      → polls (n + 1) ≡ poll
      → round over timeout kill_timeout polls (at n sent)
        ≡ after_poll over timeout kill_timeout polls poll (at (n + 1) sent)
  unfolding round
  round-at n sent poll e = rw e refl

  silent-at :
      (n : ℕ) (sent : Bool)
      → after_poll over timeout kill_timeout polls none (at n sent)
        ≡ after_kill over timeout kill_timeout polls
            (check_kill_timeout over timeout kill_timeout (at n (sent || over n timeout)))
  silent-at n sent = rw (check_terminate-at n sent) refl

  kill-at :
      (n : ℕ) (sent killed : Bool)
      → over n (timeout + kill_timeout) ≡ killed
      → check_kill_timeout over timeout kill_timeout (at n sent) ≡ (
          if killed
          then (record (at n sent) { signals = (at n sent).signals ++ kill ∷ [] }, true)
          else (at n sent, false))
  unfolding check_kill_timeout
  kill-at n sent killed e = rw e refl

  -- The three ways a round goes.
  abbrev RoundCases : ℕ → Bool → Type 0
  RoundCases n sent =
      ((code : ℤ) × (polls (n + 1) ≡ some code)
        × (round over timeout kill_timeout polls (at n sent) ≡ (at (n + 1) sent, some code)))
      ⊎ ((round over timeout kill_timeout polls (at n sent)
            ≡ (at (n + 1) (sent || over (n + 1) timeout), none))
          ⊎ ((polls (n + 1) ≡ none)
              × (over (n + 1) (timeout + kill_timeout) ≡ true)
              × (round over timeout kill_timeout polls (at n sent) ≡ (
                record { rounds = n + 1; terminated = true; signals = terminate ∷ kill ∷ [] },
                some (negsuc 8),
              ))))

  or_true : (b : Bool) → (b || true) ≡ true
  or_true true = refl
  or_true false = refl

  round_cases : Passes over → (n : ℕ) (sent : Bool) → RoundCases n sent
  round_cases passes n sent = elim (Option-cases (polls (n + 1))) [
    | inr (code, e) ↦ inl (code, e, round-at n sent (some code) e)
    | inl e ↦
        let silent = round-at n sent none e ∙ silent-at (n + 1) sent in
        elim (Bool-cases (over (n + 1) (timeout + kill_timeout))) [
          | inl late ↦
              let past = passes (n + 1) timeout kill_timeout late in
              let killed = kill-at (n + 1) (sent || over (n + 1) timeout) true late in
              let was_sent : (sent || over (n + 1) timeout) ≡ true = rw past (or_true sent) in
              inr (
                inr (
                  e,
                  late,
                  silent
                      ∙ ap (after_kill over timeout kill_timeout polls) killed
                      ∙ ap
                          (λ b. (
                            record {
                              rounds = n + 1;
                              terminated = b;
                              signals = (if b then terminate ∷ [] else []) ++ kill ∷ [];
                            },
                            some (negsuc 8),
                          ))
                          was_sent,
                ))
          | inr early ↦ inr (
              inl (
                silent
                ∙ ap (after_kill over timeout kill_timeout polls)
                    (kill-at (n + 1) (sent || over (n + 1) timeout) false early)))
        ]
  ]

  round-Running :
      Passes over
      → (job : Job) {next : Job} → Running job
      → round over timeout kill_timeout polls job ≡ (next, none)
      → Running next
  round-Running passes job {next} (n, sent, same) e =
      let e' = sym (ap (round over timeout kill_timeout polls) same) ∙ e in
      elim (round_cases passes n sent) [
        | inl (code, polled, q) ↦ absurd (let c = ap (λ x. x.1) (sym q ∙ e') in cc)
        | inr (inl q) ↦ (n + 1, (sent || over (n + 1) timeout), sym (ap (λ x. x.0) (sym q ∙ e')))
        | inr (inr (quiet, late, q)) ↦ absurd (let c = ap (λ x. x.1) (sym q ∙ e') in cc)
      ]

  Ended-eq :
      (j k : Job) (c d : ℤ) → j ≡ k → ◌≡◌ {A = Option ℤ} (some c) (some d) → Ended j c → Ended k d
  Ended-eq j k c d p q h = let q' : c ≡ d = cc in rw (← p, ← q') h

  pub Reach-Running : Passes over → {job : Job} → Reach job → Running job
  Reach-Running passes begins = (0, false, refl)
  Reach-Running passes (later r (goes_on job e)) =
      round-Running passes job (Reach-Running passes r) e

  -- If passing the sum of the limits passes the first, a run ends in one of two ways, however the
  -- process behaves: the process ended and was sent `terminate` once or nothing, or it was sent
  -- `terminate` and then `kill`, past both limits, and the code is -9.
  pub Reach-Ended :
      Passes over
      → {job last : Job} {code : ℤ} → Reach job
      → round over timeout kill_timeout polls job ≡ (last, some code)
      → Ended last code
  Reach-Ended passes {job} {last} {code} r e =
      let (n, sent, same) = Reach-Running passes r in
      let e' = sym (ap (round over timeout kill_timeout polls) same) ∙ e in
      elim (round_cases passes n sent) [
        | inl (c, polled, q) ↦
            let both = sym q ∙ e' in
            Ended-eq (at (n + 1) sent) last c code (ap (λ x. x.0) both) (ap (λ x. x.1) both)
              (inl (polled, at-signals (n + 1) sent))
        | inr (inl q) ↦ absurd (let c = ap (λ x. x.1) (sym q ∙ e') in cc)
        | inr (inr (quiet, late, q)) ↦
            let both = sym q ∙ e' in
            Ended-eq _ last (negsuc 8) code (ap (λ x. x.0) both) (ap (λ x. x.1) both)
              (inr (quiet, refl, refl, late))
      ]
