-- ===== src/Tpcc/Indices/Ready.antt =====
-- What the listing shows when the script says that the indices are ready.
use benchhelpers.Prelude.{
  >>=-eq-ok, All, Bool, Bool-cases, List, Option, Result, String, [], ap, arith, eq_iff, err, exit,
  false, if◌then◌else◌, inl, inr, none, not, ok, refl, some, str_eq, suc, true, zero, ℕ, ◌&&◌, ◌*◌,
  ◌+◌, ◌↔◌, ◌∙◌, ◌∷◌, ◌≡◌, ◌≢◌, ◌⊎◌,
}
use benchhelpers.Tpcc.Indices.{
  IndexOperation, bad_states, in_progress_states, is_one_of, not_ready, not_success, check_state,
  all_ready, Listing, operations, read_listing, last_run, next_round, wait_ready,
}

-- An operation that is over: it has a state that is neither bad nor in progress, it is not marked
-- as not ready, and where it is done it has no status but SUCCESS.
abbrev StateOver : IndexOperation → Option String → Type 0
StateOver op none = ⊥
StateOver op (some state) =
    (is_one_of state bad_states ≡ false)
    × (is_one_of state in_progress_states ≡ false)
    × ((str_eq state "STATE_DONE" && not_success op.status) ≡ false)

pub record IsOver (op : IndexOperation) : Type 0 where
  pub state : StateOver op op.state
  pub ready : not_ready op.ready ≡ false

-- Four guards in a row, of which none may hold.
guards_pass :
    (bad progress waiting wrong : Bool) (rest : Result Bool)
    → ((if bad
          then err (exit 1)
          else if progress
          then ok false
          else if waiting
          then ok false
          else if wrong
          then err (exit 1)
          else rest)
        ≡ ok true)
      ↔ (((bad ≡ false) × (progress ≡ false) × (wrong ≡ false))
          × (waiting ≡ false)
          × (rest ≡ ok true))
guards_pass true p w x rest = (λ h. cc, λ (all, w', r). let e = all.0 in cc)
guards_pass false true w x rest = (λ h. cc, λ (all, w', r). let e = all.1 in cc)
guards_pass false false true x rest = (λ h. cc, λ (all, w', r). cc)
guards_pass false false false true rest = (λ h. cc, λ (all, w', r). let e = all.2 in cc)
guards_pass false false false false rest = (λ h. ((refl, refl, refl), refl, h), λ (all, w', r). r)

check_state-true :
    (op : IndexOperation) (o : Option String) (rest : Result Bool)
    → (check_state op o rest ≡ ok true)
      ↔ (StateOver op o × (not_ready op.ready ≡ false) × (rest ≡ ok true))
check_state-true op none rest = (λ h. cc, λ (all, w, r). absurd all)
check_state-true op (some s) rest =
    guards_pass (is_one_of s bad_states) (is_one_of s in_progress_states) (not_ready op.ready)
      (str_eq s "STATE_DONE" && not_success op.status) rest

-- The loop finds all ready exactly if every operation is over.
pub all_ready_iff : (ops : List IndexOperation) → (all_ready ops ≡ ok true) ↔ All IsOver ops
unfolding all_ready
all_ready_iff [] = (λ h. _, λ h. refl)
all_ready_iff (op ∷ ops) =
    let (to, from) = check_state-true op op.state (all_ready ops) in
    let (ih, hi) = all_ready_iff ops in
    (
      λ h. let (state, ready, rest) = to h in (record { state = state; ready = ready }, ih rest),
      λ (over, others). from (over.state, over.ready, hi others),
    )

-- A listing of operations that are all over.
abbrev pub ListsOver : Listing → Type 0
ListsOver (operations ops) = All IsOver ops
ListsOver _ = ⊥

read_listing-true : (l : Listing) → read_listing l ≡ ok true → ListsOver l
read_listing-true Listing.command_failed h = cc
read_listing-true Listing.empty_output h = cc
read_listing-true Listing.not_json h = cc
read_listing-true Listing.no_operations h = cc
read_listing-true (operations ops) h = (all_ready_iff ops).0 h

-- The last of `n + 1` runs from `k` on.
pub last_run-last :
    (listing : ℕ → Listing) (n k : ℕ) (l : Listing) → last_run listing (suc n) k l ≡ listing (k + n)
unfolding last_run
last_run-last listing zero k l = ap listing (omega arith)
last_run-last listing (suc n) k l =
    last_run-last listing n (k + 1) (listing k) ∙ ap listing (omega arith)

next_round-some :
    (done : Bool) (k : ℕ) (rest : Result (Option ℕ)) {m : ℕ}
    → next_round done k rest ≡ ok (some m)
    → ((done ≡ true) × (m ≡ k)) ⊎ ((done ≡ false) × (rest ≡ ok (some m)))
next_round-some true k rest h = inl (refl, cc)
next_round-some false k rest h = inr (refl, h)

over_at : (listing : ℕ → Listing) (i j : ℕ) → i ≡ j → ListsOver (listing i) → ListsOver (listing j)
over_at listing i j e h = rw (← e) h

-- The states of an operation that is not over: bad ones, and those in progress
abbrev pub other_states : List String
other_states =
    "STATE_UNSPECIFIED" ∷ "STATE_CANCELLATION" ∷ "STATE_CANCELLED" ∷ "STATE_REJECTION"
    ∷ "STATE_REJECTED" ∷ "STATE_PREPARING" ∷ "STATE_TRANSFERING_DATA" ∷ "STATE_APPLYING" ∷ []

-- The operation has a state that is none of these, is not marked as not ready, and where its state is
-- `STATE_DONE` it has no status but `SUCCESS`.
abbrev pub IsElsewhere : IndexOperation → Type 0
IsElsewhere op =
    (state : String) × (op.state ≡ some state)
    × All (λ other. str_eq other state ≡ false) other_states
    × (op.ready ≢ some false)
    × (state ≡ "STATE_DONE" → (status : String) → op.status ≡ some status → status ≡ "SUCCESS")

abbrev pub AreElsewhere : Listing → Type 0
AreElsewhere (operations ops) = All IsElsewhere ops
AreElsewhere _ = ⊥

is_one_of-All :
    (s : String) (ts : List String) → is_one_of s ts ≡ false → All (λ t. str_eq t s ≡ false) ts
is_one_of-All s [] h = tt
is_one_of-All s (t ∷ ts) h = elim (Bool-cases (str_eq t s)) [
  | inl e ↦ absurd (let h' : true ≡ false = rw e at h in cc)
  | inr e ↦ (e, is_one_of-All s ts (rw e at h))
]

success_only :
    (op : IndexOperation) (state : String)
    → (str_eq state "STATE_DONE" && not_success op.status) ≡ false
    → state ≡ "STATE_DONE"
    → (status : String) → op.status ≡ some status
    → status ≡ "SUCCESS"
success_only op state h is_done status is_status =
    let same : str_eq state "STATE_DONE" ≡ true = (eq_iff state "STATE_DONE").1 is_done in
    let h' : not (str_eq status "SUCCESS") ≡ false = rw (same, is_status) at h in
    elim (Bool-cases (str_eq status "SUCCESS")) [
      | inl e ↦ (eq_iff status "SUCCESS").0 e
      | inr e ↦ absurd (let h'' : true ≡ false = rw e at h' in cc)
    ]

StateOver-IsElsewhere :
    (op : IndexOperation) (o : Option String)
    → op.state ≡ o
    → StateOver op o
    → not_ready op.ready ≡ false
    → IsElsewhere op
StateOver-IsElsewhere op none is_state over ready = absurd over
StateOver-IsElsewhere op (some state) is_state (good, over, success) ready =
    let (a, (b, (c, (d, (e, f))))) = is_one_of-All state bad_states good in
    let (g, (p, (q, (r, z)))) = is_one_of-All state in_progress_states over in
    (
      state,
      is_state,
      (a, (b, (c, (d, (e, (p, (q, (r, tt)))))))),
      λ waits. let h : true ≡ false = rw waits at ready in cc,
      success_only op state success,
    )

All-IsElsewhere : (ops : List IndexOperation) → All IsOver ops → All IsElsewhere ops
All-IsElsewhere [] h = tt
All-IsElsewhere (op ∷ ops) (over, rest) =
    (StateOver-IsElsewhere op op.state refl over.state over.ready, All-IsElsewhere ops rest)

ListsOver-AreElsewhere : (l : Listing) → ListsOver l → AreElsewhere l
ListsOver-AreElsewhere Listing.command_failed h = h
ListsOver-AreElsewhere Listing.empty_output h = h
ListsOver-AreElsewhere Listing.not_json h = h
ListsOver-AreElsewhere Listing.no_operations h = h
ListsOver-AreElsewhere (operations ops) h = All-IsElsewhere ops h

wait_ready-ListsOver :
    (listing : ℕ → Listing) (fuel k : ℕ) (l : Listing) {m : ℕ}
    → wait_ready listing fuel k l ≡ ok (some m)
    → (rounds : ℕ) × (m ≡ k + (10 * rounds + 10)) × ListsOver (listing (k + (10 * rounds + 9)))
unfolding wait_ready
wait_ready-ListsOver listing zero k l h = cc
wait_ready-ListsOver listing (suc fuel) k l h =
    let last = last_run-last listing 9 k l in
    let (done, read, next) = >>=-eq-ok (read_listing (last_run listing 10 k l)) _ h in
    elim (next_round-some done (k + 10) _ next) [
      | inl (yes_done, same) ↦
          let read' = rw (last, yes_done) at read in
          (
            0,
            omega arith,
            over_at listing (k + 9) _ (omega arith) (read_listing-true (listing (k + 9)) read'),
          )
      | inr (not_done, later) ↦
          let (rounds, count, over) = wait_ready-ListsOver listing fuel (k + 10) _ later in
          (
            rounds + 1,
            omega arith,
            over_at listing (k + 10 + (10 * rounds + 9)) _ (omega arith) over,
          )
    ]

-- If the script reports that the indices are ready, the command ran a positive multiple of ten times,
-- and of every operation in its last listing: its state is none of the eight of `other_states`, it is
-- not marked as not ready, and where its state is `STATE_DONE` it has no status but `SUCCESS`.
pub wait_ready-AreElsewhere :
    (listing : ℕ → Listing) (fuel k : ℕ) (l : Listing) {m : ℕ}
    → wait_ready listing fuel k l ≡ ok (some m)
    → (rounds : ℕ) × (m ≡ k + (10 * rounds + 10)) × AreElsewhere (listing (k + (10 * rounds + 9)))
wait_ready-AreElsewhere listing fuel k l h =
    let (rounds, count, over) = wait_ready-ListsOver listing fuel k l h in
    (rounds, count, ListsOver-AreElsewhere (listing (k + (10 * rounds + 9))) over)
