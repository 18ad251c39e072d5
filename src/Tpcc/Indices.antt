-- ===== src/Tpcc/Indices.antt =====
-- `AsyncCreateIndices` and `WaitIndicesReady` of tpcc/ydb/tpcc_helper.py. What the service answers is
-- an argument: the fate of each request, and the outcome of each run of the listing command.
pub mod Ready
pub mod Progress
mod Tests
use benchhelpers.Prelude.{
  Bool, List, Option, Result, String, [], err, exit, false, if◌then◌else◌, key_error, none, not, ok,
  some, str_eq, suc, true, value_error, zero, ℕ, ◌&&◌, ◌+◌, ◌>>=◌, ◌||◌, ◌∷◌,
}

-- `indices`, in the order of the dictionary
abbrev pub indices : List (String × String)
indices =
    (
      "idx_customer_name",
      "ALTER TABLE `customer` ADD INDEX `idx_customer_name` GLOBAL ON (C_W_ID, C_D_ID, C_LAST, C_FIRST);",
    )
    ∷ (
      "idx_order",
      "ALTER TABLE `oorder` ADD INDEX `idx_order` GLOBAL ON (O_W_ID, O_D_ID, O_C_ID, O_ID);",
    )
    ∷ []

-- What a second of waiting for a request brings: its end, one of the two exceptions that only say
-- that it still runs, or another exception.
pub data Waited : Type 0 where
  ended deadline_exceed timeout_error failed : Waited

module _ (starts : String → Bool) (waited : String → Waited) where
  -- The requests that are started, until one cannot be.
  unfoldable pub start_indices : List (String × String) → Result (List String)
  start_indices [] = ok []
  start_indices ((index, sql) ∷ rest) =
      let later = start_indices rest in
      if starts sql then (later >>= λ names. ok (index ∷ names)) else err (exit 1)

  abbrev pub after_waiting : Waited → Result (Unit {0}) → Result (Unit {0})
  after_waiting failed rest = err (exit 1)
  after_waiting ended rest = rest
  after_waiting deadline_exceed rest = rest
  after_waiting timeout_error rest = rest

  unfoldable pub wait_started : List String → Result (Unit {0})
  wait_started [] = ok _
  wait_started (index ∷ rest) = after_waiting (waited index) (wait_started rest)

  -- `AsyncCreateIndices.run`
  unfoldable pub create_indices : Result (Unit {0})
  create_indices = start_indices indices >>= wait_started

-- An operation of the listing: the fields that are there.
pub record IndexOperation : Type 0 where
  pub state : Option String
  pub ready : Option Bool
  pub status : Option String

abbrev pub bad_states : List String
bad_states =
    "STATE_UNSPECIFIED" ∷ "STATE_CANCELLATION" ∷ "STATE_CANCELLED" ∷ "STATE_REJECTION"
    ∷ "STATE_REJECTED" ∷ []

abbrev pub in_progress_states : List String
in_progress_states =
    "STATE_UNSPECIFIED" ∷ "STATE_PREPARING" ∷ "STATE_TRANSFERING_DATA" ∷ "STATE_APPLYING" ∷ []

-- `state in states`
abbrev pub is_one_of : String → List String → Bool
is_one_of s [] = false
is_one_of s (t ∷ ts) = str_eq t s || is_one_of s ts

abbrev pub not_ready : Option Bool → Bool
not_ready none = false
not_ready (some ready) = not ready

abbrev pub not_success : Option String → Bool
not_success none = false
not_success (some status) = not (str_eq status "SUCCESS")

-- The body of the loop over the operations, before the next one is looked at.
abbrev pub check_operation : IndexOperation → String → Result Bool → Result Bool
check_operation op state rest =
    if is_one_of state bad_states
    then err (exit 1)
    else if is_one_of state in_progress_states
    then ok false
    else if not_ready op.ready
    then ok false
    else if str_eq state "STATE_DONE" && not_success op.status
    then err (exit 1)
    else rest

abbrev pub check_state : IndexOperation → Option String → Result Bool → Result Bool
check_state op none rest = err key_error
check_state op (some state) rest = check_operation op state rest

-- `for op in operations: … else: all_ready = True`
unfoldable pub all_ready : List IndexOperation → Result Bool
all_ready [] = ok true
all_ready (op ∷ ops) = check_state op op.state (all_ready ops)

-- A run of the listing command: it fails, or prints nothing, text that is not JSON, JSON without
-- operations, or operations.
pub data Listing : Type 0 where
  command_failed empty_output not_json no_operations : Listing
  operations : List IndexOperation → Listing

abbrev pub read_listing : Listing → Result Bool
read_listing command_failed = err (exit 1)
read_listing empty_output = err (exit 1)
read_listing not_json = err value_error
read_listing no_operations = err key_error
read_listing (operations ops) = all_ready ops

abbrev pub next_round : Bool → ℕ → Result (Option ℕ) → Result (Option ℕ)
next_round true k rest = ok (some k)
next_round false k rest = rest

module _ (listing : ℕ → Listing) where
  -- `for i in range(10): result = subprocess.run(…)`: the last of the runs from `k` on is kept.
  unfoldable pub last_run : ℕ → ℕ → Listing → Listing
  last_run zero k result = result
  last_run (suc n) k result = last_run n (k + 1) (listing k)

  -- `WaitIndicesReady.run`, on fuel: the number of runs of the command when the indices are ready, or
  -- `none`.
  unfoldable pub wait_ready : ℕ → ℕ → Listing → Result (Option ℕ)
  wait_ready zero k result = ok none
  wait_ready (suc fuel) k result =
      let last = last_run 10 k result in
      read_listing last >>= λ done. next_round done (k + 10) (wait_ready fuel (k + 10) last)
