-- ===== src/Tpcc/Transfer/Done.antt =====
-- What holds after an import and an export.
use benchhelpers.Prelude.{>>=-eq-ok, List, String, ap, join, ok, ok_injective, some, ℕ, ◌≡◌}
use benchhelpers.Tpcc.Operations.{Attempt}
use benchhelpers.Tpcc.Operations.Sound.{EndsAt, wait_sound}
use benchhelpers.Tpcc.Transfer.{
  Options, export_command, Reply, started, operation_id, start_and_wait, export_data,
}

-- The command started an operation, whose poll ended after `m` runs with the operation finished.
pub record IsDone (reply : String → Reply) (attempts : String → ℕ → Attempt) (command : List String)
    (m : ℕ) : Type 0 where
  pub id : String
  pub begun : reply (join " " command) ≡ started id
  pub polled : EndsAt (attempts id) 0 m

operation_id-started : (r : Reply) {id : String} → operation_id r ≡ ok id → r ≡ started id
operation_id-started Reply.command_failed h = cc
operation_id-started Reply.not_json h = cc
operation_id-started Reply.no_status h = cc
operation_id-started Reply.not_success h = cc
operation_id-started Reply.no_id h = cc
operation_id-started (started id) h = ap (λ i. started i) (ok_injective h)

start_and_wait-IsDone :
    (reply : String → Reply) (attempts : String → ℕ → Attempt) (fuel : ℕ) (command : List String)
    {m : ℕ}
    → start_and_wait reply attempts fuel command ≡ ok (some m)
    → IsDone reply attempts command m
unfolding start_and_wait
start_and_wait-IsDone reply attempts fuel command h =
    let (id, begun, after) = >>=-eq-ok (operation_id (reply (join " " command))) _ h in
    record {
      id = id;
      begun = operation_id-started _ begun;
      polled = wait_sound (attempts id) fuel after;
    }

-- If the export ends without an error, the operation that its command started was seen finished.
pub export_data-IsDone :
    (reply : String → Reply) (attempts : String → ℕ → Attempt) (fuel : ℕ) (o : Options) {m : ℕ}
    → export_data reply attempts fuel o ≡ ok (some m)
    → IsDone reply attempts (export_command o) m
unfolding export_data
export_data-IsDone reply attempts fuel o h =
    start_and_wait-IsDone reply attempts fuel (export_command o) h
