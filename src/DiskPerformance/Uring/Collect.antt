-- ===== src/DiskPerformance/Uring/Collect.antt =====
-- `collect_rows` of disk_performance/aio_vs_uring/aggregate.py. `os.listdir` is the argument `listing`.
pub mod Skipped
use benchhelpers.Prelude.{List, Option, String, [], none, path_join, some, ℕ, ◌∷◌}
use benchhelpers.Prelude.Order.{sort_on, nat_ord, text_ord, pair_ord}
use benchhelpers.DiskPerformance.Uring.{
  Json, Read, Attempt, parsed, run_failed, unparsed, after, or_unreadable, Row, parse_one_result,
}
use benchhelpers.DiskPerformance.Uring.Names.{Name, match_name}

abbrev pub run_index : Option ℕ → ℕ
run_index none = 1
run_index (some n) = n

-- The rows and the texts of the failed runs
abbrev pub Collected : Type 0
Collected = List Row × List String

abbrev pub with_attempt : Attempt Row → Attempt Collected → Attempt Collected
with_attempt (parsed row) rest = after rest (λ c. parsed (row ∷ c.0, c.1))
with_attempt (run_failed message) rest = after rest (λ c. parsed (c.0, message ∷ c.1))
with_attempt (unparsed message) rest = unparsed message

-- A row's engine, queue depth, workload and run, as a tuple
abbrev pub row_key : Row → String × (ℕ × (String × ℕ))
row_key row = (row.engine, (row.queue_depth, (row.workload, row.run)))

module _ (load : Json) (read : String → Read String) (results_dir : String) where
  abbrev pub attempt : String → Name → Attempt Row
  attempt file name =
      parse_one_result load read (path_join results_dir file) name.engine name.queue_depth
        name.workload (run_index name.run)

  -- Other files are left out.
  abbrev pub with_file : String → Option Name → Attempt Collected → Attempt Collected
  with_file file none rest = rest
  with_file file (some name) rest = with_attempt (attempt file name) rest

  unfoldable pub collect : List String → Attempt Collected
  collect [] = parsed ([], [])
  collect (file ∷ files) = with_file file (match_name file) (collect files)

  unfoldable pub collect_rows : Read (List String) → Attempt Collected
  collect_rows listing = after (or_unreadable listing) (λ files.
      after (collect (sort_on (λ file. file) files)) (λ c. parsed (sort_on row_key c.0, c.1)))
