-- ===== src/DiskPerformance/Uring/Names.antt =====
-- `RESULT_FILE_RE` of disk_performance/aio_vs_uring/aggregate.py, for names without a line break and
-- with ASCII digits. The parts between underscores decide what the name matches, since no group after
-- `engine` holds an underscore.
use benchhelpers.Prelude.{
  Bool, List, Option, String, [], chars, drop_chars, if◌then◌else◌, is_digit, join, none,
  read_number, some, split_at, str_eq, take_chars, ℕ, ◌&&◌, ◌-◌, ◌||◌, ◌∷◌,
}

pub record Name : Type 0 where
  pub engine : String
  pub queue_depth : ℕ
  pub workload : String
  pub run : Option ℕ

-- The number in a part that is a prefix and digits
abbrev pub numbered : String → String → Option ℕ
numbered prefix s =
    let rest = drop_chars (chars prefix) s in
    if str_eq (take_chars (chars prefix) s) prefix && is_digit rest
    then some (read_number rest)
    else none

abbrev pub is_workload : String → Bool
is_workload s = str_eq s "read" || str_eq s "write"

abbrev pub reverse_onto : List String → List String → List String
reverse_onto acc [] = acc
reverse_onto acc (s ∷ rest) = reverse_onto (s ∷ acc) rest

-- `.+` is not empty.
abbrev pub named : List String → Option ℕ → String → Option ℕ → Option Name
named engine none workload run = none
named engine (some queue_depth) workload run =
    let text = join "_" (reverse_onto [] engine) in
    if str_eq text ""
    then none
    else some (record { engine = text; queue_depth = queue_depth; workload = workload; run = run })

abbrev pub with_run : Option ℕ → List String → Option Name
with_run (some run) (w ∷ q ∷ engine) =
    if is_workload w then named engine (numbered "qd" q) w (some run) else none
with_run (some run) (w ∷ []) = none
with_run (some run) [] = none
with_run none parts = none

-- The parts, the last of them first
abbrev pub from_parts : List String → Option Name
from_parts [] = none
from_parts (last ∷ []) = none
from_parts (last ∷ part ∷ parts) =
    if is_workload last
    then named parts (numbered "qd" part) last none
    else with_run (numbered "run" last) (part ∷ parts)

abbrev pub without_suffix : String → String → Option String
without_suffix suffix s =
    let n = chars s - chars suffix in
    if str_eq (drop_chars n s) suffix then some (take_chars n s) else none

unfoldable pub match_name : String → Option Name
match_name s = elim (without_suffix ".json" s) [
  | none ↦ none
  | some stem ↦ from_parts (reverse_onto [] (split_at 95 stem))
]
