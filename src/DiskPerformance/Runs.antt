-- ===== src/DiskPerformance/Runs.antt =====
-- `collect_run_dirs` and `collect_result_samples` of disk_performance/aggregate.py. The listing of the
-- directory and what a path reads as, if it exists, are arguments. Of the digits of `isdigit`, which
-- are those of Unicode, the model has those of ASCII.
pub mod Order
use mathlib.Core.Option
use benchhelpers.Prelude.{
  Bool, List, Option, Result, String, [], if◌then◌else◌, is_digit, map, none, ok, path_join,
  read_number, some, ◌&&◌, ◌>>=◌, ◌>>◌, ◌∷◌,
}
use benchhelpers.Prelude.Sorting.{sort_by}
use benchhelpers.DiskPerformance.{Fio, Sample, parse_result}

-- A name of `os.listdir`, and whether it is a directory
abbrev pub Entry : Type 0
Entry = String × Bool

unfoldable pub numeric_dir_names : List Entry → List String
numeric_dir_names [] = []
numeric_dir_names ((name, is_dir) ∷ listing) =
    let rest = numeric_dir_names listing in if is_dir && is_digit name then name ∷ rest else rest

abbrev pub or_itself : String → List String → List String
or_itself results_dir [] = results_dir ∷ []
or_itself results_dir (dir ∷ dirs) = dir ∷ dirs

unfoldable pub collect_run_dirs : String → List Entry → List String
collect_run_dirs results_dir listing =
    or_itself results_dir
      (map (path_join results_dir) (sort_by read_number (numeric_dir_names listing)))

module _ (load : String → Option Fio) (read : String → Option String) where
  abbrev pub parse_at : String → String → Result (Option Sample)
  parse_at path test_type = elim (read path) [
    | none ↦ ok none
    | some raw ↦ parse_result load raw test_type >>= λ sample. ok (some sample)
  ]

  abbrev pub with_sample : Option Sample → List Sample → List Sample
  with_sample none samples = samples
  with_sample (some sample) samples = sample ∷ samples

  unfoldable pub collect_result_samples : List String → String → String → Result (List Sample)
  collect_result_samples [] filename test_type = ok []
  collect_result_samples (run_dir ∷ run_dirs) filename test_type = do
    parsed ← parse_at (path_join run_dir filename) test_type
    samples ← collect_result_samples run_dirs filename test_type
    ok (with_sample parsed samples)
