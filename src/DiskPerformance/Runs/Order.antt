-- ===== src/DiskPerformance/Runs/Order.antt =====
-- The directories of the runs are taken in the order of their numbers.
use mathlib.Core.List.{Perm}
use mathlib.Core.List.Perm
use benchhelpers.Prelude.{List, String, [], map, path_join, read_number, refl, sym, ◌∷◌, ◌≡◌, ◌≢◌}
use benchhelpers.Prelude.Sorting.{sort_by, IsSorted, sort_by-IsSorted, sort_by-Perm}
use benchhelpers.DiskPerformance.Runs.{Entry, numeric_dir_names, or_itself, collect_run_dirs}

or_itself-map :
    (dir : String) (f : String → String) (xs : List String)
    → xs ≢ []
    → or_itself dir (map f xs) ≡ map f xs
or_itself-map dir f [] some_names = absurd (some_names refl)
or_itself-map dir f (x ∷ xs) some_names = refl

sort_by-not_nil : (xs : List String) → xs ≢ [] → sort_by read_number xs ≢ []
sort_by-not_nil xs some_names e =
    some_names (sym (Perm.nil-eq (rw (← e) (sort_by-Perm read_number xs))))

-- If a directory has runs, these are the directories of its numeric names, each once and in the order
-- of the numbers.
pub collect_run_dirs-numeric :
    (results_dir : String) (listing : List Entry)
    → numeric_dir_names listing ≢ []
    → (names : List String) × (collect_run_dirs results_dir listing
        ≡ map (path_join results_dir) names)
      × Perm names (numeric_dir_names listing)
      × IsSorted read_number names
unfolding collect_run_dirs
collect_run_dirs-numeric results_dir listing runs = (
  sort_by read_number (numeric_dir_names listing),
  or_itself-map results_dir (path_join results_dir)
      (sort_by read_number (numeric_dir_names listing))
      (sort_by-not_nil (numeric_dir_names listing) runs),
  sort_by-Perm read_number (numeric_dir_names listing),
  sort_by-IsSorted read_number (numeric_dir_names listing),
)
