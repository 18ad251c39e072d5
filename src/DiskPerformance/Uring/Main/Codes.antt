-- ===== src/DiskPerformance/Uring/Main/Codes.antt =====
-- How the command ends.
use benchhelpers.Prelude.{Bool, [], false, not, true, ◌||◌, ◌∷◌}
use benchhelpers.DiskPerformance.Uring.{Attempt, parsed, run_failed, unparsed}
use benchhelpers.DiskPerformance.Uring.Collect.{Collected}
use benchhelpers.DiskPerformance.Uring.Main.{Arguments}

-- Some file holds a run that did not fail, and none is out of order.
abbrev pub has_rows : Attempt Collected → Bool
has_rows (parsed ([], skipped)) = false
has_rows (parsed (row ∷ rows, skipped)) = true
has_rows (run_failed text) = false
has_rows (unparsed text) = false

abbrev pub can_plot : (has_matplotlib : Bool) → Arguments → Bool
can_plot has_matplotlib args = not args.plot || has_matplotlib
