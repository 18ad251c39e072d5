-- ===== src/StressTool/Tests.antt =====
-- Three runs of two devices, and a small table.
use benchhelpers.Prelude.{
  All, List, Option, String, [], chars, join, ljust, none, ok, refl, rjust, some, spaces, true, ℕ,
  ◌∷◌, ◌≡◌,
}
use benchhelpers.StressTool.{
  Run, Item, select_median_iops_run, render_table, widths_of, widen, fmt_row, rows_per_run,
  first_sum,
}
use benchhelpers.StressTool.Closest.{
  considered, Stands, IsAway, select_median_iops_run-closest, select_median_iops_run-first,
}

abbrev run : String → Option ℕ → Run
run device iops = record { device = some device; iops = iops }

abbrev runs : List (Option Run)
runs =
    some (run "nvme0" (some 50))
    ∷ some (run "SUM" (some 90))
    ∷ none
    ∷ some (run "SUM" (some 120))
    ∷ []

abbrev item : Item
item = record { in_flight = some 8; median = some (some 100); runs = some runs }

select_median_iops_run-closest_example :
    (r : Run) × (e : ℕ) × (select_median_iops_run item (some "SUM") ≡ some r)
    × Stands 100 (considered (some "SUM") runs) r e
    × All (IsAway 100 e) (considered (some "SUM") runs)
select_median_iops_run-closest_example =
    select_median_iops_run-closest item (some "SUM") 100 runs refl refl (λ e. cc)
      ((90, refl), ((120, refl), tt))

two_rows : rows_per_run true runs ≡ 2
unfolding rows_per_run first_sum
two_rows = refl

-- A run without a number of operations comes first.
abbrev no_iops : Item
no_iops = record {
  in_flight = some 8;
  median = some (some 100);
  runs = some (some (run "SUM" none) ∷ some (run "SUM" (some 100)) ∷ []);
}

first_stays : select_median_iops_run no_iops none ≡ some (run "SUM" none)
first_stays =
    select_median_iops_run-first no_iops none 100 (run "SUM" none)
      (some (run "SUM" (some 100)) ∷ []) refl refl refl refl

table :
    render_table ("InFlight" ∷ "min" ∷ []) (("8" ∷ "104301" ∷ []) ∷ [])
    ≡ ok ("InFlight     min" ∷ "--------  ------" ∷ "8         104301" ∷ [])
unfolding render_table widths_of widen fmt_row chars ljust rjust spaces join
table = refl
