-- ===== src/StressTool.antt =====
-- stress_tool/table.py: the run that a table shows, the rows of the runs, and the layout of a table.
-- A value that is no JSON object or list is `none`. The numbers of operations are exact, with `none`
-- for NaN; the text of a run's numbers is an argument.
pub mod Closest
pub mod Columns
mod Tests
use mathlib.Core.Option
use benchhelpers.Prelude.{
  Bool, List, Option, Result, String, [], chars, err, false, if◌then◌else◌, index_error, join,
  ljust, ltb, map, max, none, not, ok, rjust, show, some, str_eq, suc, true, zero, ℕ, ◌++◌, ◌+◌,
  ◌-◌, ◌/◌, ◌<>◌, ◌>>=◌, ◌>>◌, ◌∷◌,
}
use benchhelpers.Prelude.Sorting.{sort_by}

pub record Run : Type 0 where
  pub device : Option String
  pub iops : Option ℕ

-- An element of `InFlights`: `median` is that of its `IOPS`.
pub record Item : Type 0 where
  pub in_flight : Option ℕ
  pub median : Option (Option ℕ)
  pub runs : Option (List (Option Run))

-- `str(r.get("Device", ""))`
abbrev pub device_of : Run → String
device_of r = elim r.device [ none ↦ "" | some device ↦ device ]

abbrev pub distance : ℕ → ℕ → ℕ
distance a b = (a - b) + (b - a)

-- `abs(_parse_float(r.get("IOPS")) - target)`
abbrev pub difference : ℕ → Run → Option ℕ
difference target r = elim r.iops [ none ↦ none | some n ↦ some (distance n target) ]

-- `diff < best_diff`, which is false for NaN
abbrev pub less : Option ℕ → Option ℕ → Bool
less (some a) (some b) = ltb a b
less (some a) none = false
less none b = false

abbrev pub is_other_device : Option String → Run → Bool
is_other_device none r = false
is_other_device (some filter) r = not (str_eq (device_of r) filter)

-- `best_run` with its `best_diff`
abbrev pub Best : Type 0
Best = Option (Run × Option ℕ)

abbrev pub better : Option ℕ → Run → Best → Best
better diff r none = some (r, diff)
better diff r (some (best_run, best_diff)) =
    if less diff best_diff then some (r, diff) else some (best_run, best_diff)

-- The loop over the runs
unfoldable pub closest : Option String → ℕ → Best → List (Option Run) → Best
closest filter target best [] = best
closest filter target best (none ∷ runs) = closest filter target best runs
closest filter target best (some r ∷ runs) =
    let next = if is_other_device filter r then best else better (difference target r) r best in
    closest filter target next runs

abbrev pub run_of : Best → Option Run
run_of none = none
run_of (some (r, diff)) = some r

unfoldable pub select_median_iops_run : Item → Option String → Option Run
select_median_iops_run item filter = with_target item.median item.runs
  where
    with_target : Option (Option ℕ) → Option (List (Option Run)) → Option Run
    with_target (some (some target)) (some runs) = run_of (closest filter target none runs)
    with_target (some (some target)) none = none
    with_target (some none) runs = none
    with_target none runs = none

-- The number of rows of a run: with devices, those up to the first sum.
abbrev pub is_sum : Option Run → Bool
is_sum none = false
is_sum (some r) = str_eq (device_of r) "SUM"

unfoldable pub first_sum : List (Option Run) → Option ℕ
first_sum [] = none
first_sum (r ∷ runs) = let rest = first_sum runs in if is_sum r then some 0 else Option.map suc rest

unfoldable pub rows_per_run : Bool → List (Option Run) → ℕ
rows_per_run false runs = 1
rows_per_run true runs = elim (first_sum runs) [ none ↦ 1 | some i ↦ i + 1 ]

module _ (cells : Run → Result (List String)) where
  abbrev pub device_cell : Bool → Run → List String
  device_cell has_device r = if has_device then device_of r ∷ [] else []

  -- The rows of the runs from number `idx` on
  unfoldable pub run_rows :
      Bool → (in_flight per_run idx : ℕ) → List (Option Run) → Result (List (List String))
  run_rows has_device in_flight per_run idx [] = ok []
  run_rows has_device in_flight per_run idx (none ∷ runs) =
      run_rows has_device in_flight per_run (idx + 1) runs
  run_rows has_device in_flight per_run idx (some r ∷ runs) = do
    numbers ← cells r
    rows ← run_rows has_device in_flight per_run (idx + 1) runs
    ok ((show in_flight ∷ show (idx / per_run + 1) ∷ device_cell has_device r ++ numbers) ∷ rows)

  abbrev pub item_rows : Bool → Option (List (Option Run)) → ℕ → Result (List (List String))
  item_rows has_device none in_flight = ok []
  item_rows has_device (some runs) in_flight =
      run_rows has_device in_flight (rows_per_run has_device runs) 0 runs

  unfoldable pub each_item : Bool → List (ℕ × Item) → Result (List (List String))
  each_item has_device [] = ok []
  each_item has_device ((in_flight, item) ∷ items) = do
    first ← item_rows has_device item.runs in_flight
    rest ← each_item has_device items
    ok (first ++ rest)

  -- The objects with an `InFlight`
  unfoldable pub with_in_flight : List (Option Item) → List (ℕ × Item)
  with_in_flight [] = []
  with_in_flight (none ∷ items) = with_in_flight items
  with_in_flight (some item ∷ items) =
      let rest = with_in_flight items in
      elim item.in_flight [ none ↦ rest | some n ↦ (n, item) ∷ rest ]

  unfoldable pub extract_runs_table_rows :
      Bool → Option (List (Option Item)) → Result (List (List String))
  extract_runs_table_rows has_device none = ok []
  extract_runs_table_rows has_device (some items) =
      each_item has_device (sort_by (λ x. x.0) (with_in_flight items))

-- `_render_table`: the columns of the headers; a row with fewer cells raises an exception.
unfoldable pub widen : List ℕ → List String → Result (List ℕ)
widen [] row = ok []
widen (w ∷ ws) [] = err index_error
widen (w ∷ ws) (cell ∷ row) = widen ws row >>= λ rest. ok (max w (chars cell) ∷ rest)

unfoldable pub widths_of : List ℕ → List (List String) → Result (List ℕ)
widths_of ws [] = ok ws
widths_of ws (row ∷ rows) = widen ws row >>= λ wider. widths_of wider rows

abbrev pub pad_others : List ℕ → List String → List String
pad_others [] row = []
pad_others (w ∷ ws) [] = []
pad_others (w ∷ ws) (cell ∷ row) = rjust w cell ∷ pad_others ws row

-- The first column is flush left, the others right.
abbrev pub pad_cells : List ℕ → List String → List String
pad_cells [] row = []
pad_cells (w ∷ ws) [] = []
pad_cells (w ∷ ws) (cell ∷ row) = ljust w cell ∷ pad_others ws row

unfoldable pub fmt_row : List ℕ → List String → String
fmt_row ws row = join "  " (pad_cells ws row)

abbrev pub dashes : ℕ → String
dashes zero = ""
dashes (suc n) = "-" <> dashes n

-- The lines, which the code joins by line breaks
unfoldable pub render_table : List String → List (List String) → Result (List String)
render_table headers rows = do
  widths ← widths_of (map chars headers) rows
  ok (fmt_row widths headers ∷ join "  " (map dashes widths) ∷ map (fmt_row widths) rows)
