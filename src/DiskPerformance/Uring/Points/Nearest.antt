-- ===== src/DiskPerformance/Uring/Points/Nearest.antt =====
-- Each point has one row, that of a run nearest to the median.
use mathlib.Core.List.{Mem}
use mathlib.Core.Path.{subst}
use benchhelpers.Prelude.{
  All, All-Mem, All-map, Bool-cases, List, [], ap, inl, inr, length, map, min, ok, refl, some, sym,
  true, ℕ, ◌+◌, ◌∙◌, ◌∷◌, ◌≡◌,
}
use benchhelpers.Prelude.Order.{
  pair_le, pair_le-IsTotal, nat_ord, text_ord, pair_ord, sort_on, IsOrdered, sort_on-IsOrdered,
  All-sort_on, count_if-sort_on,
}
use benchhelpers.Prelude.Sorting.{count_if}
use benchhelpers.Prelude.Groups.{
  Groups, group_onto, select, same, same-eq, le_refl, IsGroup, IsGroup-group_onto,
  count_if-group_onto,
}
use benchhelpers.DiskPerformance.Uring.{Row}
use benchhelpers.DiskPerformance.Uring.Points.{
  Point, point_of, group_rows_by_point, doubled_median, nearness, nearer, nearest, MedianRow,
  median_row, median_rows, pick_median_run_rows,
}
use benchhelpers.DiskPerformance.Uring.Points.Middle.{doubled_median-added}

abbrev pub IsNearer : ℕ → Row → Row → Type 0
IsNearer m r s = pair_le (nearness m r) (nearness m s) ≡ true

nearer-IsNearer :
    (m : ℕ) (best row : Row)
    → IsNearer m (nearer m best row) best × IsNearer m (nearer m best row) row
nearer-IsNearer m best row = elim (Bool-cases (pair_le (nearness m best) (nearness m row))) [
  | inl e ↦ rw e (le_refl (nearness m best), e)
  | inr e ↦
      rw e (pair_le-IsTotal.le_total (nearness m best) (nearness m row) e, le_refl (nearness m row))
]

nearest-IsNearer :
    (m : ℕ) (best : Row) (rows : List Row) → All (IsNearer m (nearest m best rows)) (best ∷ rows)
nearest-IsNearer m best [] = (le_refl (nearness m best), tt)
nearest-IsNearer m best (row ∷ rows) =
    let (first, rest) = nearest-IsNearer m (nearer m best row) rows in
    let (old, new) = nearer-IsNearer m best row in
    let through : (r : Row)
        → IsNearer m (nearer m best row) r
        → IsNearer m (nearest m (nearer m best row) rows) r =
      λ r h.
        pair_le-IsTotal.le_trans (nearness m (nearest m (nearer m best row) rows))
          (nearness m (nearer m best row)) (nearness m r) first h in
    (through best old, (through row new, rest))

nearest-All :
    (P : Row → Type 0) (m : ℕ) (best : Row) (rows : List Row)
    → P best
    → All P rows
    → P (nearest m best rows)
nearest-All P m best [] h rest = h
nearest-All P m best (row ∷ rows) h (next, rest) =
    elim (Bool-cases (pair_le (nearness m best) (nearness m row))) [
      | inl e ↦ rw e (nearest-All P m best rows h rest)
      | inr e ↦ rw e (nearest-All P m row rows next rest)
    ]

-- The run that a row says is the median: the rows of its point are as many as it says, and it is the
-- first of those nearest to their median.
pub record IsMedian (group : List Row) (m : MedianRow) : Type 0 where
  pub twice_median : ℕ
  pub is_median : doubled_median (map (λ r. r.speed_bps) group) ≡ some twice_median
  pub is_run : Mem m.row group
  pub nearer : All (IsNearer twice_median m.row) group
  pub is_its_run : m.median_run ≡ m.row.run
  pub is_their_number : m.runs_in_group ≡ length group

-- Whatever the rows of a group have in common, the chosen one has.
median_row-IsMedian :
    (P : Row → Type 0) (row : Row) (rows : List Row)
    → All P (row ∷ rows)
    → (m : MedianRow) × (median_row (row ∷ rows) ≡ ok m) × IsMedian (row ∷ rows) m × P m.row
median_row-IsMedian P row rows (has, have) =
    let speeds = map (λ r. r.speed_bps) rows in
    let (a, b, e, p, q) =
      doubled_median-added (λ n. Unit) row.speed_bps speeds
        (All-map (λ n h. tt) (row.speed_bps ∷ speeds) (All-Mem (row.speed_bps ∷ speeds))) in
    let (first, rest) = All-Mem (row ∷ rows) in
    (
      record {
        row = nearest (a + b) row rows;
        median_run = (nearest (a + b) row rows).run;
        runs_in_group = length (row ∷ rows);
      },
      rw e refl,
      record {
        twice_median = a + b;
        is_median = e;
        is_run = nearest-All (λ r. Mem r (row ∷ rows)) (a + b) row rows first rest;
        nearer = nearest-IsNearer (a + b) row rows;
        is_its_run = refl;
        is_their_number = refl;
      },
      nearest-All P (a + b) row rows has have,
    )

-- The rows of a point
abbrev pub at_point : Point → List Row → List Row
at_point p rows = select (λ r. same (point_of r) p) rows

at_point-All : (p : Point) (rows : List Row) → All (λ r. point_of r ≡ p) (at_point p rows)
at_point-All p [] = tt
at_point-All p (r ∷ rows) = elim (Bool-cases (same (point_of r) p)) [
  | inl e ↦ rw e (same-eq (point_of r) p e, at_point-All p rows)
  | inr e ↦ rw e (at_point-All p rows)
]

abbrev pub IsMedianOf : List Row → MedianRow → Type 0
IsMedianOf rows m = IsMedian (at_point (point_of m.row) rows) m

group-IsMedianOf :
    (rows : List Row) (g : Point × List Row)
    → IsGroup point_of rows g
    → (m : MedianRow) × (median_row g.1 ≡ ok m) × IsMedianOf rows m × (point_of m.row ≡ g.0)
group-IsMedianOf rows (p, []) (e, full) = absurd (full refl)
group-IsMedianOf rows (p, r ∷ rs) (e, full) =
    let each : All (λ r. point_of r ≡ p) (r ∷ rs) =
      subst (λ g. All (λ r. point_of r ≡ p) g) (sym e) (at_point-All p rows) in
    let (m, f, h, at) = median_row-IsMedian (λ r. point_of r ≡ p) r rs each in
    (m, f, subst (λ q. IsMedian (at_point q rows) m) (sym at) (subst (λ g. IsMedian g m) e h), at)

median_rows-IsMedianOf :
    (rows : List Row) (groups : Groups Point Row)
    → All (IsGroup point_of rows) groups
    → (ms : List MedianRow) × (median_rows groups ≡ ok ms)
      × All (IsMedianOf rows) ms
      × ((p : Point)
          → count_if (λ m. same (point_of m.row) p) ms ≡ count_if (λ g. same g.0 p) groups)
median_rows-IsMedianOf rows [] h = ([], refl, tt, λ p. refl)
median_rows-IsMedianOf rows (g ∷ groups) (first, rest) =
    let (m, e, h, at) = group-IsMedianOf rows g first in
    let (ms, f, hs, counts) = median_rows-IsMedianOf rows groups rest in
    (
      m ∷ ms,
      rw (e, f) refl,
      (h, hs),
      λ p.
          let more = counts p in
          let head : same (point_of m.row) p ≡ same g.0 p = ap (λ q. same q p) at in
          rw (head, more) refl,
    )

-- There is always a row for each point of the rows, and only one, which holds a run of the point
-- nearest to the median throughput, the earliest run of those as near, and the number of the runs.
-- The rows are in the order of engine, queue depth and workload.
pub pick_median_run_rows-IsMedianOf :
    (rows : List Row)
    → (ms : List MedianRow) × (pick_median_run_rows rows ≡ ok ms)
      × All (IsMedianOf rows) ms
      × IsOrdered (λ m. point_of m.row) ms
      × ((p : Point)
          → count_if (λ m. same (point_of m.row) p) ms ≡ min 1 (length (at_point p rows)))
unfolding pick_median_run_rows group_rows_by_point
pick_median_run_rows-IsMedianOf rows =
    let (ms, e, each, counts) =
      median_rows-IsMedianOf rows (group_onto point_of [] rows)
        (IsGroup-group_onto point_of rows) in
    let key : MedianRow → Point = λ m. point_of m.row in
    (
      sort_on key ms,
      rw e refl,
      All-sort_on key (IsMedianOf rows) ms each,
      sort_on-IsOrdered key ms,
      λ p.
          count_if-sort_on key (λ m. same (point_of m.row) p) ms
          ∙ counts p
          ∙ count_if-group_onto point_of p rows,
    )
