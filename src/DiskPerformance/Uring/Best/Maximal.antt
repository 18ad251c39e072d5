-- ===== src/DiskPerformance/Uring/Best/Maximal.antt =====
-- The row of an engine is its best.
use mathlib.Core.Path.{subst}
use mathlib.Core.List.{Mem}
use benchhelpers.Prelude.{
  All, All-Mem, All-map, All-of_map, Bool-cases, List, Option, String, [], ap, arith, eq_iff, inl,
  inr, length, min, none, refl, some, str_eq, sym, true, ◌∙◌, ◌∷◌, ◌≡◌,
}
use benchhelpers.Prelude.Dict.{
  Dict, lookup, insert, lookup-insert, present, IsDict, IsDict-nil, IsDict-insert, lookup-IsDict,
}
use benchhelpers.Prelude.Order.{
  pair_le, pair_le-IsTotal, nat_ord, text_ord, pair_ord, sort_on, IsOrdered, sort_on-IsOrdered,
  All-sort_on, count_if-sort_on, IsOrdered-map,
}
use benchhelpers.Prelude.Sorting.{count_if, count_if-map}
use benchhelpers.Prelude.Groups.{select, le_refl}
use benchhelpers.DiskPerformance.Uring.{Row}
use benchhelpers.DiskPerformance.Uring.Best.{
  rank, better, best_or, best_by_engine, MaxRow, max_row, build_max_iops_rows,
}

-- The rows of an engine
abbrev pub of_engine : String → List Row → List Row
of_engine e rows = select (λ r. str_eq r.engine e) rows

-- The best of some rows, and of one kept before
abbrev best_of : Option Row → List Row → Option Row
best_of best [] = best
best_of best (row ∷ rows) = best_of (some (best_or row best)) rows

lookup-best_by_engine :
    (e : String) (d : Dict Row) (rows : List Row)
    → lookup e (best_by_engine d rows) ≡ best_of (lookup e d) (of_engine e rows)
unfolding best_by_engine
lookup-best_by_engine e d [] = refl
lookup-best_by_engine e d (row ∷ rows) =
    let best = best_or row (lookup row.engine d) in
    lookup-best_by_engine e (insert row.engine best d) rows
    ∙ ap (λ o. best_of o (of_engine e rows)) (lookup-insert row.engine e best d)
    ∙ elim (Bool-cases (str_eq row.engine e)) [
      | inl same ↦ let p : row.engine ≡ e = (eq_iff row.engine e).0 same in rw (same, p) refl
      | inr other ↦ rw other refl
    ]

IsDict-best_by_engine : (d : Dict Row) (rows : List Row) → IsDict d → IsDict (best_by_engine d rows)
unfolding best_by_engine
IsDict-best_by_engine d [] h = h
IsDict-best_by_engine d (row ∷ rows) h =
    let best = best_or row (lookup row.engine d) in
    IsDict-best_by_engine (insert row.engine best d) rows (IsDict-insert row.engine best d h)

abbrev pub IsWorse : Row → Row → Type 0
IsWorse best row = pair_le (rank row) (rank best) ≡ true

better-IsWorse : (best row : Row) → IsWorse (better best row) best × IsWorse (better best row) row
better-IsWorse best row = elim (Bool-cases (pair_le (rank row) (rank best))) [
  | inl e ↦ rw e (le_refl (rank best), e)
  | inr e ↦ rw e (pair_le-IsTotal.le_total (rank row) (rank best) e, le_refl (rank row))
]

-- The best is among the rows, and no row is better.
best_of-some :
    (P : Row → Type 0) (best : Row) (rows : List Row)
    → P best
    → All P rows
    → (b : Row) × (best_of (some best) rows ≡ some b) × P b × All (IsWorse b) (best ∷ rows)
best_of-some P best [] h rest = (best, refl, h, (le_refl (rank best), tt))
best_of-some P best (row ∷ rows) h (next, rest) =
    let (b, e, p, (first, worse)) = best_of-some P (better best row) rows chosen rest in
    let (old, new) = better-IsWorse best row in
    let through : (r : Row) → IsWorse (better best row) r → IsWorse b r =
      λ r k. pair_le-IsTotal.le_trans (rank r) (rank (better best row)) (rank b) k first in
    (b, e, p, (through best old, (through row new, worse)))
  where
    chosen : P (better best row)
    chosen = elim (Bool-cases (pair_le (rank row) (rank best))) [
      | inl e ↦ rw e h
      | inr e ↦ rw e next
    ]

best_of-Mem :
    (group : List Row) (b : Row) → best_of none group ≡ some b → Mem b group × All (IsWorse b) group
best_of-Mem [] b e = cc
best_of-Mem (r ∷ rows) b e =
    let (first, rest) = All-Mem (r ∷ rows) in
    let (c, f, h, worse) = best_of-some (λ s. Mem s (r ∷ rows)) r rows first rest in
    let same : c ≡ b = cc in
    subst (λ x. Mem x (r ∷ rows) × All (IsWorse x) (r ∷ rows)) same (h, worse)

-- A row with the best of the rows of its engine
abbrev pub IsMaxOf : List Row → MaxRow → Type 0
IsMaxOf rows m =
    (b : Row) × Mem b (of_engine m.engine rows)
    × All (IsWorse b) (of_engine m.engine rows)
    × (m ≡ max_row (m.engine, b))

-- There is one row for each engine, in order, and it is made of the engine's row that comes first by
-- operations, then by queue depth, then by throughput.
pub build_max_iops_rows-IsMaxOf :
    (rows : List Row)
    → All (IsMaxOf rows) (build_max_iops_rows rows)
      × IsOrdered (λ m. m.engine) (build_max_iops_rows rows)
      × ((e : String)
          → count_if (λ m. str_eq m.engine e) (build_max_iops_rows rows)
            ≡ min 1 (length (of_engine e rows)))
unfolding build_max_iops_rows lookup
build_max_iops_rows-IsMaxOf rows =
    let d = best_by_engine [] rows in
    let is_dict = IsDict-best_by_engine [] rows (IsDict-nil Row) in
    let name : String × Row → String = λ entry. entry.0 in
    (
      All-of_map (IsMaxOf rows) max_row (sort_on name d) (
          All-sort_on name (λ entry. IsMaxOf rows (max_row entry)) d
            (All-map (λ entry e. entry_IsMaxOf entry.0 entry.1 e) d (lookup-IsDict d is_dict))),
      IsOrdered-map (λ m. m.engine) max_row (sort_on name d) (sort_on-IsOrdered name d),
      λ e.
          count_if-map (λ m. str_eq m.engine e) max_row (sort_on name d)
          ∙ count_if-sort_on name (λ entry. str_eq entry.0 e) d
          ∙ is_dict e
          ∙ ap present (lookup-best_by_engine e [] rows)
          ∙ once (of_engine e rows),
    )
  where
    entry_IsMaxOf :
        (e : String) (b : Row)
        → lookup e (best_by_engine [] rows) ≡ some b
        → IsMaxOf rows (max_row (e, b))
    entry_IsMaxOf e b found =
        let (h, worse) =
          best_of-Mem (of_engine e rows) b (sym (lookup-best_by_engine e [] rows) ∙ found) in
        (b, h, worse, refl)

    once : (group : List Row) → present (best_of none group) ≡ min 1 (length group)
    once [] = refl
    once (r ∷ group) =
        let (b, f, h, worse) =
          best_of-some (λ s. Unit) r group tt (All-map (λ s h. tt) group (All-Mem group)) in
        rw f (omega arith)
