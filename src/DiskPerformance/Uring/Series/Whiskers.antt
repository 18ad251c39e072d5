-- ===== src/DiskPerformance/Uring/Series/Whiskers.antt =====
-- The whiskers of a plot reach from a median to the least and the greatest value, and are never
-- negative, which matplotlib would refuse.
use benchhelpers.Prelude.{
  All, All-map, All-of_map, Bool-cases, List, Option, String, [], arith, false, if◌then◌else◌, inl,
  inr, leb, ltb, map, none, refl, some, ℕ, ◌*◌, ◌++◌, ◌∷◌, ◌≡◌, ◌≤◌,
}
use benchhelpers.Prelude.Int.{ℤ, pos, negsuc, sub_ℕ}
use benchhelpers.Prelude.Order.{nat_ord, text_ord, pair_ord, sort_on, All-sort_on}
use benchhelpers.Prelude.Sorting.{sort_by, All-sort_by}
use benchhelpers.Prelude.Groups.{Groups, append_at, same}
use benchhelpers.DiskPerformance.Stats.{minimum, maximum}
use benchhelpers.DiskPerformance.Uring.{Row}
use benchhelpers.DiskPerformance.Uring.Points.{Point, group_rows_by_point}
use benchhelpers.DiskPerformance.Uring.Points.Middle.{doubled_median-added}
use benchhelpers.DiskPerformance.Uring.Series.{
  SeriesPoint, series_point, series_key, is_deeper, Series, add_point, series_onto,
  build_metric_series, ErrorBar, error_bar, drawn_series, error_bars,
}

abbrev pub IsNatural : ℤ → Type 0
IsNatural (pos n) = Unit
IsNatural (negsuc n) = ⊥

abbrev pub IsBetween : SeriesPoint → Type 0
IsBetween p = (2 * p.lowest ≤ p.twice_median) × (p.twice_median ≤ 2 * p.highest)

minimum_le : (n : ℕ) (ns : List ℕ) → All (λ v. minimum n ns ≤ v) (n ∷ ns)
minimum_le n [] = (omega arith, tt)
minimum_le n (m ∷ ms) =
    let (first, rest) = minimum_le (if ltb m n then m else n) ms in
    (ground arith, (ground arith, rest))

le_maximum : (n : ℕ) (ns : List ℕ) → All (λ v. v ≤ maximum n ns) (n ∷ ns)
le_maximum n [] = (omega arith, tt)
le_maximum n (m ∷ ms) =
    let (first, rest) = le_maximum (if ltb n m then m else n) ms in
    (ground arith, (ground arith, rest))

-- A point that holds, or none
abbrev OrNone : (SeriesPoint → Type 0) → Option SeriesPoint → Type 0
OrNone P none = Unit
OrNone P (some p) = P p

series_point-IsBetween :
    (queue_depth : ℕ) (values : List ℕ)
    → OrNone (λ p. IsBetween p × (p.queue_depth ≡ queue_depth)) (series_point queue_depth values)
unfolding series_point
series_point-IsBetween queue_depth [] = tt
series_point-IsBetween queue_depth (v ∷ vs) =
    let (a, b, e, p, q) =
      doubled_median-added (λ n. (minimum v vs ≤ n) × (n ≤ maximum v vs)) v vs
        (both (v ∷ vs) (minimum_le v vs) (le_maximum v vs)) in
    rw e ((omega (arith, p.0, q.0), omega (arith, p.1, q.1)), refl)
  where
    both :
        (ns : List ℕ)
        → All (λ n. minimum v vs ≤ n) ns
        → All (λ n. n ≤ maximum v vs) ns
        → All (λ n. (minimum v vs ≤ n) × (n ≤ maximum v vs)) ns
    both [] h k = tt
    both (n ∷ ns) (lo, los) (hi, his) = ((lo, hi), both ns los his)

module _ (P : SeriesPoint → Type 0) where
  abbrev AllPoints : Series → Type 0
  AllPoints d = All (λ g. All P g.1) d

  append_at-AllPoints :
      (key : String) (p : SeriesPoint) (d : Series)
      → P p
      → AllPoints d
      → AllPoints (append_at key p d)
  append_at-AllPoints key p [] h k = ((h, tt), tt)
  append_at-AllPoints key p ((j, ps) ∷ d) h (first, rest) = elim (Bool-cases (same j key)) [
    | inl e ↦ rw e (last ps first, rest)
    | inr e ↦ rw e (first, append_at-AllPoints key p d h rest)
  ]
    where
      last : (qs : List SeriesPoint) → All P qs → All P (qs ++ p ∷ [])
      last [] k = (h, tt)
      last (q ∷ qs) (k, ks) = (k, last qs ks)

  add_point-AllPoints :
      (key : String) (p : Option SeriesPoint) (d : Series)
      → OrNone P p
      → AllPoints d
      → AllPoints (add_point key p d)
  add_point-AllPoints key none d h k = k
  add_point-AllPoints key (some p) d h k = append_at-AllPoints key p d h k

  drawn_series-AllPoints : (d : Series) → AllPoints d → AllPoints (drawn_series d)
  drawn_series-AllPoints [] h = tt
  drawn_series-AllPoints ((name, []) ∷ d) (first, rest) = drawn_series-AllPoints d rest
  drawn_series-AllPoints ((name, p ∷ ps) ∷ d) (first, rest) = (first, drawn_series-AllPoints d rest)

module _ (value : Row → ℕ) (max_queue_depth : Option ℕ) where
  -- A point between its least and greatest value, and no deeper than the limit
  abbrev pub IsShown : SeriesPoint → Type 0
  IsShown p = IsBetween p × (is_deeper max_queue_depth p.queue_depth ≡ false)

  shown :
      (queue_depth : ℕ) (p : Option SeriesPoint)
      → is_deeper max_queue_depth queue_depth ≡ false
      → OrNone (λ p. IsBetween p × (p.queue_depth ≡ queue_depth)) p
      → OrNone IsShown p
  shown queue_depth none e h = tt
  shown queue_depth (some p) e (h, same_depth) = (h, rw same_depth e)

  series_onto-AllPoints :
      (d : Series) (groups : Groups Point Row)
      → AllPoints IsShown d
      → AllPoints IsShown (series_onto value max_queue_depth d groups)
  series_onto-AllPoints d [] h = h
  series_onto-AllPoints d ((p, rows) ∷ groups) h =
      elim (Bool-cases (is_deeper max_queue_depth p.1.0)) [
        | inl e ↦ rw e (series_onto-AllPoints d groups h)
        | inr e ↦
            let point = series_point p.1.0 (map value rows) in
            rw e (
              series_onto-AllPoints (add_point (series_key p) point d) groups (
                add_point-AllPoints IsShown (series_key p) point d
                  (shown p.1.0 point e (series_point-IsBetween p.1.0 (map value rows))) h))
      ]

  build_metric_series-AllPoints :
      (rows : List Row) → AllPoints IsShown (build_metric_series value max_queue_depth rows)
  unfolding build_metric_series
  build_metric_series-AllPoints rows =
      let d = series_onto value max_queue_depth [] (group_rows_by_point rows) in
      All-of_map (λ g. All IsShown g.1) (λ g. (g.0, sort_by (λ r. r.queue_depth) g.1)) d
        (All-map (λ g h. All-sort_by (λ r. r.queue_depth) IsShown g.1 h) d
          (series_onto-AllPoints [] (group_rows_by_point rows) tt))

  abbrev pub IsDrawable : ErrorBar → Type 0
  IsDrawable bar =
      All IsNatural bar.lower
      × All IsNatural bar.upper
      × All (λ x. is_deeper max_queue_depth x ≡ false) bar.x_vals

  natural : (a b : ℕ) → b ≤ a → IsNatural (sub_ℕ a b)
  natural a b h = elim (Bool-cases (leb b a)) [ inl e ↦ rw e tt | inr e ↦ absurd (ground arith) ]

  error_bar-IsDrawable :
      (name : String) (points : List SeriesPoint)
      → All IsShown points
      → IsDrawable (error_bar (name, points))
  error_bar-IsDrawable name points h = (
    All-of_map IsNatural (λ r. sub_ℕ r.twice_median (2 * r.lowest)) points
        (All-map (λ p k. natural p.twice_median (2 * p.lowest) k.0.0) points h),
    All-of_map IsNatural (λ r. sub_ℕ (2 * r.highest) r.twice_median) points
        (All-map (λ p k. natural (2 * p.highest) p.twice_median k.0.1) points h),
    All-of_map (λ x. is_deeper max_queue_depth x ≡ false) (λ r. r.queue_depth) points
        (All-map (λ p k. k.1) points h),
  )

  -- Whatever field of the rows is drawn, the whiskers of each series have lengths that are not
  -- negative, and no point is deeper than the limit.
  pub error_bars-IsDrawable :
      (rows : List Row)
      → All IsDrawable (error_bars (build_metric_series value max_queue_depth rows))
  unfolding error_bars
  error_bars-IsDrawable rows =
      let d = build_metric_series value max_queue_depth rows in
      let sorted = sort_on (λ g. g.0) d in
      All-of_map IsDrawable error_bar (drawn_series sorted) (
        All-map (λ g h. error_bar-IsDrawable g.0 g.1 h) (drawn_series sorted)
          (drawn_series-AllPoints IsShown sorted
            (All-sort_on (λ g. g.0) (λ g. All IsShown g.1) d (build_metric_series-AllPoints rows))))
