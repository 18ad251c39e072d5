-- ===== src/DiskPerformance/Tables/Rows.antt =====
-- The rows of the runs: one for each operation and run, operation after operation.
use benchhelpers.Prelude.{
  >>=-eq-ok, All, All-map, List, Option, String, [], ap, arith, length, length-append, ok,
  ok_injective, path_join, refl, suc, ℕ, ◌*◌, ◌++◌, ◌+◌, ◌∙◌, ◌∷◌, ◌≡◌, ◌≤◌,
}
use benchhelpers.Prelude.Sorting.{sort_by, IsSorted, sort_by-IsSorted, length-sort_by}
use benchhelpers.DiskPerformance.{Fio}
use benchhelpers.DiskPerformance.Runs.{parse_at}
use benchhelpers.DiskPerformance.Tables.{
  Spec, latency_op_order, Row, rank, rows_of, rows_of_specs, build_latency_run_rows,
}

abbrev pub row_rank : Row → ℕ
row_rank row = rank latency_op_order row.operation

abbrev spec_rank : Spec → ℕ
spec_rank s = rank latency_op_order s.operation

All-append {ℓ} :
    {A : Type ℓ} (P : A → Type 0) (xs ys : List A) → All P xs → All P ys → All P (xs ++ ys)
All-append P [] ys h k = k
All-append P (x ∷ xs) ys (h, rest) k = (h, All-append P xs ys rest k)

one_more : {a b : ℕ} (m n : ℕ) → a ≡ m → b ≡ n * m → a + b ≡ suc n * m
one_more m n same size = rw (same, size) (omega arith)

IsSorted-append :
    (k : ℕ) (xs ys : List Row)
    → All (λ x. row_rank x ≡ k) xs
    → IsSorted row_rank ys
    → All (λ y. k ≤ row_rank y) ys
    → IsSorted row_rank (xs ++ ys)
IsSorted-append k [] ys h sorted above = sorted
IsSorted-append k (x ∷ xs) ys (h, rest) sorted above =
    let at_least =
      All-map {P = λ y. row_rank y ≡ k} {Q = λ y. row_rank x ≤ row_rank y} (λ y e. omega arith) xs
        rest in
    let after =
      All-map {P = λ y. k ≤ row_rank y} {Q = λ y. row_rank x ≤ row_rank y} (λ y e. omega arith) ys
        above in
    (
      All-append (λ y. row_rank x ≤ row_rank y) xs ys at_least after,
      IsSorted-append k xs ys rest sorted above,
    )

module _ (load : String → Option Fio) (read : String → Option String) where
  rows_of_lem :
      (s : Spec) (idx : ℕ) (dirs : List String) {rows : List Row}
      → rows_of load read s idx dirs ≡ ok rows
      → (length rows ≡ length dirs) × All (λ row. row_rank row ≡ spec_rank s) rows
  unfolding rows_of
  rows_of_lem s idx [] {rows} h = rw (← ok_injective h) (refl, tt)
  rows_of_lem s idx (dir ∷ dirs) {rows} h =
      let (parsed, found, h1) =
        >>=-eq-ok (parse_at load read (path_join dir s.filename) s.test_type) _ h in
      let (more, read_more, h2) = >>=-eq-ok (rows_of load read s (idx + 1) dirs) _ h1 in
      let (same, each) = rows_of_lem s (idx + 1) dirs read_more in
      rw (← ok_injective h2) (ap suc same, (refl, each))

  module _ (run_dirs : List String) where
    specs_above :
        (k : ℕ) (specs : List Spec) {rows : List Row}
        → rows_of_specs load read run_dirs specs ≡ ok rows
        → All (λ s. k ≤ spec_rank s) specs
        → All (λ row. k ≤ row_rank row) rows
    unfolding rows_of_specs
    specs_above k [] {rows} h above = rw (← ok_injective h) tt
    specs_above k (s ∷ specs) {rows} h (first_above, above) =
        let (first, found, h1) = >>=-eq-ok (rows_of load read s 1 run_dirs) _ h in
        let (more, read_more, h2) = >>=-eq-ok (rows_of_specs load read run_dirs specs) _ h1 in
        let (same, each) = rows_of_lem s 1 run_dirs found in
        rw (← ok_injective h2) (
          All-append (λ row. k ≤ row_rank row) first more
            (All-map {P = λ row. row_rank row ≡ spec_rank s} {Q = λ row. k ≤ row_rank row}
              (λ row e. omega arith) first each)
            (specs_above k specs read_more above))

    rows_of_specs_lem :
        (specs : List Spec) {rows : List Row}
        → IsSorted spec_rank specs
        → rows_of_specs load read run_dirs specs ≡ ok rows
        → (length rows ≡ length specs * length run_dirs) × IsSorted row_rank rows
    unfolding rows_of_specs
    rows_of_specs_lem [] {rows} sorted h = rw (← ok_injective h) (omega arith, tt)
    rows_of_specs_lem (s ∷ specs) {rows} (above, sorted) h =
        let (first, found, h1) = >>=-eq-ok (rows_of load read s 1 run_dirs) _ h in
        let (more, read_more, h2) = >>=-eq-ok (rows_of_specs load read run_dirs specs) _ h1 in
        let (same, each) = rows_of_lem s 1 run_dirs found in
        let (size, in_order) = rows_of_specs_lem specs sorted read_more in
        rw (← ok_injective h2) (
          length-append first more ∙ one_more (length run_dirs) (length specs) same size,
          IsSorted-append (spec_rank s) first more each in_order
              (specs_above (spec_rank s) specs read_more above),
        )

    -- Where every file can be read, there is a row for each operation and run, and the operations come
    -- in the fixed order, so that each has one heading.
    pub build_latency_run_rows-IsSorted :
        (specs : List Spec) {rows : List Row}
        → build_latency_run_rows load read run_dirs specs ≡ ok rows
        → (length rows ≡ length specs * length run_dirs) × IsSorted row_rank rows
    unfolding build_latency_run_rows
    build_latency_run_rows-IsSorted specs h =
        let (size, sorted) =
          rows_of_specs_lem (sort_by spec_rank specs) (sort_by-IsSorted spec_rank specs) h in
        (size ∙ ap (λ n. n * length run_dirs) (length-sort_by spec_rank specs), sorted)
