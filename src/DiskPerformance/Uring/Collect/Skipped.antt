-- ===== src/DiskPerformance/Uring/Collect/Skipped.antt =====
-- The rows and the skipped files are all the files with a result's name.
use mathlib.Core.List.{Perm}
use benchhelpers.Prelude.{All, List, Option, String, [], none, refl, some, ◌++◌, ◌∷◌, ◌≡◌}
use benchhelpers.Prelude.Order.{
  sort_on, sort_on-Perm, IsOrdered, sort_on-IsOrdered, nat_ord, text_ord, pair_ord,
}
use benchhelpers.DiskPerformance.Uring.{
  Json, Read, contents, Attempt, parsed, run_failed, unparsed, Row,
}
use benchhelpers.DiskPerformance.Uring.Names.{Name, match_name}
use benchhelpers.DiskPerformance.Uring.Collect.{
  Collected, attempt, with_attempt, with_file, collect, collect_rows, row_key,
}

-- The file was read, whether or not fio failed.
abbrev pub IsRead : Attempt Row → Type 0
IsRead (parsed row) = Unit
IsRead (run_failed message) = Unit
IsRead (unparsed message) = ⊥

abbrev pub rows_in : List (Attempt Row) → List Row
rows_in [] = []
rows_in (parsed row ∷ rest) = row ∷ rows_in rest
rows_in (run_failed message ∷ rest) = rows_in rest
rows_in (unparsed message ∷ rest) = rows_in rest

abbrev pub failures_in : List (Attempt Row) → List String
failures_in [] = []
failures_in (parsed row ∷ rest) = failures_in rest
failures_in (run_failed message ∷ rest) = message ∷ failures_in rest
failures_in (unparsed message ∷ rest) = failures_in rest

module _ (load : Json) (read : String → Read String) (results_dir : String) where
  abbrev pub attempt_of : String → Option Name → List (Attempt Row)
  attempt_of file none = []
  attempt_of file (some name) = attempt load read results_dir file name ∷ []

  -- What the files with a result's name come to, in order
  abbrev pub attempts : List String → List (Attempt Row)
  attempts [] = []
  attempts (file ∷ files) = attempt_of file (match_name file) ++ attempts files

  with_attempt-read :
      (a : Attempt Row) (tried : List (Attempt Row)) (rest : Attempt Collected)
      → IsRead a
      → rest ≡ parsed (rows_in tried, failures_in tried)
      → with_attempt a rest ≡ parsed (rows_in (a ∷ tried), failures_in (a ∷ tried))
  with_attempt-read (parsed row) tried rest h e = rw e refl
  with_attempt-read (run_failed message) tried rest h e = rw e refl
  with_attempt-read (unparsed message) tried rest h e = absurd h

  with_file-read :
      (file : String) (name : Option Name) (tried : List (Attempt Row)) (rest : Attempt Collected)
      → All IsRead (attempt_of file name ++ tried)
      → (All IsRead tried → rest ≡ parsed (rows_in tried, failures_in tried))
      → with_file load read results_dir file name rest
        ≡ parsed
            (rows_in (attempt_of file name ++ tried), failures_in (attempt_of file name ++ tried))
  with_file-read file none tried rest h e = e h
  with_file-read file (some name) tried rest (first, h) e =
      with_attempt-read (attempt load read results_dir file name) tried rest first (e h)

  collect-attempts :
      (files : List String)
      → All IsRead (attempts files)
      → collect load read results_dir files
        ≡ parsed (rows_in (attempts files), failures_in (attempts files))
  unfolding collect
  collect-attempts [] h = refl
  collect-attempts (file ∷ files) h =
      with_file-read file (match_name file) (attempts files) (collect load read results_dir files) h
        (collect-attempts files)

  -- If every file with a result's name can be read, the rows are those of the files in which fio
  -- reports no error, in the order of engine, queue depth, workload and run, and each of the other
  -- files is reported.
  pub collect_rows-rows_in :
      (files : List String)
      → All IsRead (attempts (sort_on (λ file. file) files))
      → (rows : List Row) × (collect_rows load read results_dir (contents files)
          ≡ parsed (rows, failures_in (attempts (sort_on (λ file. file) files))))
        × Perm rows (rows_in (attempts (sort_on (λ file. file) files)))
        × IsOrdered row_key rows
  unfolding collect_rows
  collect_rows-rows_in files h =
      let tried = attempts (sort_on (λ file. file) files) in
      let e = collect-attempts (sort_on (λ file. file) files) h in
      (
        sort_on row_key (rows_in tried),
        rw e refl,
        sort_on-Perm row_key (rows_in tried),
        sort_on-IsOrdered row_key (rows_in tried),
      )

  -- If some file with a result's name cannot be read, there are no rows.
  pub collect_rows-unparsed :
      (files : List String)
      → ¬ All IsRead (attempts (sort_on (λ file. file) files))
      → (message : String) × (collect_rows load read results_dir (contents files)
          ≡ unparsed message)
  unfolding collect_rows collect
  collect_rows-unparsed files h =
      let (message, e) = fails (sort_on (λ file. file) files) h in (message, rw e refl)
    where
      stops :
          (a : Attempt Row) (tried : List (Attempt Row)) (rest : Attempt Collected)
          → ¬ (IsRead a × All IsRead tried)
          → (¬ All IsRead tried → (message : String) × (rest ≡ unparsed message))
          → (message : String) × (with_attempt a rest ≡ unparsed message)
      stops (parsed row) tried rest bad more =
          let (message, e) = more (λ k. bad (tt, k)) in (message, rw e refl)
      stops (run_failed text) tried rest bad more =
          let (message, e) = more (λ k. bad (tt, k)) in (message, rw e refl)
      stops (unparsed text) tried rest bad more = (text, refl)

      skips :
          (file : String) (name : Option Name) (tried : List (Attempt Row))
          (rest : Attempt Collected)
          → ¬ All IsRead (attempt_of file name ++ tried)
          → (¬ All IsRead tried → (message : String) × (rest ≡ unparsed message))
          → (message : String) × (with_file load read results_dir file name rest ≡ unparsed message)
      skips file none tried rest bad more = more bad
      skips file (some name) tried rest bad more =
          stops (attempt load read results_dir file name) tried rest bad more

      fails :
          (names : List String)
          → ¬ All IsRead (attempts names)
          → (message : String) × (collect load read results_dir names ≡ unparsed message)
      fails [] bad = absurd (bad tt)
      fails (file ∷ names) bad =
          skips file (match_name file) (attempts names) (collect load read results_dir names) bad
            (fails names)
