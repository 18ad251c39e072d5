-- ===== src/Ycsb/Upload/Stored.antt =====
-- What the table holds after an upload.
use benchhelpers.Prelude.{
  ==_iff, All, Bool, Bool-cases, List, Option, Result, String, [], ap, arith, eq_iff, err, exit,
  false, if◌then◌else◌, inl, inr, none, ok, refl, show, some, str_eq, sym, true, ℕ, ◌+◌, ◌/◌, ◌==◌,
  ◌∙◌, ◌∷◌, ◌≡◌, ◌≢◌,
}
use benchhelpers.Uploads.{Database, create_table, upsert, Credentials, Files, credentials}
use benchhelpers.Uploads.Results.{formatted, table_path}
use benchhelpers.Uploads.Calls.{continue-ok, upserted-done}
use benchhelpers.Ycsb.{WorkloadResult, Results, Patterns, parse}
use benchhelpers.Ycsb.Upload.Keys.{AreTimes, AreKeyed, parse-AreTimes, parse-AreKeyed}
use benchhelpers.Ycsb.Upload.{
  Arguments, YcsbRow, count_text, row_of, insert_rows, to_table, authorized, dump_workloads_ydb,
}

-- The columns of a result: its throughput in whole thousands, its latency in milliseconds, rounded up,
-- its other fields, and the options
abbrev pub stored_row : Arguments → WorkloadResult → YcsbRow
stored_row args result = record {
  version = formatted args.ydb_version;
  record_count = elim args.record_count [ none ↦ "None" | some n ↦ show n ];
  label = args.label;
  cluster = formatted args.label_cluster;
  git_repository = formatted args.git_repository;
  git_commit_timestamp = formatted args.git_commit_timestamp;
  git_branch = formatted args.git_branch;
  run_type = formatted args.run_type;
  workload = result.workload;
  ycsb_instances_count = result.ycsb_instances_count;
  distribution = result.distribution;
  rps_k = result.throughput / 1000;
  latency99ms = (result.latency + 999) / 1000;
  oks = result.oks;
  errors = result.errors;
  not_found = result.not_found;
  min_instance_time_ms = result.min_time_ms;
  max_instance_time_ms = result.max_time_ms;
}

stored_row-eq :
    (args : Arguments) (result : WorkloadResult) → row_of args result ≡ stored_row args result
stored_row-eq args result =
    ap (λ text. record (stored_row args result) { record_count = text }) (count args.record_count)
  where
    count : (n : Option ℕ) → count_text n ≡ elim n [ none ↦ "None" | some k ↦ show k ]
    count none = refl
    count (some n) = refl

module _ {S : Type 0} (db : Database S YcsbRow) (path : String) (args : Arguments) where
  abbrev pub Holds : S → ℕ × WorkloadResult → Type 0
  Holds t e = db.row_at path e.0 t ≡ some (row_of args e.1)

  abbrev pub HoldsAtStart : S → ℕ × WorkloadResult → Type 0
  HoldsAtStart t e = db.row_at path e.1.when t ≡ some (stored_row args e.1)

  All-HoldsAtStart :
      (t : S) (results : Results)
      → AreKeyed results
      → All (Holds t) results
      → All (HoldsAtStart t) results
  All-HoldsAtStart t [] keyed h = tt
  All-HoldsAtStart t (e ∷ results) (key, keyed) (first, rest) = (
    ap (λ k. db.row_at path k t) (sym key) ∙ first ∙ ap (λ r. some r) (stored_row-eq args e.1),
    All-HoldsAtStart t results keyed rest,
  )

  -- What the statements of the results write is read back.
  abbrev pub ReadBack : Results → Type 0
  ReadBack = All (λ e. db.as_given path (row_of args e.1) ≡ true)

  -- The first statement, and those after it
  insert_rows-first :
      (ts : ℕ) (result : WorkloadResult) (results : Results) (s t : S)
      → db.as_given path (row_of args result) ≡ true
      → insert_rows db path args ((ts, result) ∷ results) s ≡ (ok tt, t)
      → (u : S) × (insert_rows db path args results u ≡ (ok tt, t))
        × ((j : ℕ)
            → db.row_at path j u
              ≡ (if ts == j then some (row_of args result) else db.row_at path j s))
  unfolding insert_rows upsert
  insert_rows-first ts result results s t given h =
      let e = db.execute_upsert path ts (row_of args result) s in
      let (one, u, executed, rest) =
        continue-ok (upsert db path ts (row_of args result) s)
          (λ ignored. insert_rows db path args results) tt t h in
      let (is_done, at) = upserted-done e u executed in
      let self : str_eq path path ≡ true = (eq_iff path path).1 refl in
      (
        u,
        rest,
        λ j.
            let f = db.upsert_replaces path path ts j (row_of args result) s given is_done in
            rw (self, at) at f,
      )

  insert_rows-other :
      (j : ℕ) (results : Results) (s t : S)
      → All (λ e. (j == e.0) ≡ false) results
      → ReadBack results
      → insert_rows db path args results s ≡ (ok tt, t)
      → db.row_at path j t ≡ db.row_at path j s
  unfolding insert_rows
  insert_rows-other j [] s t others givens h =
      let same : s ≡ t = ap (λ x. x.1) h in ap (db.row_at path j) (sym same)
  insert_rows-other j ((ts, result) ∷ results) s t (other, others) (given, givens) h =
      let (u, rest, at) = insert_rows-first ts result results s t given h in
      let other' : (ts == j) ≡ false = ground arith in
      let e = at j in insert_rows-other j results u t others givens rest ∙ (rw other' at e)

  insert_rows-Holds :
      (results : Results) (s t : S)
      → AreTimes results
      → ReadBack results
      → insert_rows db path args results s ≡ (ok tt, t)
      → All (Holds t) results
  insert_rows-Holds [] s t times givens h = tt
  insert_rows-Holds ((ts, result) ∷ results) s t (others, times) (given, givens) h =
      let (u, rest, at) = insert_rows-first ts result results s t given h in
      let self : (ts == ts) ≡ true = (==_iff ts ts).1 refl in
      let e = at ts in
      (
        insert_rows-other ts results u t others givens rest ∙ (rw self at e),
        insert_rows-Holds results u t times givens rest,
      )

module _ {S : Type 0} (db : Database S YcsbRow) (files : Files) (connects : Credentials → Bool)
    (args : Arguments) where
  -- The rows of the results stand in a table at the path that the arguments name.
  abbrev pub AreStored : Results → S → Type 0
  AreStored results t =
      (path : String) × (table_path args.database args.table ≡ ok path)
      × All (HoldsAtStart db path args t) results

  -- At whatever path the arguments name
  abbrev pub AllReadBack : Results → Type 0
  AllReadBack results =
      (path : String)
      → table_path args.database args.table ≡ ok path
      → ReadBack db path args results

  to_table-AreStored :
      (results : Results) (r : Result String) (s t : S)
      → table_path args.database args.table ≡ r
      → AreTimes results
      → AreKeyed results
      → AllReadBack results
      → to_table db files connects args results r s ≡ (ok tt, t)
      → AreStored results t
  to_table-AreStored results (err raised) s t is_path times keyed givens h = cc
  to_table-AreStored results (ok path) s t is_path times keyed givens h =
      let (one, u, created, rest) =
        continue-ok (create_table db path s) (λ ignored. insert_rows db path args results) tt t h in
      let held = insert_rows-Holds db path args results u t times (givens path is_path) rest in
      (path, is_path, All-HoldsAtStart db path args t results keyed held)

  authorized-AreStored :
      (results : Results) (r : Result Credentials) (s t : S)
      → AreTimes results
      → AreKeyed results
      → AllReadBack results
      → authorized db files connects args results r s ≡ (ok tt, t)
      → AreStored results t
  authorized-AreStored results (err raised) s t times keyed givens h = cc
  authorized-AreStored results (ok auth) s t times keyed givens h =
      elim (Bool-cases (connects auth)) [
        | inl e ↦
            to_table-AreStored results (table_path args.database args.table) s t refl times keyed
              givens (rw e at h)
        | inr e ↦ absurd (let h' : (err (exit 1), s) ≡ (ok tt, t) = rw e at h in cc)
      ]

  -- If some results of a Java log are uploaded without an error, and what is written is read back, the
  -- table holds one row for each, at the start of its workload: its workload, instances and
  -- distribution, its throughput in thousands, its latency in milliseconds rounded up, its counts and
  -- times, and the options.
  pub dump_workloads_ydb-AreStored :
      (p : Patterns) (lines : List String) (s t : S)
      → parse p lines [] ≢ []
      → AllReadBack (parse p lines [])
      → dump_workloads_ydb db files connects args (parse p lines []) s ≡ (ok tt, t)
      → AreStored (parse p lines []) t
  unfolding dump_workloads_ydb
  dump_workloads_ydb-AreStored p lines s t some_results givens h =
      each (parse p lines []) some_results (parse-AreTimes p lines) (parse-AreKeyed p lines) givens
        h
    where
      each :
          (results : Results)
          → results ≢ []
          → AreTimes results
          → AreKeyed results
          → AllReadBack results
          → dump_workloads_ydb db files connects args results s ≡ (ok tt, t)
          → AreStored results t
      each [] none_left times keyed givens h = absurd (none_left refl)
      each (entry ∷ results) some_left times keyed givens h =
          authorized-AreStored (entry ∷ results)
            (credentials files (err (exit 1)) args.token args.sa_token) s t times keyed givens h
