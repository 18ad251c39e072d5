-- ===== src/Uploads/Results/Stored.antt =====
-- What the table holds after an upload.
use mathlib.Core.Path.{subst}
use benchhelpers.Prelude.{
  ==_iff, >>=-eq-ok, Bool, Bool-cases, Option, Result, String, ap, eq_iff, err, exit, false,
  if◌then◌else◌, inl, inr, none, ok, ok_injective, refl, some, str_eq, sym, true, ℕ, ◌==◌, ◌>>=◌,
  ◌∙◌, ◌≡◌,
}
use benchhelpers.Prelude.Dict.{Dict, lookup}
use benchhelpers.Uploads.{Database, create_table, prepare, upsert, Credentials, Files, credentials}
use benchhelpers.Uploads.Calls.{continue-ok, upserted-done, created-any}
use benchhelpers.Uploads.Results.{
  Summary, Results, Arguments, ResultRow, formatted, required, row_of, table_path, insert_row,
  insert_ydb_results_row, insert_file, upload, authorized, checked, main,
}

-- The row's columns are what the file and the options say, and the key is the start of the
-- measurement.
pub record IsRowOf (dumps : Results → String) (args : Arguments) (results : Results) (key : ℕ)
    (row : ResultRow) : Type 0 where
  pub summary : Summary
  pub transactions : Dict (Option (Dict ℕ))
  pub percentiles : Dict ℕ
  pub has_summary : results.summary ≡ some summary
  pub at_start : summary.measure_start_ts ≡ some key
  pub warehouses : summary.warehouses ≡ some row.warehouses
  pub duration : summary.time_seconds ≡ some row.duration_seconds
  pub tpmc : summary.tpmc ≡ some row.tpmc
  pub efficiency : summary.efficiency ≡ some row.efficiency
  pub throughput : summary.throughput ≡ some row.throughput
  pub goodput : summary.goodput ≡ some row.goodput
  pub has_transactions : results.transactions ≡ some transactions
  pub has_percentiles : lookup "NewOrder" transactions ≡ some (some percentiles)
  pub latency : lookup "90" percentiles ≡ some row.new_order_latency90
  pub version : row.version ≡ formatted args.ydb_version
  pub label : row.label ≡ formatted args.label
  pub cluster : row.cluster ≡ formatted args.label_cluster
  pub repository : row.git_repository ≡ formatted args.git_repository
  pub commit : row.git_commit_timestamp ≡ formatted args.git_commit_timestamp
  pub branch : row.git_branch ≡ formatted args.git_branch
  pub run_type : row.run_type ≡ formatted args.run_type
  pub whole : row.json ≡ dumps results

required-some : {V : Type 0} (o : Option V) {v : V} → required o ≡ ok v → o ≡ some v
required-some none h = cc
required-some (some v) h = ap (λ x. some x) (ok_injective h)

-- The row of twelve values that were all found
abbrev row_with :
    (Results → String)
    → Arguments
    → Results
    → (warehouses time_seconds tpmc : ℕ) → String
    → (throughput goodput latency : ℕ) → ResultRow
row_with dumps args results warehouses time_seconds tpmc efficiency throughput goodput latency =
    record {
      version = formatted args.ydb_version;
      label = formatted args.label;
      cluster = formatted args.label_cluster;
      git_repository = formatted args.git_repository;
      git_commit_timestamp = formatted args.git_commit_timestamp;
      git_branch = formatted args.git_branch;
      run_type = formatted args.run_type;
      warehouses = warehouses;
      duration_seconds = time_seconds;
      tpmc = tpmc;
      efficiency = efficiency;
      throughput = throughput;
      goodput = goodput;
      new_order_latency90 = latency;
      json = dumps results;
    }

-- The latency is looked up after the numbers of the summary.
latency_of-ok :
    (results : Results) {B : Type 0} (next : ℕ → Result B) {b : B}
    → (required results.transactions >>= λ transactions.
        required (lookup "NewOrder" transactions) >>= λ new_order.
        required new_order >>= λ percentiles. required (lookup "90" percentiles) >>= next)
      ≡ ok b
    → (transactions : Dict (Option (Dict ℕ))) × (percentiles : Dict ℕ) × (latency : ℕ)
      × (results.transactions ≡ some transactions)
      × (lookup "NewOrder" transactions ≡ some (some percentiles))
      × (lookup "90" percentiles ≡ some latency)
      × (next latency ≡ ok b)
latency_of-ok results next h =
    let (transactions, e1, h1) = >>=-eq-ok (required results.transactions) _ h in
    let (new_order, e2, h2) = >>=-eq-ok (required (lookup "NewOrder" transactions)) _ h1 in
    let (percentiles, e3, h3) = >>=-eq-ok (required new_order) _ h2 in
    let (latency, e4, h4) = >>=-eq-ok (required (lookup "90" percentiles)) next h3 in
    (
      transactions,
      percentiles,
      latency,
      required-some _ e1,
      required-some _ e2 ∙ ap (λ x. some x) (required-some new_order e3),
      required-some _ e4,
      h4,
    )

summary_of-ok :
    (summary : Summary) {B : Type 0} (next : ℕ → ℕ → ℕ → ℕ → String → ℕ → ℕ → Result B) {b : B}
    → (required summary.measure_start_ts >>= λ start. required summary.warehouses >>= λ warehouses.
        required summary.time_seconds >>= λ time_seconds. required summary.tpmc >>= λ tpmc.
        required summary.efficiency >>= λ efficiency. required summary.throughput >>= λ throughput.
        required summary.goodput >>= λ goodput.
        next start warehouses time_seconds tpmc efficiency throughput goodput)
      ≡ ok b
    → (start warehouses time_seconds tpmc : ℕ) × (efficiency : String) × (throughput goodput : ℕ)
      × (summary.measure_start_ts ≡ some start)
      × (summary.warehouses ≡ some warehouses)
      × (summary.time_seconds ≡ some time_seconds)
      × (summary.tpmc ≡ some tpmc)
      × (summary.efficiency ≡ some efficiency)
      × (summary.throughput ≡ some throughput)
      × (summary.goodput ≡ some goodput)
      × (next start warehouses time_seconds tpmc efficiency throughput goodput ≡ ok b)
summary_of-ok summary next h =
    let (start, e1, h1) = >>=-eq-ok (required summary.measure_start_ts) _ h in
    let (warehouses, e2, h2) = >>=-eq-ok (required summary.warehouses) _ h1 in
    let (time_seconds, e3, h3) = >>=-eq-ok (required summary.time_seconds) _ h2 in
    let (tpmc, e4, h4) = >>=-eq-ok (required summary.tpmc) _ h3 in
    let (efficiency, e5, h5) = >>=-eq-ok (required summary.efficiency) _ h4 in
    let (throughput, e6, h6) = >>=-eq-ok (required summary.throughput) _ h5 in
    let (goodput, e7, h7) = >>=-eq-ok (required summary.goodput) _ h6 in
    (
      start,
      warehouses,
      time_seconds,
      tpmc,
      efficiency,
      throughput,
      goodput,
      required-some _ e1,
      required-some _ e2,
      required-some _ e3,
      required-some _ e4,
      required-some _ e5,
      required-some _ e6,
      required-some _ e7,
      h7,
    )

row_of-IsRowOf :
    (dumps : Results → String) (args : Arguments) (results : Results) {key : ℕ} {row : ResultRow}
    → row_of dumps args results ≡ ok (key, row)
    → IsRowOf dumps args results key row
unfolding row_of
row_of-IsRowOf dumps args results {key} {row} h =
    let (summary, has, h1) = >>=-eq-ok (required results.summary) _ h in
    let (start, w, d, tpmc, eff, thr, good, a1, a2, a3, a4, a5, a6, a7, h2) =
      summary_of-ok summary _ h1 in
    let (transactions, percentiles, latency, b1, b2, b3, h3) = latency_of-ok results _ h2 in
    let same : (start, row_with dumps args results w d tpmc eff thr good latency) ≡ (key, row) =
      ok_injective h3 in
    subst (λ x. IsRowOf dumps args results x.0 x.1) same
      (record {
        summary = summary;
        transactions = transactions;
        percentiles = percentiles;
        has_summary = required-some _ has;
        at_start = a1;
        warehouses = a2;
        duration = a3;
        tpmc = a4;
        efficiency = a5;
        throughput = a6;
        goodput = a7;
        has_transactions = b1;
        has_percentiles = b2;
        latency = b3;
        version = refl;
        label = refl;
        cluster = refl;
        repository = refl;
        commit = refl;
        branch = refl;
        run_type = refl;
        whole = refl;
      })

module _ {S : Type 0} (db : Database S ResultRow) (dumps : Results → String) (files : Files)
    (load : String → Option Results) (connects : Credentials → Bool) where
  -- The table at the path that the options name holds the row of the file's result.
  pub record IsStored (args : Arguments) (s t : S) : Type 0 where
    pub path : String
    pub results : Results
    pub key : ℕ
    pub row : ResultRow
    pub is_path : table_path args.database args.table ≡ ok path
    pub is_read : load args.results_file ≡ some results
    pub is_row : IsRowOf dumps args results key row
    pub is_there : db.row_at path key t ≡ some row
    pub others_kept :
        args.drop ≡ false → (j : ℕ) → (key == j) ≡ false → db.row_at path j t ≡ db.row_at path j s

  -- What the statement of the file's result would write is read back by the service.
  abbrev pub ReadsBack : Arguments → Type 0
  ReadsBack args =
      (path : String) (results : Results) (key : ℕ) (row : ResultRow)
      → load args.results_file ≡ some results
      → row_of dumps args results ≡ ok (key, row)
      → db.as_given path row ≡ true

  insert_row-stored :
      (path : String) (r : Result (ℕ × ResultRow)) (s t : S)
      → ((key : ℕ) (row : ResultRow) → r ≡ ok (key, row) → db.as_given path row ≡ true)
      → insert_row db dumps path r s ≡ (ok tt, t)
      → (key : ℕ) × (row : ResultRow) × (r ≡ ok (key, row))
        × (db.row_at path key t ≡ some row)
        × ((j : ℕ) → (key == j) ≡ false → db.row_at path j t ≡ db.row_at path j s)
  unfolding upsert
  insert_row-stored path (err raised) s t given h = cc
  insert_row-stored path (ok (key, row)) s t given h =
      let (is_done, same) = upserted-done (db.execute_upsert path key row s) t h in
      let self : str_eq path path ≡ true = (eq_iff path path).1 refl in
      let at : (j : ℕ) → db.row_at path j t ≡ (if key == j then some row else db.row_at path j s) =
        λ j.
          let e = db.upsert_replaces path path key j row s (given key row refl) is_done in
          rw (self, same) at e in
      (
        key,
        row,
        refl,
        let self' : (key == key) ≡ true = (==_iff key key).1 refl in
            let e = at key in rw self' at e,
        λ j other. let e = at j in rw other at e,
      )

  insert_file-stored :
      (args : Arguments) (path : String) (file : Option Results) (s t : S)
      → insert_file db dumps files load connects path args file s ≡ (ok tt, t)
      → (results : Results) × (file ≡ some results)
        × (insert_row db dumps path (row_of dumps args results) s ≡ (ok tt, t))
  unfolding insert_ydb_results_row
  insert_file-stored args path none s t h = cc
  insert_file-stored args path (some results) s t h =
      let (summary, u, e, k) =
        continue-ok (required results.summary, s)
          (λ summary. insert_ydb_results_row db dumps path args results) tt t h in
      let same : s ≡ u = ap (λ x. x.1) e in
      (
        results,
        refl,
        subst (λ v. insert_row db dumps path (row_of dumps args results) v ≡ (ok tt, t)) (sym same)
            k,
      )

  prepare-kept :
      (drop_first : Bool) (path : String) (s u : S)
      → prepare db drop_first path s ≡ (ok tt, u)
      → drop_first ≡ false
      → (j : ℕ) → db.row_at path j u ≡ db.row_at path j s
  unfolding create_table
  prepare-kept true path s u h no_drop j = cc
  prepare-kept false path s u h no_drop j =
      let same = created-any (db.execute_create path s) u h in
      subst (λ v. db.row_at path j v ≡ db.row_at path j s) same (db.create_keeps path path j s)

  upload-IsStored :
      (args : Arguments) (r : Result String) (s t : S)
      → table_path args.database args.table ≡ r
      → ReadsBack args
      → upload db dumps files load connects args r s ≡ (ok tt, t)
      → IsStored args s t
  upload-IsStored args (err raised) s t is_path given h = cc
  upload-IsStored args (ok path) s t is_path given h =
      let (one, u, prepared, k) =
        continue-ok (prepare db args.drop path s)
          (λ ignored. insert_file db dumps files load connects path args (load args.results_file))
          tt t h in
      let (results, is_read, inserted) =
        insert_file-stored args path (load args.results_file) u t k in
      let (key, row, is_row, is_there, kept) =
        insert_row-stored path (row_of dumps args results) u t
          (λ key row. given path results key row is_read) inserted in
      record {
        path = path;
        results = results;
        key = key;
        row = row;
        is_path = is_path;
        is_read = is_read;
        is_row = row_of-IsRowOf dumps args results is_row;
        is_there = is_there;
        others_kept =
            λ no_drop j other. kept j other ∙ prepare-kept args.drop path s u prepared no_drop j;
      }

  authorized-IsStored :
      (args : Arguments) (r : Result Credentials) (s t : S)
      → ReadsBack args
      → authorized db dumps files load connects args r s ≡ (ok tt, t)
      → IsStored args s t
  authorized-IsStored args (err raised) s t given h = cc
  authorized-IsStored args (ok auth) s t given h = elim (Bool-cases (connects auth)) [
    | inl e ↦ upload-IsStored args (table_path args.database args.table) s t refl given (rw e at h)
    | inr e ↦ absurd (let h' : (err (exit 1), s) ≡ (ok tt, t) = rw e at h in cc)
  ]

  checked-IsStored :
      (args : Arguments) (line : Option String) (s t : S)
      → ReadsBack args
      → checked db dumps files load connects args line s ≡ (ok tt, t)
      → IsStored args s t
  checked-IsStored args none s t given h = cc
  checked-IsStored args (some line) s t given h =
      authorized-IsStored args (credentials files (err (exit 1)) args.token args.sa_token) s t given
        h

  -- If what the statement writes is read back, and the script ends without an error, then the table holds
  -- one row at the start of the measurement, with the file's numbers and the options in their columns,
  -- and, unless it was to be dropped, at other times what it held before.
  pub main-IsStored :
      (args : Arguments) (s t : S)
      → ReadsBack args
      → main db dumps files load connects args s ≡ (ok tt, t)
      → IsStored args s t
  unfolding main
  main-IsStored args s t given h = checked-IsStored args (files args.results_file) s t given h
