-- ===== src/Uploads/Latency/Overwritten.antt =====
-- All kinds of a run are stored under one key.
use mathlib.Core.Path.{subst}
use benchhelpers.Prelude.{
  ==_iff, All, Bool, Bool-cases, List, Option, String, [], ap, eq_iff, false, if◌then◌else◌, inl,
  inr, none, ok, refl, some, str_eq, sym, true, ℕ, ◌++◌, ◌==◌, ◌∙◌, ◌∷◌, ◌≡◌, ◌≢◌,
}
use benchhelpers.Prelude.Dict.{Dict, lookup}
use benchhelpers.Uploads.{Database, upsert}
use benchhelpers.Uploads.Calls.{continue-ok, upserted-done}
use benchhelpers.Uploads.Latency.{
  Inflight, Results, Arguments, LatencyRow, get_or_zero, is_one, inflight_1_data, or_empty, or_none,
  row_of, kind_rows, group_rows, rows_of, upsert_each, insert_ydb_results_row,
}

-- The last of some rows, or what was there before
abbrev pub last_or : Option LatencyRow → List LatencyRow → Option LatencyRow
last_or before [] = before
last_or before (row ∷ rows) = last_or (some row) rows

module _ {S : Type 0} (db : Database S LatencyRow) (path : String) (now : ℕ) where
  upsert_each-last :
      (rows : List LatencyRow) (s t : S)
      → All (λ row. db.as_given path row ≡ true) rows
      → upsert_each db path now rows s ≡ (ok tt, t)
      → (j : ℕ)
      → db.row_at path j t
        ≡ (if now == j then last_or (db.row_at path j s) rows else db.row_at path j s)
  unfolding upsert_each upsert
  upsert_each-last [] s t given h j =
      let same : s ≡ t = ap (λ x. x.1) h in
      subst
        (λ u. db.row_at path j u ≡ (if now == j then db.row_at path j s else db.row_at path j s))
        same (either (now == j) (db.row_at path j s))
    where
      either : (b : Bool) (o : Option LatencyRow) → o ≡ (if b then o else o)
      either true o = refl
      either false o = refl
  upsert_each-last (row ∷ rows) s t (given, givens) h j =
      let (one, u, executed, rest) =
        continue-ok (upsert db path now row s) (λ ignored. upsert_each db path now rows) tt t h in
      let (is_done, at) = upserted-done (db.execute_upsert path now row s) u executed in
      let more = upsert_each-last rows u t givens rest j in
      let kept = db.upsert_replaces path path now j row s given is_done in
      let self : str_eq path path ≡ true = (eq_iff path path).1 refl in
      let kept' : db.row_at path j u ≡ (if now == j then some row else db.row_at path j s) =
        rw (self, at) at kept in
      more
      ∙ elim (Bool-cases (now == j)) [ inl e ↦ rw (kept', e) refl | inr e ↦ rw (kept', e) refl ]

-- No entry is for inflight 1.
abbrev pub NoneIsOne : List Inflight → Type 0
NoneIsOne = All (λ entry. entry.inflight ≢ some 1)

-- The kinds of all groups, in order
abbrev pub all_kinds : List (Dict (List Inflight)) → Dict (List Inflight)
all_kinds [] = []
all_kinds (group ∷ groups) = group ++ all_kinds groups

-- The kind is the last that has an entry for inflight 1, and this entry is its first one.
pub record IsLast (results : Results) (kind : String) (entry : Inflight) : Type 0 where
  pub before : Dict (List Inflight)
  pub later : Dict (List Inflight)
  pub firsts : List Inflight
  pub others : List Inflight
  pub in_order :
      all_kinds (or_none results.raw_results) ≡ before ++ (kind, firsts ++ entry ∷ others) ∷ later
  pub is_first : NoneIsOne firsts
  pub has_one : entry.inflight ≡ some 1
  pub is_last : All (λ k. NoneIsOne k.1) later

is_one-other : (o : Option ℕ) → o ≢ some 1 → is_one o ≡ false
is_one-other none h = refl
is_one-other (some n) h = elim (Bool-cases (n == 1)) [
  | inl e ↦ absurd (h (ap (λ k. some k) ((==_iff n 1).0 e)))
  | inr e ↦ e
]

inflight_1_data-none : (es : List Inflight) → NoneIsOne es → inflight_1_data es ≡ none
inflight_1_data-none [] h = refl
inflight_1_data-none (e ∷ es) (other, others) =
    rw (is_one-other e.inflight other) (inflight_1_data-none es others)

inflight_1_data-first :
    (firsts others : List Inflight) (entry : Inflight)
    → NoneIsOne firsts
    → entry.inflight ≡ some 1
    → inflight_1_data (firsts ++ entry ∷ others) ≡ some entry
inflight_1_data-first [] others entry h has_one = rw has_one refl
inflight_1_data-first (e ∷ es) others entry (other, rest) has_one =
    rw (is_one-other e.inflight other) (inflight_1_data-first es others entry rest has_one)

last_or-append :
    (before : Option LatencyRow) (xs ys : List LatencyRow)
    → last_or before (xs ++ ys) ≡ last_or (last_or before xs) ys
last_or-append before [] ys = refl
last_or-append before (x ∷ xs) ys = last_or-append (some x) xs ys

module _ (args : Arguments) (throughputs : Dict ℕ) where
  by_entry :
      (kind : String) (o : Option Inflight) (xs ys : List LatencyRow) {zs : List LatencyRow}
      → zs ≡ xs ++ ys
      → (elim o [ none ↦ zs | some entry ↦ row_of args throughputs kind entry ∷ zs ])
        ≡ (elim o [ none ↦ xs | some entry ↦ row_of args throughputs kind entry ∷ xs ]) ++ ys
  by_entry kind none xs ys h = h
  by_entry kind (some entry) xs ys h = ap (λ rows. row_of args throughputs kind entry ∷ rows) h

  kind_rows-append :
      (ks ls : Dict (List Inflight))
      → kind_rows args throughputs (ks ++ ls)
        ≡ kind_rows args throughputs ks ++ kind_rows args throughputs ls
  kind_rows-append [] ls = refl
  kind_rows-append ((kind, es) ∷ ks) ls =
      by_entry kind (inflight_1_data es) (kind_rows args throughputs ks)
        (kind_rows args throughputs ls) (kind_rows-append ks ls)

  group_rows-all_kinds :
      (groups : List (Dict (List Inflight)))
      → group_rows args throughputs groups ≡ kind_rows args throughputs (all_kinds groups)
  group_rows-all_kinds [] = refl
  group_rows-all_kinds (group ∷ groups) =
      ap (λ rows. kind_rows args throughputs group ++ rows) (group_rows-all_kinds groups)
      ∙ sym (kind_rows-append group (all_kinds groups))

  kind_rows-none :
      (ks : Dict (List Inflight)) → All (λ k. NoneIsOne k.1) ks → kind_rows args throughputs ks ≡ []
  kind_rows-none [] h = refl
  kind_rows-none ((kind, es) ∷ ks) (other, rest) =
      let rows = kind_rows args throughputs ks in
      ap (λ o. elim o [ none ↦ rows | some e ↦ row_of args throughputs kind e ∷ rows ])
        (inflight_1_data-none es other)
      ∙ kind_rows-none ks rest

rows_of-last :
    (args : Arguments) (results : Results) (kind : String) (entry : Inflight)
    (old : Option LatencyRow)
    → IsLast results kind entry
    → last_or old (rows_of args results)
      ≡ some (row_of args (or_empty results.throughputs) kind entry)
unfolding rows_of
rows_of-last args results kind entry old l =
    let ts = or_empty results.throughputs in
    let rest = kind_rows-none args ts l.later l.is_last in
    let found = inflight_1_data-first l.firsts l.others entry l.is_first l.has_one in
    let last : kind_rows args ts ((kind, l.firsts ++ entry ∷ l.others) ∷ l.later)
        ≡ row_of args ts kind entry ∷ [] =
      ap
        (λ o. elim o [
          | none ↦ kind_rows args ts l.later
          | some e ↦ row_of args ts kind e ∷ kind_rows args ts l.later
        ])
        found
      ∙ ap (λ rows. row_of args ts kind entry ∷ rows) rest in
    ap (last_or old) (
      group_rows-all_kinds args ts (or_none results.raw_results)
      ∙ ap (kind_rows args ts) l.in_order
      ∙ kind_rows-append args ts l.before _
      ∙ ap (λ rows. kind_rows args ts l.before ++ rows) last)
    ∙ last_or-append old (kind_rows args ts l.before) (row_of args ts kind entry ∷ [])

-- If one run of the insertion executes all its statements, and what they write is read back, then of
-- all kinds with an entry for inflight 1 the table holds the last alone, at the time of the run, with
-- the kind's throughput and its first such entry; at other times it holds what it held.
pub insert_ydb_results_row-last :
    {S : Type 0} (db : Database S LatencyRow) (path : String) (now : ℕ) (args : Arguments)
    (results : Results) (kind : String) (entry : Inflight) (s t : S)
    → IsLast results kind entry
    → All (λ row. db.as_given path row ≡ true) (rows_of args results)
    → insert_ydb_results_row db path now args results s ≡ (ok tt, t)
    → (j : ℕ)
    → db.row_at path j t ≡ (
        if now == j
        then some (record {
          cluster = args.label_cluster;
          version = args.ydb_version;
          git_repository = args.git_repository;
          git_commit_timestamp = args.git_commit_timestamp;
          git_branch = args.git_branch;
          kind = kind;
          throughput = get_or_zero (lookup kind (or_empty results.throughputs));
          latency_p50 = get_or_zero entry.p50;
          latency_p90 = get_or_zero entry.p90;
          latency_p99 = get_or_zero entry.p99;
        })
        else db.row_at path j s)
unfolding insert_ydb_results_row
insert_ydb_results_row-last db path now args results kind entry s t is_last givens h j =
    upsert_each-last db path now (rows_of args results) s t givens h j
    ∙ ap (λ o. if now == j then o else db.row_at path j s)
        (rows_of-last args results kind entry (db.row_at path j s) is_last)
