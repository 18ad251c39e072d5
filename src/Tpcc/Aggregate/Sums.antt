-- ===== src/Tpcc/Aggregate/Sums.antt =====
-- The aggregated counts are sums over the raw files, in whatever order the files come.
use mathlib.Core.List.{foldr, Perm}
use mathlib.Core.List.Perm
use native.Mathlib.Nat.{ℕ_set}
use benchhelpers.Prelude.{
  >>=-eq-ok, Bool, Bool-cases, List, Option, Result, String, [], ap, arith, eq_iff, false,
  if◌then◌else◌, inl, inr, none, ok, refl, some, str_eq, sum, sym, true, ℕ, ◌+◌, ◌∙◌, ◌∷◌, ◌≡◌,
}
use benchhelpers.Prelude.Dict
use benchhelpers.Prelude.Dict.{Dict, lookup-insert}
use benchhelpers.Tpcc.Histogram.{Histogram, histogram, total_count, add_bucket}
use benchhelpers.Tpcc.Histogram.Counts.{histogram_lem, add_bucket-total_count}
use benchhelpers.Tpcc.Aggregate.{
  Stats, Totals, TransactionData, stats_of, count_stats, add_buckets, histogram_of,
  process_transaction, process_raw_json, process_files, no_totals,
}

-- What a client reads of the totals at a name.
abbrev pub ok_count_of : String → Totals → ℕ
ok_count_of name t = (stats_of name t.transactions_stats_dict).ok_count

abbrev pub failed_count_of : String → Totals → ℕ
failed_count_of name t = (stats_of name t.transactions_stats_dict).failed_count

abbrev pub count_in : Option Histogram → ℕ
count_in none = 0
count_in (some h) = total_count h

abbrev pub total_count_of : String → Totals → ℕ
total_count_of name t = count_in (Dict.lookup name t.transactions_dict)

-- The share of one entry of a file in what is counted for `name`, by a number of the entry.
abbrev pub entry_count : (TransactionData → ℕ) → String → String × TransactionData → ℕ
entry_count field name (key, entry) =
    if str_eq key "Invalid" then 0 else if str_eq key name then field entry else 0

abbrev pub file_count : (TransactionData → ℕ) → String → List (String × TransactionData) → ℕ
file_count field name [] = 0
file_count field name (e ∷ es) = entry_count field name e + file_count field name es

abbrev pub files_count : (TransactionData → ℕ) → String → List (List (String × TransactionData)) → ℕ
files_count field name [] = 0
files_count field name (f ∷ fs) = file_count field name f + files_count field name fs

abbrev pub bucket_sum : TransactionData → ℕ
bucket_sum entry = sum entry.buckets

add_buckets-total_count :
    (ns : List ℕ) (i : ℕ) (h : Histogram) {g : Histogram}
    → add_buckets ns i h ≡ ok g
    → total_count g ≡ total_count h + sum ns
unfolding add_buckets
add_buckets-total_count [] i h e = ground (arith, ap (λ r. r) e)
add_buckets-total_count (n ∷ ns) i h e =
    let (m, first, rest) = >>=-eq-ok (add_bucket h i n) _ e in
    omega (arith, add_bucket-total_count h i n first, add_buckets-total_count ns (i + 1) m rest)

pub stats_of-count_stats :
    (name key : String) (n m : ℕ) (d : Dict Stats)
    → stats_of name (count_stats key n m d) ≡ (
        if str_eq key name
        then record {
          ok_count = (stats_of name d).ok_count + n;
          failed_count = (stats_of name d).failed_count + m;
        }
        else stats_of name d)
unfolding stats_of count_stats
stats_of-count_stats name key n m d =
    rw (lookup-insert key name, stats_of)
      (elim (Bool-cases (str_eq key name)) [
        | inl same ↦ let e : key ≡ name = (eq_iff key name).0 same in rw (same, e)
        | inr other ↦ rw other
      ])

total_count-histogram_of :
    (name : String) (bl : List ℕ) (t : Totals)
    → total_count (histogram_of name bl t.transactions_dict) ≡ total_count_of name t
unfolding histogram_of
total_count-histogram_of name bl t = of_found (Dict.lookup name t.transactions_dict)
  where
    of_found :
        (o : Option Histogram)
        → total_count (elim o [ none ↦ histogram bl | some h ↦ h ]) ≡ count_in o
    of_found none = (histogram_lem bl).2
    of_found (some h) = refl

-- An entry that is not "Invalid" is counted under its key.
after_transaction :
    (key : String) (entry : TransactionData) (t : Totals) {u : Totals}
    → str_eq key "Invalid" ≡ false
    → process_transaction key entry t ≡ ok u
    → (h : Histogram) × (total_count h ≡ total_count_of key t + sum entry.buckets)
      × (u ≡ record {
        transactions_dict = Dict.insert key h t.transactions_dict;
        transactions_stats_dict =
            count_stats key entry.success_count entry.failure_count t.transactions_stats_dict;
      })
unfolding process_transaction
after_transaction key entry t valid made =
    let start = histogram_of key entry.bucketlist t.transactions_dict in
    let (h, filled, same) = >>=-eq-ok (add_buckets entry.buckets 0 start) _ (rw valid at made) in
    (
      h,
      add_buckets-total_count entry.buckets 0 start filled
          ∙ ap (λ n. n + sum entry.buckets) (total_count-histogram_of key entry.bucketlist t),
      cc,
    )

-- The three numbers that one entry adds to at a name.
record Adds (name : String) (t u : Totals) (n m k : ℕ) : Type 0 where
  oks : ok_count_of name u ≡ ok_count_of name t + n
  fails : failed_count_of name u ≡ failed_count_of name t + m
  counts : total_count_of name u ≡ total_count_of name t + k

not_invalid :
    (key : String) (entry : TransactionData) (t : Totals) {u : Totals}
    → str_eq key "Invalid" ≡ true
    → process_transaction key entry t ≡ ok u
    → u ≡ t
unfolding process_transaction
not_invalid key entry t invalid made = let e = rw invalid at made in cc

pub pick_ok :
    (b : Bool) (s : Stats) (n m : ℕ)
    → (if b
        then record { ok_count = s.ok_count + n; failed_count = s.failed_count + m }
        else s).ok_count
      ≡ s.ok_count + (if b then n else 0)
pick_ok true s n m = refl
pick_ok false s n m = omega arith

pick_failed :
    (b : Bool) (s : Stats) (n m : ℕ)
    → (if b
        then record { ok_count = s.ok_count + n; failed_count = s.failed_count + m }
        else s).failed_count
      ≡ s.failed_count + (if b then m else 0)
pick_failed true s n m = refl
pick_failed false s n m = omega arith

pick_count :
    (b : Bool) (h : Histogram) (o : Option Histogram) (k : ℕ)
    → (b ≡ true → total_count h ≡ count_in o + k)
    → count_in (if b then some h else o) ≡ count_in o + (if b then k else 0)
pick_count true h o k p = p refl
pick_count false h o k p = omega arith

Adds-valid :
    (name key : String) (entry : TransactionData) (t : Totals) (h : Histogram)
    → total_count h ≡ total_count_of key t + sum entry.buckets
    → Adds name t
        (record {
          transactions_dict = Dict.insert key h t.transactions_dict;
          transactions_stats_dict =
              count_stats key entry.success_count entry.failure_count t.transactions_stats_dict;
        })
        (if str_eq key name then entry.success_count else 0)
        (if str_eq key name then entry.failure_count else 0)
        (if str_eq key name then sum entry.buckets else 0)
Adds-valid name key entry t h total = record {
  oks =
      ap (λ (s : Stats). s.ok_count) (stats_of-count_stats name key n m d)
      ∙ pick_ok (str_eq key name) (stats_of name d) n m;
  fails =
      ap (λ (s : Stats). s.failed_count) (stats_of-count_stats name key n m d)
      ∙ pick_failed (str_eq key name) (stats_of name d) n m;
  counts =
      ap count_in (lookup-insert key name h t.transactions_dict)
      ∙ pick_count (str_eq key name) h (Dict.lookup name t.transactions_dict) (sum entry.buckets)
          (λ same. rw ((eq_iff key name).0 same) at total);
}
  where
    n : ℕ
    n = entry.success_count

    m : ℕ
    m = entry.failure_count

    d : Dict Stats
    d = t.transactions_stats_dict

process_transaction-Adds :
    (name key : String) (entry : TransactionData) (t : Totals) {u : Totals}
    → process_transaction key entry t ≡ ok u
    → Adds name t u
        (entry_count (λ e. e.success_count) name (key, entry))
        (entry_count (λ e. e.failure_count) name (key, entry))
        (entry_count bucket_sum name (key, entry))
process_transaction-Adds name key entry t {u} made = elim (Bool-cases (str_eq key "Invalid")) [
  | inl invalid ↦
      rw (invalid, not_invalid key entry t invalid made)
        (record { oks = omega arith; fails = omega arith; counts = omega arith })
  | inr valid ↦
      let (h, total, same) = after_transaction key entry t valid made in
      rw (valid, same) (Adds-valid name key entry t h total)
]

Adds-trans :
    (name : String) (t u v : Totals) {n m k n' m' k' : ℕ}
    → Adds name t u n m k
    → Adds name u v n' m' k'
    → Adds name t v (n + n') (m + m') (k + k')
Adds-trans name t u v a b = record {
  oks = omega (arith, a.oks, b.oks);
  fails = omega (arith, a.fails, b.fails);
  counts = omega (arith, a.counts, b.counts);
}

Adds-refl :
    (name : String) {t u : Totals} → ◌≡◌ {A = Result Totals} (ok t) (ok u) → Adds name t u 0 0 0
Adds-refl name {t} {u} made =
    let e : u ≡ t = cc in
    rw e (record { oks = omega arith; fails = omega arith; counts = omega arith })

process_raw_json-Adds :
    (name : String) (f : List (String × TransactionData)) (t : Totals) {u : Totals}
    → process_raw_json f t ≡ ok u
    → Adds name t u
        (file_count (λ e. e.success_count) name f)
        (file_count (λ e. e.failure_count) name f)
        (file_count bucket_sum name f)
unfolding process_raw_json
process_raw_json-Adds name [] t made = Adds-refl name made
process_raw_json-Adds name ((key, entry) ∷ f) t {u} made =
    let (v, first, rest) = >>=-eq-ok (process_transaction key entry t) _ made in
    Adds-trans name t v u (process_transaction-Adds name key entry t first)
      (process_raw_json-Adds name f v rest)

process_files-Adds :
    (name : String) (fs : List (List (String × TransactionData))) (t : Totals) {u : Totals}
    → process_files fs t ≡ ok u
    → Adds name t u
        (files_count (λ e. e.success_count) name fs)
        (files_count (λ e. e.failure_count) name fs)
        (files_count bucket_sum name fs)
unfolding process_files
process_files-Adds name [] t made = Adds-refl name made
process_files-Adds name (f ∷ fs) t {u} made =
    let (v, first, rest) = >>=-eq-ok (process_raw_json f t) _ made in
    Adds-trans name t v u (process_raw_json-Adds name f t first) (process_files-Adds name fs v rest)

files_count-perm :
    (field : TransactionData → ℕ) (name : String) (fs gs : List (List (String × TransactionData)))
    → Perm fs gs
    → files_count field name fs ≡ files_count field name gs
files_count-perm field name fs gs p =
    as_fold fs
    ∙ Perm.foldr-eq ℕ_set (λ f n. file_count field name f + n) (λ a b x. omega arith) p 0
    ∙ sym (as_fold gs)
  where
    as_fold :
        (hs : List (List (String × TransactionData)))
        → files_count field name hs ≡ foldr (λ f n. file_count field name f + n) 0 hs
    as_fold [] = refl
    as_fold (h ∷ hs) = ap (λ n. file_count field name h + n) (as_fold hs)

-- What is reported for a name after the raw JSON files of a run: the sums over the files of the
-- success counts, of the failure counts, and of the counts in the buckets.
pub process_files_sums :
    (files : List (List (String × TransactionData))) {u : Totals} (name : String)
    → process_files files no_totals ≡ ok u
    → (ok_count_of name u ≡ files_count (λ e. e.success_count) name files)
      × (failed_count_of name u ≡ files_count (λ e. e.failure_count) name files)
      × (total_count_of name u ≡ files_count bucket_sum name files)
unfolding stats_of Dict.lookup
process_files_sums files name made =
    let a = process_files-Adds name files no_totals made in
    (omega (arith, a.oks), omega (arith, a.fails), omega (arith, a.counts))

-- The order in which the directories list the files does not change what is reported.
pub process_files-perm :
    (fs gs : List (List (String × TransactionData))) {u v : Totals} (name : String)
    → Perm fs gs
    → process_files fs no_totals ≡ ok u
    → process_files gs no_totals ≡ ok v
    → (ok_count_of name u ≡ ok_count_of name v)
      × (failed_count_of name u ≡ failed_count_of name v)
      × (total_count_of name u ≡ total_count_of name v)
process_files-perm fs gs name p made_f made_g =
    let a = process_files_sums fs name made_f in
    let b = process_files_sums gs name made_g in
    (
      a.0 ∙ files_count-perm _ name fs gs p ∙ sym b.0,
      a.1 ∙ files_count-perm _ name fs gs p ∙ sym b.1,
      a.2 ∙ files_count-perm _ name fs gs p ∙ sym b.2,
    )
