-- ===== src/Tpcc/Aggregate/Ready.antt =====
-- The report is written after any raw JSON files.
use benchhelpers.Prelude.{
  >>=-eq-ok, All, All-map, Bool, Bool-cases, List, Option, String, [], arith, dec_lt, false, inl,
  inr, length, none, ok, ok_injective, refl, some, str_eq, sym, true, ℕ, ◌+◌, ◌<◌, ◌==◌, ◌∷◌, ◌≡◌,
}
use benchhelpers.Prelude.Dict
use benchhelpers.Prelude.Dict.{Dict, Has, Has-insert, Has-insert_self, All-insert, All-lookup}
use benchhelpers.Tpcc.Histogram.{Bound, Histogram, IsWf, histogram, total_count, add_bucket}
use benchhelpers.Tpcc.Histogram.Counts.{histogram_lem, length-histogram, add_bucket-IsWf}
use benchhelpers.Tpcc.Histogram.Percentiles.{IsShareTest, percentile_total}
use benchhelpers.Tpcc.Aggregate.{
  Stats, Totals, TransactionData, count_stats, add_buckets, histogram_of, process_transaction,
  process_raw_json, process_files, no_totals,
}
use benchhelpers.Tpcc.Aggregate.Report.{
  Percentile, percentiles, TransactionJson, count_entry, count_entries, percentile_list,
  add_percentiles, transactions_json,
}

-- A histogram from which percentiles can be taken.
pub record IsUsable (h : Histogram) : Type 0 where
  pub wf : IsWf h
  pub bounds : 0 < length h.bucketlist

add_buckets-IsUsable :
    (ns : List ℕ) (i : ℕ) (h : Histogram) {g : Histogram}
    → add_buckets ns i h ≡ ok g
    → IsUsable h
    → IsUsable g
unfolding add_buckets
add_buckets-IsUsable [] i h made u = let e : _ ≡ h = sym (ok_injective made) in rw e u
add_buckets-IsUsable (n ∷ ns) i h made u =
    let (m, first, rest) = >>=-eq-ok (add_bucket h i n) _ made in
    let (wf, same) = add_bucket-IsWf h i n u.wf first in
    add_buckets-IsUsable ns (i + 1) m rest (record { wf = wf; bounds = rw same u.bounds })

-- Each histogram is usable, and its name has stats.
abbrev pub IsReadyAt : Dict Stats → String × Histogram → Type 0
IsReadyAt stats (name, h) = IsUsable h × Has name stats

pub record IsReady (t : Totals) : Type 0 where
  pub each : All (IsReadyAt t.transactions_stats_dict) t.transactions_dict

-- The file has bounds for every transaction.
abbrev pub HasBounds : List (String × TransactionData) → Type 0
HasBounds = All (λ e. 0 < length e.1.bucketlist)

histogram_of-IsUsable :
    (name : String) (bl : List ℕ) (t : Totals)
    → 0 < length bl
    → IsReady t
    → IsUsable (histogram_of name bl t.transactions_dict)
unfolding histogram_of
histogram_of-IsUsable name bl t some_bounds r = of_found (Dict.lookup name t.transactions_dict) refl
  where
    of_found :
        (o : Option Histogram)
        → Dict.lookup name t.transactions_dict ≡ o
        → IsUsable (elim o [ none ↦ histogram bl | some h ↦ h ])
    of_found none e = record { wf = (histogram_lem bl).0; bounds = rw length-histogram some_bounds }
    of_found (some h) e =
        (All-lookup (IsReadyAt t.transactions_stats_dict) name t.transactions_dict r.each e).0

process_transaction-IsReady :
    (name : String) (entry : TransactionData) (t : Totals) {u : Totals}
    → 0 < length entry.bucketlist
    → IsReady t
    → process_transaction name entry t ≡ ok u
    → IsReady u
unfolding process_transaction count_stats
process_transaction-IsReady name entry t {u} some_bounds r made =
    elim (Bool-cases (str_eq name "Invalid")) [
      | inl invalid ↦ let e : u ≡ t = sym (ok_injective (rw invalid at made)) in rw e r
      | inr valid ↦
          let start = histogram_of name entry.bucketlist t.transactions_dict in
          let (h, filled, same) =
            >>=-eq-ok (add_buckets entry.buckets 0 start) _ (rw valid at made) in
          rw (← ok_injective same) (record { each = inserted h filled })
    ]
  where
    stats : Dict Stats
    stats = count_stats name entry.success_count entry.failure_count t.transactions_stats_dict

    inserted :
        (h : Histogram)
        → add_buckets entry.buckets 0 (histogram_of name entry.bucketlist t.transactions_dict)
          ≡ ok h
        → All (IsReadyAt stats) (Dict.insert name h t.transactions_dict)
    inserted h filled =
        All-insert (IsReadyAt stats) name h t.transactions_dict
          (
            add_buckets-IsUsable entry.buckets 0 _ filled
                (histogram_of-IsUsable name entry.bucketlist t some_bounds r),
            Has-insert_self name _ t.transactions_stats_dict,
          )
          (All-map (λ e k. (k.0, Has-insert e.0 name _ t.transactions_stats_dict k.1))
            t.transactions_dict r.each)

process_raw_json-IsReady :
    (f : List (String × TransactionData)) (t : Totals) {u : Totals}
    → HasBounds f
    → IsReady t
    → process_raw_json f t ≡ ok u
    → IsReady u
unfolding process_raw_json
process_raw_json-IsReady [] t b r made = rw (← ok_injective made) r
process_raw_json-IsReady ((name, entry) ∷ f) t b r made =
    let (v, first, rest) = >>=-eq-ok (process_transaction name entry t) _ made in
    process_raw_json-IsReady f v b.1 (process_transaction-IsReady name entry t b.0 r first) rest

pub process_files-IsReady :
    (fs : List (List (String × TransactionData))) (t : Totals) {u : Totals}
    → All HasBounds fs
    → IsReady t
    → process_files fs t ≡ ok u
    → IsReady u
unfolding process_files
process_files-IsReady [] t b r made = rw (← ok_injective made) r
process_files-IsReady (f ∷ fs) t b r made =
    let (v, first, rest) = >>=-eq-ok (process_raw_json f t) _ made in
    process_files-IsReady fs v b.1 (process_raw_json-IsReady f t b.0 r first) rest

Has-count_entries : (k : String) (d : Dict Stats) → Has k d → Has k (count_entries d)
unfolding count_entries Dict.lookup
Has-count_entries k [] h = cc h.1
Has-count_entries k ((j, s) ∷ d) h = elim (Bool-cases (str_eq j k)) [
  | inl same ↦ (count_entry s, rw same)
  | inr other ↦ let (e, found) = Has-count_entries k d (h.0, rw other at h.1) in (e, rw other found)
]

module _ (reached : Percentile → ℕ → ℕ → Bool)
    (tests : (p : Percentile) → IsShareTest (reached p)) where
  percentile_list_total :
      (h : Histogram) (ps : List Percentile)
      → IsUsable h
      → 0 < total_count h
      → (l : List (Percentile × Bound)) × (percentile_list reached h ps ≡ ok l)
  unfolding percentile_list
  percentile_list_total h [] u pos = ([], refl)
  percentile_list_total h (p ∷ ps) u pos =
      let (b, made, _) = percentile_total (reached p) h (tests p) u.wf u.bounds pos in
      let (l, more) = percentile_list_total h ps u pos in ((p, b) ∷ l, rw (made, more))

  add_percentiles_total :
      (d : Dict Histogram) (json : Dict TransactionJson)
      → All (λ e. IsUsable e.1 × Has e.0 json) d
      → (j : Dict TransactionJson) × (add_percentiles reached d json ≡ ok j)
  unfolding add_percentiles
  add_percentiles_total [] json h = (json, refl)
  add_percentiles_total ((name, h) ∷ d) json all = elim (dec_lt 0 (total_count h)) [
    | no empty ↦
        let (j, made) = add_percentiles_total d json all.1 in
        let e : (total_count h == 0) ≡ true = ground arith in (j, rw e made)
    | yes pos ↦
        let (l, made) = percentile_list_total h percentiles all.0.0 pos in
        let (entry, found) = all.0.1 in
        let json' = Dict.insert name (record entry { percentiles = l }) json in
        let (j, more) =
          add_percentiles_total d json'
            (All-map (λ e k. (k.0, Has-insert e.0 name _ json k.1)) d all.1) in
        let e : (total_count h == 0) ≡ false = ground arith in (j, rw (e, made, found) more)
  ]

  -- After any raw JSON files with bounds for every transaction, the report is written: no
  -- percentile is missing and no name lacks an entry.
  pub transactions_json_total :
      (files : List (List (String × TransactionData))) {t : Totals}
      → All HasBounds files
      → process_files files no_totals ≡ ok t
      → (json : Dict TransactionJson) × (transactions_json reached t ≡ ok json)
  unfolding transactions_json
  transactions_json_total files {t} bounds made =
      let r = process_files-IsReady files no_totals bounds (record { each = tt }) made in
      add_percentiles_total t.transactions_dict (count_entries t.transactions_stats_dict) (
        All-map (λ e k. (k.0, Has-count_entries e.0 t.transactions_stats_dict k.1))
          t.transactions_dict r.each)
