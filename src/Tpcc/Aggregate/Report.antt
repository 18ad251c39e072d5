-- ===== src/Tpcc/Aggregate/Report.antt =====
-- The end of `Aggregator.run`: the counts and the percentiles of each transaction.
use benchhelpers.Prelude.{
  Bool, List, Result, [], err, if◌then◌else◌, key_error, none, ok, some, ℕ, ◌==◌, ◌>>=◌, ◌∷◌,
}
use benchhelpers.Prelude.Dict
use benchhelpers.Prelude.Dict.{Dict, lookup-insert}
use benchhelpers.Tpcc.Histogram.{Histogram, Bound, percentile, total_count}
use benchhelpers.Tpcc.Aggregate.{Stats, Totals}

pub data Percentile : Type 0 where
  p50 p90 p95 p99 p99_9 : Percentile

-- `[50, 90, 95, 99, 99.9]`
abbrev pub percentiles : List Percentile
percentiles = p50 ∷ p90 ∷ p95 ∷ p99 ∷ p99_9 ∷ []

-- `transactions_json[name]`
pub record TransactionJson : Type 0 where
  pub ok_count : ℕ
  pub failed_count : ℕ
  pub percentiles : List (Percentile × Bound)

abbrev pub count_entry : Stats → TransactionJson
count_entry s = record { ok_count = s.ok_count; failed_count = s.failed_count; percentiles = [] }

-- The entries without percentiles, one for each name of the stats.
unfoldable pub count_entries : Dict Stats → Dict TransactionJson
count_entries [] = []
count_entries ((name, s) ∷ d) = (name, count_entry s) ∷ count_entries d

module _ (reached : Percentile → ℕ → ℕ → Bool) where
  unfoldable pub percentile_list : Histogram → List Percentile → Result (List (Percentile × Bound))
  percentile_list h [] = ok []
  percentile_list h (p ∷ ps) = do
    b ← percentile (reached p) h
    rest ← percentile_list h ps
    ok ((p, b) ∷ rest)

  -- The loop over `transactions_dict`: an empty histogram is passed over.
  unfoldable pub add_percentiles :
      Dict Histogram → Dict TransactionJson → Result (Dict TransactionJson)
  add_percentiles [] json = ok json
  add_percentiles ((name, h) ∷ d) json = if total_count h == 0 then add_percentiles d json else (do
    ps ← percentile_list h percentiles
    entry ← elim (Dict.lookup name json) [ none ↦ err key_error | some e ↦ ok e ]
    add_percentiles d (Dict.insert name (record entry { percentiles = ps }) json))

  -- `transactions_json`
  unfoldable pub transactions_json : Totals → Result (Dict TransactionJson)
  transactions_json t =
      add_percentiles t.transactions_dict (count_entries t.transactions_stats_dict)
