-- ===== src/Tpcc/Aggregate.antt =====
-- `process_raw_json` and `process_raw_csv` of the `Aggregator` of tpcc/ydb/tpcc_helper.py: the two
-- dicts that they fill from the raw results of the hosts.
pub mod Sums
pub mod Csv
pub mod Report
pub mod Ready
pub mod Run
mod Tests
use benchhelpers.Prelude.{
  List, Result, String, [], if◌then◌else◌, none, ok, some, str_eq, ℕ, ◌+◌, ◌>>=◌, ◌>>◌, ◌∷◌,
}
use benchhelpers.Prelude.Dict
use benchhelpers.Prelude.Dict.{Dict}
use benchhelpers.Tpcc.Histogram.{Histogram, histogram, add, add_bucket}

-- `transactions_stats_dict[name]`
pub record Stats : Type 0 where
  pub ok_count : ℕ
  pub failed_count : ℕ

pub record Totals : Type 0 where
  pub transactions_dict : Dict Histogram
  pub transactions_stats_dict : Dict Stats

-- The value of one key of a raw results file.
pub record TransactionData : Type 0 where
  pub success_count : ℕ
  pub failure_count : ℕ
  pub bucketlist : List ℕ
  pub buckets : List ℕ

-- A `defaultdict` gives zeros for a name that is not there.
unfoldable pub stats_of : String → Dict Stats → Stats
stats_of name d = elim (Dict.lookup name d) [
  | none ↦ record { ok_count = 0; failed_count = 0 }
  | some s ↦ s
]

-- `stats[name]["OK"] += n; stats[name]["FAILED"] += m`
unfoldable pub count_stats : String → ℕ → ℕ → Dict Stats → Dict Stats
count_stats name n m d =
    let s = stats_of name d in
    Dict.insert name (record { ok_count = s.ok_count + n; failed_count = s.failed_count + m }) d

-- `for bucket_index, bucket_count in enumerate(buckets): add_bucket(bucket_index, bucket_count)`
unfoldable pub add_buckets : List ℕ → ℕ → Histogram → Result Histogram
add_buckets [] i h = ok h
add_buckets (n ∷ ns) i h = add_bucket h i n >>= λ g. add_buckets ns (i + 1) g

-- The histogram of the name, made from the bounds of the data if it is not there.
unfoldable pub histogram_of : String → List ℕ → Dict Histogram → Histogram
histogram_of name bucketlist d = elim (Dict.lookup name d) [
  | none ↦ histogram bucketlist
  | some h ↦ h
]

-- The body of the loop of `process_raw_json`
unfoldable pub process_transaction : String → TransactionData → Totals → Result Totals
process_transaction name entry t = if str_eq name "Invalid" then ok t else (do
  h ← add_buckets entry.buckets 0 (histogram_of name entry.bucketlist t.transactions_dict)
  ok (record {
    transactions_dict = Dict.insert name h t.transactions_dict;
    transactions_stats_dict =
        count_stats name entry.success_count entry.failure_count t.transactions_stats_dict;
  }))

unfoldable pub process_raw_json : List (String × TransactionData) → Totals → Result Totals
process_raw_json [] t = ok t
process_raw_json ((name, entry) ∷ rest) t =
    process_transaction name entry t >>= λ u. process_raw_json rest u

-- All the files of a run, in the order in which the directories list them.
unfoldable pub process_files : List (List (String × TransactionData)) → Totals → Result Totals
process_files [] t = ok t
process_files (f ∷ fs) t = process_raw_json f t >>= λ u. process_files fs u

abbrev pub no_totals : Totals
no_totals = record { transactions_dict = []; transactions_stats_dict = [] }
