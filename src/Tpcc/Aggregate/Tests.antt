-- ===== src/Tpcc/Aggregate/Tests.antt =====
-- Two raw files of one run, on two hosts, and the theorems at them.
use benchhelpers.Prelude.{
  Bool, List, Option, String, [], arith, err, false, key_error, leb, leb→le, le→leb, ok, refl, some,
  split_at, strip, ℕ, ◌*◌, ◌∷◌, ◌≡◌, ◌≤◌,
}
use benchhelpers.Prelude.Dict
use benchhelpers.Prelude.Dict.{Dict}
use benchhelpers.Tpcc.Histogram.{histogram, add_bucket}
use benchhelpers.Tpcc.Histogram.Percentiles.{IsShareTest}
use benchhelpers.Tpcc.Aggregate.{
  Totals, TransactionData, stats_of, count_stats, add_buckets, histogram_of, process_transaction,
  process_raw_json, process_files, no_totals,
}
use benchhelpers.Tpcc.Aggregate.Sums.{
  ok_count_of, failed_count_of, total_count_of, files_count, bucket_sum,
}
use benchhelpers.Tpcc.Aggregate.Run.{
  HostDir, process_raw, process_entries, process_hosts, raw_json, raw_csv, other_raw, run_log,
  results_dir, other_entry,
}
use benchhelpers.Tpcc.Aggregate.Run.Whole.{
  HostsNoCsv, none_left, skip_json, skip_other, no_entries, skip_dir, skip_log, skip_entry,
  no_hosts, skip_host, json_files, process_hosts_sums,
}
use benchhelpers.Tpcc.Aggregate.Csv.{process_raw_csv, process_lines, process_line, count_request}
use benchhelpers.Tpcc.Aggregate.Report.{
  Percentile, p50, p90, p95, p99, p99_9, TransactionJson, transactions_json,
}
use benchhelpers.Tpcc.Aggregate.Ready.{transactions_json_total}

abbrev first_file : List (String × TransactionData)
first_file =
    (
      "NewOrder",
      record {
        success_count = 3;
        failure_count = 1;
        bucketlist = 1 ∷ 5 ∷ [];
        buckets = 1 ∷ 2 ∷ 0 ∷ [];
      },
    )
    ∷ (
      "Invalid",
      record { success_count = 9; failure_count = 9; bucketlist = 1 ∷ []; buckets = [] },
    )
    ∷ []

abbrev second_file : List (String × TransactionData)
second_file =
    (
      "NewOrder",
      record {
        success_count = 4;
        failure_count = 0;
        bucketlist = 1 ∷ 5 ∷ [];
        buckets = 0 ∷ 3 ∷ 1 ∷ [];
      },
    )
    ∷ []

abbrev both : List (List (String × TransactionData))
both = first_file ∷ second_file ∷ []

abbrev after_both : Totals
after_both = record {
  transactions_dict =
      ("NewOrder", record { bucketlist = 1 ∷ 5 ∷ []; buckets = 1 ∷ 5 ∷ 1 ∷ [] }) ∷ [];
  transactions_stats_dict = ("NewOrder", record { ok_count = 7; failed_count = 1 }) ∷ [];
}

both_read : process_files both no_totals ≡ ok after_both
unfolding process_files process_raw_json process_transaction count_stats stats_of add_buckets
    histogram_of histogram add_bucket Dict.lookup Dict.insert
both_read = refl

swapped_read : process_files (second_file ∷ first_file ∷ []) no_totals ≡ ok after_both
unfolding process_files process_raw_json process_transaction count_stats stats_of add_buckets
    histogram_of histogram add_bucket Dict.lookup Dict.insert
swapped_read = refl

-- Conversions that read any field: a latency of 5 ms, never before the start.
abbrev any_latency : String → Option ℕ
any_latency s = some 5

abbrev never_before : String → ℕ → Option Bool
never_before s ts = some false

abbrev failed_lines : List String
failed_lines = "header" ∷ "0,NewOrder,100.5,5000,x,false\n" ∷ []

abbrev after_failed : Totals
after_failed = record {
  transactions_dict = [];
  transactions_stats_dict = ("NewOrder", record { ok_count = 0; failed_count = 1 }) ∷ [];
}

failed_read : process_raw_csv any_latency never_before 100 failed_lines no_totals ≡ ok after_failed
unfolding process_raw_csv process_lines process_line count_request count_stats stats_of split_at
    strip Dict.lookup Dict.insert
failed_read = refl

abbrev two_hosts : List HostDir
two_hosts =
    record {
      host_dir = "a.net";
      entries =
          run_log "0" [] ∷ results_dir (other_raw ∷ raw_json first_file ∷ []) ∷ other_entry ∷ [];
    }
    ∷ record { host_dir = "b.net"; entries = results_dir (raw_json second_file ∷ []) ∷ [] }
    ∷ []

two_hosts_no_csv : HostsNoCsv two_hosts
two_hosts_no_csv =
    skip_host (skip_log (skip_dir (skip_other (skip_json none_left)) (skip_entry no_entries)))
      (skip_host (skip_dir (skip_json none_left) no_entries) no_hosts)

two_hosts_read : process_hosts any_latency never_before 100 two_hosts no_totals ≡ ok after_both
unfolding process_hosts process_entries process_raw process_raw_json process_transaction count_stats
    stats_of add_buckets histogram_of histogram add_bucket Dict.lookup Dict.insert
two_hosts_read = refl

process_hosts_sums_example :
    (ok_count_of "NewOrder" after_both
      ≡ files_count (λ e. e.success_count) "NewOrder" (json_files two_hosts))
    × (failed_count_of "NewOrder" after_both
        ≡ files_count (λ e. e.failure_count) "NewOrder" (json_files two_hosts))
    × (total_count_of "NewOrder" after_both
        ≡ files_count bucket_sum "NewOrder" (json_files two_hosts))
process_hosts_sums_example =
    process_hosts_sums any_latency never_before 100 "NewOrder" two_hosts_no_csv two_hosts_read

-- After a file of the older format the other files of its directory are not read.
csv_ends :
    process_raw any_latency never_before 100
      (raw_csv failed_lines ∷ raw_json first_file ∷ [])
      no_totals
    ≡ ok after_failed
unfolding process_raw process_raw_csv process_lines process_line count_request count_stats stats_of
    split_at strip Dict.lookup Dict.insert
csv_ends = refl

success_raises :
    process_raw_csv any_latency never_before 100
      ("header" ∷ "0,NewOrder,100.5,5000,x,true\n" ∷ [])
      no_totals
    ≡ err key_error
unfolding process_raw_csv process_lines process_line count_request split_at strip Dict.lookup
success_raises = refl

-- The exact test of a percentile, in thousandths.
abbrev thousandths : Percentile → ℕ
thousandths p50 = 500
thousandths p90 = 900
thousandths p95 = 950
thousandths p99 = 990
thousandths p99_9 = 999

abbrev exact : Percentile → ℕ → ℕ → Bool
exact p c t = leb (thousandths p * t) (1000 * c)

share_test : (n : ℕ) → n ≤ 1000 → IsShareTest (λ c t. leb (n * t) (1000 * c))
share_test n h = record {
  grows = λ c d t le reached. le→leb _ _ (omega (arith, leb→le (n * t) (1000 * c) reached));
  whole = λ t pos. le→leb _ _ (grind arith);
}

exact-IsShareTest : (p : Percentile) → IsShareTest (exact p)
exact-IsShareTest p50 = share_test 500 (omega arith)
exact-IsShareTest p90 = share_test 900 (omega arith)
exact-IsShareTest p95 = share_test 950 (omega arith)
exact-IsShareTest p99 = share_test 990 (omega arith)
exact-IsShareTest p99_9 = share_test 999 (omega arith)

transactions_json_total_example :
    (json : Dict TransactionJson) × (transactions_json exact after_both ≡ ok json)
transactions_json_total_example =
    transactions_json_total exact exact-IsShareTest both (omega arith) both_read
