-- ===== src/Tpcc/Aggregate/Run.antt =====
-- `Aggregator.run` of tpcc/ydb/aggregate_results.py, which reads the directories of the hosts. The files
-- are arguments, and `json.loads` has read those with raw results. The classes and the readers of files
-- that it uses are the same as in tpcc/ydb/tpcc_helper.py.
pub mod Whole
use benchhelpers.Prelude.{
  Bool, List, Option, Result, String, [], ok, split_at, ℕ, ◌++◌, ◌<>◌, ◌>>=◌, ◌>>◌, ◌∷◌,
}
use benchhelpers.Prelude.Dict.{Dict}
use benchhelpers.Tpcc.RunLog.{RunResult, Patterns, process_run_file, total_result}
use benchhelpers.Tpcc.Aggregate.{TransactionData, Totals, no_totals, process_raw_json}
use benchhelpers.Tpcc.Aggregate.Csv.{process_raw_csv}
use benchhelpers.Tpcc.Aggregate.Report.{Percentile, TransactionJson, transactions_json}

-- A file of raw results, by what its reader takes
pub data Raw : Type 0 where
  raw_json : List (String × TransactionData) → Raw
  raw_csv : List String → Raw
  other_raw : Raw

-- What stands in the directory of a host: a log of a run, with its name before `.run.log`; a directory
-- whose name begins with `results`, with its files in order; or anything else
pub data Entry : Type 0 where
  run_log : String → List String → Entry
  results_dir : List Raw → Entry
  other_entry : Entry

pub record HostDir : Type 0 where
  pub host_dir : String
  pub entries : List Entry

-- `host_dir.split(".")[0]`
abbrev pub first_part : List String → String
first_part [] = ""
first_part (part ∷ parts) = part

abbrev pub hostname : HostDir → String
hostname h = first_part (split_at 46 h.host_dir)

module _ {F : Type 0} (p : Patterns F) where
  -- An error is printed and raised again.
  unfoldable pub run_results_of : String → List Entry → Result (List (RunResult F))
  run_results_of host [] = ok []
  run_results_of host (run_log name lines ∷ entries) = do
    r ← process_run_file p lines
    rest ← run_results_of host entries
    ok (record r { name = host <> "." <> name } ∷ rest)
  run_results_of host (results_dir files ∷ entries) = run_results_of host entries
  run_results_of host (other_entry ∷ entries) = run_results_of host entries

  unfoldable pub run_results : List HostDir → Result (List (RunResult F))
  run_results [] = ok []
  run_results (h ∷ hosts) = do
    first ← run_results_of (hostname h) h.entries
    rest ← run_results hosts
    ok (first ++ rest)

module _ (latency_ms : String → Option ℕ) (is_before : String → ℕ → Option Bool)
    (start_ts : ℕ) where
  -- After a `.raw.csv` file the loop over the files of a directory ends.
  unfoldable pub process_raw : List Raw → Totals → Result Totals
  process_raw [] t = ok t
  process_raw (raw_json file ∷ files) t = process_raw_json file t >>= λ u. process_raw files u
  process_raw (raw_csv lines ∷ files) t = process_raw_csv latency_ms is_before start_ts lines t
  process_raw (other_raw ∷ files) t = process_raw files t

  unfoldable pub process_entries : List Entry → Totals → Result Totals
  process_entries [] t = ok t
  process_entries (results_dir files ∷ entries) t =
      process_raw files t >>= λ u. process_entries entries u
  process_entries (run_log name lines ∷ entries) t = process_entries entries t
  process_entries (other_entry ∷ entries) t = process_entries entries t

  unfoldable pub process_hosts : List HostDir → Totals → Result Totals
  process_hosts [] t = ok t
  process_hosts (h ∷ hosts) t = process_entries h.entries t >>= λ u. process_hosts hosts u

-- `json_result`
pub record Report (F : Type 0) : Type 0 where
  pub summary : RunResult F
  pub instance_results : List (RunResult F)
  pub transactions : Dict TransactionJson

module _ {F : Type 0} (p : Patterns F) (zero_efficiency : F) (efficiency_of : ℕ → ℕ → F)
    (latency_ms : String → Option ℕ) (is_before : String → ℕ → Option Bool)
    (reached : Percentile → ℕ → ℕ → Bool) where
  unfoldable pub run : List HostDir → Result (Report F)
  run hosts = do
    results ← run_results p hosts
    total ← total_result zero_efficiency efficiency_of results
    totals ← process_hosts latency_ms is_before total.measure_start_ts hosts no_totals
    json ← transactions_json reached totals
    ok (record { summary = total; instance_results = results; transactions = json })
