-- ===== src/Tpcc/Aggregate/Run/Whole.antt =====
-- A run reads the raw results of all its hosts as one list of files.
use benchhelpers.Prelude.{>>=-eq-ok, Bool, List, Option, String, [], ok, ℕ, ◌++◌, ◌∷◌, ◌≡◌}
use benchhelpers.Tpcc.Aggregate.{
  Totals, TransactionData, process_raw_json, process_files, no_totals,
}
use benchhelpers.Tpcc.Aggregate.Run.{
  Entry, HostDir, Raw, process_raw, process_entries, process_hosts, raw_json, raw_csv, other_raw,
  run_log, results_dir, other_entry,
}
use benchhelpers.Tpcc.Aggregate.Sums.{
  bucket_sum, files_count, ok_count_of, failed_count_of, total_count_of, process_files_sums,
}

-- The files in JSON, in the order in which the directories list them
abbrev pub raw_files : List Raw → List (List (String × TransactionData))
raw_files [] = []
raw_files (raw_json file ∷ files) = file ∷ raw_files files
raw_files (raw_csv lines ∷ files) = raw_files files
raw_files (other_raw ∷ files) = raw_files files

abbrev pub entry_files : List Entry → List (List (String × TransactionData))
entry_files [] = []
entry_files (results_dir files ∷ es) = raw_files files ++ entry_files es
entry_files (run_log name lines ∷ es) = entry_files es
entry_files (other_entry ∷ es) = entry_files es

abbrev pub json_files : List HostDir → List (List (String × TransactionData))
json_files [] = []
json_files (h ∷ hosts) = entry_files h.entries ++ json_files hosts

-- No file has the older format.
pub data NoCsv : List Raw → Type 0 where
  none_left : NoCsv []
  skip_json :
      {file : List (String × TransactionData)} {files : List Raw}
      → NoCsv files
      → NoCsv (raw_json file ∷ files)
  skip_other : {files : List Raw} → NoCsv files → NoCsv (other_raw ∷ files)

pub data EntriesNoCsv : List Entry → Type 0 where
  no_entries : EntriesNoCsv []
  skip_dir :
      {files : List Raw} {es : List Entry}
      → NoCsv files
      → EntriesNoCsv es
      → EntriesNoCsv (results_dir files ∷ es)
  skip_log :
      {name : String} {lines : List String} {es : List Entry}
      → EntriesNoCsv es
      → EntriesNoCsv (run_log name lines ∷ es)
  skip_entry : {es : List Entry} → EntriesNoCsv es → EntriesNoCsv (other_entry ∷ es)

pub data HostsNoCsv : List HostDir → Type 0 where
  no_hosts : HostsNoCsv []
  skip_host :
      {h : HostDir} {hosts : List HostDir}
      → EntriesNoCsv h.entries
      → HostsNoCsv hosts
      → HostsNoCsv (h ∷ hosts)

process_files-++ :
    (fs gs : List (List (String × TransactionData))) (t : Totals) {v w : Totals}
    → process_files fs t ≡ ok v
    → process_files gs v ≡ ok w
    → process_files (fs ++ gs) t ≡ ok w
unfolding process_files
process_files-++ [] gs t {v} first rest = let e : v ≡ t = cc in rw e at rest
process_files-++ (f ∷ fs) gs t first rest =
    let (u, here, after) = >>=-eq-ok (process_raw_json f t) _ first in
    rw here (process_files-++ fs gs u after rest)

module _ (latency_ms : String → Option ℕ) (is_before : String → ℕ → Option Bool) (ts : ℕ) where
  process_raw-files :
      {files : List Raw} (t : Totals) {u : Totals}
      → NoCsv files
      → process_raw latency_ms is_before ts files t ≡ ok u
      → process_files (raw_files files) t ≡ ok u
  unfolding process_raw process_files
  process_raw-files t none_left made = made
  process_raw-files t (skip_json {file} rest) made =
      let (v, here, after) = >>=-eq-ok (process_raw_json file t) _ made in
      rw here (process_raw-files v rest after)
  process_raw-files t (skip_other rest) made = process_raw-files t rest made

  process_entries-files :
      {es : List Entry} (t : Totals) {u : Totals}
      → EntriesNoCsv es
      → process_entries latency_ms is_before ts es t ≡ ok u
      → process_files (entry_files es) t ≡ ok u
  unfolding process_entries process_files
  process_entries-files t no_entries made = made
  process_entries-files t (skip_dir {files} {es} here rest) made =
      let (v, first, after) = >>=-eq-ok (process_raw latency_ms is_before ts files t) _ made in
      process_files-++ (raw_files files) (entry_files es) t (process_raw-files t here first)
        (process_entries-files v rest after)
  process_entries-files t (skip_log rest) made = process_entries-files t rest made
  process_entries-files t (skip_entry rest) made = process_entries-files t rest made

  process_hosts-files :
      {hosts : List HostDir} (t : Totals) {u : Totals}
      → HostsNoCsv hosts
      → process_hosts latency_ms is_before ts hosts t ≡ ok u
      → process_files (json_files hosts) t ≡ ok u
  unfolding process_hosts process_files
  process_hosts-files t no_hosts made = made
  process_hosts-files t (skip_host {h} {hosts} here rest) made =
      let (v, first, after) =
        >>=-eq-ok (process_entries latency_ms is_before ts h.entries t) _ made in
      process_files-++ (entry_files h.entries) (json_files hosts) t
        (process_entries-files t here first) (process_hosts-files v rest after)

  -- If no directory has a file of the older format and the totals of the hosts are made, then the
  -- counts of each name are the sums over all the raw JSON files of all the hosts.
  pub process_hosts_sums :
      {hosts : List HostDir} {u : Totals} (name : String)
      → HostsNoCsv hosts
      → process_hosts latency_ms is_before ts hosts no_totals ≡ ok u
      → (ok_count_of name u ≡ files_count (λ e. e.success_count) name (json_files hosts))
        × (failed_count_of name u ≡ files_count (λ e. e.failure_count) name (json_files hosts))
        × (total_count_of name u ≡ files_count bucket_sum name (json_files hosts))
  process_hosts_sums {hosts} name old made =
      process_files_sums (json_files hosts) name (process_hosts-files no_totals old made)
