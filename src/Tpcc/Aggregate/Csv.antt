-- ===== src/Tpcc/Aggregate/Csv.antt =====
-- `process_raw_csv`: the raw results of older versions of the benchmark.
-- The conversions of a field to a number are arguments: `latency_ms` is `round(int(x) / 1000)` and
-- `is_before` is `float(x) < start_ts`; `none` is a `ValueError`.
use benchhelpers.Prelude.{
  >>=-eq-ok, Bool, List, Option, Result, String, [], ap, arith, err, false, get_elem?,
  if◌then◌else◌, index_error, key_error, none, ok, refl, some, split_at, str_eq, strip, true,
  value_error, ℕ, ◌>>=◌, ◌∙◌, ◌∷◌, ◌≡◌,
}
use benchhelpers.Prelude.Dict
use benchhelpers.Prelude.Dict.{Dict, lookup-insert, lookup-nil}
use benchhelpers.Tpcc.Histogram.{add}
use benchhelpers.Tpcc.Aggregate.{Stats, Totals, count_stats, stats_of}
use benchhelpers.Tpcc.Aggregate.Sums.{ok_count_of, stats_of-count_stats, pick_ok}

-- `fields[i]`
abbrev pub field : List String → ℕ → Result String
field fields i = elim (get_elem? fields i) [ none ↦ err index_error | some s ↦ ok s ]

abbrev or_value_error {ℓ} : {A : Type ℓ} → Option A → Result A
or_value_error none = err value_error
or_value_error (some a) = ok a

abbrev or_key_error {ℓ} : {A : Type ℓ} → Option A → Result A
or_key_error none = err key_error
or_key_error (some a) = ok a

abbrev last_field : List String → String → String
last_field [] default = default
last_field (s ∷ rest) default = last_field rest s

module _ (latency_ms : String → Option ℕ) (is_before : String → ℕ → Option Bool) where
  -- A request that is counted: its latency goes to the histogram, which must be there.
  unfoldable pub count_request : String → ℕ → Bool → Totals → Result Totals
  count_request name latency succeeded t =
      if succeeded
      then (do
        h ← or_key_error (Dict.lookup name t.transactions_dict)
        g ← add h latency
        ok (record {
          transactions_dict = Dict.insert name g t.transactions_dict;
          transactions_stats_dict = count_stats name 1 0 t.transactions_stats_dict;
        }))
      else ok
          (record t { transactions_stats_dict = count_stats name 0 1 t.transactions_stats_dict })

  -- The body of the loop
  unfoldable pub process_line : ℕ → String → Totals → Result Totals
  process_line start_ts line t = do
    let fields = split_at b',' line
    name ← field fields 1
    ts ← field fields 2
    raw ← field fields 3
    latency ← or_value_error (latency_ms raw)
    before ← or_value_error (is_before ts start_ts)
    if before
        then ok t
        else count_request name latency (str_eq (strip (last_field fields "")) "true") t

  unfoldable pub process_lines : ℕ → List String → Totals → Result Totals
  process_lines start_ts [] t = ok t
  process_lines start_ts (line ∷ lines) t =
      process_line start_ts line t >>= λ u. process_lines start_ts lines u

  -- The first line is the header.
  unfoldable pub process_raw_csv : ℕ → List String → Totals → Result Totals
  process_raw_csv start_ts [] t = ok t
  process_raw_csv start_ts (header ∷ lines) t = process_lines start_ts lines t

  -- Nothing is added to the histograms, nor to the successes of a name.
  record AddsNoSuccess (name : String) (t u : Totals) : Type 0 where
    histograms : u.transactions_dict ≡ []
    oks : ok_count_of name u ≡ ok_count_of name t

  count_request-no_success :
      (name key : String) (latency : ℕ) (succeeded : Bool) (t : Totals) {u : Totals}
      → t.transactions_dict ≡ []
      → count_request key latency succeeded t ≡ ok u
      → AddsNoSuccess name t u
  unfolding count_request
  count_request-no_success name key latency true t none_yet made =
      let missing : Dict.lookup key t.transactions_dict ≡ none =
        ap (Dict.lookup key) none_yet ∙ lookup-nil key in
      let fails : err key_error ≡ ok _ = rw missing at made in cc
  count_request-no_success name key latency false t {u} none_yet made =
      let same : u
          ≡ record t { transactions_stats_dict = count_stats key 0 1 t.transactions_stats_dict } =
        cc in
      rw same (record {
        histograms = none_yet;
        oks =
            ap (λ (s : Stats). s.ok_count)
              (stats_of-count_stats name key 0 1 t.transactions_stats_dict)
            ∙ pick_ok (str_eq key name) (stats_of name t.transactions_stats_dict) 0 1
            ∙ ground arith;
      })

  process_line-no_success :
      (name : String) (start_ts : ℕ) (line : String) (t : Totals) {u : Totals}
      → t.transactions_dict ≡ []
      → process_line start_ts line t ≡ ok u
      → AddsNoSuccess name t u
  unfolding process_line
  process_line-no_success name start_ts line t {u} none_yet made =
      let fields = split_at b',' line in
      let (key, _, h1) = >>=-eq-ok (field fields 1) _ made in
      let (ts, _, h2) = >>=-eq-ok (field fields 2) _ h1 in
      let (raw, _, h3) = >>=-eq-ok (field fields 3) _ h2 in
      let (latency, _, h4) = >>=-eq-ok (or_value_error (latency_ms raw)) _ h3 in
      let (before, _, h5) = >>=-eq-ok (or_value_error (is_before ts start_ts)) _ h4 in
      counted before key latency h5
    where
      counted :
          (before : Bool) (key : String) (latency : ℕ)
          → (if before
              then ok t
              else count_request key latency
                  (str_eq (strip (last_field (split_at b',' line) "")) "true")
                  t)
            ≡ ok u
          → AddsNoSuccess name t u
      counted true key latency h =
          let same : u ≡ t = cc in rw same (record { histograms = none_yet; oks = refl })
      counted false key latency h = count_request-no_success name key latency _ t none_yet h

  process_lines-no_success :
      (name : String) (start_ts : ℕ) (lines : List String) (t : Totals) {u : Totals}
      → t.transactions_dict ≡ []
      → process_lines start_ts lines t ≡ ok u
      → AddsNoSuccess name t u
  unfolding process_lines
  process_lines-no_success name start_ts [] t {u} none_yet made =
      let same : u ≡ t = cc in rw same (record { histograms = none_yet; oks = refl })
  process_lines-no_success name start_ts (line ∷ lines) t none_yet made =
      let (v, first, rest) = >>=-eq-ok (process_line start_ts line t) _ made in
      let a = process_line-no_success name start_ts line t none_yet first in
      let b = process_lines-no_success name start_ts lines v a.histograms rest in
      record { histograms = b.histograms; oks = b.oks ∙ a.oks }

  -- Without histograms from a JSON file, a CSV file that is read to its end has counted no
  -- success: nothing creates a histogram for a name, so the first success raises a `KeyError`.
  pub process_raw_csv-no_success :
      (name : String) (start_ts : ℕ) (lines : List String) (t : Totals) {u : Totals}
      → t.transactions_dict ≡ []
      → process_raw_csv start_ts lines t ≡ ok u
      → (u.transactions_dict ≡ []) × (ok_count_of name u ≡ ok_count_of name t)
  unfolding process_raw_csv
  process_raw_csv-no_success name start_ts [] t {u} none_yet made =
      let same : u ≡ t = cc in rw same (none_yet, refl)
  process_raw_csv-no_success name start_ts (header ∷ lines) t none_yet made =
      let a = process_lines-no_success name start_ts lines t none_yet made in (a.histograms, a.oks)
