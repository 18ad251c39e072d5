-- ===== src/Ycsb/Logs.antt =====
-- What the parser reads from the log of a run.
use benchhelpers.Prelude.{
  All, List, String, [], ap, append_assoc, append_nil, arith, false, map, max, refl, str_eq, sym, ℕ,
  ◌++◌, ◌∙◌, ◌∷◌, ◌≡◌,
}
use benchhelpers.Ycsb.{
  WorkloadResult, no_result, Header, Results, add_workload, Line, workload_line, host_line,
  ops_line, time_line, latency_line, oks_line, errors_line, not_found_line, done_line, ParseState,
  appended, parse_line, parse_lines, start, finish, Patterns, classify, parse,
}

-- What an instance prints.
pub record Instance : Type 0 where
  pub host : String
  pub ops : ℕ
  pub time : ℕ
  pub latency : ℕ
  pub oks : ℕ
  pub errors : ℕ
  pub not_found : ℕ

abbrev pub instance_result : Instance → WorkloadResult
instance_result i = record no_result {
  host = i.host;
  throughput = i.ops;
  latency = i.latency;
  oks = i.oks;
  errors = i.errors;
  not_found = i.not_found;
  max_time_ms = i.time;
  min_time_ms = i.time;
}

abbrev pub instance_log : Instance → List Line
instance_log i =
    host_line i.host
    ∷ time_line i.time
    ∷ ops_line i.ops
    ∷ latency_line i.latency
    ∷ oks_line i.oks
    ∷ errors_line i.errors
    ∷ not_found_line i.not_found
    ∷ []

abbrev pub instances_log : List Instance → List Line → List Line
instances_log [] rest = rest
instances_log (i ∷ is) rest = instance_log i ++ instances_log is rest

-- A workload and its instances, up to the line `done`.
pub record Run : Type 0 where
  pub header : Header
  pub instances : List Instance

abbrev pub runs_log : List Run → List Line
runs_log [] = []
runs_log (r ∷ runs) = workload_line r.header ∷ instances_log r.instances (done_line ∷ runs_log runs)

abbrev pub add_runs : List Run → Results → Results
add_runs [] results = results
add_runs (r ∷ runs) results =
    add_runs runs (add_workload r.header (map instance_result r.instances) results)

abbrev pub Named : List Instance → Type 0
Named = All (λ i. str_eq i.host "" ≡ false)

-- The state after an instance whose result is not appended yet.
abbrev state_at : List WorkloadResult → Header → WorkloadResult → Results → ParseState
state_at done_results header current results = record {
  workload_results = done_results;
  header = header;
  host_result = current;
  results = results;
}

parse_lines-instances :
    (st : ParseState) (is : List Instance) (rest : List Line)
    → Named is
    → (after : ParseState) × (parse_lines (instances_log is rest) st ≡ parse_lines rest after)
      × (appended after ≡ appended st ++ map instance_result is)
      × (after.header ≡ st.header)
      × (after.results ≡ st.results)
unfolding parse_lines parse_line
parse_lines-instances st [] rest h = (st, refl, sym (append_nil (appended st)), refl, refl)
parse_lines-instances st (i ∷ is) rest (named, h) =
    let now = state_at (appended st) st.header (instance_result i) st.results in
    let (after, read, list, header, kept) = parse_lines-instances now is rest h in
    let here : appended now ≡ appended st ++ instance_result i ∷ [] = rw named refl in
    let least : max 0 i.latency ≡ i.latency = omega arith in
    rw least (
      after,
      read,
      list
          ∙ ap (λ xs. xs ++ map instance_result is) here
          ∙ append_assoc (appended st) (instance_result i ∷ []) (map instance_result is),
      header,
      kept,
    )

add_workload-none :
    (h : Header) (rs : List WorkloadResult) (results : Results)
    → h.workload ≡ ""
    → add_workload h rs results ≡ results
unfolding add_workload
add_workload-none h rs results e = rw e refl

parse_lines-run :
    (st : ParseState) (r : Run) (rest : List Line)
    → Named r.instances
    → (after : ParseState) × (parse_lines
          (workload_line r.header ∷ instances_log r.instances (done_line ∷ rest))
          st
        ≡ parse_lines rest after)
      × (after.header.workload ≡ "")
      × (after.results ≡ add_workload r.header (map instance_result r.instances) st.results)
unfolding parse_lines parse_line
parse_lines-run st r rest named =
    let now = state_at [] r.header no_result st.results in
    let (last, read, list, header, kept) =
      parse_lines-instances now r.instances (done_line ∷ rest) named in
    (parse_line done_line last, read, refl, rw (header, list, kept) refl)

parse_lines-runs :
    (st : ParseState) (runs : List Run)
    → st.header.workload ≡ ""
    → All (λ r. Named r.instances) runs
    → finish (parse_lines (runs_log runs) st) ≡ add_runs runs st.results
unfolding parse_lines
parse_lines-runs st [] closed named = add_workload-none st.header (appended st) st.results closed
parse_lines-runs st (r ∷ runs) closed (named, others) =
    let (after, read, ended, kept) = parse_lines-run st r (runs_log runs) named in
    ap finish read ∙ parse_lines-runs after runs ended others ∙ ap (add_runs runs) kept

-- From the log of complete runs with named instances, the parser keeps the total of each run.
pub parse-runs :
    (p : Patterns) (lines : List String) (runs : List Run) (results : Results)
    → map (classify p) lines ≡ runs_log runs
    → All (λ r. Named r.instances) runs
    → parse p lines results ≡ add_runs runs results
unfolding parse
parse-runs p lines runs results e named = rw e (parse_lines-runs (start results) runs refl named)
