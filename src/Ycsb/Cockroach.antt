-- ===== src/Ycsb/Cockroach.antt =====
-- `Parser.parse_cockroach` of ycsb/multinode_aggegate_result.py. What a regular expression finds in a
-- line, and the conversions of a text to a number, are arguments; a conversion that has none raises
-- `ValueError`. Times are in milliseconds, latencies in microseconds.
use benchhelpers.Prelude.{
  Bool, List, Option, Result, String, [], chars, drop_chars, err, false, get_elem?, if◌then◌else◌,
  index_error, none, ok, some, str_eq, take_chars, value_error, words, ℕ, ◌*◌, ◌-◌, ◌>>=◌, ◌∷◌,
}
use benchhelpers.Ycsb.{
  WorkloadResult, Results, ParseState, start, finish, Patterns, Line, workload_line, host_line,
  done_line, other_line, or_else, parse_line,
}

pub record Conversions : Type 0 where
  pub result_title_p : String → Bool
  pub int_of : String → Option ℕ
  pub round_of : String → Option ℕ
  pub round_ms_of : String → Option ℕ

abbrev pub converted : Option ℕ → Result ℕ
converted none = err value_error
converted (some n) = ok n

abbrev pub column : List String → ℕ → Result String
column columns i = elim (get_elem? columns i) [ none ↦ err index_error | some s ↦ ok s ]

-- `time_string[-1:] == "s"`, and what stands before the last character
abbrev pub seconds : String → Option String
seconds s =
    let n = chars s - 1 in if str_eq (drop_chars n s) "s" then some (take_chars n s) else none

abbrev pub time_ms : Conversions → Option String → Result ℕ
time_ms c none = ok 0
time_ms c (some text) = converted (c.round_ms_of text)

-- The line after the title
unfoldable pub read_host_result : Conversions → String → WorkloadResult → Result WorkloadResult
read_host_result c line r = do
  let columns = words line
  time_string ← column columns 0
  ms ← time_ms c (seconds time_string)
  errors_text ← column columns 1
  errors ← converted (c.int_of errors_text)
  oks_text ← column columns 2
  oks ← converted (c.int_of oks_text)
  throughput_text ← column columns 3
  throughput ← converted (c.round_of throughput_text)
  latency_text ← column columns 7
  latency ← converted (c.round_of latency_text)
  ok (record r {
    min_time_ms = ms;
    max_time_ms = ms;
    errors = errors;
    oks = oks;
    throughput = throughput;
    latency = 1000 * latency;
  })

pub record CockroachState : Type 0 where
  pub state : ParseState
  pub prev_line_result : Bool

-- A line that is no host's result: the expressions in the order in which they are tried
abbrev pub plain_step : Conversions → Patterns → String → ParseState → CockroachState
plain_step c p line st =
    let found = or_else (p.workload_p line) workload_line (
      or_else (p.host_p line) host_line
        (if p.workload_done_p line then done_line else other_line)) in
    record {
      state = parse_line found st;
      prev_line_result = elim found [ Line.other_line ↦ c.result_title_p line | _ ↦ false ];
    }

abbrev pub cockroach_step : Conversions → Patterns → String → CockroachState → Result CockroachState
cockroach_step c p line s =
    if s.prev_line_result
    then (read_host_result c line s.state.host_result >>= λ r.
        ok (record { state = record (s.state) { host_result = r }; prev_line_result = false }))
    else ok (plain_step c p line s.state)

unfoldable pub parse_cockroach_lines :
    Conversions → Patterns → List String → CockroachState → Result CockroachState
parse_cockroach_lines c p [] s = ok s
parse_cockroach_lines c p (line ∷ lines) s =
    cockroach_step c p line s >>= λ next. parse_cockroach_lines c p lines next

unfoldable pub parse_cockroach : Conversions → Patterns → List String → Results → Result Results
parse_cockroach c p lines results =
    parse_cockroach_lines c p lines (record { state = start results; prev_line_result = false })
    >>= λ s. ok (finish s.state)
