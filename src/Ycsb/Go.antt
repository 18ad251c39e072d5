-- ===== src/Ycsb/Go.antt =====
-- `Parser.parse_go` of ycsb/multinode_aggegate_result.py. What a regular expression finds in a line is
-- an argument. Times are in nanoseconds, of which the log shows all, and latencies in microseconds.
pub mod Single
use benchhelpers.Prelude.{
  Bool, List, Option, String, [], false, if◌then◌else◌, none, some, true, ℕ, ◌*◌, ◌+◌, ◌/◌, ◌∷◌,
}
use benchhelpers.Ycsb.{
  WorkloadResult, no_result, Header, Results, ParseState, start, finish, Patterns, Line,
  workload_line, host_line, done_line, other_line, or_else, parse_line,
}

-- The expressions of `parse_go`; `total_p` gives the count, the operations per second and the
-- percentile.
pub record GoPatterns : Type 0 where
  pub common : Patterns
  pub result_title_p : String → Option ℕ
  pub error_p : String → Option ℕ
  pub total_p : String → Option (ℕ × ℕ × ℕ)

pub record GoState : Type 0 where
  pub state : ParseState
  pub met_finished : Bool

abbrev pub with_host : (WorkloadResult → WorkloadResult) → GoState → GoState
with_host change g = record g {
  state = record (g.state) { host_result = change g.state.host_result };
}

-- The lines `Run finished`
abbrev pub finished : ℕ → GoState → GoState
finished total_ms g =
    record (with_host (λ r. record r { max_time_ms = total_ms; min_time_ms = total_ms }) g) {
      met_finished = true;
    }

-- The lines after it: whatever else they hold, they are passed over.
abbrev pub after_finished : Option ℕ → Option (ℕ × ℕ × ℕ) → GoState → GoState
after_finished (some n) total g = with_host (λ r. record r { errors = r.errors + n }) g
after_finished none (some (oks, ops, percentile)) g =
    with_host (λ r. record r { oks = oks; throughput = ops; latency = percentile / 1000 * 1000 }) g
after_finished none none g = g

-- The lines before it. A workload's and a host's line say again that no run has finished.
abbrev pub before_finished : Patterns → String → GoState → GoState
before_finished p line g = record {
  state =
      parse_line
        (or_else (p.workload_p line) workload_line (
          or_else (p.host_p line) host_line
            (if p.workload_done_p line then done_line else other_line)))
        g.state;
  met_finished = false;
}

abbrev pub go_step : GoPatterns → String → Option ℕ → GoState → GoState
go_step p line (some total_ms) g = finished total_ms g
go_step p line none g =
    if g.met_finished
    then after_finished (p.error_p line) (p.total_p line) g
    else before_finished p.common line g

unfoldable pub parse_go_lines : GoPatterns → List String → GoState → GoState
parse_go_lines p [] g = g
parse_go_lines p (line ∷ lines) g =
    parse_go_lines p lines (go_step p line (p.result_title_p line) g)

unfoldable pub parse_go : GoPatterns → List String → Results → Results
parse_go p lines results =
    finish ((parse_go_lines p lines (record { state = start results; met_finished = false })).state)
