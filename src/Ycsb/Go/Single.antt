-- ===== src/Ycsb/Go/Single.antt =====
-- A Go log gives at most one result.
use mathlib.Core.Path.{subst}
use benchhelpers.Prelude.{
  All, Bool, Bool-cases, List, Option, String, [], arith, false, if◌then◌else◌, inl, inr, length,
  none, refl, some, str_eq, sym, true, ℕ, ◌++◌, ◌==◌, ◌∙◌, ◌∷◌, ◌≡◌, ◌≤◌,
}
use benchhelpers.Ycsb.{
  WorkloadResult, no_result, add_result, first_min, add_each, calc_aggregated_result, Header,
  Results, set_result, workload_total, add_workload, Line, workload_line, host_line, done_line,
  other_line, ParseState, appended, start, Patterns, or_else, parse_line,
}
use benchhelpers.Ycsb.Go.{
  GoPatterns, GoState, after_finished, before_finished, go_step, parse_go_lines, parse_go,
}

abbrev TakesNone : WorkloadResult → Type 0
TakesNone r = r.max_time_ms ≡ 0

add_each-TakesNone :
    (total : WorkloadResult) (rs : List WorkloadResult)
    → TakesNone total
    → All TakesNone rs
    → TakesNone (add_each total rs)
unfolding add_each
add_each-TakesNone total [] h k = h
add_each-TakesNone total (r ∷ rs) h (first, rest) =
    add_each-TakesNone (add_result total r) rs (omega (arith, h, first)) rest

-- Without a time the workload is not added.
add_workload-none :
    (h : Header) (rs : List WorkloadResult) (results : Results)
    → All TakesNone rs
    → add_workload h rs results ≡ results
unfolding add_workload calc_aggregated_result
add_workload-none h rs results none_takes =
    let e =
      add_each-TakesNone (record no_result { host = "total"; min_time_ms = first_min rs }) rs refl
        none_takes in
    rw e (either (str_eq h.workload "") results)
  where
    either : (b : Bool) (rs : Results) → (if b then rs else rs) ≡ rs
    either true rs = refl
    either false rs = refl

-- Before a run has finished, no time is known, and there is never a result.
abbrev IsFresh : ParseState → Type 0
IsFresh st = All TakesNone st.workload_results × TakesNone st.host_result

abbrev HasNone : GoState → Type 0
HasNone g = (g.state.results ≡ []) × (g.met_finished ≡ false → IsFresh g.state)

All-append :
    (rs : List WorkloadResult) (r : WorkloadResult)
    → All TakesNone rs
    → TakesNone r
    → All TakesNone (rs ++ r ∷ [])
All-append [] r h k = (k, tt)
All-append (q ∷ rs) r (first, rest) k = (first, All-append rs r rest k)

appended-TakesNone : (st : ParseState) → IsFresh st → All TakesNone (appended st)
appended-TakesNone st (rs, r) = elim (Bool-cases (str_eq st.host_result.host "")) [
  | inl e ↦ rw e rs
  | inr e ↦ rw e (All-append st.workload_results st.host_result rs r)
]

-- The lines that are tried before a run has finished
data IsTried : Line → Type 0 where
  a_workload : (h : Header) → IsTried (workload_line h)
  a_host : (host : String) → IsTried (host_line host)
  a_done : IsTried done_line
  another : IsTried other_line

parse_line-IsFresh :
    (line : Line) (st : ParseState)
    → IsTried line
    → st.results ≡ []
    → IsFresh st
    → ((parse_line line st).results ≡ []) × IsFresh (parse_line line st)
unfolding parse_line
parse_line-IsFresh line st (a_workload h) e fresh = (e, (tt, refl))
parse_line-IsFresh line st (a_host host) e fresh = (e, (appended-TakesNone st fresh, refl))
parse_line-IsFresh line st a_done e fresh =
    let rs = appended-TakesNone st fresh in
    (add_workload-none st.header (appended st) st.results rs ∙ e, (rs, refl))
parse_line-IsFresh line st another e fresh = (e, fresh)

tried :
    (p : Patterns) (line : String)
    → IsTried (
        or_else (p.workload_p line) workload_line (
          or_else
            (p.host_p line)
            host_line
            (if p.workload_done_p line then done_line else other_line)))
tried p line = workload (p.workload_p line) (p.host_p line) (p.workload_done_p line)
  where
    done : (b : Bool) → IsTried (if b then done_line else other_line)
    done true = a_done
    done false = another

    host :
        (m : Option String) (b : Bool)
        → IsTried (or_else m host_line (if b then done_line else other_line))
    host none b = done b
    host (some name) b = a_host name

    workload :
        (h : Option Header) (m : Option String) (b : Bool)
        → IsTried
            (or_else h workload_line (or_else m host_line (if b then done_line else other_line)))
    workload none m b = host m b
    workload (some header) m b = a_workload header

after_finished-HasNone :
    (errors : Option ℕ) (total : Option (ℕ × ℕ × ℕ)) (g : GoState)
    → g.state.results ≡ []
    → g.met_finished ≡ true
    → HasNone (after_finished errors total g)
after_finished-HasNone (some n) total g e met =
    (e, λ f. absurd (let c : true ≡ false = sym met ∙ f in cc))
after_finished-HasNone none (some (oks, ops, percentile)) g e met =
    (e, λ f. absurd (let c : true ≡ false = sym met ∙ f in cc))
after_finished-HasNone none none g e met =
    (e, λ f. absurd (let c : true ≡ false = sym met ∙ f in cc))

go_step-HasNone :
    (p : GoPatterns) (line : String) (m : Option ℕ) (g : GoState)
    → HasNone g
    → HasNone (go_step p line m g)
go_step-HasNone p line (some total_ms) g (e, fresh) = (e, λ f. cc)
go_step-HasNone p line none g (e, fresh) =
    either g.met_finished (after_finished (p.error_p line) (p.total_p line) g)
      (before_finished p.common line g)
      (after_finished-HasNone (p.error_p line) (p.total_p line) g e)
      (λ unmet.
        let (f, more) = parse_line-IsFresh _ g.state (tried p.common line) e (fresh unmet) in
        (f, λ same. more))
  where
    either :
        (b : Bool) (x y : GoState)
        → (b ≡ true → HasNone x)
        → (b ≡ false → HasNone y)
        → HasNone (if b then x else y)
    either true x y h k = h refl
    either false x y h k = k refl

parse_go_lines-HasNone :
    (p : GoPatterns) (lines : List String) (g : GoState)
    → HasNone g
    → HasNone (parse_go_lines p lines g)
unfolding parse_go_lines
parse_go_lines-HasNone p [] g h = h
parse_go_lines-HasNone p (line ∷ lines) g h =
    parse_go_lines-HasNone p lines (go_step p line (p.result_title_p line) g)
      (go_step-HasNone p line (p.result_title_p line) g h)

add_workload-one : (h : Header) (rs : List WorkloadResult) → length (add_workload h rs []) ≤ 1
unfolding add_workload
add_workload-one h rs = cases (str_eq h.workload "") ((workload_total h rs).max_time_ms == 0)
  where
    cases :
        (a b : Bool)
        → length (if a then [] else if b then [] else set_result h.when (workload_total h rs) [])
          ≤ 1
    cases true b = omega arith
    cases false true = omega arith
    cases false false = omega arith

-- Whatever a Go log holds, also the results of several workloads, it gives at most one result.
pub parse_go-one : (p : GoPatterns) (lines : List String) → length (parse_go p lines []) ≤ 1
unfolding parse_go
parse_go-one p lines =
    let g = parse_go_lines p lines (record { state = start []; met_finished = false }) in
    let (e, fresh) =
      parse_go_lines-HasNone p lines (record { state = start []; met_finished = false })
        (refl, λ f. (tt, refl)) in
    subst (λ rs. length (add_workload g.state.header (appended g.state) rs) ≤ 1) (sym e)
      (add_workload-one g.state.header (appended g.state))
