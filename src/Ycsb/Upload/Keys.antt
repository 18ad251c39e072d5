-- ===== src/Ycsb/Upload/Keys.antt =====
-- The times under which `parse` of a Java log stores its results.
use benchhelpers.Prelude.{
  ==_iff, All, Bool, Bool-cases, List, String, [], false, if◌then◌else◌, inl, inr, map, refl,
  str_eq, true, ℕ, ◌==◌, ◌∙◌, ◌∷◌, ◌≡◌,
}
use benchhelpers.Ycsb.{
  WorkloadResult, Header, Results, set_result, workload_total, add_workload, Line, ParseState,
  appended, start, Patterns, classify, parse_line, parse_lines, parse,
}

-- No time stands twice.
abbrev pub AreTimes : Results → Type 0
AreTimes [] = Unit
AreTimes ((t, r) ∷ results) = All (λ e. (t == e.0) ≡ false) results × AreTimes results

All-set_result :
    (P : ℕ → Type 0) (when : ℕ) (total : WorkloadResult) (results : Results)
    → P when
    → All (λ e. P e.0) results
    → All (λ e. P e.0) (set_result when total results)
All-set_result P when total [] new h = (new, tt)
All-set_result P when total ((t, r) ∷ results) new (first, rest) = elim (Bool-cases (t == when)) [
  | inl e ↦ rw e (first, rest)
  | inr e ↦ rw e (first, All-set_result P when total results new rest)
]

set_result-AreTimes :
    (when : ℕ) (total : WorkloadResult) (results : Results)
    → AreTimes results
    → AreTimes (set_result when total results)
set_result-AreTimes when total [] h = (tt, tt)
set_result-AreTimes when total ((t, r) ∷ results) (first, rest) = elim (Bool-cases (t == when)) [
  | inl e ↦ rw e (first, rest)
  | inr e ↦ rw e (
    All-set_result (λ k. (t == k) ≡ false) when total results e first,
    set_result-AreTimes when total results rest,
  )
]

add_workload-AreTimes :
    (h : Header) (rs : List WorkloadResult) (results : Results)
    → AreTimes results
    → AreTimes (add_workload h rs results)
unfolding add_workload
add_workload-AreTimes h rs results times =
    let kept = set_result-AreTimes h.when (workload_total h rs) results times in
    either (str_eq h.workload "") results
      (if (workload_total h rs).max_time_ms == 0
        then results
        else set_result h.when (workload_total h rs) results)
      times
      (either ((workload_total h rs).max_time_ms == 0) results
        (set_result h.when (workload_total h rs) results) times kept)
  where
    either : (b : Bool) (x y : Results) → AreTimes x → AreTimes y → AreTimes (if b then x else y)
    either true x y h k = h
    either false x y h k = k

parse_line-AreTimes :
    (line : Line) (st : ParseState) → AreTimes st.results → AreTimes ((parse_line line st).results)
unfolding parse_line
parse_line-AreTimes (Line.workload_line h) st times = times
parse_line-AreTimes (Line.host_line host) st times = times
parse_line-AreTimes (Line.ops_line n) st times = times
parse_line-AreTimes (Line.time_line n) st times = times
parse_line-AreTimes (Line.latency_line n) st times = times
parse_line-AreTimes (Line.oks_line n) st times = times
parse_line-AreTimes (Line.errors_line n) st times = times
parse_line-AreTimes (Line.not_found_line n) st times = times
parse_line-AreTimes Line.done_line st times =
    add_workload-AreTimes st.header (appended st) st.results times
parse_line-AreTimes Line.other_line st times = times

parse_lines-AreTimes :
    (lines : List Line) (st : ParseState)
    → AreTimes st.results
    → AreTimes ((parse_lines lines st).results)
unfolding parse_lines
parse_lines-AreTimes [] st times = times
parse_lines-AreTimes (line ∷ lines) st times =
    parse_lines-AreTimes lines (parse_line line st) (parse_line-AreTimes line st times)

pub parse-AreTimes : (p : Patterns) (lines : List String) → AreTimes (parse p lines [])
unfolding parse
parse-AreTimes p lines =
    let st = parse_lines (map (classify p) lines) (start []) in
    add_workload-AreTimes st.header (appended st) st.results
      (parse_lines-AreTimes (map (classify p) lines) (start []) tt)

-- Each result stands under the time of its workload.
abbrev pub AreKeyed : Results → Type 0
AreKeyed = All (λ e. e.0 ≡ e.1.when)

set_result-AreKeyed :
    (when : ℕ) (total : WorkloadResult) (results : Results)
    → when ≡ total.when
    → AreKeyed results
    → AreKeyed (set_result when total results)
set_result-AreKeyed when total [] new h = (new, tt)
set_result-AreKeyed when total ((t, r) ∷ results) new (first, rest) =
    elim (Bool-cases (t == when)) [
      | inl e ↦ let same : t ≡ when = (==_iff t when).0 e in rw e (same ∙ new, rest)
      | inr e ↦ rw e (first, set_result-AreKeyed when total results new rest)
    ]

add_workload-AreKeyed :
    (h : Header) (rs : List WorkloadResult) (results : Results)
    → AreKeyed results
    → AreKeyed (add_workload h rs results)
unfolding add_workload
add_workload-AreKeyed h rs results keyed =
    either (str_eq h.workload "") results
      (if (workload_total h rs).max_time_ms == 0
        then results
        else set_result h.when (workload_total h rs) results)
      keyed
      (either ((workload_total h rs).max_time_ms == 0) results
        (set_result h.when (workload_total h rs) results) keyed
        (set_result-AreKeyed h.when (workload_total h rs) results refl keyed))
  where
    either : (b : Bool) (x y : Results) → AreKeyed x → AreKeyed y → AreKeyed (if b then x else y)
    either true x y h k = h
    either false x y h k = k

parse_line-AreKeyed :
    (line : Line) (st : ParseState) → AreKeyed st.results → AreKeyed ((parse_line line st).results)
unfolding parse_line
parse_line-AreKeyed (Line.workload_line h) st keyed = keyed
parse_line-AreKeyed (Line.host_line host) st keyed = keyed
parse_line-AreKeyed (Line.ops_line n) st keyed = keyed
parse_line-AreKeyed (Line.time_line n) st keyed = keyed
parse_line-AreKeyed (Line.latency_line n) st keyed = keyed
parse_line-AreKeyed (Line.oks_line n) st keyed = keyed
parse_line-AreKeyed (Line.errors_line n) st keyed = keyed
parse_line-AreKeyed (Line.not_found_line n) st keyed = keyed
parse_line-AreKeyed Line.done_line st keyed =
    add_workload-AreKeyed st.header (appended st) st.results keyed
parse_line-AreKeyed Line.other_line st keyed = keyed

parse_lines-AreKeyed :
    (lines : List Line) (st : ParseState)
    → AreKeyed st.results
    → AreKeyed ((parse_lines lines st).results)
unfolding parse_lines
parse_lines-AreKeyed [] st keyed = keyed
parse_lines-AreKeyed (line ∷ lines) st keyed =
    parse_lines-AreKeyed lines (parse_line line st) (parse_line-AreKeyed line st keyed)

pub parse-AreKeyed : (p : Patterns) (lines : List String) → AreKeyed (parse p lines [])
unfolding parse
parse-AreKeyed p lines =
    let st = parse_lines (map (classify p) lines) (start []) in
    add_workload-AreKeyed st.header (appended st) st.results
      (parse_lines-AreKeyed (map (classify p) lines) (start []) tt)
