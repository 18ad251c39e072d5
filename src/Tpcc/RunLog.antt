-- ===== src/Tpcc/RunLog.antt =====
-- `Aggregator.Result`, `process_run_file` and the totals over the instances in `Aggregator.run`, of
-- tpcc/ydb/tpcc_helper.py.
-- The regular expressions and the conversions of their groups are arguments (`Patterns`), and so
-- are the floating-point numbers in which the efficiency is kept (`F`).
pub mod Reading
pub mod Totals
mod Tests
use benchhelpers.Prelude.{
  Bool, List, Option, Result, String, [], err, if◌then◌else◌, index_error, none, ok,
  other_exception, some, value_error, zero_division_error, ℕ, ◌+◌, ◌==◌, ◌>>=◌, ◌>>◌, ◌∷◌,
}
use benchhelpers.Prelude.Int.{ℤ, sub_ℕ}

pub record RunResult (F : Type 0) : Type 0 where
  pub name : String
  pub measure_start_ts : ℕ
  pub time_seconds : ℕ
  pub warehouses : ℕ
  pub new_orders : ℕ
  pub tpmc : ℕ
  pub efficiency : F
  pub throughput : ℕ
  pub goodput : ℕ

-- What a line gives where the expression matches. `entry` is group 1 of `results_entry`, and the
-- conversions of the text of a group fail with a `ValueError`.
pub record Patterns (F : Type 0) : Type 0 where
  pub scale : String → Option ℕ
  pub start_measure : String → Option ℕ
  pub is_results_line : String → Bool
  pub entry : String → Option String
  pub rate : String → Option (ℕ × ℕ)
  pub int_of_float : String → ℕ
  pub int_of : String → Option ℕ
  pub float_of : String → F

-- A `for line in file` loop that stops at the first match: the match and the lines that are left.
unfoldable pub scan {ℓ} : {A : Type ℓ} → (String → Option A) → List String → Option A × List String
scan match [] = (none, [])
scan match (line ∷ lines) =
    let rest = scan match lines in elim (match line) [ some a ↦ (some a, lines) | none ↦ rest ]

-- `file.readline()`: the empty text at the end of the file.
abbrev pub readline : List String → String × List String
readline [] = ("", [])
readline (line ∷ lines) = (line, lines)

-- `m = results_entry.match(line); if not m: raise Exception(...)`
abbrev pub matched {ℓ} : {A : Type ℓ} → Option A → Result A
matched none = err other_exception
matched (some a) = ok a

abbrev or_zero : Option ℕ → ℕ
or_zero none = 0
or_zero (some n) = n

abbrev int_result : Option ℕ → Result ℕ
int_result none = err value_error
int_result (some n) = ok n

module _ {F : Type 0} (p : Patterns F) where
  -- The five lines after the line of results.
  unfoldable pub read_results : ℕ → ℕ → List String → Result (RunResult F)
  read_results warehouses start_ts lines = do
    let (line1, lines1) = readline lines
    time ← matched (p.entry line1)
    let (line2, lines2) = readline lines1
    orders ← matched (p.entry line2)
    new_orders ← int_result (p.int_of orders)
    let (line3, lines3) = readline lines2
    tpmc ← matched (p.entry line3)
    let (line4, lines4) = readline lines3
    efficiency ← matched (p.entry line4)
    let (line5, lines5) = readline lines4
    rate ← matched (p.rate line5)
    ok (record {
      name = "";
      measure_start_ts = start_ts;
      time_seconds = p.int_of_float time;
      warehouses = warehouses;
      new_orders = new_orders;
      tpmc = p.int_of_float tpmc;
      efficiency = p.float_of efficiency;
      throughput = rate.0;
      goodput = rate.1;
    })

  abbrev results_line : String → Option (Unit {0})
  results_line line = if p.is_results_line line then some tt else none

  -- The three loops share the file: each goes on where the last one stopped.
  unfoldable pub process_run_file : List String → Result (RunResult F)
  process_run_file lines =
      let (warehouses, lines1) = scan p.scale lines in
      let (start_ts, lines2) = scan p.start_measure lines1 in
      let (_, lines3) = scan results_line lines2 in
      read_results (or_zero warehouses) (or_zero start_ts) lines3

module _ {F : Type 0} (zero_efficiency : F) (efficiency_of : ℕ → ℕ → F) where
  -- The loop `for r in run_results: total.x += r.x`
  unfoldable pub add_results : RunResult F → List (RunResult F) → RunResult F
  add_results total [] = total
  add_results total (r ∷ rs) =
      add_results
        (record total {
          warehouses = total.warehouses + r.warehouses;
          new_orders = total.new_orders + r.new_orders;
          tpmc = total.tpmc + r.tpmc;
          throughput = total.throughput + r.throughput;
          goodput = total.goodput + r.goodput;
        })
        rs

  abbrev pub start_total : RunResult F → RunResult F
  start_total first = record {
    name = "Total";
    measure_start_ts = first.measure_start_ts;
    time_seconds = first.time_seconds;
    warehouses = 0;
    new_orders = 0;
    tpmc = 0;
    efficiency = zero_efficiency;
    throughput = 0;
    goodput = 0;
  }

  -- `total_result`; `efficiency_of tpmc warehouses` is `round(tpmc * 100 / warehouses / 12.86, 2)`.
  unfoldable pub total_result : List (RunResult F) → Result (RunResult F)
  total_result [] = err index_error
  total_result (first ∷ rest) =
      let total = add_results (start_total first) (first ∷ rest) in
      if total.warehouses == 0
      then err zero_division_error
      else ok (record total { efficiency = efficiency_of total.tpmc total.warehouses })

module _ {F : Type 0} where
  abbrev pub last_start : ℕ → List (RunResult F) → ℕ
  last_start ts [] = ts
  last_start ts (r ∷ rs) = last_start r.measure_start_ts rs

  -- `start_delta`, printed for two results or more. The result of `sorted` is dropped, so the
  -- first and the last are those of the directory listing.
  unfoldable pub start_delta : List (RunResult F) → Option ℤ
  start_delta [] = none
  start_delta (r ∷ []) = none
  start_delta (r ∷ s ∷ rs) = some (sub_ℕ (last_start s.measure_start_ts rs) r.measure_start_ts)
