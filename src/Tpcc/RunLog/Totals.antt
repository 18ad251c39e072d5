-- ===== src/Tpcc/RunLog/Totals.antt =====
-- The totals over the instances of a run.
use benchhelpers.Prelude.{
  List, [], arith, err, index_error, inl, inr, map, ok, refl, some, sum, zero_division_error, ℕ,
  ◌+◌, ◌-◌, ◌<◌, ◌∙◌, ◌∷◌, ◌≡◌, ◌⊎◌,
}
use benchhelpers.Prelude.Int.{negsuc, sub_ℕ-negative}
use benchhelpers.Tpcc.RunLog.{
  RunResult, add_results, total_result, start_delta, last_start, start_total,
}

module _ {F : Type 0} (zero_efficiency : F) (efficiency_of : ℕ → ℕ → F) where
  abbrev pub sum_of : (RunResult F → ℕ) → List (RunResult F) → ℕ
  sum_of field rs = sum (map field rs)

  abbrev absorb : RunResult F → RunResult F → RunResult F
  absorb total r = record total {
    warehouses = total.warehouses + r.warehouses;
    new_orders = total.new_orders + r.new_orders;
    tpmc = total.tpmc + r.tpmc;
    throughput = total.throughput + r.throughput;
    goodput = total.goodput + r.goodput;
  }

  add_results_lem :
      (total : RunResult F) (rs : List (RunResult F))
      → add_results zero_efficiency efficiency_of total rs ≡ record total {
        warehouses = total.warehouses + sum_of (λ r. r.warehouses) rs;
        new_orders = total.new_orders + sum_of (λ r. r.new_orders) rs;
        tpmc = total.tpmc + sum_of (λ r. r.tpmc) rs;
        throughput = total.throughput + sum_of (λ r. r.throughput) rs;
        goodput = total.goodput + sum_of (λ r. r.goodput) rs;
      }
  unfolding add_results
  add_results_lem total [] = ground arith
  add_results_lem total (r ∷ rs) = add_results_lem (absorb total r) rs ∙ ground arith

  -- With at least one instance and one warehouse the total has the sums of the instances, the
  -- times of the first, and the efficiency of the summed rate over the summed warehouses.
  pub total_result_lem :
      (first : RunResult F) (rest : List (RunResult F))
      → let rs = first ∷ rest in
        0 < sum_of (λ r. r.warehouses) rs
        → total_result zero_efficiency efficiency_of rs
          ≡ ok (record {
            name = "Total";
            measure_start_ts = first.measure_start_ts;
            time_seconds = first.time_seconds;
            warehouses = sum_of (λ r. r.warehouses) rs;
            new_orders = sum_of (λ r. r.new_orders) rs;
            tpmc = sum_of (λ r. r.tpmc) rs;
            efficiency = efficiency_of (sum_of (λ r. r.tpmc) rs) (sum_of (λ r. r.warehouses) rs);
            throughput = sum_of (λ r. r.throughput) rs;
            goodput = sum_of (λ r. r.goodput) rs;
          })
  unfolding total_result
  total_result_lem first rest some_wh =
      ground
        (arith, add_results_lem (start_total zero_efficiency efficiency_of first) (first ∷ rest))

  -- Without instances, or with no warehouse among them, there is no total.
  pub total_result_fails :
      (rs : List (RunResult F))
      → sum_of (λ r. r.warehouses) rs ≡ 0
      → (total_result zero_efficiency efficiency_of rs ≡ err index_error)
        ⊎ (total_result zero_efficiency efficiency_of rs ≡ err zero_division_error)
  unfolding total_result
  total_result_fails [] none_held = inl refl
  total_result_fails (first ∷ rest) none_held = inr (
      ground
        (arith, add_results_lem (start_total zero_efficiency efficiency_of first) (first ∷ rest)))

-- If the log that is listed last began before the one listed first, the printed delta is negative,
-- though it is meant to be the latest start less the earliest.
pub start_delta-negative :
    {F : Type 0} (r s : RunResult F) (rs : List (RunResult F))
    → last_start s.measure_start_ts rs < r.measure_start_ts
    → (n : ℕ) × (start_delta (r ∷ s ∷ rs) ≡ some (negsuc n))
unfolding start_delta
start_delta-negative r s rs h =
    let t = last_start s.measure_start_ts rs in
    (r.measure_start_ts - t - 1, rw (sub_ℕ-negative t r.measure_start_ts h))
