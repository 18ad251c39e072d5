-- ===== src/Ycsb/Totals.antt =====
-- The total of the instances.
use benchhelpers.Prelude.{All, List, [], arith, ℕ, ◌+◌, ◌∷◌, ◌≡◌, ◌≤◌}
use benchhelpers.Ycsb.{
  WorkloadResult, no_result, add_result, add_each, first_min, calc_aggregated_result,
}

-- The sum of a field.
abbrev pub sum_of : (WorkloadResult → ℕ) → List WorkloadResult → ℕ
sum_of f [] = 0
sum_of f (r ∷ rs) = f r + sum_of f rs

-- A total's times and latency bound those of an instance.
pub record Bounds (total r : WorkloadResult) : Type 0 where
  pub latency : r.latency ≤ total.latency
  pub max_time_ms : r.max_time_ms ≤ total.max_time_ms
  pub min_time_ms : total.min_time_ms ≤ r.min_time_ms

-- Adding results to a total keeps the bounds that it has.
record Extends (total after : WorkloadResult) : Type 0 where
  latency : total.latency ≤ after.latency
  max_time_ms : total.max_time_ms ≤ after.max_time_ms
  min_time_ms : after.min_time_ms ≤ total.min_time_ms

add_each-Extends :
    (total : WorkloadResult) (rs : List WorkloadResult) → Extends total (add_each total rs)
unfolding add_each
add_each-Extends total [] = record {
  latency = omega arith;
  max_time_ms = omega arith;
  min_time_ms = omega arith;
}
add_each-Extends total (r ∷ rs) =
    let rest = add_each-Extends (add_result total r) rs in
    record {
      latency = omega (arith, rest.latency);
      max_time_ms = omega (arith, rest.max_time_ms);
      min_time_ms = omega (arith, rest.min_time_ms);
    }

add_each-Bounds :
    (total : WorkloadResult) (rs : List WorkloadResult) → All (Bounds (add_each total rs)) rs
unfolding add_each
add_each-Bounds total [] = _
add_each-Bounds total (r ∷ rs) =
    let rest = add_each-Extends (add_result total r) rs in
    (
      record {
        latency = omega (arith, rest.latency);
        max_time_ms = omega (arith, rest.max_time_ms);
        min_time_ms = omega (arith, rest.min_time_ms);
      },
      add_each-Bounds (add_result total r) rs,
    )

-- The sums and the bounds of a total.
pub record IsTotal (rs : List WorkloadResult) (total : WorkloadResult) : Type 0 where
  pub throughput : total.throughput ≡ sum_of (λ r. r.throughput) rs
  pub oks : total.oks ≡ sum_of (λ r. r.oks) rs
  pub errors : total.errors ≡ sum_of (λ r. r.errors) rs
  pub not_found : total.not_found ≡ sum_of (λ r. r.not_found) rs
  pub bounds : All (Bounds total) rs

record Sums (total after : WorkloadResult) (rs : List WorkloadResult) : Type 0 where
  throughput : after.throughput ≡ total.throughput + sum_of (λ r. r.throughput) rs
  oks : after.oks ≡ total.oks + sum_of (λ r. r.oks) rs
  errors : after.errors ≡ total.errors + sum_of (λ r. r.errors) rs
  not_found : after.not_found ≡ total.not_found + sum_of (λ r. r.not_found) rs

add_each-Sums :
    (total : WorkloadResult) (rs : List WorkloadResult) → Sums total (add_each total rs) rs
unfolding add_each
add_each-Sums total [] = record {
  throughput = omega arith;
  oks = omega arith;
  errors = omega arith;
  not_found = omega arith;
}
add_each-Sums total (r ∷ rs) =
    let rest = add_each-Sums (add_result total r) rs in
    record {
      throughput = omega (arith, rest.throughput);
      oks = omega (arith, rest.oks);
      errors = omega (arith, rest.errors);
      not_found = omega (arith, rest.not_found);
    }

-- The total has the sums of the throughputs and the counts, and bounds the latency and the times of
-- every instance.
pub calc_aggregated_result-IsTotal :
    (results : List WorkloadResult) → IsTotal results (calc_aggregated_result results)
unfolding calc_aggregated_result
calc_aggregated_result-IsTotal rs =
    let first = record no_result { host = "total"; min_time_ms = first_min rs } in
    let sums = add_each-Sums first rs in
    record {
      throughput = omega (arith, sums.throughput);
      oks = omega (arith, sums.oks);
      errors = omega (arith, sums.errors);
      not_found = omega (arith, sums.not_found);
      bounds = add_each-Bounds first rs;
    }

-- A total takes each extreme from some instance: the least time is one of theirs.
add_each-min :
    (total : WorkloadResult) (rs : List WorkloadResult) (m : ℕ)
    → m ≤ total.min_time_ms
    → All (λ r. m ≤ r.min_time_ms) rs
    → m ≤ (add_each total rs).min_time_ms
unfolding add_each
add_each-min total [] m low h = low
add_each-min total (r ∷ rs) m low (here, h) = add_each-min (add_result total r) rs m (omega arith) h

add_each-max :
    (total : WorkloadResult) (rs : List WorkloadResult) (m : ℕ)
    → total.max_time_ms ≤ m
    → All (λ r. r.max_time_ms ≤ m) rs
    → (add_each total rs).max_time_ms ≤ m
unfolding add_each
add_each-max total [] m high h = high
add_each-max total (r ∷ rs) m high (here, h) =
    add_each-max (add_result total r) rs m (omega arith) h

-- The times of the total are the tightest: of at least one instance, it has the greatest lower
-- bound of the least times and the least upper bound of the greatest.
pub calc_aggregated_result-tight :
    (r : WorkloadResult) (results : List WorkloadResult) (low high : ℕ)
    → All (λ s. (low ≤ s.min_time_ms) × (s.max_time_ms ≤ high)) (r ∷ results)
    → (low ≤ (calc_aggregated_result (r ∷ results)).min_time_ms)
      × ((calc_aggregated_result (r ∷ results)).max_time_ms ≤ high)
unfolding calc_aggregated_result
calc_aggregated_result-tight r rs low high h = (
  add_each-min _ (r ∷ rs) low h.0.0 (lows (r ∷ rs) h),
  add_each-max _ (r ∷ rs) high (omega arith) (highs (r ∷ rs) h),
)
  where
    lows :
        (xs : List WorkloadResult)
        → All (λ s. (low ≤ s.min_time_ms) × (s.max_time_ms ≤ high)) xs
        → All (λ s. low ≤ s.min_time_ms) xs
    lows [] h = _
    lows (x ∷ xs) (here, h) = (here.0, lows xs h)

    highs :
        (xs : List WorkloadResult)
        → All (λ s. (low ≤ s.min_time_ms) × (s.max_time_ms ≤ high)) xs
        → All (λ s. s.max_time_ms ≤ high) xs
    highs [] h = _
    highs (x ∷ xs) (here, h) = (here.1, highs xs h)
