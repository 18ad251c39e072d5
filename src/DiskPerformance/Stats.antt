-- ===== src/DiskPerformance/Stats.antt =====
-- `metric_median` and `make_bw_stats` of disk_performance/aggregate.py. `statistics.median` is defined
-- as the library documents it; `statistics.pstdev` is an argument.
pub mod Median
use benchhelpers.Prelude.{
  List, Option, [], get_elem?, if◌then◌else◌, length, ltb, none, some, ℕ, ◌%◌, ◌+◌, ◌-◌, ◌/◌, ◌==◌,
  ◌∷◌,
}
use benchhelpers.Prelude.Sorting.{sort_by}
use benchhelpers.DiskPerformance.{Sample}

-- The keys of a sample, and `s.get(key)`
pub data Key : Type 0 where
  bw iops p50 p90 p95 p99 p99_9 : Key

abbrev pub get : Key → Sample → Option ℕ
get bw s = some s.bw
get iops s = some s.iops
get p50 s = s.p50
get p90 s = s.p90
get p95 s = s.p95
get p99 s = s.p99
get p99_9 s = s.p99_9

-- `[s[key] for s in samples if s.get(key) is not None]`
unfoldable pub values : Key → List Sample → List ℕ
values key [] = []
values key (s ∷ samples) =
    let rest = values key samples in elim (get key s) [ none ↦ rest | some v ↦ v ∷ rest ]

abbrev pub middle : Option ℕ → Option ℕ → Option ℕ
middle (some a) (some b) = some ((a + b) / 2)
middle (some a) none = none
middle none b = none

-- `int(statistics.median(values))`; without values there is none.
unfoldable pub median : List ℕ → Option ℕ
median ns =
    let sorted = sort_by (λ n. n) ns in
    let half = length ns / 2 in
    if length ns % 2 == 1
    then get_elem? sorted half
    else middle (get_elem? sorted (half - 1)) (get_elem? sorted half)

unfoldable pub metric_median : List Sample → Key → Option ℕ
metric_median samples key = elim (values key samples) [ [] ↦ none | v ∷ vs ↦ median (v ∷ vs) ]

abbrev pub minimum : ℕ → List ℕ → ℕ
minimum n [] = n
minimum n (m ∷ ms) = minimum (if ltb m n then m else n) ms

abbrev pub maximum : ℕ → List ℕ → ℕ
maximum n [] = n
maximum n (m ∷ ms) = maximum (if ltb n m then m else n) ms

pub record BwStats (F : Type 0) : Type 0 where
  pub min_bw : Option ℕ
  pub max_bw : Option ℕ
  pub median_bw : Option ℕ
  pub stddev : Option F

module _ {F : Type 0} (zero_stddev : F) (pstdev : List ℕ → F) where
  abbrev pub bw_stats : List ℕ → BwStats F
  bw_stats [] = record { min_bw = none; max_bw = none; median_bw = none; stddev = none }
  bw_stats (n ∷ []) = record {
    min_bw = some n;
    max_bw = some n;
    median_bw = some n;
    stddev = some zero_stddev;
  }
  bw_stats (n ∷ m ∷ ms) = record {
    min_bw = some (minimum n (m ∷ ms));
    max_bw = some (maximum n (m ∷ ms));
    median_bw = median (n ∷ m ∷ ms);
    stddev = some (pstdev (n ∷ m ∷ ms));
  }

  unfoldable pub make_bw_stats : List Sample → BwStats F
  make_bw_stats samples = bw_stats (values bw samples)
