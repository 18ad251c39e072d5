-- ===== src/Tpcc/Histogram/Tests.antt =====
-- A histogram filled by hand, and the theorems at it.
use benchhelpers.Prelude.{
  Bool, [], arith, if◌then◌else◌, leb, leb→le, le→leb, ok, refl, show, ℕ, ◌*◌, ◌+◌, ◌==◌, ◌>>=◌,
  ◌∷◌, ◌≡◌, ◌≤◌,
}
use benchhelpers.Tpcc.Histogram.{
  Histogram, IsWf, at, bucket_bound, histogram, add, count, percentile, total_count, bisect_right,
  repr,
}
use benchhelpers.Tpcc.Histogram.Counts.{add_lem}
use benchhelpers.Tpcc.Histogram.Percentiles.{IsShareTest, IsFirst, percentile-IsFirst}

abbrev sample : Histogram
sample = record { bucketlist = 1 ∷ 5 ∷ 10 ∷ []; buckets = 2 ∷ 5 ∷ 2 ∷ 1 ∷ [] }

-- The exact test: c / t is at least p hundredths.
abbrev hundredths : ℕ → ℕ → ℕ → Bool
hundredths p c t = leb (p * t) (100 * c)

hundredths-IsShareTest : (p : ℕ) → p ≤ 100 → IsShareTest (hundredths p)
hundredths-IsShareTest p h = record {
  grows = λ c d t le reached. le→leb _ _ (omega (arith, leb→le (p * t) (100 * c) reached));
  whole = λ t pos. le→leb _ _ (grind arith);
}

fresh :
    histogram (10 ∷ 1 ∷ 5 ∷ [])
    ≡ record { bucketlist = 1 ∷ 5 ∷ 10 ∷ []; buckets = 0 ∷ 0 ∷ 0 ∷ 0 ∷ [] }
unfolding histogram
fresh = refl

median : percentile (hundredths 50) sample ≡ ok (at 1)
unfolding percentile
median = refl

shown : repr sample ≡ ok "<1: 2, 1-5: 5, 5-10: 2, >=10: 1"
unfolding repr show
shown = refl

add_lem_example :
    (g : Histogram) × (add sample 7 ≡ ok g)
    × IsWf g
    × (g.bucketlist ≡ sample.bucketlist)
    × (total_count g ≡ total_count sample + 1)
    × ((u : ℕ)
        → count g u ≡ (
            count sample u >>= λ n. ok (
              if bisect_right sample.bucketlist 7 == bisect_right sample.bucketlist u
              then n + 1
              else n)))
add_lem_example = add_lem sample 7 refl

percentile-IsFirst_example :
    (i : ℕ) × IsFirst (hundredths 90) sample.buckets 0 (total_count sample) i
    × (percentile (hundredths 90) sample ≡ bucket_bound sample.bucketlist i)
unfolding total_count
percentile-IsFirst_example =
    percentile-IsFirst (hundredths 90) sample (hundredths-IsShareTest 90 (omega arith))
      (omega arith)
