-- ===== src/Tpcc/Histogram.antt =====
-- `Aggregator.Histogram` of tpcc/ydb/tpcc_helper.py.
-- Bounds and values are numbers. `sorted` is insertion sort, and the binary search of
-- `bisect.bisect_right` is its documented result on a sorted list.
pub mod Counts
pub mod Percentiles
mod Tests
use benchhelpers.Prelude.{
  Bool, List, Result, String, [], err, get_elem?, if◌then◌else◌, index_error, leb, length, none, ok,
  replicate, show, some, suc, sum, zero, zero_division_error, ℕ, ◌+◌, ◌-◌, ◌<>◌, ◌==◌, ◌>>=◌, ◌>>◌,
  ◌∷◌, ◌≡◌,
}

pub record Histogram : Type 0 where
  pub bucketlist : List ℕ
  pub buckets : List ℕ

-- One bucket more than bounds.
abbrev pub IsWf : Histogram → Type 0
IsWf h = length h.buckets ≡ length h.bucketlist + 1

insert : ℕ → List ℕ → List ℕ
insert x [] = x ∷ []
insert x (y ∷ ys) = if leb x y then x ∷ y ∷ ys else y ∷ insert x ys

-- `sorted(xs)`
unfoldable pub sorted : List ℕ → List ℕ
unfolding insert
sorted [] = []
sorted (x ∷ xs) = insert x (sorted xs)

-- `bisect.bisect_right(xs, value)`: the number of leading elements that are at most the value.
unfoldable pub bisect_right : List ℕ → ℕ → ℕ
bisect_right [] value = 0
bisect_right (x ∷ xs) value =
    let rest = bisect_right xs value in if leb x value then suc rest else 0

-- `Histogram.__init__`
unfoldable pub histogram : List ℕ → Histogram
unfolding sorted
histogram bucketlist = record {
  bucketlist = sorted bucketlist;
  buckets = replicate (length (sorted bucketlist) + 1) 0;
}

-- `buckets[i] += value`
abbrev pub bump : List ℕ → ℕ → ℕ → Result (List ℕ)
bump [] i value = err index_error
bump (b ∷ bs) zero value = ok ((b + value) ∷ bs)
bump (b ∷ bs) (suc i) value = bump bs i value >>= λ rest. ok (b ∷ rest)

unfoldable pub add_bucket : Histogram → ℕ → ℕ → Result Histogram
add_bucket h bucket_index value = do
  buckets ← bump h.buckets bucket_index value
  ok (record h { buckets = buckets })

unfoldable pub add : Histogram → ℕ → Result Histogram
unfolding add_bucket bisect_right
add h value = add_bucket h (bisect_right h.bucketlist value) 1

-- `h.count(value)`
unfoldable pub count : Histogram → ℕ → Result ℕ
unfolding bisect_right
count h value = elim (get_elem? h.buckets (bisect_right h.bucketlist value)) [
  | none ↦ err index_error
  | some n ↦ ok n
]

-- `total_count`, and `len(h)`
unfoldable pub total_count : Histogram → ℕ
total_count h = sum h.buckets

-- What `percentile` returns: a bound, or the text "<first" or ">= last".
pub data Bound : Type 0 where
  at below at_least : ℕ → Bound

-- `xs[-1]`
abbrev pub last : List ℕ → Result ℕ
last [] = err index_error
last (x ∷ []) = ok x
last (x ∷ y ∷ ys) = last (y ∷ ys)

-- `xs[i]`
abbrev pub item : List ℕ → ℕ → Result ℕ
item xs i = elim (get_elem? xs i) [ none ↦ err index_error | some x ↦ ok x ]

-- What is returned for the bucket at index `i`: its lower bound, or "<first" for the first.
abbrev pub bucket_bound : List ℕ → ℕ → Result Bound
bucket_bound bucketlist i =
    if i == 0
    then (item bucketlist 0 >>= λ b. ok (below b))
    else (item bucketlist (i - 1) >>= λ b. ok (at b))

-- `reached c t` is the test `c / t >= percentile / 100.0` of one percentile, for 0 < t.
module _ (reached : ℕ → ℕ → Bool) where
  -- The loop over the buckets from index `i`.
  percentile_loop : List ℕ → ℕ → ℕ → List ℕ → ℕ → Result Bound
  percentile_loop [] i cumulative bucketlist total = last bucketlist >>= λ b. ok (at_least b)
  percentile_loop (n ∷ ns) i cumulative bucketlist total =
      let rest = percentile_loop ns (i + 1) (cumulative + n) bucketlist total in
      if total == 0
      then err zero_division_error
      else if reached (cumulative + n) total
      then bucket_bound bucketlist i
      else rest

  unfoldable pub percentile : Histogram → Result Bound
  unfolding percentile_loop total_count
  percentile h = percentile_loop h.buckets 0 0 h.bucketlist (total_count h)

-- `__repr__`
repr_loop : List ℕ → ℕ → ℕ → List ℕ → Result String
repr_loop [] i n bucketlist = ok ""
repr_loop (b ∷ bs) i n bucketlist = do
  part ←
      if i == 0
      then (item bucketlist 0 >>= λ k. ok ("<" <> show k <> ": " <> show b <> ", "))
      else if i + 1 == n
      then (item bucketlist (i - 1) >>= λ k. ok (">=" <> show k <> ": " <> show b))
      else (do
        lo ← item bucketlist (i - 1)
        hi ← item bucketlist i
        ok (show lo <> "-" <> show hi <> ": " <> show b <> ", "))
  rest ← repr_loop bs (i + 1) n bucketlist
  ok (part <> rest)

unfoldable pub repr : Histogram → Result String
unfolding repr_loop
repr h = repr_loop h.buckets 0 (length h.buckets) h.bucketlist
