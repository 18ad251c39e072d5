-- ===== src/Tpcc/Histogram/Percentiles.antt =====
-- What `percentile` returns.
use benchhelpers.Prelude.{
  Bool, Bool-cases, List, [], ap, arith, dec_le, err, false, inl, inr, length, ok, refl, suc, sum,
  take, true, zero, zero_division_error, ℕ, ◌+◌, ◌-◌, ◌<◌, ◌∙◌, ◌∷◌, ◌≡◌, ◌≢◌, ◌≤◌,
}
use benchhelpers.Tpcc.Histogram.{
  Histogram, Bound, at, below, at_least, bucket_bound, percentile, percentile_loop, total_count,
  item, IsWf,
}

-- What is used of the floating-point test `c / t >= percentile / 100.0`, for a percentile of at
-- most 100: a quotient grows with its numerator, and t / t is 1.
pub record IsShareTest (reached : ℕ → ℕ → Bool) : Type 0 where
  pub grows : (c d t : ℕ) → c ≤ d → reached c t ≡ true → reached d t ≡ true
  pub whole : (t : ℕ) → 0 < t → reached t t ≡ true

-- The count of the buckets up to index `i`.
abbrev pub cumulative : List ℕ → ℕ → ℕ
cumulative ns i = sum (take (suc i) ns)

-- The bucket at index `i` is the first at which the share is reached.
pub record IsFirst (reached : ℕ → ℕ → Bool) (ns : List ℕ) (c total i : ℕ) : Type 0 where
  pub inside : i < length ns
  pub here : reached (c + cumulative ns i) total ≡ true
  pub before : (j : ℕ) → j < i → reached (c + cumulative ns j) total ≡ false

module _ (reached : ℕ → ℕ → Bool) where
  shift : (c n x t : ℕ) {b : Bool} → reached (c + n + x) t ≡ b → reached (c + (n + x)) t ≡ b
  shift c n x t h = let e : c + (n + x) ≡ c + n + x = omega arith in rw e h

  IsFirst-zero :
      (n : ℕ) (ns : List ℕ) (c total : ℕ)
      → reached (c + n) total ≡ true
      → IsFirst reached (n ∷ ns) c total 0
  IsFirst-zero n ns c total h =
      let e : c + (n + 0) ≡ c + n = omega arith in
      record { inside = omega arith; here = rw e h; before = λ j lt. absurd (omega arith) }

  IsFirst-suc :
      (n : ℕ) (ns : List ℕ) (c total j : ℕ)
      → reached (c + n) total ≡ false
      → IsFirst reached ns (c + n) total j
      → IsFirst reached (n ∷ ns) c total (suc j)
  IsFirst-suc n ns c total j miss f = record {
    inside = omega (arith, f.inside);
    here = shift c n (cumulative ns j) total f.here;
    before = earlier;
  }
    where
      earlier : (k : ℕ) → k < suc j → reached (c + cumulative (n ∷ ns) k) total ≡ false
      earlier zero lt = let e : c + (n + 0) ≡ c + n = omega arith in rw e miss
      earlier (suc k) lt = shift c n (cumulative ns k) total (f.before k (omega arith))

  percentile_loop-IsFirst :
      (ns : List ℕ) (i c total : ℕ) (bl : List ℕ)
      → 0 < total
      → 0 < length ns
      → reached (c + sum ns) total ≡ true
      → (j : ℕ) × IsFirst reached ns c total j
        × (percentile_loop reached ns i c bl total ≡ bucket_bound bl (i + j))
  unfolding percentile_loop
  percentile_loop-IsFirst [] i c total bl pos some_ns full = absurd (omega arith)
  percentile_loop-IsFirst (n ∷ []) i c total bl pos some_ns full =
      let e : c + n ≡ c + (n + 0) = omega arith in
      let e' : i + 0 ≡ i = omega arith in
      let hit : reached (c + n) total ≡ true = rw e full in
      (0, IsFirst-zero n [] c total hit, rw (hit, e') (ground arith))
  percentile_loop-IsFirst (n ∷ m ∷ ns) i c total bl pos some_ns full =
      elim (Bool-cases (reached (c + n) total)) [
        | inl hit ↦
            let e' : i + 0 ≡ i = omega arith in
            (0, IsFirst-zero n (m ∷ ns) c total hit, rw (hit, e') (ground arith))
        | inr miss ↦
            let e : c + n + sum (m ∷ ns) ≡ c + (n + sum (m ∷ ns)) = omega arith in
            let (j, f, same) =
              percentile_loop-IsFirst (m ∷ ns) (i + 1) (c + n) total bl pos (omega arith)
                (rw e full) in
            let e' : i + suc j ≡ i + 1 + j = omega arith in
            (suc j, IsFirst-suc n (m ∷ ns) c total j miss f, rw (miss, e', ← same) (ground arith))
      ]

  -- For a histogram that holds a value, the result names the first bucket at which the cumulative
  -- count reaches the percentile's share of the total.
  pub percentile-IsFirst :
      (h : Histogram)
      → IsShareTest reached
      → 0 < total_count h
      → (i : ℕ) × IsFirst reached h.buckets 0 (total_count h) i
        × (percentile reached h ≡ bucket_bound h.bucketlist i)
  unfolding percentile
  percentile-IsFirst h test pos =
      let e : 0 + sum h.buckets ≡ sum h.buckets = omega arith in
      let e' : (k : ℕ) → 0 + k ≡ k = λ k. omega arith in
      let (i, f, same) =
        percentile_loop-IsFirst h.buckets 0 0 (sum h.buckets) h.bucketlist pos
          (some_buckets h.buckets pos) (rw e (test.whole (sum h.buckets) pos)) in
      (i, f, same ∙ ap (bucket_bound h.bucketlist) (e' i))
    where
      some_buckets : (ns : List ℕ) → 0 < sum ns → 0 < length ns
      some_buckets [] p = absurd (omega arith)
      some_buckets (n ∷ ns) p = omega arith

item-inside : (xs : List ℕ) (i : ℕ) → i < length xs → (x : ℕ) × (item xs i ≡ ok x)
item-inside [] i h = absurd (omega arith)
item-inside (x ∷ xs) zero h = (x, refl)
item-inside (x ∷ xs) (suc i) h = item-inside xs i (omega arith)

bucket_bound_total :
    (bl : List ℕ) (i : ℕ)
    → 0 < length bl
    → i < length bl + 1
    → (b : Bound) × (bucket_bound bl i ≡ ok b) × ((v : ℕ) → b ≢ at_least v)
bucket_bound_total bl zero some_bounds h =
    let (x, e) = item-inside bl 0 some_bounds in (below x, rw e, λ v. cc)
bucket_bound_total bl (suc i) some_bounds h =
    let back : suc i - 1 ≡ i = omega arith in
    let (x, e) = item-inside bl (suc i - 1) (omega arith) in (at x, ground arith, λ v. cc)

-- A histogram with bounds and one bucket more, which holds a value, has every percentile, and it
-- is never the ">= last" that the loop falls through to.
pub percentile_total :
    (reached : ℕ → ℕ → Bool) (h : Histogram)
    → IsShareTest reached
    → IsWf h
    → 0 < length h.bucketlist
    → 0 < total_count h
    → (b : Bound) × (percentile reached h ≡ ok b) × ((v : ℕ) → b ≢ at_least v)
percentile_total reached h test wf some_bounds pos =
    let (i, f, same) = percentile-IsFirst reached h test pos in
    let (b, e, ne) = bucket_bound_total h.bucketlist i some_bounds (omega (arith, f.inside)) in
    (b, same ∙ e, ne)

percentile_loop_empty :
    (reached : ℕ → ℕ → Bool) (ns : List ℕ) (i c : ℕ) (bl : List ℕ)
    → 0 < length ns
    → percentile_loop reached ns i c bl 0 ≡ err zero_division_error
unfolding percentile_loop
percentile_loop_empty reached [] i c bl h = absurd (omega arith)
percentile_loop_empty reached (n ∷ ns) i c bl h = refl

-- An empty histogram has no percentile: the first test divides by zero.
pub percentile_empty :
    (reached : ℕ → ℕ → Bool) (h : Histogram)
    → IsWf h
    → total_count h ≡ 0
    → percentile reached h ≡ err zero_division_error
unfolding percentile
percentile_empty reached h wf none_counted =
    ap (percentile_loop reached h.buckets 0 0 h.bucketlist) none_counted
    ∙ percentile_loop_empty reached h.buckets 0 0 h.bucketlist (omega arith)

-- A higher percentile is found at the same bucket or a later one.
pub percentile_mono :
    (lower higher : ℕ → ℕ → Bool) (h : Histogram)
    → IsShareTest lower
    → IsShareTest higher
    → ((c t : ℕ) → higher c t ≡ true → lower c t ≡ true)
    → 0 < total_count h
    → (i j : ℕ) × (percentile lower h ≡ bucket_bound h.bucketlist i)
      × (percentile higher h ≡ bucket_bound h.bucketlist j)
      × (i ≤ j)
percentile_mono lower higher h test_l test_h stronger pos =
    let (i, f, same_i) = percentile-IsFirst lower h test_l pos in
    let (j, g, same_j) = percentile-IsFirst higher h test_h pos in
    (
      i,
      j,
      same_i,
      same_j,
      elim (dec_le i j) [
        | yes order ↦ order
        | no late ↦
            let hit : lower (0 + cumulative h.buckets j) (total_count h) ≡ true =
              stronger _ _ g.here in
            absurd (cc (hit, f.before j (omega arith)))
      ],
    )
