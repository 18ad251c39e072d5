-- ===== src/DiskPerformance/Stats/Median.antt =====
-- The median halves the values.
use benchhelpers.Prelude.{
  ==_iff, All, All-map, Bool-cases, List, [], arith, get_elem?, inl, inr, leb, length, refl, some,
  suc, zero, ℕ, ◌%◌, ◌*◌, ◌+◌, ◌-◌, ◌/◌, ◌<◌, ◌==◌, ◌∷◌, ◌≡◌, ◌≤◌,
}
use benchhelpers.Prelude.Sorting.{
  sort_by, IsSorted, sort_by-IsSorted, count_if, count_if-sort_by, length-sort_by,
}
use benchhelpers.DiskPerformance.Stats.{middle, median}

get_elem-in : (xs : List ℕ) (i : ℕ) → i < length xs → (a : ℕ) × (get_elem? xs i ≡ some a)
get_elem-in [] i lt = absurd (omega arith)
get_elem-in (x ∷ xs) zero lt = (x, refl)
get_elem-in (x ∷ xs) (suc i) lt = get_elem-in xs i (omega arith)

All-at : (P : ℕ → Type 0) (xs : List ℕ) (i a : ℕ) → get_elem? xs i ≡ some a → All P xs → P a
All-at P [] i a e h = cc
All-at P (x ∷ xs) zero a e (h, rest) = let e' : x ≡ a = cc in rw (← e') h
All-at P (x ∷ xs) (suc i) a e (h, rest) = All-at P xs i a e rest

abbrev id : ℕ → ℕ
id n = n

-- In a sorted list the elements before a place are at most what stands there.
count_below :
    (xs : List ℕ) (i a m : ℕ)
    → IsSorted id xs
    → get_elem? xs i ≡ some a
    → a ≤ m
    → suc i ≤ count_if (λ n. leb n m) xs
count_below [] i a m h e le = cc
count_below (x ∷ xs) zero a m (h, rest) e le = let e' : x ≡ a = cc in ground arith
count_below (x ∷ xs) (suc i) a m (h, rest) e le =
    let first : x ≤ a = All-at (λ y. x ≤ y) xs i a e h in
    let more = count_below xs i a m rest e le in ground arith

every_one : (xs : List ℕ) (m : ℕ) → All (λ y. m ≤ y) xs → count_if (λ n. leb m n) xs ≡ length xs
every_one [] m h = refl
every_one (x ∷ xs) m (h, rest) = let more = every_one xs m rest in ground arith

count_above :
    (xs : List ℕ) (i a m : ℕ)
    → IsSorted id xs
    → get_elem? xs i ≡ some a
    → m ≤ a
    → length xs ≤ i + count_if (λ n. leb m n) xs
count_above [] i a m h e le = cc
count_above (x ∷ xs) zero a m (h, rest) e le =
    let e' : x ≡ a = cc in
    let above : m ≤ x = omega arith in
    let each = All-map {P = λ y. x ≤ y} {Q = λ y. m ≤ y} (λ y k. omega arith) xs h in
    let more = every_one xs m each in ground arith
count_above (x ∷ xs) (suc i) a m (h, rest) e le =
    let more = count_above xs i a m rest e le in ground arith

next_le :
    (xs : List ℕ) (i a b : ℕ)
    → IsSorted id xs
    → get_elem? xs i ≡ some a
    → get_elem? xs (suc i) ≡ some b
    → a ≤ b
next_le [] i a b h e f = cc
next_le (x ∷ xs) zero a b (h, rest) e f =
    let e' : x ≡ a = cc in let le : x ≤ b = All-at (λ y. x ≤ y) xs 0 b f h in omega arith
next_le (x ∷ xs) (suc i) a b (h, rest) e f = next_le xs i a b rest e f

odd_middle :
    (xs : List ℕ) (n : ℕ)
    → IsSorted id xs
    → length xs ≡ n
    → n % 2 ≡ 1
    → (a : ℕ) × (get_elem? xs (n / 2) ≡ some a)
      × (n ≤ 2 * count_if (λ x. leb x a) xs)
      × (n ≤ 2 * count_if (λ x. leb a x) xs)
odd_middle xs n sorted same odd =
    let (a, e) = get_elem-in xs (n / 2) (omega arith) in
    let below = count_below xs (n / 2) a a sorted e (omega arith) in
    let above = count_above xs (n / 2) a a sorted e (omega arith) in
    (a, e, omega arith, omega arith)

even_middle :
    (xs : List ℕ) (n : ℕ)
    → IsSorted id xs
    → length xs ≡ n
    → 0 < n
    → n % 2 ≡ 0
    → (m : ℕ) × (middle (get_elem? xs (n / 2 - 1)) (get_elem? xs (n / 2)) ≡ some m)
      × (n ≤ 2 * count_if (λ x. leb x m) xs)
      × (n ≤ 2 * count_if (λ x. leb m x) xs)
even_middle xs n sorted same some_values even =
    let (a, e) = get_elem-in xs (n / 2 - 1) (omega arith) in
    let (b, f) = get_elem-in xs (n / 2) (omega arith) in
    let next : suc (n / 2 - 1) ≡ n / 2 = omega arith in
    let le = next_le xs (n / 2 - 1) a b sorted e (rw next f) in
    let below = count_below xs (n / 2 - 1) a ((a + b) / 2) sorted e (omega arith) in
    let above = count_above xs (n / 2) b ((a + b) / 2) sorted f (omega arith) in
    ((a + b) / 2, rw (e, f) refl, omega arith, omega arith)

-- What halves the values: at least half of them are at most this, and at least half at least this.
abbrev pub Halves : ℕ → List ℕ → Type 0
Halves m ns =
    (length ns ≤ 2 * count_if (λ n. leb n m) ns) × (length ns ≤ 2 * count_if (λ n. leb m n) ns)

-- The same, of the sorted values.
halves :
    (ns : List ℕ) (m : ℕ)
    → length ns ≤ 2 * count_if (λ n. leb n m) (sort_by id ns)
    → length ns ≤ 2 * count_if (λ n. leb m n) (sort_by id ns)
    → Halves m ns
halves ns m below above = (
  rw (← count_if-sort_by id (λ n. leb n m) ns) below,
  rw (← count_if-sort_by id (λ n. leb m n) ns) above,
)

-- The median of some values halves them.
pub median-Halves : (v : ℕ) (vs : List ℕ) → (m : ℕ) × (median (v ∷ vs) ≡ some m) × Halves m (v ∷ vs)
unfolding median
median-Halves v vs =
    let sorted = sort_by-IsSorted id (v ∷ vs) in
    let same = length-sort_by id (v ∷ vs) in
    elim (Bool-cases (length (v ∷ vs) % 2 == 1)) [
      | inl odd ↦
          let (a, e, below, above) =
            odd_middle (sort_by id (v ∷ vs)) (length (v ∷ vs)) sorted same ((==_iff _ _).0 odd) in
          (a, rw odd e, halves (v ∷ vs) a below above)
      | inr even ↦
          let (m, e, below, above) =
            even_middle (sort_by id (v ∷ vs)) (length (v ∷ vs)) sorted same (omega arith)
              (ground arith) in
          (m, rw even e, halves (v ∷ vs) m below above)
    ]
