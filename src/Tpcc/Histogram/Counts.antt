-- ===== src/Tpcc/Histogram/Counts.antt =====
-- Counting values into buckets.
use mathlib.Core.Option
use benchhelpers.Prelude.{
  >>=-eq-ok, All, All-map, Bool-cases, List, [], ap, arith, get_elem?, if◌then◌else◌, inl, inr, leb,
  length, length-replicate, ok, refl, replicate, some, suc, sum, tests, zero, ℕ, ◌+◌, ◌<◌, ◌==◌,
  ◌>>=◌, ◌↔◌, ◌∙◌, ◌∷◌, ◌≡◌, ◌≤◌,
}
use benchhelpers.Tpcc.Histogram.{
  Histogram, IsWf, histogram, sorted, insert, bisect_right, bump, add, add_bucket, count,
  total_count,
}

abbrev pub IsSorted : List ℕ → Type 0
IsSorted [] = Unit
IsSorted (x ∷ xs) = All (λ y. x ≤ y) xs × IsSorted xs

insert-All : (P : ℕ → Type 0) (x : ℕ) (ys : List ℕ) → P x → All P ys → All P (insert x ys)
unfolding insert
insert-All P x [] px h = (px, tt)
insert-All P x (y ∷ ys) px h = elim (Bool-cases (leb x y)) [
  | inl low ↦ rw low (px, h)
  | inr high ↦ rw high (h.0, insert-All P x ys px h.1)
]

insert-IsSorted : (x : ℕ) (ys : List ℕ) → IsSorted ys → IsSorted (insert x ys)
unfolding insert
insert-IsSorted x [] h = (tt, tt)
insert-IsSorted x (y ∷ ys) h = elim (Bool-cases (leb x y)) [
  | inl low ↦ let le : x ≤ y = omega tests in rw low ((le, All-map (λ z k. omega arith) ys h.0), h)
  | inr high ↦
      let le : y ≤ x = ground arith in
      rw high (insert-All (λ z. y ≤ z) x ys le h.0, insert-IsSorted x ys h.1)
]

sorted-IsSorted : (xs : List ℕ) → IsSorted (sorted xs)
unfolding sorted
sorted-IsSorted [] = tt
sorted-IsSorted (x ∷ xs) = insert-IsSorted x (sorted xs) (sorted-IsSorted xs)

-- In a sorted list the elements at most the value are those before the returned index.
pub bisect_right_lem :
    (xs : List ℕ) (value j : ℕ) {x : ℕ}
    → IsSorted xs
    → get_elem? xs j ≡ some x
    → (x ≤ value) ↔ (j < bisect_right xs value)
unfolding bisect_right
bisect_right_lem [] v j s e = cc
bisect_right_lem (y ∷ ys) v zero s e = ground arith
bisect_right_lem (y ∷ ys) v (suc j) {x} s e =
    ground (arith, bisect_right_lem ys v j {x = x} s.1 e, All-get_elem? ys j s.0 e)
  where
    All-get_elem? : (zs : List ℕ) (k : ℕ) → All (λ z. y ≤ z) zs → get_elem? zs k ≡ some x → y ≤ x
    All-get_elem? [] k h q = cc
    All-get_elem? (z ∷ zs) zero h q = ground arith
    All-get_elem? (z ∷ zs) (suc k) h q = All-get_elem? zs k h.1 q

-- A fresh histogram is well formed, sorted and empty, whatever list it is made from.
pub histogram_lem :
    (bucketlist : List ℕ)
    → IsWf (histogram bucketlist)
      × IsSorted (histogram bucketlist).bucketlist
      × (total_count (histogram bucketlist) ≡ 0)
unfolding histogram total_count
histogram_lem bl = (length-replicate _ 0, sorted-IsSorted bl, zeros (length (sorted bl) + 1))
  where
    zeros : (n : ℕ) → sum (replicate n 0) ≡ 0
    zeros zero = refl
    zeros (suc n) = omega (arith, zeros n)

bump-inside :
    (bs : List ℕ) (i v : ℕ)
    → i < length bs
    → (cs : List ℕ) × (bump bs i v ≡ ok cs)
      × (length cs ≡ length bs)
      × (sum cs ≡ sum bs + v)
      × ((j : ℕ)
          → get_elem? cs j
            ≡ (if i == j then Option.map (λ n. n + v) (get_elem? bs j) else get_elem? bs j))
bump-inside [] i v h = absurd (omega arith)
bump-inside (b ∷ bs) zero v h = ((b + v) ∷ bs, refl, refl, omega arith, at_head)
  where
    at_head :
        (j : ℕ)
        → get_elem? ((b + v) ∷ bs) j ≡ (
            if 0 == j then Option.map (λ n. n + v) (get_elem? (b ∷ bs) j) else get_elem? (b ∷ bs) j)
    at_head zero = refl
    at_head (suc j) = ground arith
bump-inside (b ∷ bs) (suc i) v h =
    let (cs, made, len, total, each) = bump-inside bs i v (omega arith) in
    (b ∷ cs, rw made, omega (arith, len), omega (arith, total), in_tail cs each)
  where
    in_tail :
        (cs : List ℕ)
        → ((j : ℕ)
            → get_elem? cs j
              ≡ (if i == j then Option.map (λ n. n + v) (get_elem? bs j) else get_elem? bs j))
        → (j : ℕ)
        → get_elem? (b ∷ cs) j ≡ (
            if suc i == j
            then Option.map (λ n. n + v) (get_elem? (b ∷ bs) j)
            else get_elem? (b ∷ bs) j)
    in_tail cs each zero = ground arith
    in_tail cs each (suc j) = ground (arith, each j)

bisect_right-le : (xs : List ℕ) (v : ℕ) → bisect_right xs v ≤ length xs
unfolding bisect_right
bisect_right-le [] v = omega arith
bisect_right-le (x ∷ xs) v = ground (arith, bisect_right-le xs v)

-- Adding a value to a well-formed histogram succeeds, keeps it well formed with the same bounds,
-- raises the total by one, and raises by one what `count` returns for exactly the values that fall
-- into the bucket of the added one.
pub add_lem :
    (h : Histogram) (value : ℕ)
    → IsWf h
    → (g : Histogram) × (add h value ≡ ok g)
      × IsWf g
      × (g.bucketlist ≡ h.bucketlist)
      × (total_count g ≡ total_count h + 1)
      × ((u : ℕ)
          → count g u ≡ (
              count h u >>= λ n. ok (
                if bisect_right h.bucketlist value == bisect_right h.bucketlist u
                then n + 1
                else n)))
unfolding add total_count count
add_lem h value wf =
    let i = bisect_right h.bucketlist value in
    let (cs, made, len, total, each) =
      bump-inside h.buckets i 1 (omega (arith, bisect_right-le h.bucketlist value)) in
    (
      record h { buckets = cs },
      rw made,
      omega (arith, len),
      refl,
      total,
      λ u. ground (arith, each (bisect_right h.bucketlist u)),
    )

bump-sum : (bs : List ℕ) (i v : ℕ) {cs : List ℕ} → bump bs i v ≡ ok cs → sum cs ≡ sum bs + v
bump-sum [] i v e = cc
bump-sum (b ∷ bs) zero v e = ground arith
bump-sum (b ∷ bs) (suc i) v e =
    let (ds, made, same) = >>=-eq-ok (bump bs i v) _ e in ground (arith, bump-sum bs i v made)

pub add_bucket-total_count :
    (h : Histogram) (i v : ℕ) {g : Histogram}
    → add_bucket h i v ≡ ok g
    → total_count g ≡ total_count h + v
unfolding add_bucket total_count
add_bucket-total_count h i v e =
    let (cs, made, same) = >>=-eq-ok (bump h.buckets i v) _ e in
    ground (arith, bump-sum h.buckets i v made)

bump-length : (bs : List ℕ) (i v : ℕ) {cs : List ℕ} → bump bs i v ≡ ok cs → length cs ≡ length bs
bump-length [] i v e = cc
bump-length (b ∷ bs) zero v e = ground arith
bump-length (b ∷ bs) (suc i) v e =
    let (ds, made, same) = >>=-eq-ok (bump bs i v) _ e in ground (arith, bump-length bs i v made)

pub add_bucket-IsWf :
    (h : Histogram) (i v : ℕ) {g : Histogram}
    → IsWf h
    → add_bucket h i v ≡ ok g
    → IsWf g × (g.bucketlist ≡ h.bucketlist)
unfolding add_bucket
add_bucket-IsWf h i v wf e =
    let (cs, made, same) = >>=-eq-ok (bump h.buckets i v) _ e in
    (ground (arith, bump-length h.buckets i v made), ground arith)

length-insert : (x : ℕ) (ys : List ℕ) → length (insert x ys) ≡ suc (length ys)
unfolding insert
length-insert x [] = refl
length-insert x (y ∷ ys) = ground (arith, length-insert x ys)

length-sorted : (xs : List ℕ) → length (sorted xs) ≡ length xs
unfolding sorted
length-sorted [] = refl
length-sorted (x ∷ xs) = length-insert x (sorted xs) ∙ ap suc (length-sorted xs)

pub length-histogram : (bl : List ℕ) → length (histogram bl).bucketlist ≡ length bl
unfolding histogram
length-histogram bl = length-sorted bl
