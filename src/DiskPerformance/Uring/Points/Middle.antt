-- ===== src/DiskPerformance/Uring/Points/Middle.antt =====
-- The median of some values is half the sum of two of them.
use benchhelpers.Prelude.{
  All, Bool-cases, List, arith, get_elem?, inl, inr, length, refl, some, ℕ, ◌%◌, ◌+◌, ◌-◌, ◌/◌, ◌<◌,
  ◌==◌, ◌∷◌, ◌≡◌,
}
use benchhelpers.Prelude.Sorting.{sort_by, All-sort_by, length-sort_by, All-get_elem}
use benchhelpers.DiskPerformance.Uring.Points.{doubled_median}

pub doubled_median-added :
    (P : ℕ → Type 0) (v : ℕ) (vs : List ℕ)
    → All P (v ∷ vs)
    → (a b : ℕ) × (doubled_median (v ∷ vs) ≡ some (a + b)) × P a × P b
unfolding doubled_median
doubled_median-added P v vs h = elim (Bool-cases (length (v ∷ vs) % 2 == 1)) [
  | inl odd ↦
      let (a, e, p) = at (length (v ∷ vs) / 2) (omega arith) in (a, a, rw (odd, e) refl, p, p)
  | inr even ↦
      let (a, e, p) = at (length (v ∷ vs) / 2 - 1) (omega arith) in
      let (b, f, q) = at (length (v ∷ vs) / 2) (omega arith) in (a, b, rw (even, e, f) refl, p, q)
]
  where
    at :
        (i : ℕ)
        → i < length (v ∷ vs)
        → (a : ℕ) × (get_elem? (sort_by (λ n. n) (v ∷ vs)) i ≡ some a) × P a
    at i lt =
        All-get_elem (sort_by (λ n. n) (v ∷ vs)) i
          (let lengths = length-sort_by (λ n. n) (v ∷ vs) in omega (arith, lengths))
          (All-sort_by (λ n. n) P (v ∷ vs) h)
