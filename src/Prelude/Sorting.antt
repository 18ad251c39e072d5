-- ===== src/Prelude/Sorting.antt =====
-- Python's `sorted(xs, key=...)` with keys in ℕ: a stable sort by insertion, with what it keeps.
use Prim.Native.Nat.{ℕ, zero, suc, ◌≤◌, ◌<◌}
use mathlib.Core.Path.{◌≡◌, refl, ap, ◌∙◌}
use mathlib.Core.Bool.{Bool}
use mathlib.Core.Option.{some}
use mathlib.Core.List.{List, [], ◌∷◌, Perm, map}
use mathlib.Core.List.Perm
use mathlib.Core.Logic.{inl, inr}
use native.Mathlib.Omega.{arith}
use benchhelpers.Prelude.Tests.{leb, Bool-cases, if◌then◌else◌}
use benchhelpers.Prelude.Lists.{All, All-map, length, get_elem?}

-- How many elements pass a test
abbrev pub count_if {ℓ} : {A : Type ℓ} → (A → Bool) → List A → ℕ
count_if test [] = 0
count_if test (x ∷ xs) = let rest = count_if test xs in if test x then suc rest else rest

module _ {ℓ} {A : Type ℓ} (key : A → ℕ) where
  abbrev pub place : A → List A → List A
  place x [] = x ∷ []
  place x (y ∷ ys) = let rest = place x ys in if leb (key x) (key y) then x ∷ y ∷ ys else y ∷ rest

  unfoldable pub sort_by : List A → List A
  sort_by [] = []
  sort_by (x ∷ xs) = place x (sort_by xs)

  -- No element is before one with a smaller key.
  abbrev pub IsSorted : List A → Type 0
  IsSorted [] = Unit
  IsSorted (x ∷ xs) = All (λ y. key x ≤ key y) xs × IsSorted xs

  All-place : (P : A → Type 0) (x : A) (xs : List A) → P x → All P xs → All P (place x xs)
  All-place P x [] h k = (h, tt)
  All-place P x (y ∷ ys) h (k, rest) = elim (Bool-cases (leb (key x) (key y))) [
    | inl le ↦ rw le (h, (k, rest))
    | inr gt ↦ rw gt (k, All-place P x ys h rest)
  ]

  pub All-sort_by : (P : A → Type 0) (xs : List A) → All P xs → All P (sort_by xs)
  unfolding sort_by
  All-sort_by P [] h = tt
  All-sort_by P (x ∷ xs) (h, rest) = All-place P x (sort_by xs) h (All-sort_by P xs rest)

  place-IsSorted : (x : A) (xs : List A) → IsSorted xs → IsSorted (place x xs)
  place-IsSorted x [] h = (tt, tt)
  place-IsSorted x (y ∷ ys) (h, rest) = elim (Bool-cases (leb (key x) (key y))) [
    | inl le ↦
        let first : key x ≤ key y = ground arith in
        rw le ((first, All-map (λ z k. let k' : key y ≤ key z = k in omega arith) ys h), (h, rest))
    | inr gt ↦
        let first : key y ≤ key x = ground arith in
        rw gt (All-place (λ z. key y ≤ key z) x ys first h, place-IsSorted x ys rest)
  ]

  pub sort_by-IsSorted : (xs : List A) → IsSorted (sort_by xs)
  unfolding sort_by
  sort_by-IsSorted [] = tt
  sort_by-IsSorted (x ∷ xs) = place-IsSorted x (sort_by xs) (sort_by-IsSorted xs)

  place-Perm : (x : A) (xs : List A) → Perm (place x xs) (x ∷ xs)
  place-Perm x [] = Perm.refl (x ∷ [])
  place-Perm x (y ∷ ys) = elim (Bool-cases (leb (key x) (key y))) [
    | inl le ↦ rw le (Perm.refl (x ∷ y ∷ ys))
    | inr gt ↦ rw gt (Perm.trans (Perm.cons y (place-Perm x ys)) (Perm.swap x y ys))
  ]

  pub sort_by-Perm : (xs : List A) → Perm (sort_by xs) xs
  unfolding sort_by
  sort_by-Perm [] = Perm.nil
  sort_by-Perm (x ∷ xs) = Perm.trans (place-Perm x (sort_by xs)) (Perm.cons x (sort_by-Perm xs))

  length-place : (x : A) (xs : List A) → length (place x xs) ≡ suc (length xs)
  length-place x [] = refl
  length-place x (y ∷ ys) = elim (Bool-cases (leb (key x) (key y))) [
    | inl le ↦ rw le refl
    | inr gt ↦ rw gt (ap suc (length-place x ys))
  ]

  pub length-sort_by : (xs : List A) → length (sort_by xs) ≡ length xs
  unfolding sort_by
  length-sort_by [] = refl
  length-sort_by (x ∷ xs) = length-place x (sort_by xs) ∙ ap suc (length-sort_by xs)

  -- How many pass does not depend on the order.
  count_if-place :
      (test : A → Bool) (x : A) (xs : List A) → count_if test (place x xs) ≡ count_if test (x ∷ xs)
  count_if-place test x [] = refl
  count_if-place test x (y ∷ ys) = ground (arith, count_if-place test x ys)

  pub count_if-sort_by :
      (test : A → Bool) (xs : List A) → count_if test (sort_by xs) ≡ count_if test xs
  unfolding sort_by
  count_if-sort_by test [] = refl
  count_if-sort_by test (x ∷ xs) =
      ground (arith, count_if-place test x (sort_by xs), count_if-sort_by test xs)

pub All-get_elem {ℓ} :
    {A : Type ℓ} {P : A → Type 0} (xs : List A) (i : ℕ)
    → i < length xs
    → All P xs
    → (a : A) × (get_elem? xs i ≡ some a) × P a
All-get_elem [] i lt h = absurd (omega arith)
All-get_elem (x ∷ xs) zero lt (h, rest) = (x, refl, h)
All-get_elem (x ∷ xs) (suc i) lt (h, rest) = All-get_elem xs i (omega arith) rest

pub count_if-map {ℓ κ} :
    {A : Type ℓ} {B : Type κ} (test : B → Bool) (f : A → B) (xs : List A)
    → count_if test (map f xs) ≡ count_if (λ x. test (f x)) xs
count_if-map test f [] = refl
count_if-map test f (x ∷ xs) = ground (arith, count_if-map test f xs)
