-- ===== src/Prelude/Order.antt =====
-- Python's `<=` on numbers, texts and tuples, and `sorted` with such keys: a stable sort by insertion,
-- with what it keeps.
use Prim.Native.Nat.{ℕ, suc}
use Prim.Native.Char.{code}
use Prim.Native.String.{String}
use mathlib.Core.Path.{◌≡◌, refl, ap, ◌∙◌}
use mathlib.Core.Bool.{Bool, true, false}
use mathlib.Core.List.{List, [], ◌∷◌, Perm, map}
use mathlib.Core.List.Perm
use mathlib.Core.Logic.{inl, inr}
use native.Mathlib.Omega.{arith}
use text.Mathlib.TextEquality.{Char-path}
use benchhelpers.Prelude.Tests.{leb, ltb, Bool-cases, if◌then◌else◌}
use benchhelpers.Prelude.Lists.{All, All-map, All-of_map, length}
use benchhelpers.Prelude.Sorting.{count_if}

pub record IsTotal {ℓ} {K : Type ℓ} (le : K → K → Bool) : Type ℓ where
  pub le_total : (a b : K) → le a b ≡ false → le b a ≡ true
  pub le_trans : (a b c : K) → le a b ≡ true → le b c ≡ true → le a c ≡ true
  pub le_antisym : (a b : K) → le a b ≡ true → le b a ≡ true → a ≡ b

pub record Ord {ℓ} (K : Type ℓ) : Type ℓ where
  pub le : K → K → Bool
  pub lawful : IsTotal le
  pub open lawful use *

pub leb-IsTotal : IsTotal leb
leb-IsTotal = ground arith

instance abbrev pub nat_ord : Ord ℕ
nat_ord = record { le = leb; lawful = leb-IsTotal }

-- Texts compare by their code points.
abbrev pub text_le : String → String → Bool
text_le String.[] t = true
text_le (String.◌∷◌ c s) String.[] = false
text_le (String.◌∷◌ c s) (String.◌∷◌ d t) =
    let rest = text_le s t in
    if ltb (code c) (code d) then true else if ltb (code d) (code c) then false else rest

-- The comparison at one place of two tuples, with that of the rest
abbrev pub first_le : Bool → Bool → Bool → Bool
first_le true true rest = rest
first_le true false rest = true
first_le false back rest = false

pub text_le_total : (s t : String) → text_le s t ≡ false → text_le t s ≡ true
text_le_total String.[] t e = cc
text_le_total (String.◌∷◌ c s) String.[] e = refl
text_le_total (String.◌∷◌ c s) (String.◌∷◌ d t) e =
    let rest = text_le_total s t in ground (arith, rest)

pub text_le_antisym : (s t : String) → text_le s t ≡ true → text_le t s ≡ true → s ≡ t
text_le_antisym String.[] String.[] e f = refl
text_le_antisym String.[] (String.◌∷◌ d t) e f = cc
text_le_antisym (String.◌∷◌ c s) String.[] e f = cc
text_le_antisym (String.◌∷◌ c s) (String.◌∷◌ d t) e f =
    let same : code c ≡ code d = ground arith in
    let p : c ≡ d = Char-path c d same in
    let q : s ≡ t = text_le_antisym s t (ground arith) (ground arith) in λ i. String.◌∷◌ (p i) (q i)

pub text_le_trans : (s t u : String) → text_le s t ≡ true → text_le t u ≡ true → text_le s u ≡ true
text_le_trans String.[] t u e f = refl
text_le_trans (String.◌∷◌ c s) String.[] u e f = cc
text_le_trans (String.◌∷◌ c s) (String.◌∷◌ d t) String.[] e f = cc
text_le_trans (String.◌∷◌ c s) (String.◌∷◌ d t) (String.◌∷◌ b u) e f =
    let rest = text_le_trans s t u in ground (arith, rest)

instance abbrev pub text_ord : Ord String
text_ord = record {
  le = text_le;
  lawful = record {
    le_total = text_le_total;
    le_trans = text_le_trans;
    le_antisym = text_le_antisym;
  };
}

-- Tuples compare at the first place where they differ.
module _ {ℓ κ} {A : Type ℓ} {B : Type κ} ⦃a : Ord A⦄ ⦃b : Ord B⦄ where
  abbrev pub pair_le : A × B → A × B → Bool
  pair_le x y = first_le (a.le x.0 y.0) (a.le y.0 x.0) (b.le x.1 y.1)

  pub pair_le-IsTotal : IsTotal {K = A × B} pair_le
  pair_le-IsTotal = record {
    le_total = λ x y. ground (arith, a.le_total x.0 y.0, b.le_total x.1 y.1);
    le_trans = λ x y z. ground (
      arith,
      a.le_trans x.0 y.0 z.0,
      a.le_trans z.0 x.0 y.0,
      a.le_trans y.0 z.0 x.0,
      b.le_trans x.1 y.1 z.1,
    );
    le_antisym = λ x y. ground (arith, a.le_antisym x.0 y.0, b.le_antisym x.1 y.1);
  }

  instance abbrev pub pair_ord : Ord (A × B)
  pair_ord = record { le = pair_le; lawful = pair_le-IsTotal }

module _ {ℓ κ} {A : Type ℓ} {K : Type κ} ⦃k : Ord K⦄ (key : A → K) where
  abbrev pub place_on : A → List A → List A
  place_on x [] = x ∷ []
  place_on x (y ∷ ys) =
      let rest = place_on x ys in if k.le (key x) (key y) then x ∷ y ∷ ys else y ∷ rest

  -- `sorted(xs, key=key)`
  unfoldable pub sort_on : List A → List A
  sort_on [] = []
  sort_on (x ∷ xs) = place_on x (sort_on xs)

  -- No element is before one with a smaller key.
  abbrev pub IsOrdered : List A → Type 0
  IsOrdered [] = Unit
  IsOrdered (x ∷ xs) = All (λ y. k.le (key x) (key y) ≡ true) xs × IsOrdered xs

  All-place_on {μ} : (P : A → Type μ) (x : A) (xs : List A) → P x → All P xs → All P (place_on x xs)
  All-place_on P x [] h rest = (h, tt)
  All-place_on P x (y ∷ ys) h (first, rest) = elim (Bool-cases (k.le (key x) (key y))) [
    | inl le ↦ rw le (h, (first, rest))
    | inr gt ↦ rw gt (first, All-place_on P x ys h rest)
  ]

  pub All-sort_on {μ} : (P : A → Type μ) (xs : List A) → All P xs → All P (sort_on xs)
  unfolding sort_on
  All-sort_on P [] h = tt
  All-sort_on P (x ∷ xs) (h, rest) = All-place_on P x (sort_on xs) h (All-sort_on P xs rest)

  place_on-IsOrdered : (x : A) (xs : List A) → IsOrdered xs → IsOrdered (place_on x xs)
  place_on-IsOrdered x [] h = (tt, tt)
  place_on-IsOrdered x (y ∷ ys) (h, rest) = elim (Bool-cases (k.le (key x) (key y))) [
    | inl le ↦
        rw le ((le, All-map (λ z next. k.le_trans (key x) (key y) (key z) le next) ys h), (h, rest))
    | inr gt ↦ rw gt (
      All-place_on (λ z. k.le (key y) (key z) ≡ true) x ys (k.le_total (key x) (key y) gt) h,
      place_on-IsOrdered x ys rest,
    )
  ]

  pub sort_on-IsOrdered : (xs : List A) → IsOrdered (sort_on xs)
  unfolding sort_on
  sort_on-IsOrdered [] = tt
  sort_on-IsOrdered (x ∷ xs) = place_on-IsOrdered x (sort_on xs) (sort_on-IsOrdered xs)

  -- How many pass does not depend on the order.
  count_if-place_on :
      (test : A → Bool) (x : A) (xs : List A)
      → count_if test (place_on x xs) ≡ count_if test (x ∷ xs)
  count_if-place_on test x [] = refl
  count_if-place_on test x (y ∷ ys) = ground (arith, count_if-place_on test x ys)

  pub count_if-sort_on :
      (test : A → Bool) (xs : List A) → count_if test (sort_on xs) ≡ count_if test xs
  unfolding sort_on
  count_if-sort_on test [] = refl
  count_if-sort_on test (x ∷ xs) =
      ground (arith, count_if-place_on test x (sort_on xs), count_if-sort_on test xs)

  place_on-Perm : (x : A) (xs : List A) → Perm (place_on x xs) (x ∷ xs)
  place_on-Perm x [] = Perm.refl (x ∷ [])
  place_on-Perm x (y ∷ ys) = elim (Bool-cases (k.le (key x) (key y))) [
    | inl le ↦ rw le (Perm.refl (x ∷ y ∷ ys))
    | inr gt ↦ rw gt (Perm.trans (Perm.cons y (place_on-Perm x ys)) (Perm.swap x y ys))
  ]

  pub sort_on-Perm : (xs : List A) → Perm (sort_on xs) xs
  unfolding sort_on
  sort_on-Perm [] = Perm.nil
  sort_on-Perm (x ∷ xs) = Perm.trans (place_on-Perm x (sort_on xs)) (Perm.cons x (sort_on-Perm xs))

  length-place_on : (x : A) (xs : List A) → length (place_on x xs) ≡ suc (length xs)
  length-place_on x [] = refl
  length-place_on x (y ∷ ys) = elim (Bool-cases (k.le (key x) (key y))) [
    | inl le ↦ rw le refl
    | inr gt ↦ rw gt (ap suc (length-place_on x ys))
  ]

  pub length-sort_on : (xs : List A) → length (sort_on xs) ≡ length xs
  unfolding sort_on
  length-sort_on [] = refl
  length-sort_on (x ∷ xs) = length-place_on x (sort_on xs) ∙ ap suc (length-sort_on xs)

pub IsOrdered-map {ℓ κ μ} :
    {A : Type ℓ} {B : Type κ} {K : Type μ} ⦃k : Ord K⦄ (key : B → K) (f : A → B) (xs : List A)
    → IsOrdered (λ x. key (f x)) xs
    → IsOrdered key (map f xs)
IsOrdered-map key f [] h = tt
IsOrdered-map ⦃k⦄ key f (x ∷ xs) (first, rest) =
    (All-of_map (λ y. k.le (key (f x)) (key y) ≡ true) f xs first, IsOrdered-map key f xs rest)
