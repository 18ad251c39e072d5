-- ===== src/Prelude/Groups.antt =====
-- `d.setdefault(key(x), []).append(x)` for each `x` of a list: a dictionary of lists, in the order in
-- which its keys were first met, whose keys are texts, numbers or tuples of these.

use mathlib.Core.Path.{◌≡◌, refl, sym, ap, ◌∙◌}
use mathlib.Core.Bool.{Bool, true, false, ◌&&◌}
use mathlib.Core.List.{List, [], ◌∷◌, ◌++◌}
use mathlib.Core.Logic.{◌≢◌, inl, inr}
use native.Mathlib.Omega.{arith}
use benchhelpers.Prelude.Tests.{Bool-cases, if◌then◌else◌}
use benchhelpers.Prelude.Lists.{All, length, append_nil, append_assoc}
use benchhelpers.Prelude.Sorting.{count_if}
use Prim.Native.Nat.{min}
use benchhelpers.Prelude.Order.{Ord}

-- `[x for x in xs if test(x)]`
abbrev pub select {ℓ} : {A : Type ℓ} → (A → Bool) → List A → List A
select test [] = []
select test (x ∷ xs) = let rest = select test xs in if test x then x ∷ rest else rest

-- Two keys are equal if each is at most the other.
abbrev pub same {ℓ} : {K : Type ℓ} ⦃k : Ord K⦄ → K → K → Bool
same ⦃k⦄ a b = k.le a b && k.le b a

module _ {ℓ} {K : Type ℓ} ⦃o : Ord K⦄ where
  pub same-eq : (a b : K) → same a b ≡ true → a ≡ b
  same-eq a b e = o.le_antisym a b (ground arith) (ground arith)

  pub le_refl : (a : K) → o.le a a ≡ true
  le_refl a = elim (Bool-cases (o.le a a)) [ inl e ↦ e | inr e ↦ o.le_total a a e ]

  pub same_self : (a : K) → same a a ≡ true
  same_self a = let yes = le_refl a in rw yes refl

  pub same_sym : (a b : K) → same a b ≡ false → same b a ≡ false
  same_sym a b e = ground arith

abbrev pub Groups {ℓ κ} : Type ℓ → Type κ → Type (ℓ ⊔ κ)
Groups K V = List (K × List V)

module _ {ℓ κ} {K : Type ℓ} {V : Type κ} ⦃o : Ord K⦄ where
  -- `d.setdefault(k, []).append(v)`
  abbrev pub append_at : K → V → Groups K V → Groups K V
  append_at k v [] = (k, v ∷ []) ∷ []
  append_at k v ((j, vs) ∷ d) =
      let rest = append_at k v d in if same j k then (j, vs ++ v ∷ []) ∷ d else (j, vs) ∷ rest

  -- `d.get(k, [])`
  abbrev pub of_key : K → Groups K V → List V
  of_key k [] = []
  of_key k ((j, vs) ∷ d) = let rest = of_key k d in if same j k then vs else rest

  abbrev pub group_onto : (V → K) → Groups K V → List V → Groups K V
  group_onto key d [] = d
  group_onto key d (x ∷ xs) = group_onto key (append_at (key x) x d) xs

  abbrev pub AreDistinct : Groups K V → Type 0
  AreDistinct [] = Unit
  AreDistinct ((j, vs) ∷ d) = All (λ g. same j g.0 ≡ false) d × AreDistinct d

  All-append_at {μ} :
      (P : K → Type μ) (k : K) (v : V) (d : Groups K V)
      → P k
      → All (λ g. P g.0) d
      → All (λ g. P g.0) (append_at k v d)
  All-append_at P k v [] new h = (new, tt)
  All-append_at P k v ((j, vs) ∷ d) new (first, rest) = elim (Bool-cases (same j k)) [
    | inl e ↦ rw e (first, rest)
    | inr e ↦ rw e (first, All-append_at P k v d new rest)
  ]

  AreDistinct-append_at :
      (k : K) (v : V) (d : Groups K V) → AreDistinct d → AreDistinct (append_at k v d)
  AreDistinct-append_at k v [] h = (tt, tt)
  AreDistinct-append_at k v ((j, vs) ∷ d) (first, rest) = elim (Bool-cases (same j k)) [
    | inl e ↦ rw e (first, rest)
    | inr e ↦
        rw e (All-append_at (λ i. same j i ≡ false) k v d e first, AreDistinct-append_at k v d rest)
  ]

  of_key-append_at :
      (i k : K) (v : V) (d : Groups K V)
      → of_key i (append_at k v d) ≡ of_key i d ++ (if same k i then v ∷ [] else [])
  of_key-append_at i k v [] = refl
  of_key-append_at i k v ((j, vs) ∷ d) = elim (Bool-cases (same j k)) [
    | inl e ↦
        let p : j ≡ k = same-eq j k e in
        elim (Bool-cases (same j i)) [
          | inl f ↦ let g : same k i ≡ true = rw (← p) f in rw (e, f, g) refl
          | inr f ↦
              let g : same k i ≡ false = rw (← p) f in rw (e, f, g) (sym (append_nil (of_key i d)))
        ]
    | inr e ↦ elim (Bool-cases (same j i)) [
      | inl f ↦
          let p : j ≡ i = same-eq j i f in
          let g : same k i ≡ false = same_sym i k (rw (← p) e) in rw (e, f, g) (sym (append_nil vs))
      | inr f ↦ rw (e, f) (of_key-append_at i k v d)
    ]
  ]

  pub of_key-group_onto :
      (key : V → K) (i : K) (d : Groups K V) (xs : List V)
      → of_key i (group_onto key d xs) ≡ of_key i d ++ select (λ x. same (key x) i) xs
  of_key-group_onto key i d [] = sym (append_nil (of_key i d))
  of_key-group_onto key i d (x ∷ xs) =
      of_key-group_onto key i (append_at (key x) x d) xs
      ∙ ap (λ vs. vs ++ select (λ y. same (key y) i) xs) (of_key-append_at i (key x) x d)
      ∙ elim (Bool-cases (same (key x) i)) [
        | inl e ↦ rw e (append_assoc (of_key i d) (x ∷ []) (select (λ y. same (key y) i) xs))
        | inr e ↦ rw e (ap (λ vs. vs ++ select (λ y. same (key y) i) xs) (append_nil (of_key i d)))
      ]

  pub AreDistinct-group_onto :
      (key : V → K) (d : Groups K V) (xs : List V)
      → AreDistinct d
      → AreDistinct (group_onto key d xs)
  AreDistinct-group_onto key d [] h = h
  AreDistinct-group_onto key d (x ∷ xs) h =
      AreDistinct-group_onto key (append_at (key x) x d) xs (AreDistinct-append_at (key x) x d h)

  -- Each of distinct keys has its own list.
  of_key-AreDistinct : (d : Groups K V) → AreDistinct d → All (λ g. of_key g.0 d ≡ g.1) d
  of_key-AreDistinct [] h = tt
  of_key-AreDistinct ((j, vs) ∷ d) (first, rest) = (
    let e : same j j ≡ true = same_self j in rw e refl,
    skip d d first (of_key-AreDistinct d rest),
  )
    where
      skip :
          (whole part : Groups K V)
          → All (λ g. same j g.0 ≡ false) part
          → All (λ g. of_key g.0 whole ≡ g.1) part
          → All (λ g. of_key g.0 ((j, vs) ∷ whole) ≡ g.1) part
      skip whole [] h k = tt
      skip whole (g ∷ part) (other, more) (own, owns) = (rw other own, skip whole part more owns)

  AreFull-append_at :
      (k : K) (v : V) (d : Groups K V)
      → All (λ g. g.1 ≢ []) d
      → All (λ g. g.1 ≢ []) (append_at k v d)
  AreFull-append_at k v [] h = (λ e. cc, tt)
  AreFull-append_at k v ((j, vs) ∷ d) (first, rest) = elim (Bool-cases (same j k)) [
    | inl e ↦ rw e ((λ f. last vs f), rest)
    | inr e ↦ rw e (first, AreFull-append_at k v d rest)
  ]
    where
      last : (us : List V) → us ++ v ∷ [] ≢ []
      last [] f = cc
      last (u ∷ us) f = cc

  AreFull-group_onto :
      (key : V → K) (d : Groups K V) (xs : List V)
      → All (λ g. g.1 ≢ []) d
      → All (λ g. g.1 ≢ []) (group_onto key d xs)
  AreFull-group_onto key d [] h = h
  AreFull-group_onto key d (x ∷ xs) h =
      AreFull-group_onto key (append_at (key x) x d) xs (AreFull-append_at (key x) x d h)

  -- A group holds the elements with its key, of which there are some.
  abbrev pub IsGroup : (V → K) → List V → K × List V → Type κ
  IsGroup key xs g = (g.1 ≡ select (λ x. same (key x) g.0) xs) × (g.1 ≢ [])

  pub IsGroup-group_onto : (key : V → K) (xs : List V) → All (IsGroup key xs) (group_onto key [] xs)
  IsGroup-group_onto key xs =
      let d = group_onto key [] xs in
      both d (of_key-AreDistinct d (AreDistinct-group_onto key [] xs tt))
        (AreFull-group_onto key [] xs tt)
    where
      both :
          (part : Groups K V)
          → All (λ g. of_key g.0 (group_onto key [] xs) ≡ g.1) part
          → All (λ g. g.1 ≢ []) part
          → All (IsGroup key xs) part
      both [] h k = tt
      both (g ∷ part) (own, owns) (full, fulls) =
          ((sym own ∙ of_key-group_onto key g.0 [] xs, full), both part owns fulls)

  count_if-other :
      (j : K) (d : Groups K V) → All (λ g. same j g.0 ≡ false) d → count_if (λ g. same g.0 j) d ≡ 0
  count_if-other j [] h = refl
  count_if-other j (g ∷ d) (other, rest) =
      let back = same_sym j g.0 other in rw back (count_if-other j d rest)

  count_if-AreDistinct :
      (k : K) (d : Groups K V)
      → AreDistinct d
      → All (λ g. g.1 ≢ []) d
      → count_if (λ g. same g.0 k) d ≡ min 1 (length (of_key k d))
  count_if-AreDistinct k [] h full = refl
  count_if-AreDistinct k ((j, vs) ∷ d) (first, rest) (full, fulls) = elim (Bool-cases (same j k)) [
    | inl e ↦
        let p : j ≡ k = same-eq j k e in
        let others : count_if (λ g. same g.0 k) d ≡ 0 = rw (← p) (count_if-other j d first) in
        rw (e, others) (one vs full)
    | inr e ↦ rw e (count_if-AreDistinct k d rest fulls)
  ]
    where
      one : (us : List V) → us ≢ [] → 1 ≡ min 1 (length us)
      one [] none_left = absurd (none_left refl)
      one (u ∷ us) some_left = omega arith

  -- A key that some element has is the key of one group, and another key of none.
  pub count_if-group_onto :
      (key : V → K) (k : K) (xs : List V)
      → count_if (λ g. same g.0 k) (group_onto key [] xs)
        ≡ min 1 (length (select (λ x. same (key x) k) xs))
  count_if-group_onto key k xs =
      count_if-AreDistinct k (group_onto key [] xs) (AreDistinct-group_onto key [] xs tt)
        (AreFull-group_onto key [] xs tt)
      ∙ ap (λ vs. min 1 (length vs)) (of_key-group_onto key k [] xs)
