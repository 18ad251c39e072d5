-- ===== src/Prelude/Dict.antt =====
-- Python's `dict` with text keys, in insertion order, as an association list.
use Prim.Native.Nat.{ℕ, suc, ◌+◌, ◌-◌}
use Prim.Native.String.{String}
use mathlib.Core.Path.{◌≡◌, refl, ◌∙◌}
use mathlib.Core.Bool.{true, false}
use mathlib.Core.Option.{Option, none, some}
use mathlib.Core.List.{List, [], ◌∷◌}
use mathlib.Core.Logic.{inl, inr}
use native.Mathlib.Omega.{arith}
use text.Mathlib.Text.{◌==◌}
use text.Mathlib.TextEquality.{eq_iff}
use benchhelpers.Prelude.Tests.{if◌then◌else◌, Bool-cases}
use benchhelpers.Prelude.Lists.{All}
use benchhelpers.Prelude.Sorting.{count_if}

abbrev pub Dict {ℓ} : Type ℓ → Type ℓ
Dict V = List (String × V)

module _ {ℓ} {V : Type ℓ} where
  -- `d.get(k)`
  unfoldable pub lookup : String → Dict V → Option V
  lookup k [] = none
  lookup k ((j, v) ∷ d) = if j == k then some v else lookup k d

  -- `d[k] = v`
  unfoldable pub insert : String → V → Dict V → Dict V
  insert k v [] = (k, v) ∷ []
  insert k v ((j, w) ∷ d) = if j == k then (j, v) ∷ d else (j, w) ∷ insert k v d

  pub lookup-insert :
      (k j : String) (v : V) (d : Dict V)
      → lookup j (insert k v d) ≡ (if k == j then some v else lookup j d)
  unfolding lookup insert
  lookup-insert k j v [] = refl
  lookup-insert k j v ((i, w) ∷ d) =
      ground (arith, eq_iff k j, eq_iff i k, eq_iff i j, lookup-insert k j v d)

pub lookup-nil {ℓ} : {V : Type ℓ} (k : String) → lookup {V = V} k [] ≡ none
unfolding lookup
lookup-nil k = refl

-- The key is there.
abbrev pub Has {ℓ} : {V : Type ℓ} → String → Dict V → Type ℓ
Has {V} k d = (v : V) × (lookup k d ≡ some v)

module _ {ℓ} {V : Type ℓ} where
  pub Has-insert : (k j : String) (v : V) (d : Dict V) → Has k d → Has k (insert j v d)
  Has-insert k j v d (w, e) = ((if j == k then v else w), lookup-insert j k v d ∙ ground arith)

  pub Has-insert_self : (k : String) (v : V) (d : Dict V) → Has k (insert k v d)
  Has-insert_self k v d = (v, lookup-insert k k v d ∙ ground (arith, eq_iff k k))

  pub All-insert :
      (P : String × V → Type 0) (k : String) (v : V) (d : Dict V)
      → P (k, v)
      → All P d
      → All P (insert k v d)
  unfolding insert
  All-insert P k v [] new h = (new, tt)
  All-insert P k v ((j, w) ∷ d) new h = elim (Bool-cases (j == k)) [
    | inl same ↦
        let e : j ≡ k = (eq_iff j k).0 same in rw same ((let e' : P (j, v) = rw e new in e'), h.1)
    | inr other ↦ rw other (h.0, All-insert P k v d new h.1)
  ]

  pub All-lookup :
      (P : String × V → Type 0) (k : String) (d : Dict V) {v : V}
      → All P d
      → lookup k d ≡ some v
      → P (k, v)
  unfolding lookup
  All-lookup P k [] h e = cc
  All-lookup P k ((j, w) ∷ d) {v} h e = elim (Bool-cases (j == k)) [
    | inl same ↦
        let p : j ≡ k = (eq_iff j k).0 same in
        let q : some w ≡ some v = rw same at e in let q' : w ≡ v = cc in rw (← p, ← q') h.0
    | inr other ↦ All-lookup P k d h.1 (rw other at e)
  ]

-- How often a key stands in a list of pairs, which is at most once in a dictionary
abbrev pub times {ℓ} : {V : Type ℓ} → String → Dict V → ℕ
times k d = count_if (λ e. e.0 == k) d

abbrev pub present {ℓ} : {V : Type ℓ} → Option V → ℕ
present none = 0
present (some v) = 1

module _ {ℓ} {V : Type ℓ} where
  -- Each key stands there once.
  abbrev pub IsDict : Dict V → Type 0
  IsDict d = (k : String) → times k d ≡ present (lookup k d)

  times-insert :
      (j k : String) (v : V) (d : Dict V)
      → times j (insert k v d) ≡ times j d + (if k == j then 1 - present (lookup k d) else 0)
  unfolding insert lookup
  times-insert j k v [] = ground arith
  times-insert j k v ((i, w) ∷ d) =
      ground (arith, eq_iff k j, eq_iff i k, eq_iff i j, times-insert j k v d)

  pub IsDict-insert : (k : String) (v : V) (d : Dict V) → IsDict d → IsDict (insert k v d)
  IsDict-insert k v d h j =
      let e = times-insert j k v d in
      let f = lookup-insert k j v d in
      let g = h j in
      elim (Bool-cases (k == j)) [
        | inl same ↦ let p : k ≡ j = (eq_iff k j).0 same in rw (e, f, same, p, g) (one (lookup j d))
        | inr other ↦ rw (e, f, other, g) (omega arith)
      ]
    where
      one : (o : Option V) → present o + (1 - present o) ≡ 1
      one none = omega arith
      one (some w) = omega arith

  none_left :
      (k : String) (d : Dict V)
      → times k d ≡ 0
      → (lookup k d ≡ none) × All (λ e. (e.0 == k) ≡ false) d
  unfolding lookup
  none_left k [] h = (refl, tt)
  none_left k ((j, v) ∷ d) h = elim (Bool-cases (j == k)) [
    | inl same ↦ absurd (let h' : suc (times k d) ≡ 0 = rw same at h in omega (arith, h'))
    | inr other ↦ let (e, rest) = none_left k d (rw other at h) in rw other (e, (refl, rest))
  ]

  IsDict-tail : (j : String) (v : V) (d : Dict V) → IsDict ((j, v) ∷ d) → (times j d ≡ 0) × IsDict d
  unfolding lookup
  IsDict-tail j v d h =
      let self : (j == j) ≡ true = (eq_iff j j).1 refl in
      let first : suc (times j d) ≡ 1 = let here = h j in rw self at here in
      let gone : times j d ≡ 0 = omega (arith, first) in
      (
        gone,
        λ k. elim (Bool-cases (j == k)) [
          | inl same ↦
              let p : j ≡ k = (eq_iff j k).0 same in
              rw (← p) (let (e, rest) = none_left j d gone in rw (gone, e) refl)
          | inr other ↦ let here = h k in rw other at here
        ],
      )

  -- The pairs of a dictionary are what it finds.
  pub lookup-IsDict : (d : Dict V) → IsDict d → All (λ e. lookup e.0 d ≡ some e.1) d
  unfolding lookup
  lookup-IsDict [] h = tt
  lookup-IsDict ((j, v) ∷ d) h =
      let (gone, rest) = IsDict-tail j v d h in
      let (e, others) = none_left j d gone in
      (
        let self : (j == j) ≡ true = (eq_iff j j).1 refl in rw self refl,
        skip d others (lookup-IsDict d rest),
      )
    where
      skip :
          (part : Dict V)
          → All (λ e. (e.0 == j) ≡ false) part
          → All (λ e. lookup e.0 d ≡ some e.1) part
          → All (λ e. lookup e.0 ((j, v) ∷ d) ≡ some e.1) part
      skip [] others own = tt
      skip ((k, w) ∷ part) (other, more) (own, owns) =
          let other' : (j == k) ≡ false = ground (arith, eq_iff k j, eq_iff j k) in
          (rw other' own, skip part more owns)

pub IsDict-nil {ℓ} : (V : Type ℓ) → IsDict {V = V} []
unfolding lookup
IsDict-nil V k = refl
