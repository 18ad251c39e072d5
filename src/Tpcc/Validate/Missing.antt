-- ===== src/Tpcc/Validate/Missing.antt =====
-- The orders that the check of the order lines prints as missing.
use benchhelpers.Prelude.{
  ==_iff, Bool, List, [], ap, arith, false, if◌then◌else◌, leb, ltb, not, range, refl, suc, true,
  zero, ℕ, ◌&&◌, ◌++◌, ◌+◌, ◌==◌, ◌||◌, ◌∙◌, ◌∷◌, ◌≡◌, ◌≢◌,
}
use benchhelpers.Tpcc.Validate.{
  Answers, DistrictRow, contains, collect_orders, missing_orders, check_row,
}

contains-append :
    (xs ys : List ℕ) (x : ℕ) → contains (xs ++ ys) x ≡ (contains xs x || contains ys x)
contains-append [] ys x = refl
contains-append (y ∷ xs) ys x = either (y == x) _ _ _ (contains-append xs ys x)
  where
    either : (b : Bool) (c d e : Bool) → c ≡ (d || e) → (b || c) ≡ ((b || d) || e)
    either true c d e h = refl
    either false c d e h = h

contains-range : (i n x : ℕ) → contains (range i n) x ≡ (leb i x && ltb x (i + n))
contains-range i zero x = ground arith
contains-range i (suc n) x = rw (contains-range (i + 1) n x) (ground arith)

contains-if :
    (b : Bool) (r : List ℕ) (y x : ℕ)
    → contains (if b then r else y ∷ r) x ≡ (if b then contains r x else (y == x || contains r x))
contains-if true r y x = refl
contains-if false r y x = refl

kept :
    (p b c k : Bool)
    → (p ≡ true → b ≡ c)
    → (if b then k && not c else (p || (k && not c))) ≡ ((p || k) && not c)
kept true true true true h = refl
kept true true true false h = refl
kept true true false k h = let e = h refl in cc
kept true false true k h = let e = h refl in cc
kept true false false k h = refl
kept false true c k h = refl
kept false false c k h = refl

contains-missing_orders :
    (orders xs : List ℕ) (x : ℕ)
    → contains (missing_orders orders xs) x ≡ (contains xs x && not (contains orders x))
unfolding missing_orders
contains-missing_orders orders [] x = refl
contains-missing_orders orders (y ∷ xs) x =
    let rest = contains-missing_orders orders xs x in
    contains-if (contains orders y) (missing_orders orders xs) y x
    ∙ rw rest (
        kept (y == x) (contains orders y) (contains orders x) (contains xs x)
          (λ h. ap (contains orders) ((==_iff y x).0 h)))

-- The query of a range gives the orders of the district in it.
abbrev pub Gives : Answers → DistrictRow → (ℕ → Bool) → Type 0
Gives a row present =
    (first end x : ℕ)
    → contains (a.orders_between row.warehouse row.district first end) x
      ≡ (leb first x && (ltb x end && present x))

collected :
    (between : ℕ → ℕ → List ℕ)
    → collect_orders 4 between 1
      ≡ between 1 1001 ++ (between 1001 2001 ++ (between 2001 3001 ++ []))
unfolding collect_orders
collected between = refl

bounds :
    (x : ℕ) (b : Bool)
    → ((leb 1 x && ltb x (1 + 3000))
        && not (
            (leb 1 x && (ltb x 1001 && b))
            || ((leb 1001 x && (ltb x 2001 && b)) || ((leb 2001 x && (ltb x 3001 && b)) || false))))
      ≡ ((leb 1 x && leb x 3000) && not b)
bounds x true = ground arith
bounds x false = ground arith

-- In a district whose count is wrong, exactly the orders from 1 to 3000 that the database does not
-- have are printed.
pub check_row-missing :
    (a : Answers) (row : DistrictRow) (present : ℕ → Bool)
    → Gives a row present
    → row.order_count ≢ 3000
    → (x : ℕ) → contains (check_row a row).1 x ≡ ((leb 1 x && leb x 3000) && not (present x))
check_row-missing a row present gives wrong x =
    let between = a.orders_between row.warehouse row.district in
    let counted : (row.order_count == 3000) ≡ false = ground arith in
    rw counted (
      contains-missing_orders (collect_orders 4 between 1) (range 1 3000) x
      ∙ rw
          (
            contains-range 1 3000 x,
            collected between,
            contains-append (between 1 1001) (between 1001 2001 ++ (between 2001 3001 ++ [])) x,
            contains-append (between 1001 2001) (between 2001 3001 ++ []) x,
            contains-append (between 2001 3001) [] x,
            gives 1 1001 x,
            gives 1001 2001 x,
            gives 2001 3001 x,
          )
          (bounds x (present x)))
