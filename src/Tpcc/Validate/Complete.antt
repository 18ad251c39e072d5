-- ===== src/Tpcc/Validate/Complete.antt =====
-- The checks pass exactly on a database with the cardinalities of TPC-C.
use benchhelpers.Prelude.{
  All, List, Option, String, [], arith, none, refl, some, ℕ, ◌*◌, ◌↔◌, ◌∷◌, ◌≡◌,
}
use benchhelpers.Tpcc.Validate.{
  Answers, DistrictRow, ItemRow, SumRow, check_count, check_row, first_row, check_stock_items,
  stock_result, sums_error, validate_warehouses, validate_districts, validate_customers,
  validate_items, validate_open_orders, validate_new_orders, validate_order_lines, validate_oorder,
  validate_stock, validate_history, run_checks,
}

-- The first row of a query is this number.
abbrev pub Counts : List ℕ → ℕ → Type 0
Counts [] expected = ⊥
Counts (n ∷ rows) expected = n ≡ expected

abbrev pub FullDistricts : List (List DistrictRow) → Type 0
FullDistricts ((row ∷ rows) ∷ parts) = row.order_count ≡ 3000
FullDistricts _ = ⊥

abbrev pub FullStock : List ItemRow → Type 0
FullStock [] = ⊥
FullStock (row ∷ rows) = row.item_count ≡ 100000

abbrev pub NoRow : List SumRow → Type 0
NoRow [] = Unit
NoRow (row ∷ rows) = ⊥

-- The cardinalities of TPC-C for a number of warehouses, as the queries show them.
pub record IsComplete (w : ℕ) (a : Answers) : Type 0 where
  pub warehouses : Counts a.warehouses w
  pub districts : Counts a.districts (10 * w)
  pub customers : Counts a.customers (30000 * w)
  pub items : Counts a.items 100000
  pub open_orders : Counts a.open_orders (30000 * w)
  pub new_orders : Counts a.new_orders (9000 * w)
  pub order_lines : FullDistricts a.order_line_parts
  pub stock_warehouses : Counts a.stock_warehouses w
  pub stock_items : FullStock a.stock_items
  pub order_sums : NoRow a.wrong_sums
  pub history : Counts a.history (30000 * w)

-- Every check returns no error.
abbrev pub AllPass : List (String × Option String) → Type 0
AllPass = All (λ c. c.1 ≡ none)

check_count-Counts :
    (missing noun : String) (rows : List ℕ) (n m : ℕ)
    → n ≡ m
    → (check_count missing noun rows n ≡ none) ↔ Counts rows m
check_count-Counts missing noun [] n m e = (λ h. cc, λ h. absurd h)
check_count-Counts missing noun (k ∷ rows) n m e = ground arith

check_row-FullDistricts :
    (a : Answers) (row : DistrictRow) → ((check_row a row).0 ≡ none) ↔ (row.order_count ≡ 3000)
check_row-FullDistricts a row = ground arith

first_row-FullDistricts :
    (a : Answers) (parts : List (List DistrictRow))
    → ((first_row a parts).0 ≡ none) ↔ FullDistricts parts
first_row-FullDistricts a [] = (λ h. cc, λ h. absurd h)
first_row-FullDistricts a ([] ∷ parts) = (λ h. cc, λ h. absurd h)
first_row-FullDistricts a ((row ∷ rows) ∷ parts) = check_row-FullDistricts a row

validate_order_lines-FullDistricts :
    (a : Answers) → ((validate_order_lines a).0 ≡ none) ↔ FullDistricts a.order_line_parts
unfolding validate_order_lines
validate_order_lines-FullDistricts a = first_row-FullDistricts a a.order_line_parts

check_stock_items-FullStock :
    (rows : List ItemRow) → (check_stock_items rows ≡ none) ↔ FullStock rows
check_stock_items-FullStock [] = (λ h. cc, λ h. absurd h)
check_stock_items-FullStock (row ∷ rows) = ground arith

stock_result-FullStock :
    {C : Type 0} (counted : Option String) (rows : List ItemRow)
    → ((counted ≡ none) ↔ C)
    → (stock_result counted rows ≡ none) ↔ (C × FullStock rows)
stock_result-FullStock none rows (to, from) = (
  λ h. (to refl, (check_stock_items-FullStock rows).0 h),
  λ (c, f). (check_stock_items-FullStock rows).1 f,
)
stock_result-FullStock (some error) rows (to, from) = (λ h. cc, λ (c, f). let e = from c in cc)

validate_stock-FullStock :
    (w : ℕ) (a : Answers)
    → (validate_stock w a ≡ none) ↔ (Counts a.stock_warehouses w × FullStock a.stock_items)
unfolding validate_stock
validate_stock-FullStock w a =
    stock_result-FullStock _ a.stock_items (check_count-Counts _ _ a.stock_warehouses w w refl)

sums_error-NoRow : (rows : List SumRow) → (sums_error rows ≡ none) ↔ NoRow rows
sums_error-NoRow [] = (λ h. _, λ h. refl)
sums_error-NoRow (row ∷ rows) = (λ h. cc, λ h. absurd h)

validate_warehouses-Counts :
    (w : ℕ) (a : Answers) → (validate_warehouses w a ≡ none) ↔ Counts a.warehouses w
unfolding validate_warehouses
validate_warehouses-Counts w a = check_count-Counts _ _ a.warehouses w w refl

validate_districts-Counts :
    (w : ℕ) (a : Answers) → (validate_districts w a ≡ none) ↔ Counts a.districts (10 * w)
unfolding validate_districts
validate_districts-Counts w a = check_count-Counts _ _ a.districts (w * 10) (10 * w) (omega arith)

validate_customers-Counts :
    (w : ℕ) (a : Answers) → (validate_customers w a ≡ none) ↔ Counts a.customers (30000 * w)
unfolding validate_customers
validate_customers-Counts w a =
    check_count-Counts _ _ a.customers (w * 30000) (30000 * w) (omega arith)

validate_items-Counts : (a : Answers) → (validate_items a ≡ none) ↔ Counts a.items 100000
unfolding validate_items
validate_items-Counts a = check_count-Counts _ _ a.items 100000 100000 refl

validate_open_orders-Counts :
    (w : ℕ) (a : Answers) → (validate_open_orders w a ≡ none) ↔ Counts a.open_orders (30000 * w)
unfolding validate_open_orders
validate_open_orders-Counts w a =
    check_count-Counts _ _ a.open_orders (w * 30000) (30000 * w) (omega arith)

validate_new_orders-Counts :
    (w : ℕ) (a : Answers) → (validate_new_orders w a ≡ none) ↔ Counts a.new_orders (9000 * w)
unfolding validate_new_orders
validate_new_orders-Counts w a =
    check_count-Counts _ _ a.new_orders (w * 9000) (9000 * w) (omega arith)

validate_history-Counts :
    (w : ℕ) (a : Answers) → (validate_history w a ≡ none) ↔ Counts a.history (30000 * w)
unfolding validate_history
validate_history-Counts w a = check_count-Counts _ _ a.history (w * 30000) (30000 * w) (omega arith)

validate_oorder-NoRow : (a : Answers) → (validate_oorder a ≡ none) ↔ NoRow a.wrong_sums
unfolding validate_oorder
validate_oorder-NoRow a = sums_error-NoRow a.wrong_sums

-- All checks pass exactly if the database has the cardinalities of TPC-C.
pub run_checks-IsComplete : (w : ℕ) (a : Answers) → AllPass (run_checks w a) ↔ IsComplete w a
unfolding run_checks
run_checks-IsComplete w a = (
  λ h.
      let (counted, stocked) = (validate_stock-FullStock w a).0 h.1.1.1.1.1.1.1.0 in
      record {
        warehouses = (validate_warehouses-Counts w a).0 h.0;
        districts = (validate_districts-Counts w a).0 h.1.0;
        customers = (validate_customers-Counts w a).0 h.1.1.0;
        items = (validate_items-Counts a).0 h.1.1.1.0;
        open_orders = (validate_open_orders-Counts w a).0 h.1.1.1.1.0;
        new_orders = (validate_new_orders-Counts w a).0 h.1.1.1.1.1.0;
        order_lines = (validate_order_lines-FullDistricts a).0 h.1.1.1.1.1.1.0;
        stock_warehouses = counted;
        stock_items = stocked;
        order_sums = (validate_oorder-NoRow a).0 h.1.1.1.1.1.1.1.1.0;
        history = (validate_history-Counts w a).0 h.1.1.1.1.1.1.1.1.1.0;
      },
  λ c. (
    (validate_warehouses-Counts w a).1 c.warehouses,
    (
      (validate_districts-Counts w a).1 c.districts,
      (
        (validate_customers-Counts w a).1 c.customers,
        (
          (validate_items-Counts a).1 c.items,
          (
            (validate_open_orders-Counts w a).1 c.open_orders,
            (
              (validate_new_orders-Counts w a).1 c.new_orders,
              (
                (validate_order_lines-FullDistricts a).1 c.order_lines,
                (
                  (validate_stock-FullStock w a).1 (c.stock_warehouses, c.stock_items),
                  (
                    (validate_oorder-NoRow a).1 c.order_sums,
                    ((validate_history-Counts w a).1 c.history, _),
                  ),
                ),
              ),
            ),
          ),
        ),
      ),
    ),
  ),
)
