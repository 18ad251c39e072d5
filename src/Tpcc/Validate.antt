-- ===== src/Tpcc/Validate.antt =====
-- `ValidateInitialData` of tpcc/ydb/tpcc_helper.py: the checks of a loaded database.
-- What a query returns is an argument: the rows of its first result set.
pub mod Complete
pub mod Postgres
pub mod Missing
mod Tests
use benchhelpers.Prelude.{
  Bool, List, Option, String, [], false, if◌then◌else◌, ltb, none, range, show, some, suc, zero, ℕ,
  ◌*◌, ◌++◌, ◌+◌, ◌<>◌, ◌==◌, ◌||◌, ◌∷◌,
}

-- A row of the order line query, and one of the order sum query.
pub record DistrictRow : Type 0 where
  pub warehouse : ℕ
  pub district : ℕ
  pub order_count : ℕ

pub record SumRow : Type 0 where
  pub o_w_id : ℕ
  pub o_d_id : ℕ
  pub csum : ℕ

pub record ItemRow : Type 0 where
  pub warehouse : ℕ
  pub item_count : ℕ

-- The rows of the queries. `order_line_parts` are the parts of the scan query, and
-- `orders_between w d a b` the order numbers of a district from `a` up to `b`.
pub record Answers : Type 0 where
  pub warehouses : List ℕ
  pub districts : List ℕ
  pub customers : List ℕ
  pub items : List ℕ
  pub open_orders : List ℕ
  pub new_orders : List ℕ
  pub order_line_parts : List (List DistrictRow)
  pub orders_between : ℕ → ℕ → ℕ → ℕ → List ℕ
  pub wrong_sums : List SumRow
  pub stock_warehouses : List ℕ
  pub stock_items : List ItemRow
  pub history : List ℕ

-- A query of one number: no row, or a number to compare. The text is the error, `none` is success.
abbrev pub check_count : String → String → List ℕ → ℕ → Option String
check_count missing noun [] expected = some missing
check_count missing noun (n ∷ rows) expected =
    if n == expected
    then none
    else some (noun <> " count is " <> show n <> " and not " <> show expected)

unfoldable pub validate_warehouses : ℕ → Answers → Option String
validate_warehouses w a = check_count "No warehouses found" "Warehouse" a.warehouses w

unfoldable pub validate_districts : ℕ → Answers → Option String
validate_districts w a = check_count "No districts found" "District" a.districts (w * 10)

unfoldable pub validate_customers : ℕ → Answers → Option String
validate_customers w a = check_count "No customers found" "Customer" a.customers (w * 30000)

unfoldable pub validate_items : Answers → Option String
validate_items a = check_count "No items found" "Item" a.items 100000

unfoldable pub validate_open_orders : ℕ → Answers → Option String
validate_open_orders w a = check_count "No orders found" "Order" a.open_orders (w * 30000)

unfoldable pub validate_new_orders : ℕ → Answers → Option String
validate_new_orders w a = check_count "No new orders found" "New order" a.new_orders (w * 9000)

unfoldable pub validate_history : ℕ → Answers → Option String
validate_history w a = check_count "No history found" "History" a.history (w * 30000)

-- `order in orders`
abbrev pub contains : List ℕ → ℕ → Bool
contains [] x = false
contains (y ∷ ys) x = y == x || contains ys x

-- `while start < 3000: … start = end`, on fuel: the orders of all the ranges that are queried.
unfoldable pub collect_orders : ℕ → (ℕ → ℕ → List ℕ) → ℕ → List ℕ
collect_orders zero between start = []
collect_orders (suc fuel) between start =
    let rest = collect_orders fuel between (start + 1000) in
    if ltb start 3000 then between start (start + 1000) ++ rest else []

-- `for order in range(1, 3001): if order not in orders: print(...)`
unfoldable pub missing_orders : List ℕ → List ℕ → List ℕ
missing_orders orders [] = []
missing_orders orders (x ∷ xs) =
    let rest = missing_orders orders xs in if contains orders x then rest else x ∷ rest

-- The first row of the scan, and the orders that are printed as missing.
abbrev pub check_row : Answers → DistrictRow → Option String × List ℕ
check_row a row = if row.order_count == 3000 then (none, []) else (
  some (
      "Order lines count is "
      <> show row.order_count
      <> " and not 3000 in warehouse "
      <> show row.warehouse
      <> " district "
      <> show row.district),
  missing_orders (collect_orders 4 (a.orders_between row.warehouse row.district) 1) (range 1 3000),
)

abbrev pub first_row : Answers → List (List DistrictRow) → Option String × List ℕ
first_row a [] = (some "No order lines found", [])
first_row a ([] ∷ parts) = (some "No order lines found", [])
first_row a ((row ∷ rows) ∷ parts) = check_row a row

unfoldable pub validate_order_lines : Answers → Option String × List ℕ
validate_order_lines a = first_row a a.order_line_parts

abbrev pub sums_error : List SumRow → Option String
sums_error [] = none
sums_error (row ∷ rows) = some "oorder sums are incorrect"

unfoldable pub validate_oorder : Answers → Option String
validate_oorder a = sums_error a.wrong_sums

abbrev pub check_stock_items : List ItemRow → Option String
check_stock_items [] = some "No stock found (no items)"
check_stock_items (row ∷ rows) =
    if row.item_count == 100000
    then none
    else some (
        "Stock count is "
        <> show row.item_count
        <> " and not 100000 in warehouse "
        <> show row.warehouse)

abbrev pub stock_result : Option String → List ItemRow → Option String
stock_result (some error) items = some error
stock_result none items = check_stock_items items

unfoldable pub validate_stock : ℕ → Answers → Option String
validate_stock w a =
    stock_result
      (check_count "No stock found (warehouse count is zero)" "Warehouse" a.stock_warehouses w)
      a.stock_items

-- The checks that `run` submits, each with its name.
unfoldable pub run_checks : ℕ → Answers → List (String × Option String)
run_checks w a =
    ("warehouses", validate_warehouses w a)
    ∷ ("districts", validate_districts w a)
    ∷ ("customers", validate_customers w a)
    ∷ ("items", validate_items a)
    ∷ ("open_orders", validate_open_orders w a)
    ∷ ("new_orders", validate_new_orders w a)
    ∷ ("order_lines", (validate_order_lines a).0)
    ∷ ("stock", validate_stock w a)
    ∷ ("oorder", validate_oorder a)
    ∷ ("history", validate_history w a)
    ∷ []
