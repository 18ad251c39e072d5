-- ===== src/Tpcc/Validate/Postgres.antt =====
-- The checks of tpcc/postgres/tpcc_postgres_helper.py, beside those of tpcc/ydb/tpcc_helper.py. A row
-- count is an argument.
use benchhelpers.Prelude.{
  List, Option, String, [], if◌then◌else◌, none, show, some, ℕ, ◌*◌, ◌<>◌, ◌==◌, ◌∷◌, ◌≡◌,
}
use benchhelpers.Tpcc.Validate.{
  Answers, validate_warehouses, validate_districts, validate_customers, validate_items,
  validate_open_orders, validate_new_orders, validate_history,
}

-- `SELECT COUNT(*)` of each table, and the distinct warehouses of the stock.
pub record RowCounts : Type 0 where
  pub warehouse : ℕ
  pub district : ℕ
  pub customer : ℕ
  pub item : ℕ
  pub oorder : ℕ
  pub new_order : ℕ
  pub stock_warehouses : ℕ
  pub history : ℕ

abbrev compare_count : String → ℕ → ℕ → Option String
compare_count noun actual expected =
    if actual == expected
    then none
    else some (noun <> " count is " <> show actual <> " and not " <> show expected)

abbrev pub warehouse_error : ℕ → RowCounts → Option String
warehouse_error w c = compare_count "Warehouse" c.warehouse w

abbrev pub district_error : ℕ → RowCounts → Option String
district_error w c = compare_count "District" c.district (w * 10)

abbrev pub customer_error : ℕ → RowCounts → Option String
customer_error w c = compare_count "Customer" c.customer (w * 30000)

abbrev pub item_error : RowCounts → Option String
item_error c = compare_count "Item" c.item 100000

abbrev pub open_order_error : ℕ → RowCounts → Option String
open_order_error w c = compare_count "Order" c.oorder (w * 30000)

abbrev pub new_order_error : ℕ → RowCounts → Option String
new_order_error w c = compare_count "New order" c.new_order (w * 9000)

abbrev pub stock_error : ℕ → RowCounts → Option String
stock_error w c = compare_count "Warehouse" c.stock_warehouses w

abbrev pub history_error : ℕ → RowCounts → Option String
history_error w c = compare_count "History" c.history (w * 30000)

-- The queries of the other helper, on a database with these counts.
pub record SameCounts (a : Answers) (c : RowCounts) : Type 0 where
  pub warehouse : a.warehouses ≡ c.warehouse ∷ []
  pub district : a.districts ≡ c.district ∷ []
  pub customer : a.customers ≡ c.customer ∷ []
  pub item : a.items ≡ c.item ∷ []
  pub oorder : a.open_orders ≡ c.oorder ∷ []
  pub new_order : a.new_orders ≡ c.new_order ∷ []
  pub history : a.history ≡ c.history ∷ []

abbrev pub ydb_errors : ℕ → Answers → List (Option String)
ydb_errors w a =
    validate_warehouses w a
    ∷ validate_districts w a
    ∷ validate_customers w a
    ∷ validate_items a
    ∷ validate_open_orders w a
    ∷ validate_new_orders w a
    ∷ validate_history w a
    ∷ []

abbrev pub postgres_errors : ℕ → RowCounts → List (Option String)
postgres_errors w c =
    warehouse_error w c
    ∷ district_error w c
    ∷ customer_error w c
    ∷ item_error c
    ∷ open_order_error w c
    ∷ new_order_error w c
    ∷ history_error w c
    ∷ []

-- On the same counts, the two helpers report the same errors for the warehouses, the districts, the
-- customers, the items, the orders, the new orders and the history.
pub postgres_errors-eq :
    (w : ℕ) (a : Answers) (c : RowCounts) → SameCounts a c → ydb_errors w a ≡ postgres_errors w c
unfolding validate_warehouses validate_districts validate_customers validate_items
    validate_open_orders validate_new_orders validate_history
postgres_errors-eq w a c same = rw (
  same.warehouse, same.district, same.customer, same.item, same.oorder, same.new_order,
  same.history,
)
