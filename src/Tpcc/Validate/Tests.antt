-- ===== src/Tpcc/Validate/Tests.antt =====
-- A complete database of two warehouses, and one that lost an order.
use benchhelpers.Prelude.{[], arith, false, leb, not, range, ◌&&◌, ◌-◌, ◌↔◌, ◌∷◌, ◌≡◌}
use benchhelpers.Tpcc.Validate.{Answers, DistrictRow, contains, check_row, run_checks}
use benchhelpers.Tpcc.Validate.Complete.{AllPass, IsComplete, run_checks-IsComplete}
use benchhelpers.Tpcc.Validate.Missing.{Gives, check_row-missing}
use benchhelpers.Tpcc.Validate.Postgres.{RowCounts}

abbrev two_warehouses : Answers
two_warehouses = record {
  warehouses = 2 ∷ [];
  districts = 20 ∷ [];
  customers = 60000 ∷ [];
  items = 100000 ∷ [];
  open_orders = 60000 ∷ [];
  new_orders = 18000 ∷ [];
  order_line_parts = (record { warehouse = 1; district = 1; order_count = 3000 } ∷ []) ∷ [];
  orders_between = λ w d a b. range a (b - a);
  wrong_sums = [];
  stock_warehouses = 2 ∷ [];
  stock_items = record { warehouse = 1; item_count = 100000 } ∷ [];
  history = 60000 ∷ [];
}

abbrev two_counts : RowCounts
two_counts = record {
  warehouse = 2;
  district = 20;
  customer = 60000;
  item = 100000;
  oorder = 60000;
  new_order = 18000;
  stock_warehouses = 2;
  history = 60000;
}

run_checks-IsComplete_example : AllPass (run_checks 2 two_warehouses) ↔ IsComplete 2 two_warehouses
run_checks-IsComplete_example = run_checks-IsComplete 2 two_warehouses

-- A district that lost its orders: the queries of all the ranges are empty.
abbrev emptied : Answers
emptied = record two_warehouses { orders_between = λ w d first end. [] }

abbrev emptied_row : DistrictRow
emptied_row = record { warehouse = 1; district = 1; order_count = 0 }

emptied-Gives : Gives emptied emptied_row (λ x. false)
emptied-Gives first end x = ground arith

check_row-missing_example :
    contains (check_row emptied emptied_row).1 7 ≡ ((leb 1 7 && leb 7 3000) && not false)
check_row-missing_example =
    check_row-missing emptied emptied_row (λ x. false) emptied-Gives (λ e. absurd (omega arith)) 7
