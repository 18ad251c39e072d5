-- ===== src/Tpcc/Schema/Keyed.antt =====
-- Every statement of `CreateTables` is well formed.
use benchhelpers.Prelude.{
  Bool, List, Option, String, [], arith, false, if◌then◌else◌, none, ok, refl, some, str_eq, true,
  ℕ, ◌∷◌, ◌≡◌, ◌≤◌,
}
use benchhelpers.Tpcc.SplitKeys.{
  Table, warehouse, district, customer, history, new_order, oorder, order_line, item, stock,
  calc_min_parts,
}
use benchhelpers.Tpcc.SplitKeys.Limits.{get_split_keys_str_total}
use benchhelpers.Tpcc.Schema.{Kind, int32, Column, TableDdl}
use benchhelpers.Tpcc.Schema.Run.{table_ddl, ddl_with, keys_of}

-- A column of this name, with its type.
abbrev pub column_kind : List Column → String → Option Kind
column_kind [] name = none
column_kind (c ∷ cs) name =
    let rest = column_kind cs name in if str_eq c.name name then some c.kind else rest

abbrev pub all_declared : List Column → List String → Bool
all_declared columns [] = true
all_declared columns (k ∷ ks) =
    let rest = all_declared columns ks in
    elim (column_kind columns k) [ none ↦ false | some kind ↦ rest ]

abbrev pub first_key : List String → String
first_key [] = ""
first_key (k ∷ ks) = k

-- Every column of the key is declared, the split keys are numbers of its first column's type, and
-- the limits on the partitions are in order.
pub record IsKeyed (min_parts : ℕ) (ddl : TableDdl) : Type 0 where
  pub declared : all_declared ddl.columns ddl.primary_key ≡ true
  pub integer_key : column_kind ddl.columns (first_key ddl.primary_key) ≡ some int32
  pub at_least : min_parts ≤ ddl.min_partitions_count
  pub in_order : ddl.min_partitions_count ≤ ddl.max_partitions_count

ddl_with-IsKeyed : (m : ℕ) (t : Table) (s : String) (n : ℕ) → m ≤ n → IsKeyed m (ddl_with t s n)
ddl_with-IsKeyed m warehouse s n le = record {
  declared = refl;
  integer_key = refl;
  at_least = le;
  in_order = omega arith;
}
ddl_with-IsKeyed m district s n le = record {
  declared = refl;
  integer_key = refl;
  at_least = le;
  in_order = omega arith;
}
ddl_with-IsKeyed m customer s n le = record {
  declared = refl;
  integer_key = refl;
  at_least = le;
  in_order = omega arith;
}
ddl_with-IsKeyed m history s n le = record {
  declared = refl;
  integer_key = refl;
  at_least = le;
  in_order = omega arith;
}
ddl_with-IsKeyed m new_order s n le = record {
  declared = refl;
  integer_key = refl;
  at_least = le;
  in_order = omega arith;
}
ddl_with-IsKeyed m oorder s n le = record {
  declared = refl;
  integer_key = refl;
  at_least = le;
  in_order = omega arith;
}
ddl_with-IsKeyed m order_line s n le = record {
  declared = refl;
  integer_key = refl;
  at_least = le;
  in_order = omega arith;
}
ddl_with-IsKeyed m item s n le = record {
  declared = refl;
  integer_key = refl;
  at_least = le;
  in_order = omega arith;
}
ddl_with-IsKeyed m stock s n le = record {
  declared = refl;
  integer_key = refl;
  at_least = le;
  in_order = omega arith;
}

ddl_with-table : (t : Table) (s : String) (n : ℕ) → (ddl_with t s n).table ≡ t
ddl_with-table warehouse s n = refl
ddl_with-table district s n = refl
ddl_with-table customer s n = refl
ddl_with-table history s n = refl
ddl_with-table new_order s n = refl
ddl_with-table oorder s n = refl
ddl_with-table order_line s n = refl
ddl_with-table item s n = refl
ddl_with-table stock s n = refl

-- Every table has a statement, whose key is declared and begins with a 32-bit number, with at least
-- the minimum of partitions asked for and a maximum that is no less.
pub table_ddl-IsKeyed :
    (warehouse_count : ℕ) (table : Table)
    → (ddl : TableDdl) × (table_ddl warehouse_count table ≡ ok ddl)
      × (ddl.table ≡ table)
      × IsKeyed (calc_min_parts warehouse_count) ddl
unfolding table_ddl
table_ddl-IsKeyed w t =
    let (keys, n, made, le) = get_split_keys_str_total w (keys_of t) in
    (ddl_with t keys n, rw made refl, ddl_with-table t keys n, ddl_with-IsKeyed _ t keys n le)
