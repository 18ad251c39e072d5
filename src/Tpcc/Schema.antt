-- ===== src/Tpcc/Schema.antt =====
-- The statements of `CreateTables` in tpcc/ydb/tpcc_helper.py, table by table.
pub mod Run
pub mod Keyed
pub mod Catalogue
pub mod Split
mod Tests
use benchhelpers.Prelude.{Bool, List, Option, String, [], false, none, some, true, ℕ, ◌*◌, ◌∷◌}
use benchhelpers.Tpcc.SplitKeys.{
  Table, warehouse, district, customer, history, new_order, oorder, order_line, item, stock,
  default_shard_size_mb,
}

pub data Kind : Type 0 where
  int32 int64 double utf8 timestamp : Kind

pub record Column : Type 0 where
  pub name : String
  pub kind : Kind
  pub not_null : Bool

abbrev pub required : String → Kind → Column
required name kind = record { name = name; kind = kind; not_null = true }

abbrev pub nullable : String → Kind → Column
nullable name kind = record { name = name; kind = kind; not_null = false }

-- A `CREATE TABLE` with its `WITH` clause: `by_load` is AUTO_PARTITIONING_BY_LOAD.
pub record TableDdl : Type 0 where
  pub table : Table
  pub columns : List Column
  pub primary_key : List String
  pub by_load : Bool
  pub partition_size_mb : Option ℕ
  pub min_partitions_count : ℕ
  pub max_partitions_count : ℕ
  pub split_keys : String

abbrev pub create_warehouse : String → ℕ → TableDdl
create_warehouse split_keys shard_count = record {
  table = warehouse;
  columns =
      required "W_ID" int32
      ∷ nullable "W_YTD" double
      ∷ nullable "W_TAX" double
      ∷ nullable "W_NAME" utf8
      ∷ nullable "W_STREET_1" utf8
      ∷ nullable "W_STREET_2" utf8
      ∷ nullable "W_CITY" utf8
      ∷ nullable "W_STATE" utf8
      ∷ nullable "W_ZIP" utf8
      ∷ [];
  primary_key = "W_ID" ∷ [];
  by_load = false;
  partition_size_mb = none;
  min_partitions_count = shard_count;
  max_partitions_count = shard_count * 2;
  split_keys = split_keys;
}

abbrev pub create_item : String → ℕ → TableDdl
create_item split_keys shard_count = record {
  table = item;
  columns =
      required "I_ID" int32
      ∷ nullable "I_NAME" utf8
      ∷ nullable "I_PRICE" double
      ∷ nullable "I_DATA" utf8
      ∷ nullable "I_IM_ID" int32
      ∷ [];
  primary_key = "I_ID" ∷ [];
  by_load = false;
  partition_size_mb = none;
  min_partitions_count = shard_count;
  max_partitions_count = shard_count * 2;
  split_keys = split_keys;
}

abbrev pub create_stock : String → ℕ → TableDdl
create_stock split_keys shard_count = record {
  table = stock;
  columns =
      required "S_W_ID" int32
      ∷ required "S_I_ID" int32
      ∷ nullable "S_QUANTITY" int32
      ∷ nullable "S_YTD" double
      ∷ nullable "S_ORDER_CNT" int32
      ∷ nullable "S_REMOTE_CNT" int32
      ∷ nullable "S_DATA" utf8
      ∷ nullable "S_DIST_01" utf8
      ∷ nullable "S_DIST_02" utf8
      ∷ nullable "S_DIST_03" utf8
      ∷ nullable "S_DIST_04" utf8
      ∷ nullable "S_DIST_05" utf8
      ∷ nullable "S_DIST_06" utf8
      ∷ nullable "S_DIST_07" utf8
      ∷ nullable "S_DIST_08" utf8
      ∷ nullable "S_DIST_09" utf8
      ∷ nullable "S_DIST_10" utf8
      ∷ [];
  primary_key = "S_W_ID" ∷ "S_I_ID" ∷ [];
  by_load = false;
  partition_size_mb = some default_shard_size_mb;
  min_partitions_count = shard_count;
  max_partitions_count = shard_count * 2;
  split_keys = split_keys;
}

abbrev pub create_district : String → ℕ → TableDdl
create_district split_keys shard_count = record {
  table = district;
  columns =
      required "D_W_ID" int32
      ∷ required "D_ID" int32
      ∷ nullable "D_YTD" double
      ∷ nullable "D_TAX" double
      ∷ nullable "D_NEXT_O_ID" int32
      ∷ nullable "D_NAME" utf8
      ∷ nullable "D_STREET_1" utf8
      ∷ nullable "D_STREET_2" utf8
      ∷ nullable "D_CITY" utf8
      ∷ nullable "D_STATE" utf8
      ∷ nullable "D_ZIP" utf8
      ∷ [];
  primary_key = "D_W_ID" ∷ "D_ID" ∷ [];
  by_load = false;
  partition_size_mb = none;
  min_partitions_count = shard_count;
  max_partitions_count = shard_count * 2;
  split_keys = split_keys;
}

abbrev pub create_customer : String → ℕ → TableDdl
create_customer split_keys shard_count = record {
  table = customer;
  columns =
      required "C_W_ID" int32
      ∷ required "C_D_ID" int32
      ∷ required "C_ID" int32
      ∷ nullable "C_DISCOUNT" double
      ∷ nullable "C_CREDIT" utf8
      ∷ nullable "C_LAST" utf8
      ∷ nullable "C_FIRST" utf8
      ∷ nullable "C_CREDIT_LIM" double
      ∷ nullable "C_BALANCE" double
      ∷ nullable "C_YTD_PAYMENT" double
      ∷ nullable "C_PAYMENT_CNT" int32
      ∷ nullable "C_DELIVERY_CNT" int32
      ∷ nullable "C_STREET_1" utf8
      ∷ nullable "C_STREET_2" utf8
      ∷ nullable "C_CITY" utf8
      ∷ nullable "C_STATE" utf8
      ∷ nullable "C_ZIP" utf8
      ∷ nullable "C_PHONE" utf8
      ∷ nullable "C_SINCE" timestamp
      ∷ nullable "C_MIDDLE" utf8
      ∷ nullable "C_DATA" utf8
      ∷ [];
  primary_key = "C_W_ID" ∷ "C_D_ID" ∷ "C_ID" ∷ [];
  by_load = false;
  partition_size_mb = some default_shard_size_mb;
  min_partitions_count = shard_count;
  max_partitions_count = shard_count * 2;
  split_keys = split_keys;
}

abbrev pub create_history : String → ℕ → TableDdl
create_history split_keys shard_count = record {
  table = history;
  columns =
      nullable "H_C_W_ID" int32
      ∷ nullable "H_C_ID" int32
      ∷ nullable "H_C_D_ID" int32
      ∷ nullable "H_D_ID" int32
      ∷ nullable "H_W_ID" int32
      ∷ nullable "H_DATE" timestamp
      ∷ nullable "H_AMOUNT" double
      ∷ nullable "H_DATA" utf8
      ∷ required "H_C_NANO_TS" int64
      ∷ [];
  primary_key = "H_C_W_ID" ∷ "H_C_NANO_TS" ∷ [];
  by_load = false;
  partition_size_mb = some default_shard_size_mb;
  min_partitions_count = shard_count;
  max_partitions_count = shard_count * 2;
  split_keys = split_keys;
}

abbrev pub create_oorder : String → ℕ → TableDdl
create_oorder split_keys shard_count = record {
  table = oorder;
  columns =
      required "O_W_ID" int32
      ∷ required "O_D_ID" int32
      ∷ required "O_ID" int32
      ∷ nullable "O_C_ID" int32
      ∷ nullable "O_CARRIER_ID" int32
      ∷ nullable "O_OL_CNT" int32
      ∷ nullable "O_ALL_LOCAL" int32
      ∷ nullable "O_ENTRY_D" timestamp
      ∷ [];
  primary_key = "O_W_ID" ∷ "O_D_ID" ∷ "O_ID" ∷ [];
  by_load = false;
  partition_size_mb = some default_shard_size_mb;
  min_partitions_count = shard_count;
  max_partitions_count = shard_count * 2;
  split_keys = split_keys;
}

abbrev pub create_new_order : String → ℕ → TableDdl
create_new_order split_keys shard_count = record {
  table = new_order;
  columns = required "NO_W_ID" int32 ∷ required "NO_D_ID" int32 ∷ required "NO_O_ID" int32 ∷ [];
  primary_key = "NO_W_ID" ∷ "NO_D_ID" ∷ "NO_O_ID" ∷ [];
  by_load = false;
  partition_size_mb = some default_shard_size_mb;
  min_partitions_count = shard_count;
  max_partitions_count = shard_count * 2;
  split_keys = split_keys;
}

abbrev pub create_order_line : String → ℕ → TableDdl
create_order_line split_keys shard_count = record {
  table = order_line;
  columns =
      required "OL_W_ID" int32
      ∷ required "OL_D_ID" int32
      ∷ required "OL_O_ID" int32
      ∷ required "OL_NUMBER" int32
      ∷ nullable "OL_I_ID" int32
      ∷ nullable "OL_DELIVERY_D" timestamp
      ∷ nullable "OL_AMOUNT" double
      ∷ nullable "OL_SUPPLY_W_ID" int32
      ∷ nullable "OL_QUANTITY" double
      ∷ nullable "OL_DIST_INFO" utf8
      ∷ [];
  primary_key = "OL_W_ID" ∷ "OL_D_ID" ∷ "OL_O_ID" ∷ "OL_NUMBER" ∷ [];
  by_load = false;
  partition_size_mb = some default_shard_size_mb;
  min_partitions_count = shard_count;
  max_partitions_count = shard_count * 2;
  split_keys = split_keys;
}
