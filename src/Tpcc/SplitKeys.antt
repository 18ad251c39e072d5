-- ===== src/Tpcc/SplitKeys.antt =====
-- How tpcc/ydb/tpcc_helper.py cuts the tables into shards: `calc_min_parts`, `get_split_keys`,
-- `get_split_keys_str` of `CreateTables`, and the minimum that `EnableSplitByLoad` asks for.
pub mod Shards
pub mod Limits
pub mod Size
mod Tests
use benchhelpers.Prelude.{
  List, Option, Result, String, [], ceil_div, err, if◌then◌else◌, join, length, ltb, map, max, min,
  none, ok, show, some, suc, zero, zero_division_error, ℕ, ◌*◌, ◌+◌, ◌-◌, ◌/◌, ◌<>◌, ◌==◌, ◌>>=◌,
  ◌>>◌, ◌∷◌,
}

pub data Table : Type 0 where
  warehouse district customer history new_order oorder order_line item stock : Table

-- `TABLES`
abbrev pub tables : List Table
tables =
    warehouse ∷ district ∷ customer ∷ history ∷ new_order ∷ oorder ∷ order_line ∷ item ∷ stock ∷ []

abbrev pub default_min_partitions : ℕ
default_min_partitions = 50

abbrev pub default_min_warehouses_per_shard : ℕ
default_min_warehouses_per_shard = 100

abbrev pub default_shard_size_mb : ℕ
default_shard_size_mb = 2000

abbrev pub items_num : ℕ
items_num = 100000

abbrev pub min_items_per_shard : ℕ
min_items_per_shard = 100

-- `PER_WAREHOUSE_MB`, in tenths of a megabyte; `none` for a table that is not listed.
abbrev pub per_warehouse_mb : Table → Option ℕ
per_warehouse_mb stock = some 450
per_warehouse_mb customer = some 201
per_warehouse_mb order_line = some 350
per_warehouse_mb history = some 24
per_warehouse_mb oorder = some 15
per_warehouse_mb _ = none

unfoldable pub calc_min_parts : ℕ → ℕ
calc_min_parts warehouse_count =
    max default_min_partitions (warehouse_count / default_min_warehouses_per_shard)

-- `while current < limit: append(current); current += step`, on fuel.
unfoldable pub key_loop : ℕ → ℕ → ℕ → ℕ → List ℕ
key_loop zero current step limit = []
key_loop (suc fuel) current step limit =
    let rest = key_loop fuel (current + step) step limit in
    if ltb current limit then current ∷ rest else []

-- The shard size that the size limit allows, in warehouses: `(2000 + mb - 1) // mb` in tenths.
abbrev pub by_size : ℕ → ℕ
by_size mb = (10 * default_shard_size_mb + mb - 10) / mb

-- `warehouses_per_shard` of a table other than `item`
unfoldable pub warehouses_per_shard : ℕ → Table → ℕ → ℕ
warehouses_per_shard warehouse_count table min_shard_count = elim (per_warehouse_mb table) [
  | some mb ↦ min (by_size mb) (ceil_div warehouse_count min_shard_count)
  | none ↦ ceil_div warehouse_count min_shard_count
]

abbrev pub item_keys : ℕ → List ℕ
item_keys min_shard_count =
    let items_per_shard = max min_items_per_shard (items_num / min_shard_count) in
    key_loop items_num items_per_shard items_per_shard items_num

abbrev pub warehouse_keys : ℕ → ℕ → List ℕ
warehouse_keys warehouse_count per_shard =
    if ltb per_shard 2
    then []
    else key_loop warehouse_count (1 + per_shard) per_shard (warehouse_count + 1)

-- Every branch divides by `min_shard_count`.
unfoldable pub get_split_keys : ℕ → Table → ℕ → Result (List ℕ)
get_split_keys warehouse_count item min_shard_count =
    if min_shard_count == 0 then err zero_division_error else ok (item_keys min_shard_count)
get_split_keys warehouse_count table min_shard_count =
    if min_shard_count == 0
    then err zero_division_error
    else ok (
        warehouse_keys warehouse_count (warehouses_per_shard warehouse_count table min_shard_count))

-- The clause of the DDL and the minimum number of partitions.
abbrev pub keys_str : List ℕ → ℕ → String × ℕ
keys_str [] min_parts = ("", min_parts)
keys_str (k ∷ ks) min_parts = (
  ",PARTITION_AT_KEYS = (" <> join "," (map show (k ∷ ks)) <> ")",
  max min_parts (length (k ∷ ks) + 1),
)

unfoldable pub get_split_keys_str : ℕ → Table → Result (String × ℕ)
get_split_keys_str warehouse_count table = do
  let min_parts = calc_min_parts warehouse_count
  split_keys ← get_split_keys warehouse_count table min_parts
  ok (keys_str split_keys min_parts)

-- The `with_min_partitions_count` of `enable_split_on_load`
unfoldable pub split_by_load_min_parts : ℕ → Table → Result ℕ
split_by_load_min_parts warehouse_count table = do
  let min_parts = calc_min_parts warehouse_count
  split_keys ← get_split_keys warehouse_count table min_parts
  ok (max min_parts (length split_keys + 1))
