-- ===== src/Tpcc/SplitKeys/Size.antt =====
-- The data that one shard of a table can hold.
use benchhelpers.Prelude.{
  List, ap, arith, ceil_div-ge_two, ok, some, ℕ, ◌*◌, ◌+◌, ◌-◌, ◌<◌, ◌≡◌, ◌≢◌, ◌≤◌,
}
use benchhelpers.Tpcc.SplitKeys.{
  Table, warehouse, item, get_split_keys, warehouses_per_shard, per_warehouse_mb,
  default_shard_size_mb,
}
use benchhelpers.Tpcc.SplitKeys.Shards.{shard_of, shard_of-le-apart}

sized_by_warehouse : (t : Table) {mb : ℕ} → per_warehouse_mb t ≡ some mb → t ≢ item
sized_by_warehouse t sized e = ground (arith, ap per_warehouse_mb e)

-- A sized table with more warehouses than shards is split, and its shards fit the size limit.
per_shard_bounds :
    (w m : ℕ) (t : Table) {mb : ℕ}
    → per_warehouse_mb t ≡ some mb
    → 0 < m
    → m < w
    → (2 ≤ warehouses_per_shard w t m)
      × (warehouses_per_shard w t m * mb + 10 ≤ 10 * default_shard_size_mb + mb)
unfolding warehouses_per_shard
per_shard_bounds w m warehouse sized pos many = cc
per_shard_bounds w m _ sized pos many = ground (arith, ceil_div-ge_two w m pos many)

-- The data of a table, by its size per warehouse in tenths of a megabyte: the warehouses x to y
-- of one shard hold less than the size limit and one warehouse more.
pub shard_size_bound :
    (warehouse_count min_shard_count : ℕ) (table : Table) {keys : List ℕ} {mb : ℕ}
    → per_warehouse_mb table ≡ some mb
    → 0 < min_shard_count
    → get_split_keys warehouse_count table min_shard_count ≡ ok keys
    → min_shard_count < warehouse_count
    → (x y : ℕ) → 1 ≤ x
    → x ≤ y
    → y ≤ warehouse_count
    → shard_of keys x ≡ shard_of keys y
    → (y + 1 - x) * mb + 10 ≤ 10 * default_shard_size_mb + mb
shard_size_bound w m t {keys} {mb} sized pos made many x y low order high same =
    let b = per_shard_bounds w m t sized pos many in
    let near =
      shard_of-le-apart w m t (sized_by_warehouse t sized) pos made b.0 x y low order high same in
    grind (arith, b.1, near)
