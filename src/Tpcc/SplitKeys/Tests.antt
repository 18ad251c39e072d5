-- ===== src/Tpcc/SplitKeys/Tests.antt =====
-- Runs of the split keys, and the theorems at them.
use benchhelpers.Prelude.{
  List, [], arith, ceil_div, get_elem?, if◌then◌else◌, join, leb, none, ok, refl, show, some, ℕ,
  ◌*◌, ◌+◌, ◌-◌, ◌/◌, ◌∷◌, ◌≡◌, ◌≢◌,
}
use benchhelpers.Tpcc.SplitKeys.{
  stock, item, get_split_keys, get_split_keys_str, key_loop, warehouses_per_shard, calc_min_parts,
}
use benchhelpers.Tpcc.SplitKeys.Shards.{shard_of, get_elem?-get_split_keys, shard_of-get_split_keys}

abbrev three_keys : List ℕ
three_keys = 6 ∷ 11 ∷ 16 ∷ []

small_split : get_split_keys 18 stock 4 ≡ ok three_keys
unfolding get_split_keys key_loop warehouses_per_shard ceil_div
small_split = refl

written :
    get_split_keys_str 102 stock
    ≡ ok (
      ",PARTITION_AT_KEYS = (4,7,10,13,16,19,22,25,28,31,34,37,40,43,46,49,52,55,58,61,64,67,70,73,76,79,82,85,88,91,94,97,100)",
      50,
    )
unfolding get_split_keys_str calc_min_parts get_split_keys key_loop warehouses_per_shard ceil_div
    join show
written = refl

not_item : stock ≢ item
not_item e = cc

get_elem?-get_split_keys_example :
    get_elem? three_keys 2 ≡ (if leb (1 + 5 * (2 + 1)) 18 then some (1 + 5 * (2 + 1)) else none)
unfolding warehouses_per_shard ceil_div
get_elem?-get_split_keys_example =
    get_elem?-get_split_keys 18 4 stock not_item (omega arith) small_split (omega arith) 2

shard_of-get_split_keys_example : shard_of three_keys 12 ≡ (12 - 1) / 5
unfolding warehouses_per_shard ceil_div
shard_of-get_split_keys_example =
    shard_of-get_split_keys 18 4 stock not_item (omega arith) small_split (omega arith) 12
      (omega arith) (omega arith)
