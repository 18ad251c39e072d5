-- ===== src/Tpcc/SplitKeys/Limits.antt =====
-- The number of partitions that the two scripts ask for.
use benchhelpers.Prelude.{
  List, Result, String, [], ap, arith, length, max, ok, refl, ℕ, ◌+◌, ◌<◌, ◌>>=◌, ◌∷◌, ◌≡◌, ◌≤◌,
}
use benchhelpers.Tpcc.SplitKeys.{
  Table, item, calc_min_parts, item_keys, warehouse_keys, warehouses_per_shard, get_split_keys,
  get_split_keys_str, split_by_load_min_parts, keys_str,
}

get_split_keys_total :
    (w : ℕ) (t : Table) (m : ℕ) → 0 < m → (keys : List ℕ) × (get_split_keys w t m ≡ ok keys)
unfolding get_split_keys
get_split_keys_total w item m pos = (item_keys m, ground arith)
get_split_keys_total w t m pos = (warehouse_keys w (warehouses_per_shard w t m), ground arith)

calc_min_parts-pos : (w : ℕ) → 0 < calc_min_parts w
unfolding calc_min_parts
calc_min_parts-pos w = omega arith

get_split_keys_str-eq :
    (w : ℕ) (t : Table) {keys : List ℕ}
    → get_split_keys w t (calc_min_parts w) ≡ ok keys
    → get_split_keys_str w t ≡ ok (keys_str keys (calc_min_parts w))
unfolding get_split_keys_str
get_split_keys_str-eq w t made = rw made

keys_str_ok :
    (keys : List ℕ) (m : ℕ)
    → (s : String) × (n : ℕ) × (◌≡◌ {A = Result (String × ℕ)} (ok (keys_str keys m)) (ok (s, n)))
      × (m ≤ n)
keys_str_ok [] m = ("", m, refl, omega arith)
keys_str_ok (k ∷ ks) m = ((keys_str (k ∷ ks) m).0, (keys_str (k ∷ ks) m).1, refl, omega arith)

count_agrees :
    (keys : List ℕ) (m : ℕ)
    → 0 < m
    → ◌≡◌ {A = Result ℕ} (ok (max m (length keys + 1))) (ok (keys_str keys m).1)
count_agrees [] m pos = ap (λ n. ok n) (omega arith)
count_agrees (k ∷ ks) m pos = refl

-- Whatever the table, the DDL is written: the division by the minimum number of shards never fails.
pub get_split_keys_str_total :
    (warehouse_count : ℕ) (table : Table)
    → (s : String) × (n : ℕ) × (get_split_keys_str warehouse_count table ≡ ok (s, n))
      × (calc_min_parts warehouse_count ≤ n)
get_split_keys_str_total w t =
    let (keys, made) = get_split_keys_total w t (calc_min_parts w) (calc_min_parts-pos w) in
    rw (get_split_keys_str-eq w t made) (keys_str_ok keys (calc_min_parts w))

-- Creating a table and enabling the split by load ask for the same minimum of partitions.
pub split_by_load_min_parts-eq :
    (warehouse_count : ℕ) (table : Table)
    → split_by_load_min_parts warehouse_count table
      ≡ (get_split_keys_str warehouse_count table >>= λ r. ok r.1)
unfolding split_by_load_min_parts get_split_keys_str
split_by_load_min_parts-eq w t =
    let (keys, made) = get_split_keys_total w t (calc_min_parts w) (calc_min_parts-pos w) in
    rw made (count_agrees keys (calc_min_parts w) (calc_min_parts-pos w))
