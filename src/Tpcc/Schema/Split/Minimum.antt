-- ===== src/Tpcc/Schema/Split/Minimum.antt =====
-- The requests beside the tables that `CreateTables` makes.
use benchhelpers.Prelude.{
  >>=-eq-ok, All, Bool, List, Result, String, [], ap, err, exit, false, if◌then◌else◌, map, min, ok,
  ok_injective, refl, sym, true, ℕ, ◌<>◌, ◌>>=◌, ◌∙◌, ◌∷◌, ◌≡◌,
}
use benchhelpers.Tpcc.SplitKeys.{
  Table, warehouse, district, customer, history, new_order, oorder, order_line, item, stock, tables,
  warehouses_per_shard, get_split_keys, get_split_keys_str, split_by_load_min_parts,
}
use benchhelpers.Tpcc.SplitKeys.Limits.{split_by_load_min_parts-eq}
use benchhelpers.Tpcc.Schema.Run.{table_ddl, ddl_with, keys_of}
use benchhelpers.Tpcc.Schema.Split.{
  AlterTable, table_name, alter_table, start_requests, all_succeed, enable_split_by_load,
}

-- The small tables have the keys that they would have by their own names.
keys_of-same : (w : ℕ) (t : Table) → get_split_keys_str w (keys_of t) ≡ get_split_keys_str w t
unfolding get_split_keys_str get_split_keys warehouses_per_shard
keys_of-same w warehouse = refl
keys_of-same w district = refl
keys_of-same w customer = refl
keys_of-same w history = refl
keys_of-same w new_order = refl
keys_of-same w oorder = refl
keys_of-same w order_line = refl
keys_of-same w item = refl
keys_of-same w stock = refl

ddl_with-min : (t : Table) (s : String) (n : ℕ) → (ddl_with t s n).min_partitions_count ≡ n
ddl_with-min warehouse s n = refl
ddl_with-min district s n = refl
ddl_with-min customer s n = refl
ddl_with-min history s n = refl
ddl_with-min new_order s n = refl
ddl_with-min oorder s n = refl
ddl_with-min order_line s n = refl
ddl_with-min item s n = refl
ddl_with-min stock s n = refl

-- The minimum of partitions of the statement that creates a table.
abbrev pub created_min : ℕ → Table → Result ℕ
created_min warehouse_count table =
    table_ddl warehouse_count table >>= λ ddl. ok ddl.min_partitions_count

created_min-eq : (w : ℕ) (t : Table) → created_min w t ≡ split_by_load_min_parts w t
unfolding table_ddl
created_min-eq w t =
    mins (get_split_keys_str w (keys_of t))
    ∙ ap (λ m. m >>= λ r. ok r.1) (keys_of-same w t)
    ∙ sym (split_by_load_min_parts-eq w t)
  where
    mins :
        (m : Result (String × ℕ))
        → ((m >>= λ r. ok (ddl_with t r.0 r.1)) >>= λ ddl. ok ddl.min_partitions_count)
          ≡ (m >>= λ r. ok r.1)
    mins (ok (s, n)) = ap (λ k. ok k) (ddl_with-min t s n)
    mins (err e) = refl

alter_table-min :
    (database : String) (w : ℕ) (t : Table) {r : AlterTable}
    → alter_table database w t ≡ ok r
    → (r.path ≡ database <> "/" <> table_name t)
      × (ok r.min_partitions_count ≡ created_min w t)
      × (r.partitioning_by_load ≡ true)
unfolding alter_table
alter_table-min database w t {r} made =
    let (n, asked, e) = >>=-eq-ok (split_by_load_min_parts w t) _ made in
    let count : r.min_partitions_count ≡ n =
      sym (ap (λ x. x.min_partitions_count) (ok_injective e)) in
    let loads : r.partitioning_by_load ≡ true =
      sym (ap (λ x. x.partitioning_by_load) (ok_injective e)) in
    let path : r.path ≡ database <> "/" <> table_name t = sym (ap (λ x. x.path) (ok_injective e)) in
    (path, ap (λ k. ok k) count ∙ sym asked ∙ sym (created_min-eq w t), loads)

-- The requests name the created tables, each once and in this order, have their minima, and split by
-- load.
abbrev pub Asks : String → ℕ → List Table → List AlterTable → Type 0
Asks database w ts rs =
    (map (λ r. r.path) rs ≡ map (λ t. database <> "/" <> table_name t) ts)
    × (map (λ r. ok r.min_partitions_count) rs ≡ map (created_min w) ts)
    × All (λ r. r.partitioning_by_load ≡ true) rs

started :
    (b : Bool) {r r' : AlterTable}
    → ◌≡◌ {A = Result AlterTable} (if b then ok r else err (exit 1)) (ok r')
    → r ≡ r'
started true e = ok_injective e
started false e = cc

Asks-cons :
    (database : String) (w : ℕ) (t : Table) (ts : List Table) (r : AlterTable)
    (rs : List AlterTable)
    → r.path ≡ database <> "/" <> table_name t
    → ok r.min_partitions_count ≡ created_min w t
    → r.partitioning_by_load ≡ true
    → Asks database w ts rs
    → Asks database w (t ∷ ts) (r ∷ rs)
Asks-cons database w t ts r rs path same loads (paths, sames, all) =
    (rw (path, paths) refl, rw (same, sames) refl, (loads, all))

start_requests-Asks :
    (starts succeeds : AlterTable → Bool) (database : String) (w : ℕ) (ts : List Table)
    {rs : List AlterTable}
    → start_requests starts succeeds database w ts ≡ ok rs
    → Asks database w ts rs
unfolding start_requests
start_requests-Asks starts succeeds database w [] {rs} made =
    let e : [] ≡ rs = ok_injective made in rw (← e) (refl, refl, _)
start_requests-Asks starts succeeds database w (t ∷ ts) {rs} made =
    let (r, altered, after) = >>=-eq-ok (alter_table database w t) _ made in
    let (r', begun, after') = >>=-eq-ok (if starts r then ok r else err (exit 1)) _ after in
    let (rest, later, e) = >>=-eq-ok (start_requests starts succeeds database w ts) _ after' in
    let same : r ≡ r' = started (starts r) begun in
    let altered' : alter_table database w t ≡ ok r' = altered ∙ ap (λ x. ok x) same in
    let (path, min, loads) = alter_table-min database w t altered' in
    let ih = start_requests-Asks starts succeeds database w ts later in
    let split : r' ∷ rest ≡ rs = ok_injective e in
    rw (← split) (Asks-cons database w t ts r' rest path min loads ih)

-- The requests name the nine tables by their names in `CREATE TABLE`, in the order of `tables`, have the
-- minima of those statements, and split by load.
abbrev pub AsCreated : String → ℕ → List AlterTable → Type 0
AsCreated database w rs =
    (map (λ r. r.path) rs
      ≡ map (λ name. database <> "/" <> name)
          ("warehouse" ∷ "district" ∷ "customer" ∷ "history" ∷ "new_order" ∷ "oorder" ∷ "order_line"
            ∷ "item" ∷ "stock" ∷ []))
    × (map (λ r. ok r.min_partitions_count) rs ≡ map (created_min w) tables)
    × All (λ r. r.partitioning_by_load ≡ true) rs

-- If the split by load is enabled, each table is asked once, by the name in the statement that creates
-- it, to split by load with the minimum of partitions of that statement.
pub enable_split_by_load-AsCreated :
    (starts succeeds : AlterTable → Bool) (database : String) (warehouse_count : ℕ)
    {rs : List AlterTable}
    → enable_split_by_load starts succeeds database warehouse_count ≡ ok rs
    → AsCreated database warehouse_count rs
unfolding enable_split_by_load
enable_split_by_load-AsCreated starts succeeds database w {rs} made =
    let (rs', begun, e) = >>=-eq-ok (start_requests starts succeeds database w tables) _ made in
    let same : rs' ≡ rs = finished (all_succeed starts succeeds rs') e in
    start_requests-Asks starts succeeds database w tables (begun ∙ ap (λ x. ok x) same)
  where
    finished :
        (b : Bool) {xs ys : List AlterTable}
        → ◌≡◌ {A = Result (List AlterTable)} (if b then ok xs else err (exit 1)) (ok ys)
        → xs ≡ ys
    finished true e = ok_injective e
    finished false e = cc
