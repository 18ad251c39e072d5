-- ===== src/Tpcc/SplitKeys/Shards.antt =====
-- Where the split keys stand, and which shard a warehouse goes to.
use benchhelpers.Prelude.{
  List, [], ap, arith, ceil_div, dec_le, dec_lt, div-add_self, div-eq-zero, div_bounds, get_elem?,
  if◌then◌else◌, leb, length, ltb, max, none, ok, refl, some, suc, sym, zero, ℕ, ◌*◌, ◌+◌, ◌-◌, ◌/◌,
  ◌<◌, ◌∙◌, ◌∷◌, ◌≡◌, ◌≢◌, ◌≤◌,
}
use benchhelpers.Tpcc.SplitKeys.{
  Table, item, key_loop, get_split_keys, warehouse_keys, warehouses_per_shard, items_num,
  min_items_per_shard,
}

-- The keys at or below `x`: the number of the partition that holds `x`.
abbrev pub shard_of : List ℕ → ℕ → ℕ
shard_of [] x = 0
shard_of (k ∷ ks) x = if leb k x then suc (shard_of ks x) else 0

-- The loop is an arithmetic progression, cut at the limit.
key_loop-get_elem? :
    (fuel current step limit i : ℕ)
    → 0 < step
    → limit ≤ current + fuel
    → get_elem? (key_loop fuel current step limit) i
      ≡ (if ltb (current + step * i) limit then some (current + step * i) else none)
unfolding key_loop
key_loop-get_elem? zero c s l i pos enough = ground arith
key_loop-get_elem? (suc f) c s l zero pos enough = ground arith
key_loop-get_elem? (suc f) c s l (suc i) pos enough =
    ground (arith, key_loop-get_elem? f (c + s) s l i pos)

shard_of-key_loop :
    (fuel current step limit x : ℕ)
    → 0 < step
    → limit ≤ current + fuel
    → x < limit
    → current ≤ x + step
    → shard_of (key_loop fuel current step limit) x ≡ (x + step - current) / step
unfolding key_loop
shard_of-key_loop zero c s l x pos enough low high = div-eq-zero (x + s - c) s (omega arith)
shard_of-key_loop (suc f) c s l x pos enough low high = elim (dec_le c x) [
  | yes inside ↦
      let e : x + s - (c + s) + s ≡ x + s - c = omega arith in
      rw (← e, ← div-add_self (x + s - (c + s)) s pos)
        (ground (arith, shard_of-key_loop f (c + s) s l x pos (omega arith) low (omega arith)))
  | no outside ↦ rw (← div-eq-zero (x + s - c) s (omega arith)) (ground arith)
]

-- One more key raises the count by one.
step_count :
    (c s l n : ℕ) → 0 < s → c < l → n ≡ (l - (c + s) + s - 1) / s → (l - c + s - 1) / s ≡ suc n
step_count c s l n pos inside h = elim (dec_le (c + s) l) [
  | yes room ↦
      let e : l - (c + s) + s - 1 + s ≡ l - c + s - 1 = omega arith in
      rw (← e, ← div-add_self (l - (c + s) + s - 1) s pos) (ap suc (sym h))
  | no short ↦
      let e : l - c - 1 + s ≡ l - c + s - 1 = omega arith in
      rw (← e, ← div-add_self (l - c - 1) s pos)
        (omega (
          arith,
          div-eq-zero (l - c - 1) s (omega arith),
          div-eq-zero (l - (c + s) + s - 1) s (omega arith),
        ))
]

length-key_loop :
    (fuel current step limit : ℕ)
    → 0 < step
    → limit ≤ current + fuel
    → length (key_loop fuel current step limit) ≡ (limit - current + step - 1) / step
unfolding key_loop
length-key_loop zero c s l pos enough = div-eq-zero (l - c + s - 1) s (omega arith)
length-key_loop (suc f) c s l pos enough = elim (dec_lt c l) [
  | yes inside ↦
      rw
        (step_count c s l (length (key_loop f (c + s) s l)) pos inside
          (length-key_loop f (c + s) s l pos (omega arith)))
        (ground arith)
  | no outside ↦ rw (← div-eq-zero (l - c + s - 1) s (omega arith)) (ground arith)
]

-- The tables whose keys are warehouse numbers are those other than `item`.
split_at_warehouses :
    (w m : ℕ) (t : Table)
    → t ≢ item
    → 0 < m
    → get_split_keys w t m ≡ ok (warehouse_keys w (warehouses_per_shard w t m))
unfolding get_split_keys
split_at_warehouses w m item h pos = absurd (h refl)
split_at_warehouses w m _ h pos = ground arith

module _ (warehouse_count min_shard_count : ℕ) (table : Table) (by_warehouse : table ≢ item)
    (some_shards : 0 < min_shard_count) {keys : List ℕ}
    (made : get_split_keys warehouse_count table min_shard_count ≡ ok keys)
    (split : 2 ≤ warehouses_per_shard warehouse_count table min_shard_count) where
  keys-eq :
      keys
      ≡ key_loop warehouse_count
          (1 + warehouses_per_shard warehouse_count table min_shard_count)
          (warehouses_per_shard warehouse_count table min_shard_count)
          (warehouse_count + 1)
  keys-eq =
      ground
        (arith, split_at_warehouses warehouse_count min_shard_count table by_warehouse some_shards)

  -- The i-th key of a table other than `item` that is split is 1 + per_shard * (i + 1), as long as
  -- that is a warehouse; there are no others.
  pub get_elem?-get_split_keys :
      (i : ℕ)
      → let per_shard = warehouses_per_shard warehouse_count table min_shard_count in
        get_elem? keys i ≡ (
          if leb (1 + per_shard * (i + 1)) warehouse_count
          then some (1 + per_shard * (i + 1))
          else none)
  get_elem?-get_split_keys i = rw keys-eq (
      ground (
        arith,
        key_loop-get_elem? warehouse_count
            (1 + warehouses_per_shard warehouse_count table min_shard_count)
            (warehouses_per_shard warehouse_count table min_shard_count) (warehouse_count + 1) i,
      ))

  -- A warehouse goes to the shard whose number is the quotient of its place by the shard size.
  pub shard_of-get_split_keys :
      (x : ℕ)
      → 1 ≤ x
      → x ≤ warehouse_count
      → shard_of keys x ≡ (x - 1) / warehouses_per_shard warehouse_count table min_shard_count
  shard_of-get_split_keys x low high =
      let p = warehouses_per_shard warehouse_count table min_shard_count in
      let e : x + p - (1 + p) ≡ x - 1 = omega arith in
      rw (keys-eq, ← e)
        (shard_of-key_loop warehouse_count (1 + p) p (warehouse_count + 1) x (omega arith)
          (omega arith) (omega arith) (omega arith))

  -- The number of shards is the number of warehouses by the shard size, rounded up.
  pub length-get_split_keys :
      1 ≤ warehouse_count
      → length keys + 1
        ≡ ceil_div warehouse_count (warehouses_per_shard warehouse_count table min_shard_count)
  unfolding ceil_div
  length-get_split_keys some_wh =
      let p = warehouses_per_shard warehouse_count table min_shard_count in
      let n = length (key_loop warehouse_count (1 + p) p (warehouse_count + 1)) in
      let e : warehouse_count + 1 - 1 + p - 1 ≡ warehouse_count + p - 1 = omega arith in
      rw
        (
          keys-eq,
          ← e,
          step_count 1 p (warehouse_count + 1) n (omega arith) (omega arith) (
              length-key_loop warehouse_count (1 + p) p (warehouse_count + 1) (omega arith)
                (omega arith)),
        )
        (omega arith)

  -- Two warehouses of one shard are less than the shard size apart.
  pub shard_of-le-apart :
      (x y : ℕ)
      → 1 ≤ x
      → x ≤ y
      → y ≤ warehouse_count
      → shard_of keys x ≡ shard_of keys y
      → y < x + warehouses_per_shard warehouse_count table min_shard_count
  shard_of-le-apart x y low order high same =
      let p = warehouses_per_shard warehouse_count table min_shard_count in
      let e : (x - 1) / p ≡ (y - 1) / p =
        sym (shard_of-get_split_keys x low (omega arith))
        ∙ same
        ∙ shard_of-get_split_keys y (omega arith) high in
      grind (arith, div_bounds (x - 1) p (omega arith), div_bounds (y - 1) p (omega arith), e)

-- An item goes to the shard whose number is the quotient by the number of items in a shard.
pub shard_of-item_keys :
    (warehouse_count min_shard_count : ℕ) {keys : List ℕ}
    → 0 < min_shard_count
    → get_split_keys warehouse_count item min_shard_count ≡ ok keys
    → (x : ℕ) → x < items_num
    → shard_of keys x ≡ x / max min_items_per_shard (items_num / min_shard_count)
unfolding get_split_keys
shard_of-item_keys w m {keys} pos made x high =
    let p : ℕ = max min_items_per_shard (items_num / m) in
    let e : x + p - p ≡ x = omega arith in
    let keys_eq : keys ≡ key_loop items_num p p items_num = ground arith in
    rw (keys_eq, ← ap (λ n. n / p) e)
      (shard_of-key_loop items_num p p items_num x (omega arith) (omega arith) high (omega arith))
