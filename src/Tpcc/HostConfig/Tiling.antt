-- ===== src/Tpcc/HostConfig/Tiling.antt =====
-- The shares of the nodes tile the warehouses.
use benchhelpers.Prelude.{
  ap, arith, assertion_error, ceil_div, ceil_div-pos, dec_lt, div_bounds, div_unique, err, exit,
  le-ceil_div-mul, mul-pred, ok, ℕ, ◌*◌, ◌+◌, ◌-◌, ◌/◌, ◌<◌, ◌↔◌, ◌≡◌, ◌≤◌, ◌⊎◌,
}
use benchhelpers.Tpcc.HostConfig.{HostConfig, host_config, assigned}

-- A node number out of range ends the script with status 1, and nothing else does.
pub host_config-exit :
    (warehouses node_count node_num : ℕ)
    → (host_config warehouses node_count node_num ≡ err (exit 1))
      ↔ ((node_num ≡ 0) ⊎ (node_count < node_num))
unfolding host_config
host_config-exit w n k = ground arith

-- What a successful construction comes to, as numbers.
record IsShare (w n k : ℕ) (c : HostConfig) : Type 0 where
  low : 1 ≤ k
  high : k ≤ n
  start : c.start_warehouse ≡ 1 + ceil_div w n * (k - 1)
  size : 0 < c.warehouses_per_host
  last : c.last_warehouse + 1 ≡ c.start_warehouse + c.warehouses_per_host
  inner : k < n → c.warehouses_per_host ≡ ceil_div w n
  outer : k ≡ n → c.warehouses_per_host + ceil_div w n * (n - 1) ≡ w
  terminals : c.terminals_per_host ≡ 10 * c.warehouses_per_host

host_config-IsShare : (w n k : ℕ) {c : HostConfig} → host_config w n k ≡ ok c → IsShare w n k c
unfolding host_config
host_config-IsShare w n k made = record {
  low = ground arith;
  high = ground arith;
  start = ground arith;
  size = ground arith;
  last = ground arith;
  inner = ground arith;
  outer = ground arith;
  terminals = ground arith;
}

-- `x` is one of the warehouses of the node.
abbrev pub Holds : HostConfig → ℕ → Type 0
Holds c x = (c.start_warehouse ≤ x) × (x ≤ c.last_warehouse)

-- The share of the next node begins where the share of the node ends.
pub host_config-adjacent :
    (warehouses node_count node_num : ℕ) {c d : HostConfig}
    → host_config warehouses node_count node_num ≡ ok c
    → host_config warehouses node_count (node_num + 1) ≡ ok d
    → d.start_warehouse ≡ c.last_warehouse + 1
host_config-adjacent w n k {c} {d} p q =
    let a = host_config-IsShare w n k p in
    let b = host_config-IsShare w n (k + 1) q in
    grind (arith, a.start, a.last, a.inner, a.low, b.start, b.high)

-- The first share begins at 1 and the last ends at the number of warehouses.
pub host_config-ends :
    (warehouses node_count : ℕ) {c d : HostConfig}
    → host_config warehouses node_count 1 ≡ ok c
    → host_config warehouses node_count node_count ≡ ok d
    → (c.start_warehouse ≡ 1) × (d.last_warehouse ≡ warehouses)
host_config-ends w n p q =
    let a = host_config-IsShare w n 1 p in
    let b = host_config-IsShare w n n q in
    (grind (arith, a.start), grind (arith, b.start, b.last, b.outer))

-- The last node is left with a warehouse.
abbrev pub Fits : ℕ → ℕ → Type 0
Fits warehouses node_count = ceil_div warehouses node_count * (node_count - 1) < warehouses

-- Every node of a run gets a configuration if the last node is left with a warehouse.
pub host_config_total :
    (warehouses node_count node_num : ℕ)
    → Fits warehouses node_count
    → 1 ≤ node_num
    → node_num ≤ node_count
    → (c : HostConfig) × (host_config warehouses node_count node_num ≡ ok c)
unfolding host_config
host_config_total w n k fits low high = (assigned w n k, ground (arith, ceil_div-pos w n))

-- Otherwise the last node, and it alone, stops at the assertion.
pub host_config_assertion :
    (warehouses node_count node_num : ℕ)
    → 0 < warehouses
    → (host_config warehouses node_count node_num ≡ err assertion_error)
      ↔ ((1 ≤ node_num) × (node_num ≡ node_count) × ¬ (Fits warehouses node_count))
unfolding host_config
host_config_assertion w n k some_wh = ground (arith, ceil_div-pos w n)

-- The place of a warehouse among the shares is a quotient.
Holds-quotient :
    (w n k x : ℕ) {c : HostConfig}
    → IsShare w n k c
    → 0 < ceil_div w n
    → 1 ≤ n
    → Holds c x
    → k - 1 ≡ (x - 1) / ceil_div w n
Holds-quotient w n k x {c} a pos nodes h =
    div_unique (x - 1) (ceil_div w n) (k - 1) (omega (arith, a.start, h.0)) (elim (dec_lt k n) [
      | yes inside ↦ omega (arith, a.start, a.last, a.inner inside, h.0, h.1)
      | no edge ↦ at_edge edge
    ])
  where
    at_edge : ¬ (k < n) → x - 1 < ceil_div w n * (k - 1) + ceil_div w n
    at_edge edge =
        let e : k ≡ n = omega (arith, a.high) in
        omega (
          arith,
          a.start,
          a.last,
          a.outer e,
          le-ceil_div-mul w n nodes,
          a.low,
          mul-pred (ceil_div w n) n nodes,
          ap (λ (t : ℕ). ceil_div w n * (t - 1)) e,
        )

quotient-Holds :
    (w n x : ℕ) {c : HostConfig}
    → IsShare w n ((x - 1) / ceil_div w n + 1) c
    → 0 < ceil_div w n
    → 1 ≤ x
    → x ≤ w
    → Holds c x
quotient-Holds w n x {c} a pos low high =
    let q : ℕ = (x - 1) / ceil_div w n in
    let b = div_bounds (x - 1) (ceil_div w n) pos in
    let back : q + 1 - 1 ≡ q = omega arith in
    let start : c.start_warehouse ≡ 1 + ceil_div w n * q = rw back at a.start in
    (omega (arith, start, b.0), grind (arith, start, a.last, a.inner, a.outer, a.high, a.size, b.1))

quotient-le :
    (w n x : ℕ) → 0 < ceil_div w n → 1 ≤ n → 1 ≤ x → x ≤ w → (x - 1) / ceil_div w n + 1 ≤ n
quotient-le w n x pos nodes low high =
    grind (arith, div_bounds (x - 1) (ceil_div w n) pos, le-ceil_div-mul w n)

-- If the last node is left with a warehouse, each warehouse belongs to exactly one node.
pub host_config_partition :
    (warehouses node_count x : ℕ)
    → 1 ≤ node_count
    → Fits warehouses node_count
    → 1 ≤ x
    → x ≤ warehouses
    → (k : ℕ) × (c : HostConfig) × (host_config warehouses node_count k ≡ ok c)
      × Holds c x
      × ((j : ℕ) (d : HostConfig) → host_config warehouses node_count j ≡ ok d → Holds d x → j ≡ k)
host_config_partition w n x nodes fits low high =
    let pos : 0 < ceil_div w n = ceil_div-pos w n (omega arith) nodes in
    let k = (x - 1) / ceil_div w n + 1 in
    let (c, made) =
      host_config_total w n k fits (omega arith) (quotient-le w n x pos nodes low high) in
    (
      k,
      c,
      made,
      quotient-Holds w n x (host_config-IsShare w n k made) pos low high,
      λ j d e h.
          let a = host_config-IsShare w n j e in
          omega (arith, Holds-quotient w n j x a pos nodes h, a.low),
    )

-- A node that is not the last can be given numbers past the last warehouse, and no assertion fails.
pub host_config_overrun :
    (warehouses node_count node_num : ℕ) {c : HostConfig}
    → host_config warehouses node_count node_num ≡ ok c
    → node_num < node_count
    → (warehouses < c.last_warehouse) ↔ (warehouses < ceil_div warehouses node_count * node_num)
host_config_overrun w n k {c} made inner =
    let a = host_config-IsShare w n k made in
    let e : c.last_warehouse ≡ ceil_div w n * k =
      omega (arith, a.start, a.last, a.inner inner, a.size, mul-pred (ceil_div w n) k a.low) in
    (λ h. omega arith, λ h. omega arith)
