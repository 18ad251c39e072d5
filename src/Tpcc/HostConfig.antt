-- ===== src/Tpcc/HostConfig.antt =====
-- `HostConfig` of tpcc/ydb/tpcc_helper.py.
pub mod Tiling
mod Tests
use benchhelpers.Prelude.{
  Result, assertion_error, ceil_div, err, exit, if◌then◌else◌, leb, ltb, ok, ℕ, ◌*◌, ◌+◌, ◌-◌, ◌==◌,
  ◌||◌,
}

pub record HostConfig : Type 0 where
  pub warehouses : ℕ
  pub node_num : ℕ
  pub node_count : ℕ
  pub warehouses_per_host : ℕ
  pub start_warehouse : ℕ
  pub last_warehouse : ℕ
  pub terminals_per_host : ℕ

-- The size of a node's share: the last node takes what is left.
abbrev pub share : ℕ → ℕ → ℕ → ℕ
share warehouses node_count node_num =
    if node_num == node_count
    then warehouses - ceil_div warehouses node_count * (node_count - 1)
    else ceil_div warehouses node_count

abbrev pub assigned : ℕ → ℕ → ℕ → HostConfig
assigned warehouses node_count node_num =
    let start = 1 + ceil_div warehouses node_count * (node_num - 1) in
    let per_host = share warehouses node_count node_num in
    record {
      warehouses = warehouses;
      node_num = node_num;
      node_count = node_count;
      warehouses_per_host = per_host;
      start_warehouse = start;
      last_warehouse = start + per_host - 1;
      terminals_per_host = per_host * 10;
    }

-- `HostConfig.__init__`
unfoldable pub host_config : ℕ → ℕ → ℕ → Result HostConfig
host_config warehouses node_count node_num =
    if leb node_num 0 || ltb node_count node_num
    then err (exit 1)
    else if ltb 0 (share warehouses node_count node_num)
    then ok (assigned warehouses node_count node_num)
    else err assertion_error
