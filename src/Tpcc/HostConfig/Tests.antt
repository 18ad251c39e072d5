-- ===== src/Tpcc/HostConfig/Tests.antt =====
-- The cases of tpcc/ydb/test_tpcc_helper.py, and the theorems at concrete runs.
use benchhelpers.Prelude.{arith, ceil_div, ok, refl, ℕ, ◌≡◌}
use benchhelpers.Tpcc.HostConfig.{HostConfig, host_config}
use benchhelpers.Tpcc.HostConfig.Tiling.{Holds, host_config_partition}

fourth_of_five :
    host_config 29 5 4
    ≡ ok (record {
      warehouses = 29;
      node_num = 4;
      node_count = 5;
      warehouses_per_host = 6;
      start_warehouse = 19;
      last_warehouse = 24;
      terminals_per_host = 60;
    })
unfolding host_config ceil_div
fourth_of_five = refl

host_config_partition_example :
    (k : ℕ) × (c : HostConfig) × (host_config 29 5 k ≡ ok c)
    × Holds c 19
    × ((j : ℕ) (d : HostConfig) → host_config 29 5 j ≡ ok d → Holds d 19 → j ≡ k)
unfolding ceil_div
host_config_partition_example =
    host_config_partition 29 5 19 (omega arith) (omega arith) (omega arith) (omega arith)
