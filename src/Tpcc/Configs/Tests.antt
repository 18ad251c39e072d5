-- ===== src/Tpcc/Configs/Tests.antt =====
-- Hosts files, and the theorems on them.
use benchhelpers.Prelude.{
  List, String, [], arith, ceil_div, false, is_space, lstrip, map, none, refl, rstrip, some, strip,
  ◌∷◌, ◌≡◌, ◌≢◌,
}
use benchhelpers.Tpcc.Configs.{Settings, Environment, ydb_values, generate, count_hosts}
use benchhelpers.Tpcc.Configs.Blank.{names, total_warehouses, generate-blank, generate-total}
use benchhelpers.Tpcc.Configs.Ports.{ports_of, expected_ports, generate-ports}

abbrev settings : Settings
settings = record {
  loader_threads = "8";
  execute_time = "7200";
  warmup_time = "1800";
  max_sessions = "500";
  ydb_host = "grpc-host";
  database = "/Root/db1";
  ca_file = none;
  secure = false;
}

abbrev environment : Environment
environment = record {
  anonymous_token = some "1";
  access_token = none;
  sa_key = none;
  user = none;
  password = none;
}

abbrev two_lines : List String
two_lines = "a\n" ∷ "a" ∷ []

generate-total_example :
    ((generate (ydb_values settings environment) 29 two_lines).1 ≡ none)
    × (total_warehouses (generate (ydb_values settings environment) 29 two_lines).0 ≡ 29)
    × (map (λ f. f.output) (generate (ydb_values settings environment) 29 two_lines).0 ≡ names 1 2)
unfolding is_space lstrip rstrip strip ceil_div
generate-total_example =
    generate-total settings environment 29 "a\n" ("a" ∷ []) ((refl, (refl, _))) (omega arith)

generate-blank_example : (generate (ydb_values settings environment) 29 ("\n" ∷ "a" ∷ [])).1 ≢ none
unfolding is_space lstrip rstrip strip count_hosts
generate-blank_example =
    generate-blank (ydb_values settings environment) 29 ("\n" ∷ []) [] "a" refl (omega arith)

generate-ports_example :
    ports_of (generate (ydb_values settings environment) 29 two_lines).0
    ≡ expected_ports [] two_lines
unfolding is_space lstrip rstrip strip ceil_div
generate-ports_example =
    generate-ports settings environment 29 two_lines
      (generate-total settings environment 29 "a\n" ("a" ∷ []) ((refl, (refl, _))) (omega arith)).0
