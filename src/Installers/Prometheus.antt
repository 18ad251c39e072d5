-- ===== src/Installers/Prometheus.antt =====
-- db_installers/ydb/generate_prometheus.py. The settings of a job but its name and its targets are
-- those of the template, and YAML is left out.
pub mod Targets
mod Tests
use benchhelpers.Prelude.{
  Bool, List, Option, Result, String, [], chars, drop_chars, err, exit, if◌then◌else◌, map, none,
  ok, show, some, str_eq, strip, ℕ, ◌++◌, ◌-◌, ◌<>◌, ◌∷◌,
}

-- An entry of `static_configs`, which has one target
pub record Target : Type 0 where
  pub targets : List String
  pub container : String

pub record Job : Type 0 where
  pub job_name : String
  pub metrics_path : String
  pub replacement : String
  pub static_configs : List Target

abbrev pub template_job : String → String → String → Job
template_job job_name metrics_path replacement = record {
  job_name = job_name;
  metrics_path = metrics_path;
  replacement = replacement;
  static_configs = [];
}

-- `scrape_configs` of the template
abbrev pub scrape_configs : List Job
scrape_configs =
    template_job "ydb_dynamic" "/counters/counters=ydb/name_label=name/prometheus" "ydb_$1"
    ∷ template_job "utils" "/counters/counters=utils/prometheus" "utils_$1"
    ∷ template_job "kqp_dynamic" "/counters/counters=kqp/prometheus" "kqp_$1"
    ∷ template_job "tablets_dynamic" "/counters/counters=tablets/prometheus" "tablets_$1"
    ∷ template_job "proxy_dynamic" "/counters/counters=proxy/prometheus" "proxy_$1"
    ∷ template_job "dsproxynode_dynamic" "/counters/counters=dsproxynode/prometheus"
        "dsproxynode_$1"
    ∷ template_job "ic_dynamic" "/counters/counters=interconnect/prometheus" "interconnect_$1"
    ∷ []

abbrev pub static_port : ℕ
static_port = 8765

abbrev pub dynamic_port : ℕ
dynamic_port = 8766

abbrev pub target : String → ℕ → String → Target
target container port host = record {
  targets = (host <> ":" <> show port) ∷ [];
  container = container;
}

unfoldable pub static_targets : List String → List Target
static_targets hosts = map (target "ydb-static" static_port) hosts

unfoldable pub dynamic_targets : List String → List Target
dynamic_targets hosts = map (target "ydb-dynamic" dynamic_port) hosts

abbrev pub ends_with : String → String → Bool
ends_with suffix s = str_eq (drop_chars (chars s - chars suffix) s) suffix

-- A job's targets, by the end of its name
unfoldable pub targets_of : List String → String → List Target
targets_of hosts job_name =
    if ends_with "dynamic" job_name
    then dynamic_targets hosts
    else if ends_with "static" job_name
    then static_targets hosts
    else static_targets hosts ++ dynamic_targets hosts

abbrev pub with_targets : List String → Job → Job
with_targets hosts job = record {
  job_name = job.job_name;
  metrics_path = job.metrics_path;
  replacement = job.replacement;
  static_configs = targets_of hosts job.job_name;
}

-- The lines of the hosts file, or none if there is no such file
unfoldable pub main : Option (List String) → Result (List Job)
main none = err (exit 1)
main (some lines) = ok (map (with_targets (map strip lines)) scrape_configs)
