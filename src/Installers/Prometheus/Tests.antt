-- ===== src/Installers/Prometheus/Tests.antt =====
-- A hosts file with a blank line.
use benchhelpers.Prelude.{
  All, List, String, [], err, exit, if◌then◌else◌, is_space, lstrip, map, none, ok, refl, rstrip,
  some, str_eq, strip, ◌++◌, ◌∷◌, ◌≡◌,
}
use benchhelpers.Installers.Prometheus.{Job, main}
use benchhelpers.Installers.Prometheus.Targets.{static_address, dynamic_address, main-targets}

abbrev lines : List String
lines = "node1\n" ∷ "\n" ∷ []

targets_of_blank :
    map (λ t. t.targets) (map dynamic_address lines) ≡ ("node1:8766" ∷ []) ∷ (":8766" ∷ []) ∷ []
unfolding strip lstrip rstrip is_space
targets_of_blank = refl

main-targets_example :
    (jobs : List Job) × (main (some lines) ≡ ok jobs)
    × (map (λ j. j.job_name) jobs
        ≡ "ydb_dynamic" ∷ "utils" ∷ "kqp_dynamic" ∷ "tablets_dynamic" ∷ "proxy_dynamic"
          ∷ "dsproxynode_dynamic" ∷ "ic_dynamic" ∷ [])
    × All
        (λ j. j.static_configs ≡ (
          if str_eq j.job_name "utils"
          then map static_address lines ++ map dynamic_address lines
          else map dynamic_address lines))
        jobs
main-targets_example = main-targets lines

no_file : main none ≡ err (exit 1)
unfolding main
no_file = refl
