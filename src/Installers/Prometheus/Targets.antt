-- ===== src/Installers/Prometheus/Targets.antt =====
-- Which hosts the jobs scrape.
use benchhelpers.Prelude.{
  All, List, String, [], ap, chars, drop_chars, if◌then◌else◌, map, ok, refl, show, some, str_eq,
  strip, ◌++◌, ◌<>◌, ◌∷◌, ◌≡◌,
}
use benchhelpers.Installers.Prometheus.{
  Target, Job, static_targets, dynamic_targets, targets_of, main,
}

-- What a job scrapes: the address of each line, with the container it belongs to. The monitoring of
-- the static nodes is at port 8765 and that of the dynamic nodes at 8766.
abbrev pub static_address : String → Target
static_address line = record { targets = (strip line <> ":8765") ∷ []; container = "ydb-static" }

abbrev pub dynamic_address : String → Target
dynamic_address line = record { targets = (strip line <> ":8766") ∷ []; container = "ydb-dynamic" }

static-map : (lines : List String) → static_targets (map strip lines) ≡ map static_address lines
unfolding static_targets show
static-map [] = refl
static-map (line ∷ lines) = ap (λ ts. static_address line ∷ ts) (static-map lines)

dynamic-map : (lines : List String) → dynamic_targets (map strip lines) ≡ map dynamic_address lines
unfolding dynamic_targets show
dynamic-map [] = refl
dynamic-map (line ∷ lines) = ap (λ ts. dynamic_address line ∷ ts) (dynamic-map lines)

-- For any hosts file, the seven jobs of the template are written in its order. The job `utils` scrapes
-- each line's host, without the spaces around it, at the ports 8765 and 8766; each other job scrapes it
-- at 8766 alone. The target of a blank line is the port without a host.
pub main-targets :
    (lines : List String)
    → (jobs : List Job) × (main (some lines) ≡ ok jobs)
      × (map (λ j. j.job_name) jobs
          ≡ "ydb_dynamic" ∷ "utils" ∷ "kqp_dynamic" ∷ "tablets_dynamic" ∷ "proxy_dynamic"
            ∷ "dsproxynode_dynamic" ∷ "ic_dynamic" ∷ [])
      × All
          (λ j. j.static_configs ≡ (
            if str_eq j.job_name "utils"
            then map static_address lines ++ map dynamic_address lines
            else map dynamic_address lines))
          jobs
unfolding main targets_of drop_chars chars
main-targets lines =
    let s = static-map lines in
    let d = dynamic-map lines in (_, refl, refl, (d, (rw (s, d) refl, (d, (d, (d, (d, (d, tt))))))))
