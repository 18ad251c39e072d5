-- ===== src/Installers/YdbConfigs/Zones.antt =====
-- The nodes of the rings, of the state storage and of the data centres.
use benchhelpers.Prelude.{
  ==_iff, All, Bool, List, Result, String, [], ap, append_nil, arith, div-eq-zero, err, exit, false,
  if◌then◌else◌, length, length-map, map, not, ok, range, range-append, refl, strip, suc, sym, true,
  zero, ℕ, ◌%◌, ◌*◌, ◌++◌, ◌+◌, ◌/◌, ◌<◌, ◌==◌, ◌↔◌, ◌∙◌, ◌∷◌, ◌≡◌, ◌≤◌,
}
use benchhelpers.Installers.YdbConfigs.{
  HostEntry, describe_hosts, hosts_section, zone_number, ring_nodes, Ring, VdiskLocation,
  zone_nodes, ring_of, blobstorage_section,
}

length-describe_hosts :
    (k b r : ℕ) (hosts : List String) → length (describe_hosts k b r hosts) ≡ length hosts
unfolding describe_hosts
length-describe_hosts k b r [] = refl
length-describe_hosts k b r (h ∷ hs) = ap suc (length-describe_hosts (k + 1) (b + 1) (r + 1) hs)

describe_hosts-ids :
    (k b r : ℕ) (hosts : List String)
    → map (λ e. e.node_id) (describe_hosts k b r hosts) ≡ range (k + 1) (length hosts)
unfolding describe_hosts
describe_hosts-ids k b r [] = refl
describe_hosts-ids k b r (h ∷ hs) =
    ap (λ ids. (k + 1) ∷ ids) (describe_hosts-ids (k + 1) (b + 1) (r + 1) hs)

-- The node ids of the rings of a group, one ring after the other.
abbrev pub ring_ids : List Ring → List ℕ
ring_ids [] = []
ring_ids (r ∷ rs) = map (λ v. v.node_id) r.fail_domains ++ ring_ids rs

abbrev location : String → String → ℕ → VdiskLocation
location t d id = record { node_id = id; pdisk_category = t; path = d }

map-ring_of : (t d : String) (ids : List ℕ) → map (λ v. v.node_id) (map (location t d) ids) ≡ ids
map-ring_of t d [] = refl
map-ring_of t d (i ∷ ids) = ap (λ xs. i ∷ xs) (map-ring_of t d ids)

rings-range :
    (p : ℕ) → zone_nodes p 0 ++ (zone_nodes p 1 ++ (zone_nodes p 2 ++ [])) ≡ range 1 (3 * p)
rings-range p =
    let e0 : 0 * p + 1 ≡ 1 = omega arith in
    let e1 : 1 * p + 1 ≡ 1 + p = omega arith in
    let e2 : 2 * p + 1 ≡ 1 + p + p = omega arith in
    let e3 : 3 * p ≡ p + (p + p) = omega arith in
    rw (e0, e1, e2, e3)
      (ap (λ xs. range 1 p ++ (range (1 + p) p ++ xs)) (append_nil (range (1 + p + p) p))
        ∙ ap (λ xs. range 1 p ++ xs) (range-append (1 + p) p p)
        ∙ range-append 1 p (p + p))

ring_ids-map :
    (t d : String) (p : ℕ)
    → ring_ids (map (ring_of t d p) (range 0 3))
      ≡ zone_nodes p 0 ++ (zone_nodes p 1 ++ (zone_nodes p 2 ++ []))
ring_ids-map t d p =
    rw
      (
        map-ring_of t d (zone_nodes p 0),
        map-ring_of t d (zone_nodes p 1),
        map-ring_of t d (zone_nodes p 2),
      )
      refl

hosts_section-eq :
    (lines : List String) {hosts : List HostEntry}
    → hosts_section lines ≡ ok hosts
    → (length lines % 3 ≡ 0) × (hosts ≡ describe_hosts 0 1 1 (map strip lines))
unfolding hosts_section
hosts_section-eq lines made =
    let (divided, e) = checked (length lines == 0) (length lines % 3 == 0) _ made in
    ((==_iff (length lines % 3) 0).0 divided, e)
  where
    checked :
        (a b : Bool) (x : List HostEntry) {h : List HostEntry}
        → ◌≡◌ {A = Result (List HostEntry)}
            (if a then err (exit 1) else if not b then err (exit 1) else ok x)
            (ok h)
        → (b ≡ true) × (h ≡ x)
    checked true b x made = cc
    checked false true x made = (refl, cc)
    checked false false x made = cc

-- Each node of the hosts file stands in exactly one ring, in the order of the file.
pub blobstorage_section-ids :
    (lines : List String) (disk_type disk_path : String) {hosts : List HostEntry}
    → hosts_section lines ≡ ok hosts
    → ring_ids (blobstorage_section (length hosts) disk_type disk_path) ≡ map (λ e. e.node_id) hosts
unfolding blobstorage_section
blobstorage_section-ids lines t d {hosts} made =
    let (divided, e) = hosts_section-eq lines made in
    let n = length-describe_hosts 0 1 1 (map strip lines) ∙ length-map lines strip in
    let whole : 3 * (length lines / 3) ≡ length lines = omega arith in
    let ids = describe_hosts-ids 0 1 1 (map strip lines) in
    let count = length-map lines strip in
    rw (e, n)
      (ring_ids-map t d (length lines / 3)
        ∙ rings-range (length lines / 3)
        ∙ ap (range 1) (whole ∙ sym count)
        ∙ sym ids)

-- With three zones of the same size, every node that keeps the state storage is one of the nodes
-- exactly from nine hosts on.
pub ring_nodes-All :
    (per_zone : ℕ) → All (λ id. id ≤ 3 * per_zone) (ring_nodes (3 * per_zone)) ↔ (3 ≤ per_zone)
unfolding ring_nodes
ring_nodes-All p = let e : 3 * p / 3 ≡ p = omega arith in rw e ground arith

same_zones :
    (p : ℕ)
    → 0 < p
    → ((host_num : ℕ) → host_num < 3 * p → zone_number host_num ≡ host_num / p + 1)
    → p ≡ 3
same_zones zero pos h = absurd (omega arith)
same_zones (suc zero) pos h = let e : ◌≡◌ {A = ℕ} 1 3 = h 2 (omega arith) in absurd (omega arith)
same_zones (suc (suc zero)) pos h =
    let e : ◌≡◌ {A = ℕ} 1 2 = h 2 (omega arith) in absurd (omega arith)
same_zones (suc (suc (suc zero))) pos h = refl
same_zones (suc (suc (suc (suc q)))) pos h =
    let e = h 3 (omega arith) in
    let z = div-eq-zero 3 (suc (suc (suc (suc q)))) (omega arith) in absurd (omega arith)

-- The data centre of each node is that of its ring exactly for nine hosts.
pub zone_number-ring :
    (per_zone : ℕ)
    → 0 < per_zone
    → ((host_num : ℕ) → host_num < 3 * per_zone → zone_number host_num ≡ host_num / per_zone + 1)
      ↔ (per_zone ≡ 3)
zone_number-ring p pos = (same_zones p pos, λ three host_num inside. rw three refl)
