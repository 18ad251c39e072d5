-- ===== src/Installers/YdbConfigs/Tests.antt =====
-- A cluster of six hosts.
use benchhelpers.Prelude.{List, String, [], length, map, refl, strip, ◌∷◌, ◌≡◌}
use benchhelpers.Installers.YdbConfigs.{
  HostEntry, hosts_section, ring_nodes, blobstorage_section, describe_hosts,
}
use benchhelpers.Installers.YdbConfigs.Zones.{ring_ids, blobstorage_section-ids}

abbrev hosts_file : List String
hosts_file = "a" ∷ "b" ∷ "c" ∷ "d" ∷ "e" ∷ "f" ∷ []

abbrev entries : List HostEntry
entries = describe_hosts 0 1 1 (map strip hosts_file)

blobstorage_section-ids_example :
    ring_ids (blobstorage_section (length entries) "SSD" "/dev/disk") ≡ map (λ e. e.node_id) entries
unfolding hosts_section
blobstorage_section-ids_example =
    blobstorage_section-ids hosts_file "SSD" "/dev/disk" {hosts = entries} refl

-- Six hosts: nodes 3 and 5 are in the state storage twice, and there is no node 7.
six_hosts : ring_nodes 6 ≡ 1 ∷ 2 ∷ 3 ∷ 3 ∷ 4 ∷ 5 ∷ 5 ∷ 6 ∷ 7 ∷ []
unfolding ring_nodes
six_hosts = refl
