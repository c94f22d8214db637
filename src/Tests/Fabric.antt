-- ===== src/Tests/Fabric.antt =====
-- A run of the uplinks on rows of one physical network, two of them on one node.
use dotvirt.Netstate.Catalog.{Uplink, merge_uplinks}
use dotvirt.Netstate.Catalog.Uplinks.{has_name, carries, Merged, merge_uplinks-exact}
use dotvirt.Prelude.{any, false, List, [], Bytes, bytes, ◌≡◌, ◌∷◌}

abbrev physnet : Bytes → Uplink
physnet node = record {
  name = bytes "physnet";
  bridge = bytes "br-phys";
  builtin = false;
  nodes = node ∷ [];
  node_count = 1;
  policy = node;
}

abbrev physnets : List Uplink
physnets = physnet (bytes "node-a") ∷ physnet (bytes "node-b") ∷ physnet (bytes "node-a") ∷ []

merge_uplinks-exact_example :
    Merged (merge_uplinks physnets)
    × (any (has_name (bytes "physnet")) (merge_uplinks physnets)
        ≡ any (has_name (bytes "physnet")) physnets)
    × (any (carries (bytes "physnet") (bytes "node-b")) (merge_uplinks physnets)
        ≡ any (carries (bytes "physnet") (bytes "node-b")) physnets)
merge_uplinks-exact_example = merge_uplinks-exact physnets (bytes "physnet") (bytes "node-b")
