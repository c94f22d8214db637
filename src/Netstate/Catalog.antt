-- ===== src/Netstate/Catalog.antt =====
-- internal/netstate/catalog.go: the physical side of the network catalog, that is the uplinks and the
-- adapters of the nodes, and the kind of a port group. Texts are bytes here; strings.EqualFold and
-- strings.Contains are parameters. A decoded object is the record of what is read of it, and an
-- interface of nmstate is the map of its texts with its MTU. The port groups are left out, and of an
-- uplink what the API fills in later: its source file and its drift. A nil list of nodes is the empty one.
pub mod Uplinks
use dotvirt.Prelude.Sort.{sort_by}
use dotvirt.Prelude.Maps.{lookup}
use dotvirt.Manifest.Editor.{has_prefix}
use dotvirt.Prelude.{
  length, keep_if, any, all, ℕ, Bool, true, false, Option, none, some, List, [], map, Bytes, bytes,
  bytes_eq, bytes_lt, if◌then◌else◌, ◌||◌, ◌∷◌, ◌++◌,
}

pub record Uplink : Type 0 where
  pub name : Bytes
  pub bridge : Bytes
  pub builtin : Bool
  pub nodes : List Bytes
  pub node_count : ℕ
  pub policy : Bytes

pub record BridgeMapping : Type 0 where
  pub localnet : Bytes
  pub bridge : Bytes
  pub state : Bytes

-- NodeNetworkConfigurationPolicy
pub record Nncp : Type 0 where
  pub name : Bytes
  pub node_selector : List (Bytes × Bytes)
  pub bridge_mappings : List BridgeMapping

pub record Node : Type 0 where
  pub name : Bytes
  pub labels : List (Bytes × Bytes)

-- a missing label reads as the empty text
unfoldable pub label_at : Bytes → List (Bytes × Bytes) → Bytes
label_at k labels = elim (lookup k labels) [ none ↦ [] | some v ↦ v ]

unfoldable pub matches_labels : List (Bytes × Bytes) → List (Bytes × Bytes) → Bool
matches_labels have want = all (λ (e : Bytes × Bytes). bytes_eq (label_at e.0 have) e.1) want

unfoldable pub nodes_matching : List Node → List (Bytes × Bytes) → List Bytes
nodes_matching nodes sel = map Node.name (keep_if (λ (n : Node). matches_labels n.labels sel) nodes)

-- the set `seen`
unfoldable pub unseen : List Bytes → List Bytes → List Bytes
unseen seen [] = []
unseen seen (v ∷ vs) =
    let skip = unseen seen vs in
    let keep = unseen (v ∷ seen) vs in if any (bytes_eq v) seen then skip else v ∷ keep

unfoldable pub sorted_set : List Bytes → List Bytes
sorted_set vs = sort_by bytes_lt (unseen [] vs)

unfoldable pub first_row : Uplink → Uplink
first_row u = record u { nodes = sorted_set u.nodes; node_count = length (sorted_set u.nodes) }

unfoldable pub fold_row : Uplink → Uplink → Uplink
fold_row m u = record m {
  nodes = sorted_set (m.nodes ++ u.nodes);
  node_count = length (sorted_set (m.nodes ++ u.nodes));
  bridge = if bytes_eq m.bridge [] then u.bridge else m.bridge;
  policy = if bytes_eq m.policy u.policy then m.policy else [];
}

-- the row of a name is folded in place, a new name comes last
unfoldable pub fold_uplink : Uplink → List Uplink → List Uplink
fold_uplink u [] = first_row u ∷ []
fold_uplink u (m ∷ out) =
    let rest = fold_uplink u out in if bytes_eq m.name u.name then fold_row m u ∷ out else m ∷ rest

unfoldable pub merge_from : List Uplink → List Uplink → List Uplink
merge_from [] out = out
merge_from (u ∷ us) out = merge_from us (fold_uplink u out)

unfoldable pub merge_uplinks : List Uplink → List Uplink
merge_uplinks us = merge_from us []

unfoldable pub mapped_uplinks : Bytes → List Bytes → List BridgeMapping → List Uplink
mapped_uplinks policy nodes [] = []
mapped_uplinks policy nodes (m ∷ ms) =
    let rest = mapped_uplinks policy nodes ms in
    if bytes_eq m.state (bytes "absent")
    then rest
    else record {
      name = m.localnet;
      bridge = m.bridge;
      builtin = false;
      nodes = nodes;
      node_count = length nodes;
      policy = policy;
    }
      ∷ rest

unfoldable pub uplinks_from_nncp : List Node → Nncp → List Uplink
uplinks_from_nncp nodes p =
    mapped_uplinks p.name (nodes_matching nodes p.node_selector) p.bridge_mappings

unfoldable pub declared_uplinks : List Node → List Nncp → List Uplink
declared_uplinks nodes [] = []
declared_uplinks nodes (p ∷ ps) = uplinks_from_nncp nodes p ++ declared_uplinks nodes ps

abbrev pub br_ex : Bytes
br_ex = bytes "br-ex"

unfoldable pub builtin_uplink : List Node → Uplink
builtin_uplink nodes = record {
  name = br_ex;
  bridge = br_ex;
  builtin = true;
  nodes = nodes_matching nodes [];
  node_count = length (nodes_matching nodes []);
  policy = [];
}

unfoldable pub uplinks : List Node → List Nncp → List Uplink
uplinks nodes nncps = merge_uplinks (builtin_uplink nodes ∷ declared_uplinks nodes nncps)

unfoldable pub is_system_namespace : Bytes → Bool
is_system_namespace ns = has_prefix (bytes "openshift-") ns || bytes_eq ns (bytes "kube-system")

pub data NetworkKind : Type 0 where
  default internal vlan : NetworkKind

unfoldable pub kind_for : (Bytes → Bytes → Bool) → Bytes → Bytes → NetworkKind
kind_for equal_fold topology role =
    if equal_fold topology (bytes "Localnet")
    then vlan
    else if equal_fold role (bytes "Primary")
    then default
    else internal

pub record PhysicalAdapter : Type 0 where
  pub node : Bytes
  pub name : Bytes
  pub type : Bytes
  pub mac : Bytes
  pub state : Bytes
  pub mtu : ℕ
  pub role : Bytes

pub record NmInterface : Type 0 where
  pub texts : List (Bytes × Bytes)
  pub mtu : Option ℕ

unfoldable pub nic_role : (Bytes → Bytes → Bool) → NmInterface → Bytes
nic_role contains m =
    let ctrl = label_at (bytes "controller") m.texts in
    if bytes_eq ctrl []
    then bytes "available"
    else if contains ctrl br_ex
    then bytes "cluster-uplink"
    else bytes "enslaved"

unfoldable pub is_physical : NmInterface → Bool
is_physical m =
    let typ = label_at (bytes "type") m.texts in
    bytes_eq typ (bytes "ethernet") || bytes_eq typ (bytes "bond")

abbrev or_no_mtu : Option ℕ → ℕ
or_no_mtu none = 0
or_no_mtu (some n) = n

unfoldable pub adapter : (Bytes → Bytes → Bool) → Bytes → NmInterface → PhysicalAdapter
adapter contains node m = record {
  node = node;
  name = label_at (bytes "name") m.texts;
  type = label_at (bytes "type") m.texts;
  mac = label_at (bytes "mac-address") m.texts;
  state = label_at (bytes "state") m.texts;
  mtu = or_no_mtu m.mtu;
  role = nic_role contains m;
}

unfoldable pub adapters_from_nns :
    (Bytes → Bytes → Bool) → Bytes → List NmInterface → List PhysicalAdapter
adapters_from_nns contains node ifaces = map (adapter contains node) (keep_if is_physical ifaces)
