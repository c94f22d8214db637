-- ===== src/Netstate/Topology.antt =====
-- internal/netstate/topology.go: which primary network an endpoint sits on, and which secondary
-- segments two endpoints share.
pub mod Segments
use dotvirt.Prelude.{
  str_lt, any, concat, String, Bool, false, not, Option, none, some, List, [], str_eq,
  if◌then◌else◌, ◌&&◌, ◌∷◌,
}
use dotvirt.Prelude.Sort.{sort_by}
use dotvirt.Netstate.Doc.{Object}
use dotvirt.Netstate.External.{External}
use dotvirt.Netstate.RuleMatch.{TraceWorkload}
use dotvirt.Netstate.Snapshot.{Snapshot, NetworkConfig, Nad, OwnerReference}

-- the store's key of a namespaced object
abbrev key_of : Object Nad → String
key_of u = concat (u.namespace ∷ "/" ∷ u.name ∷ [])

-- reflect.Get(s.nad, ref)
get_nad : List (Object Nad) → String → Option (Object Nad)
get_nad [] ref = none
get_nad (u ∷ us) ref = if str_eq (key_of u) ref then some u else get_nad us ref

-- The loop over a NAD's owners: the first of the two network kinds decides.
owned_segment : String → List OwnerReference → String × String
owned_segment ref [] = (concat ("nad:" ∷ ref ∷ []), ref)
owned_segment ref (r ∷ rs) =
    if str_eq r.kind "ClusterUserDefinedNetwork"
    then (concat ("cudn:" ∷ r.name ∷ []), r.name)
    else if str_eq r.kind "UserDefinedNetwork"
    then (concat ("udn:" ∷ ref ∷ []), r.name)
    else owned_segment ref rs

-- The identity of a segment, then its display name.
unfoldable pub segment_key : Snapshot → String → String × String
unfolding get_nad owned_segment
segment_key s ref = elim (get_nad s.nad ref) [
  | none ↦ (concat ("nad:" ∷ ref ∷ []), ref)
  | some u ↦ owned_segment ref u.spec.owners
]

-- `name, ok := seen[k]`: a later write of the map replaces an earlier one
seen_name : Snapshot → List String → String → Option String
seen_name s [] k = none
seen_name s (ref ∷ refs) k = elim (seen_name s refs k) [
  | some name ↦ some name
  | none ↦ if str_eq (segment_key s ref).0 k then some (segment_key s ref).1 else none
]

mem : String → List String → Bool
mem k ks = any (λ j. str_eq j k) ks

-- the loop over `b`, with `added` in its arguments
shared_from : Snapshot → List String → List String → List String → List String
shared_from s a added [] = []
shared_from s a added (ref ∷ refs) =
    let k = (segment_key s ref).0 in
    let more = shared_from s a (k ∷ added) refs in
    let skip = shared_from s a added refs in
    elim (seen_name s a k) [ none ↦ skip | some name ↦ if mem k added then skip else name ∷ more ]

unfoldable pub shared_segments : Snapshot → List String → List String → List String
unfolding shared_from seen_name mem
shared_segments s a b = sort_by str_lt (shared_from s a [] b)

module _ (x : External) where
  -- NetworkConfig.Role
  role : NetworkConfig → String
  role c =
      let t = x.to_lower c.topology in
      if str_eq t "layer2"
      then c.layer2_role
      else if str_eq t "layer3"
      then c.layer3_role
      else if str_eq t "localnet"
      then c.localnet_role
      else ""

  is_primary : Object NetworkConfig → Bool
  unfolding role
  is_primary u = x.equal_fold (role u.spec) "Primary"

  -- a NAD of `ns` that the cluster network generated
  generated_in : String → Object NetworkConfig → Object Nad → Bool
  generated_in ns u nad =
      str_eq nad.namespace ns
      && any
          (λ (r : OwnerReference).
            str_eq r.kind "ClusterUserDefinedNetwork" && str_eq r.name u.name)
          nad.spec.owners

  cluster_domain : Snapshot → String → List (Object NetworkConfig) → String × String
  unfolding is_primary generated_in
  cluster_domain s ns [] = ("default", "the cluster default network")
  cluster_domain s ns (u ∷ us) =
      if is_primary u && any (generated_in ns u) s.nad
      then (concat ("cudn:" ∷ u.name ∷ []), concat ("shared network " ∷ u.name ∷ []))
      else cluster_domain s ns us

  namespace_domain : Snapshot → String → List (Object NetworkConfig) → String × String
  unfolding cluster_domain
  namespace_domain s ns [] = cluster_domain s ns s.cudn
  namespace_domain s ns (u ∷ us) =
      if str_eq u.namespace ns && is_primary u
      then (concat ("udn:" ∷ ns ∷ "/" ∷ u.name ∷ []), concat ("network " ∷ u.name ∷ []))
      else namespace_domain s ns us

  unfoldable pub primary_domain : Snapshot → String → String × String
  unfolding namespace_domain
  primary_domain s ns = namespace_domain s ns s.udn

  -- The primary network that a workload attaches: its key, empty for none, and its display name.
  unfoldable pub primary_of : Snapshot → TraceWorkload → String × String
  primary_of s w =
      if not (str_eq w.default_net "")
      then (let seg = segment_key s w.default_net in (seg.0, concat ("network " ∷ seg.1 ∷ [])))
      else if not w.pod_net
      then ("", "")
      else primary_domain s w.namespace

  nad_topology : Nad → Option String
  nad_topology n = if str_eq n.config "" then none else x.cni_topology n.config

  unfoldable pub is_localnet : Snapshot → String → Bool
  unfolding get_nad nad_topology
  is_localnet s ref = elim (get_nad s.nad ref) [
    | none ↦ false
    | some u ↦ elim (nad_topology u.spec) [ none ↦ false | some t ↦ x.equal_fold t "localnet" ]
  ]
