-- ===== src/Netstate/RuleMatch.antt =====
-- internal/netstate/tracematch.go: a rule evaluated against the flow's other end and the queried
-- protocol and port.
pub mod Verdict
use dotvirt.Prelude.{
  leb, any, concat, ℕ, String, Bool, true, false, not, Option, none, some, List, [], map, str_eq,
  ◌==◌, if◌then◌else◌, ◌&&◌, ◌∷◌,
}
use dotvirt.Netstate.Doc.{LabelSelector, Labels}
use dotvirt.Netstate.External.{External}
use dotvirt.Netstate.Match.{
  Match, match_no, match_yes, match_cond, Matched, just, all_of, any_of, match_selector,
}
use dotvirt.Netstate.Rule.{
  Peer, PeerKind, peer_any, peer_selector, peer_networks, peer_nodes, peer_cidr_selector,
  peer_dns_name, peer_node_selector, peer_unresolved, Port, Rule,
}

-- One in-cluster endpoint.
pub record TraceWorkload : Type 0 where
  pub namespace : String
  pub name : String
  pub ns_labels : Labels
  pub pod_labels : Labels
  pub ips : List String
  pub pod_net : Bool
  pub default_net : String
  pub nets : List String

-- `peerTarget{w: &v}` and `peerTarget{ip: a}`
pub data PeerTarget : Type 0 where
  workload : TraceWorkload → PeerTarget
  address : String → PeerTarget

abbrev pub unresolved : String → Matched
unresolved reason = record { m = match_cond; reason = reason }

abbrev reason_port_needed : String
reason_port_needed = "the rule restricts ports; give a destination port to resolve it"

abbrev reason_named_port : String
reason_named_port = "a named port can't be resolved here"

abbrev reason_no_addrs : String
reason_no_addrs = "the VM reports no addresses (not running), so CIDR rules can't be resolved"

abbrev reason_selector : String
reason_selector = "a selector could not be resolved"

abbrev pub reason_subject : String
reason_subject = "the policy's subject selector could not be resolved"

abbrev reason_node_peer : String
reason_node_peer = "a node-selector rule - whether this address is a cluster node is unknown here"

abbrev reason_unresolved : String
reason_unresolved = "a destination form this trace cannot resolve"

reason_dns_name : String → String
reason_dns_name dns = concat ("DNS-name rule (" ∷ dns ∷ ") - resolution unknown here" ∷ [])

addrs : PeerTarget → List String
addrs (workload w) = w.ips
addrs (address ip) = ip ∷ []

no_addrs : List String → Bool
no_addrs [] = true
no_addrs (a ∷ []) = str_eq a ""
no_addrs (a ∷ b ∷ as') = false

selected : Match → Matched
selected match_cond = unresolved reason_selector
selected m = just m

module _ (x : External) where
  -- `port` 0 means that none was given
  unfoldable pub port_match : Port → String → ℕ → Matched
  port_match p protocol port =
      if not (str_eq p.protocol "") && not (x.equal_fold p.protocol protocol)
      then just match_no
      else if not (str_eq p.named "")
      then unresolved reason_named_port
      else if p.start == 0
      then just match_yes
      else if port == 0
      then unresolved reason_port_needed
      else if leb p.start port && leb port p.end
      then just match_yes
      else just match_no

  sel_match : Option LabelSelector → Labels → Matched
  unfolding selected
  sel_match sel lbls = selected (match_selector x sel lbls)

  in_block : x.Addr → String → Bool
  in_block ad e = elim (x.parse_prefix e) [ none ↦ false | some p ↦ x.contains p ad ]

  unfoldable pub excepted : x.Addr → List String → Bool
  unfolding in_block
  excepted ad except = any (in_block ad) except

  parsed : List String → List x.Addr
  parsed [] = []
  parsed (a ∷ as') = elim (x.parse_addr a) [ none ↦ parsed as' | some ad ↦ ad ∷ parsed as' ]

  cidr_hit : List String → List x.Addr → String → Bool
  cidr_hit except ads c = elim (x.parse_prefix c) [
    | none ↦ false
    | some p ↦ any (λ ad. x.contains p ad && not (excepted ad except)) ads
  ]

  -- `resolveAddrs` is the test for addresses and then `parsed`
  unfoldable pub cidrs_match : List String → List String → PeerTarget → Matched
  unfolding parsed cidr_hit addrs no_addrs
  cidrs_match cidrs except t =
      if no_addrs (addrs t)
      then unresolved reason_no_addrs
      else if any (cidr_hit except (parsed (addrs t))) cidrs
      then just match_yes
      else just match_no

  selector_peer : Peer → PeerTarget → Matched
  selector_peer p (address ip) = just match_no
  selector_peer p (workload w) =
      if not (str_eq p.namespace "") && not (str_eq w.namespace p.namespace)
      then just match_no
      else all_of (sel_match p.ns w.ns_labels ∷ sel_match p.pod w.pod_labels ∷ [])

  node_peer : PeerTarget → Matched
  node_peer (workload w) = just match_no
  node_peer (address ip) = unresolved reason_node_peer

  kind_match : PeerKind → Peer → PeerTarget → Matched
  unfolding selector_peer sel_match node_peer reason_dns_name
  kind_match peer_any p t = just match_yes
  kind_match peer_selector p t = selector_peer p t
  kind_match peer_networks p t = cidrs_match p.cidrs p.except t
  kind_match peer_cidr_selector p t = cidrs_match p.cidrs p.except t
  kind_match peer_nodes p t = node_peer t
  kind_match peer_node_selector p t = node_peer t
  kind_match peer_dns_name p t = unresolved (reason_dns_name p.dns)
  kind_match peer_unresolved p t = unresolved reason_unresolved

  unfoldable pub peer_match : PeerTarget → Peer → Matched
  unfolding kind_match
  peer_match t p = kind_match p.kind p t

  ports_match : List Port → String → ℕ → Matched
  ports_match [] protocol port = just match_yes
  ports_match (p ∷ ps) protocol port = any_of (map (λ q. port_match q protocol port) (p ∷ ps))

  unfoldable pub rule_match : Rule → PeerTarget → String → ℕ → Matched
  unfolding ports_match
  rule_match r t protocol port =
      all_of (any_of (map (peer_match t) r.peers) ∷ ports_match r.ports protocol port ∷ [])
