-- ===== src/Netstate/Rule.antt =====
-- internal/netstate/rule.go: one policy rule decoded once for every reader.
pub mod Summary
use dotvirt.Prelude.{
  ℕ, String, not, Option, none, some, List, [], map, str_eq, ◌==◌, if◌then◌else◌, ◌∷◌, ◌++◌,
}
use dotvirt.Netstate.Doc.{
  LabelSelector, PortDoc, PortEntry, IntOrString, NetworkPolicyPeer, AdminPeerDoc,
  EgressFirewallRuleDoc, EgressDestination,
}
use dotvirt.Netstate.Match.{empty_selector}

pub data PeerKind : Type 0 where
  peer_any peer_selector peer_networks peer_nodes : PeerKind
  peer_cidr_selector peer_dns_name peer_node_selector peer_unresolved : PeerKind

pub record Peer : Type 0 where
  pub kind : PeerKind
  pub ns : Option LabelSelector
  pub pod : Option LabelSelector
  pub nodes : Option LabelSelector
  pub namespace : String
  pub cidrs : List String
  pub except : List String
  pub dns : String

pub record Port : Type 0 where
  pub protocol : String
  pub start : ℕ
  pub end : ℕ
  pub named : String

pub record Rule : Type 0 where
  pub action : String
  pub peers : List Peer
  pub ports : List Port

-- `peer{kind: k}`: every other field is its zero value
abbrev pub bare_peer : PeerKind → Peer
bare_peer k = record {
  kind = k;
  ns = none;
  pod = none;
  nodes = none;
  namespace = "";
  cidrs = [];
  except = [];
  dns = "";
}

-- the `switch` on `d.Port`, over the port with its protocol filled in
numbered : PortEntry → Port → Option IntOrString → Port
numbered d p none = p
numbered d p (some (IntOrString.text s)) = record p { named = s }
numbered d p (some (IntOrString.int n)) = record p {
  start = n;
  end = if d.end_port == 0 then n else d.end_port;
}

plain_port : String → PortEntry → Port
unfolding numbered
plain_port default_proto d =
    numbered d
      (record {
        protocol = if str_eq d.protocol "" then default_proto else d.protocol;
        start = 0;
        end = 0;
        named = "";
      })
      d.port

decode_port : String → PortDoc → Port
unfolding plain_port
decode_port default_proto d = elim d.named_port [
  | some name ↦ record { protocol = ""; start = 0; end = 0; named = name }
  | none ↦ elim d.port_range [
    | some r ↦ record { protocol = r.protocol; start = r.start; end = r.end; named = "" }
    | none ↦ plain_port default_proto (elim d.port_number [ some n ↦ n | none ↦ d.entry ])
  ]
]

unfoldable pub decode_ports : List PortDoc → String → List Port
unfolding decode_port
decode_ports docs default_proto = map (decode_port default_proto) docs

-- a peer with none of its forms set is skipped
netpol_peer : String → NetworkPolicyPeer → List Peer
netpol_peer ns p = elim p.ip_block [
  | some b ↦ record (bare_peer peer_networks) { cidrs = b.cidr ∷ []; except = b.except } ∷ []
  | none ↦ elim p.namespace_selector [
    | some n ↦ record (bare_peer peer_selector) { ns = some n; pod = p.pod_selector } ∷ []
    | none ↦ elim p.pod_selector [
      | some s ↦ record (bare_peer peer_selector) { pod = some s; namespace = ns } ∷ []
      | none ↦ []
    ]
  ]
]

flat_peers {ℓ} : {D : Type ℓ} → (D → List Peer) → List D → List Peer
flat_peers f [] = []
flat_peers f (d ∷ ds) = f d ++ flat_peers f ds

netpol_peers : String → List NetworkPolicyPeer → List Peer
unfolding flat_peers netpol_peer
netpol_peers ns [] = bare_peer peer_any ∷ []
netpol_peers ns (p ∷ ps) = flat_peers (netpol_peer ns) (p ∷ ps)

unfoldable pub netpol_rule : List NetworkPolicyPeer → List PortDoc → String → Rule
unfolding netpol_peers
netpol_rule peers ports ns = record {
  action = "Allow";
  peers = netpol_peers ns peers;
  ports = decode_ports ports "TCP";
}

admin_peer : AdminPeerDoc → List Peer
admin_peer p = elim p.namespaces [
  | some n ↦ record (bare_peer peer_selector) { ns = some n } ∷ []
  | none ↦ elim p.pods [
    | some q ↦
        record (bare_peer peer_selector) {
          ns = some q.namespace_selector;
          pod = if not (empty_selector (some q.pod_selector)) then some q.pod_selector else none;
        }
        ∷ []
    | none ↦ elim p.networks [
      | some c ↦ record (bare_peer peer_networks) { cidrs = c } ∷ []
      | none ↦ elim p.nodes [
        | some n ↦ record (bare_peer peer_nodes) { nodes = some n } ∷ []
        | none ↦ []
      ]
    ]
  ]
]

unfoldable pub admin_rule : String → List AdminPeerDoc → List PortDoc → Rule
unfolding flat_peers admin_peer
admin_rule action peers ports = record {
  action = action;
  peers = flat_peers admin_peer peers;
  ports = decode_ports ports "";
}

gateway_peer : EgressDestination → Peer
gateway_peer to =
    if not (str_eq to.cidr_selector "")
    then record (bare_peer peer_cidr_selector) { cidrs = to.cidr_selector ∷ [] }
    else if not (str_eq to.dns_name "")
    then record (bare_peer peer_dns_name) { dns = to.dns_name }
    else elim to.node_selector [
      | some n ↦ record (bare_peer peer_node_selector) { nodes = some n }
      | none ↦ bare_peer peer_unresolved
    ]

unfoldable pub gateway_rule : EgressFirewallRuleDoc → Rule
unfolding gateway_peer
gateway_rule r = record {
  action = r.type;
  peers = gateway_peer r.to ∷ [];
  ports = decode_ports r.ports "TCP";
}
