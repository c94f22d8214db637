-- ===== src/Netstate/Rule/Summary.antt =====
-- internal/netstate/rule.go and policies.go: the texts that the views show for a rule. A map is
-- walked by its sorted keys.
use Prim.Native.String.{◌++◌ as append_text, len, slice}
use text.Mathlib.Text.{starts_with}
use dotvirt.Prelude.{
  str_lt, length, keep_if, concat, join, itoa, String, not, Option, none, some, List, [], map,
  str_eq, ◌==◌, if◌then◌else◌, ◌∷◌, ◌++◌,
}
use dotvirt.Netstate.Doc.{LabelSelector, Labels, Requirement, label_value, name_in}
use dotvirt.Netstate.View.{PolicyRuleView}
use dotvirt.Netstate.Rule.{
  Peer, PeerKind, peer_any, peer_selector, peer_networks, peer_nodes, peer_cidr_selector,
  peer_dns_name, peer_node_selector, peer_unresolved, Port, Rule,
}

insert_key : String → List String → List String
insert_key k [] = k ∷ []
insert_key k (j ∷ js) = if str_lt j k then j ∷ insert_key k js else k ∷ j ∷ js

-- slices.Sorted(maps.Keys(m))
sorted_keys : Labels → List String
unfolding insert_key
sorted_keys [] = []
sorted_keys ((k, v) ∷ m) = insert_key k (sorted_keys m)

pub or_any : String → String → String
or_any s fallback = if str_eq s "" then fallback else s

pub prefixed : String → String → String
prefixed prefix s = if str_eq s "" then "" else append_text prefix s

-- strings.ToLower on the four operators of the API
lower_operator : String → String
lower_operator op =
    if str_eq op "In"
    then "in"
    else if str_eq op "NotIn"
    then "notin"
    else if str_eq op "Exists"
    then "exists"
    else if str_eq op "DoesNotExist"
    then "doesnotexist"
    else op

requirement_summary : Requirement → String
requirement_summary e = elim (name_in e) [
  | some names ↦ join ", " names
  | none ↦
      let s = concat (e.key ∷ " " ∷ lower_operator e.operator ∷ []) in
      if length e.values == 0 then s else concat (s ∷ " (" ∷ join ", " e.values ∷ ")" ∷ [])
]

pub selector_summary : Option LabelSelector → String
unfolding sorted_keys requirement_summary
selector_summary none = ""
selector_summary (some sel) = join ", " (
    map (λ k. concat (k ∷ "=" ∷ label_value k sel.match_labels ∷ [])) (sorted_keys sel.match_labels)
    ++ map requirement_summary sel.match_expressions)

named_part : String → Option LabelSelector → List String
named_part what none = []
named_part what (some sel) = append_text what (or_any (selector_summary (some sel)) "any") ∷ []

first_or_empty : List String → String
first_or_empty [] = ""
first_or_empty (c ∷ cs) = c

-- `p.cidrs[0]`: a `peerCIDRSelector` always carries one
peer_text : PeerKind → Peer → String
unfolding named_part first_or_empty
peer_text peer_any p = ""
peer_text peer_selector p = join " " (named_part "ns " p.ns ++ named_part "pods " p.pod)
peer_text peer_networks p = append_text "cidr " (join ", " p.cidrs)
peer_text peer_nodes p = append_text "nodes " (or_any (selector_summary p.nodes) "any")
peer_text peer_cidr_selector p = first_or_empty p.cidrs
peer_text peer_dns_name p = p.dns
peer_text peer_node_selector p = "cluster nodes"
peer_text peer_unresolved p = "unresolved destination"

peer_summary : Peer → String
unfolding peer_text
peer_summary p = peer_text p.kind p

-- strings.TrimPrefix(s, "/")
trim_slash : String → String
trim_slash s = if starts_with s "/" then slice s 1 (len s) else s

port_summary : Port → String
unfolding trim_slash
port_summary p = trim_slash (
    concat (
      p.protocol
      ∷ (if not (str_eq p.named "")
          then append_text "/" p.named
          else if p.start == 0
          then ""
          else if p.start == p.end
          then append_text "/" (itoa p.start)
          else concat ("/" ∷ itoa p.start ∷ "-" ∷ itoa p.end ∷ []))
      ∷ []))

rule_peer_summary : Rule → String
unfolding peer_summary
rule_peer_summary r = join "; " (keep_if (λ s. not (str_eq s "")) (map peer_summary r.peers))

rule_port_summary : Rule → String
unfolding port_summary
rule_port_summary r = join ", " (map port_summary r.ports)

-- The row of the Security table.
pub rule_view : Rule → String → PolicyRuleView
unfolding rule_peer_summary rule_port_summary
rule_view r dir = record {
  direction = dir;
  action = r.action;
  peer = rule_peer_summary r;
  ports = rule_port_summary r;
}
