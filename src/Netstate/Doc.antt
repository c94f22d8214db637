-- ===== src/Netstate/Doc.antt =====
-- internal/netgen/doc.go: the document shapes that the live policy objects are converted into.
-- A pointer or a slice that the code tests against nil is an `Option`; a map is an association list.
-- Numbers that the API keeps at 0 or above (ports, priorities) are natural numbers.
use dotvirt.Prelude.{
  length, keep_if, ℕ, String, not, Option, none, some, List, [], str_eq, ◌==◌, if◌then◌else◌, ◌&&◌,
  ◌∷◌,
}

abbrev pub Labels : Type 0
Labels = List (String × String)

-- metav1.LabelSelectorRequirement and metav1.LabelSelector, as far as they are read
pub record Requirement : Type 0 where
  pub key : String
  pub operator : String
  pub values : List String

pub record LabelSelector : Type 0 where
  pub match_labels : Labels
  pub match_expressions : List Requirement

pub record PortRangeDoc : Type 0 where
  pub protocol : String
  pub start : ℕ
  pub end : ℕ

-- intstr.IntOrString
pub data IntOrString : Type 0 where
  int : ℕ → IntOrString
  text : String → IntOrString

-- the fields of a `PortDoc` that are read behind `portNumber` too
pub record PortEntry : Type 0 where
  pub protocol : String
  pub port : Option IntOrString
  pub end_port : ℕ

pub record PortDoc : Type 0 where
  pub entry : PortEntry
  pub port_number : Option PortEntry
  pub port_range : Option PortRangeDoc
  pub named_port : Option String

pub record NamespacedPod : Type 0 where
  pub namespace_selector : LabelSelector
  pub pod_selector : LabelSelector

pub record IpBlock : Type 0 where
  pub cidr : String
  pub except : List String

pub record NetworkPolicyPeer : Type 0 where
  pub namespace_selector : Option LabelSelector
  pub pod_selector : Option LabelSelector
  pub ip_block : Option IpBlock

pub record NetworkPolicyRule : Type 0 where
  pub from : List NetworkPolicyPeer
  pub to : List NetworkPolicyPeer
  pub ports : List PortDoc

pub record NetworkPolicySpec : Type 0 where
  pub pod_selector : LabelSelector
  pub policy_types : List String
  pub ingress : List NetworkPolicyRule
  pub egress : Option (List NetworkPolicyRule)

pub record AdminPeerDoc : Type 0 where
  pub namespaces : Option LabelSelector
  pub pods : Option NamespacedPod
  pub nodes : Option LabelSelector
  pub networks : Option (List String)

pub record AdminPolicyRuleDoc : Type 0 where
  pub action : String
  pub from : List AdminPeerDoc
  pub to : List AdminPeerDoc
  pub ports : List PortDoc

pub record AdminNetworkPolicySpec : Type 0 where
  pub priority : ℕ
  pub namespaces : Option LabelSelector
  pub pods : Option NamespacedPod
  pub ingress : List AdminPolicyRuleDoc
  pub egress : List AdminPolicyRuleDoc

pub record EgressDestination : Type 0 where
  pub cidr_selector : String
  pub dns_name : String
  pub node_selector : Option LabelSelector

pub record EgressFirewallRuleDoc : Type 0 where
  pub type : String
  pub to : EgressDestination
  pub ports : List PortDoc

pub record EgressIpSpec : Type 0 where
  pub egress_ips : List String
  pub namespace_selector : LabelSelector
  pub pod_selector : LabelSelector

pub record ExternalRouteSpec : Type 0 where
  pub from : LabelSelector
  pub static_hops : List String

-- a live object: its metadata, and its spec as the converter fills it in
pub record Object (S : Type 0) : Type 0 where
  pub namespace : String
  pub name : String
  pub spec : S

abbrev pub namespace_name_label : String
namespace_name_label = "kubernetes.io/metadata.name"

-- a map read of a missing key gives the empty text
unfoldable pub label_value : String → Labels → String
label_value k [] = ""
label_value k ((j, v) ∷ m) = if str_eq j k then v else label_value k m

-- the second result of `NameIn` is false at `none`
unfoldable pub name_in : Requirement → Option (List String)
name_in r =
    if not (str_eq r.key namespace_name_label)
    then none
    else if not (str_eq r.operator "In")
    then none
    else some r.values

names_or_nil : List String → Option (List String)
names_or_nil [] = none
names_or_nil (v ∷ vs) = some (v ∷ vs)

expression_names : List Requirement → Option (List String)
unfolding name_in names_or_nil
expression_names (r ∷ []) = elim (name_in r) [
  | none ↦ none
  | some vals ↦ names_or_nil (keep_if (λ v. not (str_eq v "")) vals)
]
expression_names _ = none

-- `nil` is `none`
unfoldable pub namespace_names : Option LabelSelector → Option (List String)
unfolding label_value expression_names
namespace_names none = none
namespace_names (some sel) =
    if length sel.match_labels == 1 && length sel.match_expressions == 0
    then (let name = label_value namespace_name_label sel.match_labels in
        if not (str_eq name "") then some (name ∷ []) else none)
    else if length sel.match_labels == 0 && length sel.match_expressions == 1
    then expression_names sel.match_expressions
    else none
