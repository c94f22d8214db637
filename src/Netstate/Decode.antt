-- ===== src/Netstate/Decode.antt =====
-- internal/netstate/decode.go: each live object is converted once into a policy, the row that the
-- views show with the typed subject and rules that the matchers evaluate.
use Prim.Native.String.{◌++◌ as append_text}
use dotvirt.Prelude.{
  ltb, length, keep_if, any, concat, join, String, Bool, true, false, not, Option, none, some, List,
  [], map, str_eq, if◌then◌else◌, ◌∷◌, ◌++◌,
}
use dotvirt.Netstate.Doc.{
  Object, NetworkPolicySpec, NetworkPolicyRule, AdminNetworkPolicySpec, AdminPolicyRuleDoc,
  EgressFirewallRuleDoc, EgressIpSpec, ExternalRouteSpec, namespace_names,
}
use dotvirt.Netstate.View.{
  Policy, PolicyKind, PolicyRuleView, dfw, admin, baseline, gateway, egressip, route,
}
use dotvirt.Netstate.Match.{Subject}
use dotvirt.Netstate.Rule.{Rule, netpol_rule, admin_rule, gateway_rule}
use dotvirt.Netstate.Rule.Summary.{rule_view, or_any, prefixed, selector_summary}

-- the source's `policy`; `Policy` is its `view`
pub record Bindable : Type 0 where
  pub view : Policy
  pub subject : Subject
  pub ingress : List Rule
  pub egress : List Rule
  pub deny_ingress : Bool
  pub deny_egress : Bool

unfoldable pub rules : Bindable → String → List Rule
rules p dir = if str_eq dir "Ingress" then p.ingress else p.egress

-- strings.TrimSpace of `a + " " + b`: neither text begins or ends with a space
spaced : String → String → String
spaced a b = if str_eq b "" then a else concat (a ∷ " " ∷ b ∷ [])

subject_summary : Subject → String
unfolding spaced
subject_summary s = if s.nothing then "" else elim s.ns [
  | none ↦ or_any (selector_summary s.pod) "all pods"
  | some n ↦
      spaced (or_any (selector_summary s.ns) "all namespaces")
        (prefixed "pods " (selector_summary s.pod))
]

unfoldable pub finish : Bindable → Bindable
unfolding subject_summary
finish p = record p {
  view = record p.view {
    target = subject_summary p.subject;
    rules =
        p.view.rules
        ++ (map (λ r. rule_view r "Ingress") p.ingress ++ map (λ r. rule_view r "Egress") p.egress);
  };
}

-- the literal `model.Policy{Name: ..., Kind: ..., Namespace: ..., Backing: ...}`
abbrev bare_view : String → PolicyKind → String → String → Policy
bare_view name kind namespace backing = record {
  name = name;
  kind = kind;
  namespace = namespace;
  backing = backing;
  priority = 0;
  target = "";
  namespaces = none;
  rules = [];
}

egress_rules : Option (List NetworkPolicyRule) → List NetworkPolicyRule
egress_rules none = []
egress_rules (some rs) = rs

is_some : Option (List NetworkPolicyRule) → Bool
is_some none = false
is_some (some rs) = true

-- The directions that a NetworkPolicy default-denies: ingress, then egress.
unfoldable pub netpol_types : NetworkPolicySpec → Bool × Bool
unfolding is_some
netpol_types spec =
    if ltb 0 (length spec.policy_types)
    then (
      any (λ t. str_eq t "Ingress") spec.policy_types,
      any (λ t. str_eq t "Egress") spec.policy_types,
    )
    else (true, is_some spec.egress)

unfoldable pub decode_netpol : Object NetworkPolicySpec → Bindable
unfolding egress_rules finish
decode_netpol u = finish (record {
  view = bare_view u.name dfw u.namespace "NetworkPolicy";
  subject = record { ns = none; pod = some u.spec.pod_selector; nothing = false };
  ingress = map (λ (r : NetworkPolicyRule). netpol_rule r.from r.ports u.namespace) u.spec.ingress;
  egress =
      map (λ (r : NetworkPolicyRule). netpol_rule r.to r.ports u.namespace)
        (egress_rules u.spec.egress);
  deny_ingress = (netpol_types u.spec).0;
  deny_egress = (netpol_types u.spec).1;
})

admin_subject : AdminNetworkPolicySpec → Subject
admin_subject spec = elim spec.namespaces [
  | some n ↦ record { ns = some n; pod = none; nothing = false }
  | none ↦ elim spec.pods [
    | some p ↦ record { ns = some p.namespace_selector; pod = some p.pod_selector; nothing = false }
    | none ↦ record { ns = none; pod = none; nothing = true }
  ]
]

admin_view : Bool → Object AdminNetworkPolicySpec → Policy
admin_view true u = bare_view u.name baseline "" "BaselineAdminNetworkPolicy"
admin_view false u = record (bare_view u.name admin "" "AdminNetworkPolicy") {
  priority = u.spec.priority;
}

unfoldable pub decode_admin : Bool → Object AdminNetworkPolicySpec → Bindable
unfolding admin_subject admin_view finish
decode_admin is_baseline u =
    let subject = admin_subject u.spec in
    finish (record {
      view = record (admin_view is_baseline u) { namespaces = namespace_names subject.ns };
      subject = subject;
      ingress = map (λ (r : AdminPolicyRuleDoc). admin_rule r.action r.from r.ports) u.spec.ingress;
      egress = map (λ (r : AdminPolicyRuleDoc). admin_rule r.action r.to r.ports) u.spec.egress;
      deny_ingress = false;
      deny_egress = false;
    })

unfoldable pub decode_gateway : Object (List EgressFirewallRuleDoc) → Bindable
unfolding finish
decode_gateway u = finish (record {
  view = bare_view u.name gateway u.namespace "EgressFirewall";
  subject = record { ns = none; pod = none; nothing = false };
  ingress = [];
  egress = map gateway_rule u.spec;
  deny_ingress = false;
  deny_egress = false;
})

-- the one row of a Tier-0 plane, absent where there is nothing to show
plane_rows : String → String → List String → List PolicyRuleView
plane_rows action prefix [] = []
plane_rows action prefix (a ∷ as') =
    record {
      direction = "Egress";
      action = action;
      peer = append_text prefix (join ", " (a ∷ as'));
      ports = "";
    }
    ∷ []

plane : Policy → Subject → List PolicyRuleView → Bindable
unfolding finish
plane view subject rows = finish (record {
  view = record view { namespaces = namespace_names subject.ns; rules = rows };
  subject = subject;
  ingress = [];
  egress = [];
  deny_ingress = false;
  deny_egress = false;
})

unfoldable pub decode_egress_ip : Object EgressIpSpec → Bindable
unfolding plane_rows plane
decode_egress_ip u =
    plane (bare_view u.name egressip "" "EgressIP")
      (record {
        ns = some u.spec.namespace_selector;
        pod = some u.spec.pod_selector;
        nothing = false;
      })
      (plane_rows "SNAT" "" u.spec.egress_ips)

unfoldable pub decode_ext_route : Object ExternalRouteSpec → Bindable
unfolding plane_rows plane
decode_ext_route u =
    plane (bare_view u.name route "" "AdminPolicyBasedExternalRoute")
      (record { ns = some u.spec.from; pod = none; nothing = false })
      (plane_rows "Route" "via " (keep_if (λ ip. not (str_eq ip "")) u.spec.static_hops))
