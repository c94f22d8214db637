-- ===== src/Netstate/Snapshot.antt =====
-- internal/netstate/netstate.go and decode.go: the stores of the read plane, each the list of its
-- objects in the order that the store gives them, and the readers of one tier.
use dotvirt.Prelude.{
  ltb, str_lt, keep_if, String, Bool, true, false, not, List, map, str_eq, ◌==◌, if◌then◌else◌,
}
use dotvirt.Prelude.Sort.{sort_by}
use dotvirt.Netstate.Doc.{
  Object, NetworkPolicySpec, AdminNetworkPolicySpec, EgressFirewallRuleDoc, EgressIpSpec,
  ExternalRouteSpec,
}
use dotvirt.Netstate.Decode.{
  Bindable, decode_netpol, decode_admin, decode_gateway, decode_egress_ip, decode_ext_route,
}

-- the body of a UserDefinedNetwork: a role for each topology
pub record NetworkConfig : Type 0 where
  pub topology : String
  pub layer2_role : String
  pub layer3_role : String
  pub localnet_role : String

pub record OwnerReference : Type 0 where
  pub kind : String
  pub name : String

-- a NetworkAttachmentDefinition: its owners and its CNI configuration
pub record Nad : Type 0 where
  pub owners : List OwnerReference
  pub config : String

pub record Snapshot : Type 0 where
  pub udn : List (Object NetworkConfig)
  pub cudn : List (Object NetworkConfig)
  pub nad : List (Object Nad)
  pub netpol : List (Object NetworkPolicySpec)
  pub anp : List (Object AdminNetworkPolicySpec)
  pub banp : List (Object AdminNetworkPolicySpec)
  pub egressfw : List (Object (List EgressFirewallRuleDoc))
  pub egressip : List (Object EgressIpSpec)
  pub extroute : List (Object ExternalRouteSpec)

unfoldable pub by_name : Bindable → Bindable → Bool
by_name a b = str_lt a.view.name b.view.name

unfoldable pub by_precedence : Bindable → Bindable → Bool
by_precedence a b =
    if not (a.view.priority == b.view.priority)
    then ltb a.view.priority b.view.priority
    else str_lt a.view.name b.view.name

unfoldable pub decoded : {S : Type 0} → List (Object S) → (Object S → Bindable) → List Bindable
decoded objs dec = map dec objs

unfoldable pub in_namespace :
    {S : Type 0} → List (Object S) → String → (Object S → Bindable) → List Bindable
in_namespace objs ns dec = sort_by by_name (map dec (keep_if (λ u. str_eq u.namespace ns) objs))

unfoldable pub sorted_anps : Snapshot → List Bindable
unfolding decoded
sorted_anps s = sort_by by_precedence (decoded s.anp (decode_admin false))

unfoldable pub baselines : Snapshot → List Bindable
unfolding decoded
baselines s = decoded s.banp (decode_admin true)

unfoldable pub gateways : Snapshot → String → List Bindable
unfolding in_namespace
gateways s ns = in_namespace s.egressfw ns decode_gateway

unfoldable pub netpols : Snapshot → String → List Bindable
unfolding in_namespace
netpols s ns = in_namespace s.netpol ns decode_netpol

unfoldable pub snat_pools : Snapshot → List Bindable
unfolding decoded
snat_pools s = decoded s.egressip decode_egress_ip

unfoldable pub external_routes : Snapshot → List Bindable
unfolding decoded
external_routes s = decoded s.extroute decode_ext_route
