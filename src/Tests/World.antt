-- ===== src/Tests/World.antt =====
-- A small cluster, with stand-ins for the libraries, for the runs of the trace.
use dotvirt.Prelude.{ℕ, String, refl, true, false, none, some, List, [], str_eq, ◌∷◌}
use dotvirt.Netstate.Doc.{Object, LabelSelector, NetworkPolicySpec, EgressFirewallRuleDoc}
use dotvirt.Netstate.External.{External}
use dotvirt.Netstate.Match.{Match, match_no, match_yes, match_cond, is_yes}
use dotvirt.Netstate.RuleMatch.{TraceWorkload, PeerTarget, rule_match}
use dotvirt.Netstate.Snapshot.{Snapshot}
use dotvirt.Netstate.Trace.Direction.{admin_verdict}
use dotvirt.Netstate.Trace.Resolution.{Resolution, Settles}
use dotvirt.Netstate.Trace.Certain.Gateway.{GatewayResolution}

-- stand-ins for the libraries: one address and one prefix, and selectors that match no labels
abbrev pub toy : External
toy = record {
  Addr = Unit;
  Prefix = Unit;
  parse_addr = λ s. some tt;
  parse_prefix = λ s. some tt;
  contains = λ p a. true;
  equal_fold = str_eq;
  to_lower = λ s. s;
  cni_topology = λ s. none;
  as_selector = λ s. some (λ l. false);
}

abbrev pub everything : LabelSelector
everything = record { match_labels = []; match_expressions = [] }

-- selects every pod, and allows nothing in
abbrev pub deny_all : Object NetworkPolicySpec
deny_all = record {
  namespace = "shop";
  name = "deny-all";
  spec = record {
    pod_selector = everything;
    policy_types = "Ingress" ∷ [];
    ingress = [];
    egress = none;
  };
}

abbrev pub cluster : Snapshot
cluster = record {
  udn = [];
  cudn = [];
  nad = [];
  netpol = deny_all ∷ [];
  anp = [];
  banp = [];
  egressfw = [];
  egressip = [];
  extroute = [];
}

abbrev pub admit_all : Object NetworkPolicySpec
admit_all = record {
  namespace = "shop";
  name = "admit-all";
  spec = record {
    pod_selector = everything;
    policy_types = "Ingress" ∷ [];
    ingress = record { from = []; to = []; ports = [] } ∷ [];
    egress = none;
  };
}

abbrev pub admitting : Snapshot
admitting = record cluster { netpol = admit_all ∷ [] }

abbrev pub firewall : Object (List EgressFirewallRuleDoc)
firewall = record {
  namespace = "shop";
  name = "default";
  spec =
      record {
        type = "Deny";
        to = record { cidr_selector = "0.0.0.0/0"; dns_name = ""; node_selector = none };
        ports = [];
      }
      ∷ [];
}

abbrev pub walled : Snapshot
walled = record cluster { egressfw = firewall ∷ [] }

abbrev pub vm : String → TraceWorkload
vm name = record {
  namespace = "shop";
  name = name;
  ns_labels = [];
  pod_labels = [];
  ips = "10.0.0.1" ∷ [];
  pod_net = true;
  default_net = "";
  nets = [];
}

-- a workload with no network
abbrev pub adrift : TraceWorkload
adrift = record (vm "c") { pod_net = false }

pub settle : (m : Match) → Settles m (is_yes m)
settle match_no = refl
settle match_yes = refl
settle match_cond = tt

-- what is open is resolved to no match
abbrev pub pessimist :
    (dir : String) (peer : PeerTarget) (protocol : String) (port : ℕ)
    → Resolution toy dir peer protocol port
pessimist dir peer protocol port = record {
  admin_applies = λ b r. is_yes (admin_verdict toy dir peer protocol port b r).m;
  rule_applies = λ b r. is_yes (rule_match toy r peer protocol port).m;
  selects = λ b. is_yes b.m;
  admin_settles = λ b r. settle (admin_verdict toy dir peer protocol port b r).m;
  rule_settles = λ b r. settle (rule_match toy r peer protocol port).m;
  select_settles = λ b. settle b.m;
}

abbrev pub gateway_pessimist :
    (peer : PeerTarget) (protocol : String) (port : ℕ) → GatewayResolution toy peer protocol port
gateway_pessimist peer protocol port = record {
  applies = λ r. is_yes (rule_match toy r peer protocol port).m;
  settles = λ r. settle (rule_match toy r peer protocol port).m;
}
