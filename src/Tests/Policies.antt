-- ===== src/Tests/Policies.antt =====
-- Runs of the matching of rules, the effective policy and the shared segments.
use dotvirt.Prelude.{
  any, all, concat, String, refl, inl, Bool, true, not, List, [], str_eq, Elem, ◌≡◌, ◌&&◌, ◌||◌,
  ◌∷◌,
}
use dotvirt.Prelude.Sort.{count_if, Ordered}
use dotvirt.Netstate.View.{Policy}
use dotvirt.Netstate.Open.{plane}
use dotvirt.Netstate.Match.{is_yes, is_no, just, match_yes, match_cond, Matched}
use dotvirt.Netstate.Decode.{netpol_types}
use dotvirt.Netstate.Rule.{Rule, netpol_rule}
use dotvirt.Netstate.RuleMatch.{workload, rule_match, peer_match}
use dotvirt.Netstate.RuleMatch.Verdict.{portless, port_surely, port_never, rule_match_exact}
use dotvirt.Netstate.Effective.{effective}
use dotvirt.Netstate.Effective.DefaultDeny.{selected_for_certain, effective_default_deny}
use dotvirt.Netstate.Topology.{shared_segments}
use dotvirt.Netstate.Topology.Segments.{Attaches, identity, shared_segments_sound}
use dotvirt.Netstate.Policies.{policies, stored, Listed, policies_complete}
use dotvirt.Tests.World.{toy, cluster, vm}

abbrev verdicts : List Matched
verdicts = just match_yes ∷ just match_cond ∷ []

abbrev anyone : Rule
anyone = netpol_rule [] [] "shop"

rule_match_exact_example :
    (is_yes (rule_match toy anyone (workload (vm "b")) "TCP" 80).m ≡ (
      any (λ p. is_yes (peer_match toy (workload (vm "b")) p).m) anyone.peers
      && (portless anyone.ports || any (port_surely toy "TCP" 80) anyone.ports)))
    × (is_no (rule_match toy anyone (workload (vm "b")) "TCP" 80).m ≡ (
        all (λ p. is_no (peer_match toy (workload (vm "b")) p).m) anyone.peers
        || not (portless anyone.ports) && all (port_never toy "TCP" 80) anyone.ports))
rule_match_exact_example = rule_match_exact toy "TCP" 80 anyone (workload (vm "b"))

effective_default_deny_example :
    ((effective toy cluster "shop" [] [] true).default_deny_ingress
      ≡ any
          (λ u. selected_for_certain toy cluster "shop" [] [] true u && (netpol_types u.spec).0)
          cluster.netpol)
    × ((effective toy cluster "shop" [] [] true).default_deny_egress
        ≡ any
            (λ u. selected_for_certain toy cluster "shop" [] [] true u && (netpol_types u.spec).1)
            cluster.netpol)
effective_default_deny_example = effective_default_deny toy cluster "shop" [] [] true

abbrev nics : List String
nics = "shop/vlan" ∷ []

shared_vlan : Elem "shop/vlan" (shared_segments cluster nics nics)
unfolding plane concat
shared_vlan = inl refl

shared_segments_sound_example :
    (ref : String) × Elem ref nics × Attaches cluster nics (identity cluster ref) "shop/vlan"
shared_segments_sound_example = shared_segments_sound cluster nics nics "shop/vlan" shared_vlan

abbrev in_shop : Policy → Bool
in_shop v = str_eq v.namespace "shop"

policies_complete_example :
    (count_if in_shop (policies cluster) ≡ stored in_shop cluster)
    × Ordered Listed (policies cluster)
policies_complete_example = policies_complete cluster in_shop
