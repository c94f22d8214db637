-- ===== src/Netstate/Open.antt =====
-- One name whose `unfolding` line opens the whole policy plane, for runs at concrete inputs.
use dotvirt.Prelude.Sort.{insert_by, sort_by}
use dotvirt.Netstate.Doc.{label_value, name_in, namespace_names}
use dotvirt.Netstate.Match.{
  combine_match, all_of, any_of, empty_selector, match_selector, pod_match, subject_match,
}
use dotvirt.Netstate.Rule.{decode_ports, netpol_rule, admin_rule, gateway_rule}
use dotvirt.Netstate.RuleMatch.{port_match, excepted, cidrs_match, peer_match, rule_match}
use dotvirt.Netstate.Decode.{
  rules, finish, netpol_types, decode_netpol, decode_admin, decode_gateway, decode_egress_ip,
  decode_ext_route,
}
use dotvirt.Netstate.Snapshot.{
  by_name, by_precedence, decoded, in_namespace, sorted_anps, baselines, gateways, netpols,
  snat_pools, external_routes,
}
use dotvirt.Netstate.Effective.{bind, selecting_netpols, egress_bindings, binding, effective}
use dotvirt.Netstate.Topology.{
  segment_key, shared_segments, primary_domain, primary_of, is_localnet,
}
use dotvirt.Netstate.Trace.Walk.{add_step, maybe, result, agree, decide, verdict}
use dotvirt.Netstate.Trace.Direction.{
  admin_verdict, admin_hit, admin_rules, admin_next, admin_tier, project_rules, project_next,
  project_tier, project_default, isolates, default_tier, finish_baseline, finish_project,
  lower_tiers, finish_admin, tiers, direction_walk,
}
use dotvirt.Netstate.Trace.Report.{
  gateway_rules, gateway_next, gateway_policies, finish_gateway, last_policy, gateway_default,
  gateway_tier, gateway_walk, reachable, trace_east_west, trace_external, default_protocol, trace,
}
use dotvirt.Netstate.Trace.Resolution.{
  first_rule, or_next, first_policy, allow_rule, or_else, allow_list, baseline_action,
  isolated_action, lower_action, admin_action, action_of,
}

unfoldable pub plane : Unit {0}
unfolding insert_by sort_by label_value name_in namespace_names combine_match all_of any_of
    empty_selector match_selector pod_match subject_match decode_ports netpol_rule admin_rule
    gateway_rule port_match excepted cidrs_match peer_match rule_match rules finish netpol_types
    decode_netpol decode_admin decode_gateway decode_egress_ip decode_ext_route by_name
    by_precedence decoded in_namespace sorted_anps baselines gateways netpols snat_pools
    external_routes bind selecting_netpols egress_bindings binding effective segment_key
    shared_segments primary_domain primary_of is_localnet add_step maybe result agree decide verdict
    admin_verdict admin_hit admin_rules admin_next admin_tier project_rules project_next
    project_tier project_default isolates default_tier finish_baseline finish_project lower_tiers
    finish_admin tiers direction_walk gateway_rules gateway_next gateway_policies finish_gateway
    last_policy gateway_default gateway_tier gateway_walk reachable trace_east_west trace_external
    default_protocol trace first_rule or_next first_policy allow_rule or_else allow_list
    baseline_action isolated_action lower_action admin_action action_of
plane = tt
