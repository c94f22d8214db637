-- ===== src/Netstate/Trace/Report.antt =====
-- internal/netstate/trace.go: the gateway walk, the connectivity and plane rows, and `Trace`.
use dotvirt.Prelude.{
  keep_if, concat, ℕ, String, Bool, true, false, not, Option, none, some, List, [], map, str_eq,
  if◌then◌else◌, ◌&&◌, ◌||◌, ◌∷◌, ◌++◌,
}
use dotvirt.Netstate.External.{External}
use dotvirt.Netstate.View.{PolicyRuleView, TraceStep, TraceResult}
use dotvirt.Netstate.Match.{match_no, match_yes, match_cond, is_cond}
use dotvirt.Netstate.Rule.{Rule}
use dotvirt.Netstate.Rule.Summary.{rule_view}
use dotvirt.Netstate.Decode.{Bindable}
use dotvirt.Netstate.Snapshot.{Snapshot, gateways}
use dotvirt.Netstate.RuleMatch.{TraceWorkload, PeerTarget, workload, address, rule_match}
use dotvirt.Netstate.Effective.{Bound, egress_bindings}
use dotvirt.Netstate.Topology.{primary_of, segment_key, shared_segments, is_localnet}
use dotvirt.Netstate.Trace.Walk.{Walk, WalkResult, start, add_step, maybe, decide, verdict}
use dotvirt.Netstate.Trace.Direction.{direction_walk}

-- a row outside the rule stages
abbrev row : String → String → Bool → String → TraceStep
row stage action decisive note = record {
  stage = stage;
  direction = "";
  policy = none;
  rule = none;
  action = action;
  conditional = false;
  decisive = decisive;
  note = note;
}

first_rule : List PolicyRuleView → Option PolicyRuleView
first_rule [] = none
first_rule (r ∷ rs) = some r

plane_step : String → String → String → Bound → TraceStep
unfolding first_rule
plane_step stage action note b = record {
  stage = stage;
  direction = "";
  policy = some (record b.pol.view { rules = [] });
  rule = first_rule b.pol.view.rules;
  action = action;
  conditional = is_cond b.m;
  decisive = false;
  note = note;
}

-- The last firewall that was visited, for the default row.
unfoldable pub last_policy : List Bindable → Option Bindable
last_policy [] = none
last_policy (p ∷ []) = some p
last_policy (p ∷ q ∷ ps) = last_policy (q ∷ ps)

unfoldable pub gateway_default : Option Bindable → Walk → WalkResult
gateway_default none w = decide "Allow" w
gateway_default (some fw) w = decide "Allow" (
    add_step (some fw.view) none "gateway" "Allow"
      "No gateway rule matches - the gateway defaults to allow." false true w)

module _ (x : External) (target : PeerTarget) (protocol : String) (port : ℕ) where
  unfoldable pub gateway_rules : Bindable → List Rule → Walk → Walk × Option WalkResult
  gateway_rules p [] w = (w, none)
  gateway_rules p (r ∷ rs) w = elim (rule_match x r target protocol port).m [
    | match_no ↦ gateway_rules p rs w
    | match_cond ↦ gateway_rules p rs (
        maybe (some p.view) (some (rule_view r "Egress")) "gateway" r.action
          (rule_match x r target protocol port).reason w)
    | match_yes ↦
        (let w' =
            add_step (some p.view) (some (rule_view r "Egress")) "gateway" r.action "" false true
              w in
          (w', some (decide r.action w')))
  ]

  unfoldable pub gateway_next :
      (Walk → Walk × Option WalkResult) → Walk × Option WalkResult → Walk × Option WalkResult
  gateway_next more (w, none) = more w
  gateway_next more (w, some r) = (w, some r)

  unfoldable pub gateway_policies : List Bindable → Walk → Walk × Option WalkResult
  gateway_policies [] w = (w, none)
  gateway_policies (p ∷ ps) w =
      gateway_next (λ w'. gateway_policies ps w') (gateway_rules p p.egress w)

  unfoldable pub finish_gateway : Option Bindable → Walk × Option WalkResult → WalkResult
  finish_gateway fw (w, some r) = r
  finish_gateway fw (w, none) = gateway_default fw w

  unfoldable pub gateway_tier : List Bindable → WalkResult
  gateway_tier ps = finish_gateway (last_policy ps) (gateway_policies ps (start "Egress"))

unfoldable pub default_protocol : String → String
default_protocol protocol = if str_eq protocol "" then "TCP" else protocol

module _ (x : External) (s : Snapshot) where
  unfoldable pub gateway_walk : String → String → String → ℕ → WalkResult
  gateway_walk ns dst_ip protocol port =
      gateway_tier x (address dst_ip) protocol port (gateways s ns)

  egress_plane_steps : TraceWorkload → List TraceStep
  unfolding plane_step
  egress_plane_steps src =
      let planes = egress_bindings x s src.ns_labels src.pod_labels true in
      map (plane_step "snat" "SNAT" "Egress leaves source-NATed to this pool.") planes.0
      ++ map
          (plane_step "route" "Route"
            "Egress is steered to this next hop instead of the default gateway.")
          planes.1

  path_row : TraceWorkload → TraceWorkload → String × String → String × String → TraceStep
  path_row src dst from to =
      if not (str_eq from.0 "") && str_eq from.0 to.0
      then row "connectivity" "Reachable" false
          (concat ("Both workloads attach " ∷ from.1 ∷ "." ∷ []))
      else if str_eq from.0 "" || str_eq to.0 ""
      then row "connectivity" "Unreachable" true (
          concat (
            (if not (str_eq from.0 "") then dst.name else src.name)
            ∷ " has no primary network attachment."
            ∷ []))
      else row "connectivity" "Unreachable" true (
          concat (
            "Isolated primary networks: " ∷ src.name ∷ " is on " ∷ from.1 ∷ ", " ∷ dst.name ∷ " on "
            ∷ to.1 ∷ "." ∷ []))

  unfoldable pub reachable : TraceWorkload → TraceWorkload → Bool
  reachable src dst =
      not (str_eq (primary_of x s src).0 "") && str_eq (primary_of x s src).0 (primary_of x s dst).0

  -- The steps of `connectivity`; its first result is `reachable`.
  connectivity_steps : TraceWorkload → TraceWorkload → List TraceStep
  unfolding path_row
  connectivity_steps src dst =
      path_row src dst (primary_of x s src) (primary_of x s dst)
      ∷ map
          (λ name. row "segment" "Bypass" false (
            concat (
              "Both attach segment " ∷ name
              ∷ " - an unfiltered layer-2 path; east-west policy does not apply on secondary segments."
              ∷ [])))
          (shared_segments s src.nets dst.nets)

  external_connectivity : TraceWorkload → String → List TraceStep
  external_connectivity src dst_ip =
      row "connectivity" "Reachable" false (
        concat (
          "Cluster egress path to " ∷ dst_ip ∷ ", evaluated against the source's egress controls."
          ∷ []))
      ∷ map
          (λ ref. row "segment" "Bypass" false (
            concat (
              "NIC on VLAN segment "
              ∷ (segment_key s ref).1
              ∷ " - traffic leaving through it bypasses these controls."
              ∷ [])))
          (keep_if (is_localnet x s) src.nets)

  unfoldable pub trace_east_west : TraceWorkload → TraceWorkload → String → ℕ → TraceResult
  unfolding connectivity_steps
  trace_east_west src dst protocol port =
      let steps = connectivity_steps src dst in
      if not (reachable src dst)
      then record { verdict = "Unreachable"; steps = steps }
      else (let eg = direction_walk x "Egress" (workload dst) protocol port s src in
          let ing = direction_walk x "Ingress" (workload src) protocol port s dst in
          record { verdict = verdict (eg ∷ ing ∷ []); steps = steps ++ (eg.steps ++ ing.steps) })

  unfoldable pub trace_external : TraceWorkload → String → String → ℕ → TraceResult
  unfolding external_connectivity egress_plane_steps
  trace_external src dst_ip protocol port =
      let eg = direction_walk x "Egress" (address dst_ip) protocol port s src in
      let gw = gateway_walk src.namespace dst_ip protocol port in
      record {
        verdict = verdict (eg ∷ gw ∷ []);
        steps =
            external_connectivity src dst_ip ++ (eg.steps ++ (gw.steps ++ egress_plane_steps src));
      }

  unfoldable pub trace : TraceWorkload → Option TraceWorkload → String → String → ℕ → TraceResult
  trace src (some dst) dst_ip protocol port =
      trace_east_west src dst (default_protocol protocol) port
  trace src none dst_ip protocol port = trace_external src dst_ip (default_protocol protocol) port
