-- ===== src/Tests/Flows.antt =====
-- Flows traced over a small cluster: one network policy isolates a workload.
use dotvirt.Prelude.{String, refl, none, some, arith, str_eq_iff, ◌≡◌, ◌≢◌, ◌↔◌, ◌⊎◌}
use dotvirt.Netstate.Open.{plane}
use dotvirt.Netstate.RuleMatch.{workload, address}
use dotvirt.Netstate.Snapshot.{gateways}
use dotvirt.Netstate.Trace.Direction.{direction_walk}
use dotvirt.Netstate.Trace.Certain.Connected.{OneNetwork}
use dotvirt.Netstate.Trace.Report.{trace, default_protocol, gateway_walk}
use dotvirt.Netstate.Trace.Certain.Verdict.{AllDefinite}
use dotvirt.Netstate.Trace.Certain.Direction.{
  isolating, direction_action, direction_deny_certain, direction_outcome_certain,
}
use dotvirt.Netstate.Trace.Certain.Gateway.{
  gateway_list, allowed_by_default, gateway_outcome_certain,
}
use dotvirt.Netstate.Trace.Certain.Flow.{
  trace_unreachable_iff, trace_deny_certain, trace_allow_certain, trace_external_deny_certain,
}
use dotvirt.Tests.World.{toy, cluster, admitting, walled, vm, adrift, pessimist, gateway_pessimist}

deny_ne_conditional : ◌≢◌ {A = String} "Deny" "Conditional"
deny_ne_conditional = ground (arith, str_eq_iff "Deny" "Conditional")

denied :
    (direction_walk toy "Ingress" (workload (vm "b")) "TCP" 80 cluster (vm "a")).outcome ≡ "Deny"
unfolding plane
denied = refl

direction_deny_certain_example :
    direction_action toy "Ingress"
      (workload (vm "b"))
      "TCP"
      80
      (pessimist "Ingress" (workload (vm "b")) "TCP" 80)
      cluster
      (vm "a")
    ≡ "Deny"
direction_deny_certain_example =
    direction_deny_certain toy "Ingress" (workload (vm "b")) "TCP" 80
      (pessimist "Ingress" (workload (vm "b")) "TCP" 80) cluster (vm "a") denied

egress_allowed :
    (direction_walk toy "Egress" (workload (vm "b")) "TCP" 80 cluster (vm "a")).outcome ≡ "Allow"
unfolding plane
egress_allowed = refl

egress_definite : AllDefinite (isolating toy "Egress" (workload (vm "b")) "TCP" 80 cluster (vm "a"))
unfolding plane
egress_definite = tt

ingress_definite :
    AllDefinite (isolating toy "Ingress" (workload (vm "b")) "TCP" 80 cluster (vm "a"))
unfolding plane
ingress_definite = (refl, tt)

direction_outcome_certain_example :
    direction_action toy "Ingress"
      (workload (vm "b"))
      "TCP"
      80
      (pessimist "Ingress" (workload (vm "b")) "TCP" 80)
      cluster
      (vm "a")
    ≡ "Deny"
direction_outcome_certain_example =
    direction_outcome_certain toy "Ingress" (workload (vm "b")) "TCP" 80
      (pessimist "Ingress" (workload (vm "b")) "TCP" 80) cluster (vm "a") "Deny" deny_ne_conditional
      ingress_definite denied

verdict_denied : (trace toy cluster (vm "b") (some (vm "a")) "" "" 80).verdict ≡ "Deny"
unfolding plane
verdict_denied = refl

trace_deny_certain_example :
    (direction_action toy "Egress"
        (workload (vm "a"))
        (default_protocol "")
        80
        (pessimist "Egress" (workload (vm "a")) (default_protocol "") 80)
        cluster
        (vm "b")
      ≡ "Deny")
    ⊎ (direction_action toy "Ingress"
          (workload (vm "b"))
          (default_protocol "")
          80
          (pessimist "Ingress" (workload (vm "b")) (default_protocol "") 80)
          cluster
          (vm "a")
        ≡ "Deny")
trace_deny_certain_example =
    trace_deny_certain toy cluster (vm "b") (vm "a") "" "" 80
      (pessimist "Egress" (workload (vm "a")) (default_protocol "") 80)
      (pessimist "Ingress" (workload (vm "b")) (default_protocol "") 80) verdict_denied

verdict_allowed : (trace toy admitting (vm "b") (some (vm "a")) "" "" 80).verdict ≡ "Allow"
unfolding plane
verdict_allowed = refl

admitting_egress :
    AllDefinite
      (isolating toy "Egress" (workload (vm "a")) (default_protocol "") 80 admitting (vm "b"))
unfolding plane
admitting_egress = tt

admitting_ingress :
    AllDefinite
      (isolating toy "Ingress" (workload (vm "b")) (default_protocol "") 80 admitting (vm "a"))
unfolding plane
admitting_ingress = (refl, tt)

trace_allow_certain_example :
    (direction_action toy "Egress"
        (workload (vm "a"))
        (default_protocol "")
        80
        (pessimist "Egress" (workload (vm "a")) (default_protocol "") 80)
        admitting
        (vm "b")
      ≢ "Deny")
    × (direction_action toy "Ingress"
          (workload (vm "b"))
          (default_protocol "")
          80
          (pessimist "Ingress" (workload (vm "b")) (default_protocol "") 80)
          admitting
          (vm "a")
        ≢ "Deny")
trace_allow_certain_example =
    trace_allow_certain toy admitting (vm "b") (vm "a") "" "" 80
      (pessimist "Egress" (workload (vm "a")) (default_protocol "") 80)
      (pessimist "Ingress" (workload (vm "b")) (default_protocol "") 80) admitting_egress
      admitting_ingress verdict_allowed

gateway_denied :
    (gateway_walk toy walled "shop" "8.8.8.8" (default_protocol "") 53).outcome ≡ "Deny"
unfolding plane
gateway_denied = refl

gateway_outcome_certain_example :
    allowed_by_default (
      gateway_list
        (gateway_pessimist (address "8.8.8.8") (default_protocol "") 53).applies
        (gateways walled "shop"))
    ≡ "Deny"
gateway_outcome_certain_example =
    gateway_outcome_certain toy (default_protocol "") 53 walled "shop" "8.8.8.8" "Deny"
      (gateway_pessimist (address "8.8.8.8") (default_protocol "") 53) deny_ne_conditional
      gateway_denied

verdict_walled : (trace toy walled (vm "b") none "8.8.8.8" "" 53).verdict ≡ "Deny"
unfolding plane
verdict_walled = refl

trace_external_deny_certain_example :
    (direction_action toy "Egress"
        (address "8.8.8.8")
        (default_protocol "")
        53
        (pessimist "Egress" (address "8.8.8.8") (default_protocol "") 53)
        walled
        (vm "b")
      ≡ "Deny")
    ⊎ (allowed_by_default (
          gateway_list
            (gateway_pessimist (address "8.8.8.8") (default_protocol "") 53).applies
            (gateways walled "shop"))
        ≡ "Deny")
trace_external_deny_certain_example =
    trace_external_deny_certain toy walled (vm "b") (vm "a") "8.8.8.8" "" 53
      (pessimist "Egress" (address "8.8.8.8") (default_protocol "") 53)
      (gateway_pessimist (address "8.8.8.8") (default_protocol "") 53) verdict_walled

trace_unreachable_iff_example :
    ((trace toy cluster (vm "b") (some adrift) "" "" 80).verdict ≡ "Unreachable")
    ↔ (¬ (OneNetwork toy cluster (vm "b") adrift))
trace_unreachable_iff_example = trace_unreachable_iff toy cluster (vm "b") adrift "" "" 80
