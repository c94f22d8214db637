-- ===== src/Netstate/Trace/Certain/Flow.antt =====
-- The whole trace: what its verdict says of the flow.
use dotvirt.Prelude.{
  Bool-cases, ℕ, String, refl, sym, inl, inr, Bool, true, false, not, none, some, [], arith, str_eq,
  str_eq_iff, ◌≡◌, ◌∙◌, ◌≢◌, ◌↔◌, ◌⊎◌, ◌&&◌, ◌∷◌,
}
use dotvirt.Netstate.External.{External}
use dotvirt.Netstate.RuleMatch.{TraceWorkload, workload, address}
use dotvirt.Netstate.Snapshot.{Snapshot, gateways}
use dotvirt.Netstate.Trace.Walk.{WalkResult, verdict}
use dotvirt.Netstate.Trace.Report.{
  trace, trace_east_west, trace_external, default_protocol, reachable,
}
use dotvirt.Netstate.Trace.Certain.Connected.{
  OneNetwork, reachable-OneNetwork, OneNetwork-reachable,
}
use dotvirt.Netstate.Trace.Resolution.{Resolution}
use dotvirt.Netstate.Trace.Certain.Verdict.{AllDefinite}
use dotvirt.Netstate.Trace.Certain.Direction.{
  isolating, direction_action, direction_deny_certain, direction_outcome_certain,
}
use dotvirt.Netstate.Trace.Certain.Gateway.{
  GatewayResolution, gateway_list, allowed_by_default, gateway_outcome_certain,
}

deny_cond : ◌≢◌ {A = String} "Deny" "Conditional"
deny_cond = ground (arith, str_eq_iff "Deny" "Conditional")

unreachable_ne_deny : ◌≢◌ {A = String} "Unreachable" "Deny"
unreachable_ne_deny = ground (arith, str_eq_iff "Unreachable" "Deny")

unreachable_ne_allow : ◌≢◌ {A = String} "Unreachable" "Allow"
unreachable_ne_allow = ground (arith, str_eq_iff "Unreachable" "Allow")

verdict-Deny :
    (a b : WalkResult) → verdict (a ∷ b ∷ []) ≡ "Deny" → (a.outcome ≡ "Deny") ⊎ (b.outcome ≡ "Deny")
unfolding verdict
verdict-Deny a b h = ground (
  arith,
  str_eq_iff a.outcome "Deny",
  str_eq_iff b.outcome "Deny",
  str_eq_iff "Conditional" "Deny",
  str_eq_iff "Allow" "Deny",
)

-- The outcome is neither a denial nor open.
abbrev Passing : String → Type 0
Passing o = (o ≢ "Deny") × (o ≢ "Conditional")

-- the tests of the verdict, as one condition on two outcomes
calm : WalkResult → WalkResult → Bool
calm a b =
    not (str_eq a.outcome "Deny")
    && (not (str_eq b.outcome "Deny")
        && (not (str_eq a.outcome "Conditional") && not (str_eq b.outcome "Conditional")))

verdict-calm : (a b : WalkResult) → verdict (a ∷ b ∷ []) ≡ "Allow" → calm a b ≡ true
unfolding verdict calm
verdict-calm a b h = ground (arith, str_eq_iff "Deny" "Allow", str_eq_iff "Conditional" "Allow")

passing : (o : String) → str_eq o "Deny" ≡ false → str_eq o "Conditional" ≡ false → Passing o
passing o d c =
    (λ e. ground (arith, str_eq_iff o "Deny"), λ e. ground (arith, str_eq_iff o "Conditional"))

verdict-Allow :
    (a b : WalkResult) → verdict (a ∷ b ∷ []) ≡ "Allow" → Passing a.outcome × Passing b.outcome
unfolding calm
verdict-Allow a b h =
    let c = verdict-calm a b h in
    (
      passing a.outcome (ground arith) (ground arith),
      passing b.outcome (ground arith) (ground arith),
    )

verdict-Unreachable : (a b : WalkResult) → verdict (a ∷ b ∷ []) ≢ "Unreachable"
unfolding verdict
verdict-Unreachable a b h = ground (
  arith,
  str_eq_iff "Deny" "Unreachable",
  str_eq_iff "Conditional" "Unreachable",
  str_eq_iff "Allow" "Unreachable",
)

module _ (x : External) (s : Snapshot) (src dst : TraceWorkload) (dst_ip protocol : String)
    (port : ℕ) where
  abbrev proto : String
  proto = default_protocol protocol

  -- Between two workloads the trace answers Unreachable exactly when there is no network that both
  -- attach as their primary one, whatever the policies say.
  pub trace_unreachable_iff :
      ((trace x s src (some dst) dst_ip protocol port).verdict ≡ "Unreachable")
      ↔ (¬ (OneNetwork x s src dst))
  unfolding trace trace_east_west
  trace_unreachable_iff = elim (Bool-cases (reachable x s src dst)) [
    | inl t ↦ (
      λ h. absurd (verdict-Unreachable _ _ (rw t at h)),
      λ n. absurd (n (reachable-OneNetwork x s src dst t)),
    )
    | inr f ↦ (λ h o. cc (f, OneNetwork-reachable x s src dst o), λ n. rw f refl)
  ]

  -- Between two workloads a Deny is certain: in every resolution of what is open on the two sides,
  -- the source's egress or the destination's ingress denies the flow.
  pub trace_deny_certain :
      (ρ : Resolution x "Egress" (workload dst) proto port)
      (σ : Resolution x "Ingress" (workload src) proto port)
      → (trace x s src (some dst) dst_ip protocol port).verdict ≡ "Deny"
      → (direction_action x "Egress" (workload dst) proto port ρ s src ≡ "Deny")
        ⊎ (direction_action x "Ingress" (workload src) proto port σ s dst ≡ "Deny")
  unfolding trace trace_east_west
  trace_deny_certain ρ σ h = elim (Bool-cases (reachable x s src dst)) [
    | inl t ↦ elim (verdict-Deny _ _ (rw t at h)) [
      | inl e ↦ inl (direction_deny_certain x "Egress" (workload dst) proto port ρ s src e)
      | inr e ↦ inr (direction_deny_certain x "Ingress" (workload src) proto port σ s dst e)
    ]
    | inr f ↦ absurd (unreachable_ne_deny (rw f at h))
  ]

  -- Between two workloads, where the NetworkPolicies that isolate either side select for certain, an
  -- Allow is certain: in every resolution of the open rules neither side denies the flow.
  pub trace_allow_certain :
      (ρ : Resolution x "Egress" (workload dst) proto port)
      (σ : Resolution x "Ingress" (workload src) proto port)
      → AllDefinite (isolating x "Egress" (workload dst) proto port s src)
      → AllDefinite (isolating x "Ingress" (workload src) proto port s dst)
      → (trace x s src (some dst) dst_ip protocol port).verdict ≡ "Allow"
      → (direction_action x "Egress" (workload dst) proto port ρ s src ≢ "Deny")
        × (direction_action x "Ingress" (workload src) proto port σ s dst ≢ "Deny")
  unfolding trace trace_east_west
  trace_allow_certain ρ σ de di h = elim (Bool-cases (reachable x s src dst)) [
    | inl t ↦
        let (e, i) = verdict-Allow _ _ (rw t at h) in
        (
          λ q. e.0 (
              sym (
                direction_outcome_certain x "Egress" (workload dst) proto port ρ s src _ e.1 de
                  refl)
              ∙ q),
          λ q. i.0 (
              sym (
                direction_outcome_certain x "Ingress" (workload src) proto port σ s dst _ i.1 di
                  refl)
              ∙ q),
        )
    | inr f ↦ absurd (unreachable_ne_allow (rw f at h))
  ]

  -- To an external address a Deny is certain: in every resolution of what is open, the source's
  -- egress tiers or the gateway firewall deny the flow.
  pub trace_external_deny_certain :
      (ρ : Resolution x "Egress" (address dst_ip) proto port)
      (σ : GatewayResolution x (address dst_ip) proto port)
      → (trace x s src none dst_ip protocol port).verdict ≡ "Deny"
      → (direction_action x "Egress" (address dst_ip) proto port ρ s src ≡ "Deny")
        ⊎ (allowed_by_default (gateway_list σ.applies (gateways s src.namespace)) ≡ "Deny")
  unfolding trace trace_external
  trace_external_deny_certain ρ σ h = elim (verdict-Deny _ _ h) [
    | inl e ↦ inl (direction_deny_certain x "Egress" (address dst_ip) proto port ρ s src e)
    | inr e ↦ inr (gateway_outcome_certain x proto port s src.namespace dst_ip "Deny" σ deny_cond e)
  ]
