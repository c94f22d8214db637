-- ===== src/Netstate/Trace/Certain/Direction.antt =====
-- A whole direction of the trace: a certain outcome is what happens, however the rules and the
-- selections that could not be resolved turn out.
use dotvirt.Prelude.{
  Bool-cases, keep_if, ℕ, String, refl, inl, inr, true, false, not, Option, none, some, List, [],
  arith, str_eq, str_eq_iff, Elem, ◌≡◌, ◌≢◌, ◌∷◌,
}
use dotvirt.Netstate.External.{External}
use dotvirt.Netstate.RuleMatch.{PeerTarget, TraceWorkload}
use dotvirt.Netstate.Snapshot.{Snapshot, sorted_anps, baselines}
use dotvirt.Netstate.Effective.{Bound, bind, selecting_netpols}
use dotvirt.Netstate.Trace.Walk.{Walk, WalkResult, start}
use dotvirt.Netstate.Trace.Direction.{finish_admin, tiers, isolates, direction_walk}
use dotvirt.Netstate.Trace.Resolution.{
  Resolution, Decision, undecided, delegated, decided, admin_action, action_of,
}
use dotvirt.Netstate.Trace.Certain.Admin.{passes}
use dotvirt.Netstate.Trace.Certain.Tier.{TierTracks, tier-Tracks}
use dotvirt.Netstate.Trace.Certain.Netpols.{selecting_netpols-Allows}
use dotvirt.Netstate.Trace.Certain.Verdict.{AllDefinite, Sound, decided_outcome, lower_certain}

not_pass : (a : String) → passes false a ≡ false → str_eq a "Pass" ≡ false
not_pass a h = ground arith

pass_passes : (a o : String) → a ≡ o → "Pass" ≡ o → passes false a ≡ false → ⊥
pass_passes a o e p f = ground (arith, str_eq_iff a "Pass")

deny_ne_conditional : ◌≢◌ {A = String} "Deny" "Conditional"
deny_ne_conditional = ground (arith, str_eq_iff "Deny" "Conditional")

Elem-keep_if :
    (a : String) (cs : List String)
    → str_eq a "Pass" ≡ false
    → Elem a cs
    → Elem a (keep_if (λ c. not (str_eq c "Pass")) cs)
Elem-keep_if a (c ∷ cs) h (inl e) = let k : str_eq c "Pass" ≡ false = rw e at h in rw k (inl e)
Elem-keep_if a (c ∷ cs) h (inr m) = elim (Bool-cases (str_eq c "Pass")) [
  | inl t ↦ rw t (Elem-keep_if a cs h m)
  | inr f ↦ rw f (inr (Elem-keep_if a cs h m))
]
Elem-keep_if a [] h m = absurd m

module _ (x : External) (dir : String) (peer : PeerTarget) (protocol : String) (port : ℕ) where
  module _ (o : String) (sure : o ≢ "Conditional") (ρ : Resolution x dir peer protocol port)
      (selecting base : List Bound) where
    admin_certain :
        (p : Walk × Option WalkResult) (d : Decision)
        → TierTracks false p d
        → Sound x dir peer protocol port o sure selecting
        → (finish_admin x dir peer protocol port selecting base p).outcome ≡ o
        → admin_action ρ.admin_applies ρ.rule_applies dir d (keep_if ρ.selects selecting) base ≡ o
    unfolding finish_admin admin_action
    admin_certain (w, none) undecided t s h =
        (lower_certain x dir peer protocol port o sure ρ selecting base _ s h).1
    admin_certain (w, none) delegated t s h =
        (lower_certain x dir peer protocol port o sure ρ selecting base _ s h).1
    admin_certain (w, none) (decided a) (t, inl k) s h =
        (lower_certain x dir peer protocol port o sure ρ selecting base _ s h).0 a
          (Elem-keep_if a w.cond_actions (not_pass a k.0) k.1)
    admin_certain (w, none) (decided a) (t, inr k) s h = absurd k
    admin_certain (w, some r) undecided (t, inl k) s h = absurd k
    admin_certain (w, some r) undecided (t, inr k) s h = absurd k
    admin_certain (w, some r) delegated ((b, e, f), inl k) s h =
        let c = decided_outcome x dir peer protocol port o sure b r w e h in
        absurd (pass_passes b o c.0 (c.1 "Pass" k.1) f)
    admin_certain (w, some r) delegated (t, inr k) s h = absurd k
    admin_certain (w, some r) (decided a) ((b, e, f), inl k) s h =
        (decided_outcome x dir peer protocol port o sure b r w e h).1 a k.1
    admin_certain (w, some r) (decided a) (t, inr k) s h =
        (decided_outcome x dir peer protocol port o sure a r w k h).0

    pub tiers_certain :
        (admins : List Bound)
        → Sound x dir peer protocol port o sure selecting
        → (tiers x dir peer protocol port admins selecting base).outcome ≡ o
        → action_of ρ.admin_applies ρ.rule_applies dir admins (keep_if ρ.selects selecting) base ≡ o
    unfolding tiers action_of
    tiers_certain admins s h =
        admin_certain _ _ (tier-Tracks x dir peer protocol port false "admin" ρ admins (start dir))
          s h

  -- The NetworkPolicies that may isolate the direction, and what happens under a resolution.
  abbrev pub isolating : Snapshot → TraceWorkload → List Bound
  isolating s w =
      keep_if (isolates x dir peer protocol port)
        (selecting_netpols x s w.namespace w.pod_labels true)

  abbrev pub direction_action :
      Resolution x dir peer protocol port → Snapshot → TraceWorkload → String
  direction_action ρ s w =
      action_of ρ.admin_applies ρ.rule_applies dir
        (bind x (sorted_anps s) w.ns_labels w.pod_labels true) (keep_if ρ.selects (isolating s w))
        (bind x (baselines s) w.ns_labels w.pod_labels true)

  -- A denial of one direction is certain: whichever way every open rule and every open selection of
  -- a policy is resolved, the tiers deny the flow.
  pub direction_deny_certain :
      (ρ : Resolution x dir peer protocol port) (s : Snapshot) (w : TraceWorkload)
      → (direction_walk x dir peer protocol port s w).outcome ≡ "Deny"
      → direction_action ρ s w ≡ "Deny"
  unfolding direction_walk
  direction_deny_certain ρ s w h =
      tiers_certain "Deny" deny_ne_conditional ρ _ _ _
        (inr (refl, selecting_netpols-Allows dir x s w.namespace w.pod_labels _)) h

  -- Where every NetworkPolicy that isolates the direction selects the workload for certain, any
  -- outcome but Conditional is what happens, whichever way every open rule is resolved.
  pub direction_outcome_certain :
      (ρ : Resolution x dir peer protocol port) (s : Snapshot) (w : TraceWorkload) (o : String)
      → o ≢ "Conditional"
      → AllDefinite (isolating s w)
      → (direction_walk x dir peer protocol port s w).outcome ≡ o
      → direction_action ρ s w ≡ o
  unfolding direction_walk
  direction_outcome_certain ρ s w o sure d h = tiers_certain o sure ρ _ _ _ (inl d) h
