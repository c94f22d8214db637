-- ===== src/Netstate/Effective.antt =====
-- internal/netstate/effective.go: the policy chain that governs one workload.
pub mod DefaultDeny
use dotvirt.Prelude.{String, Bool, false, List, [], map, if◌then◌else◌, ◌||◌, ◌∷◌, ◌++◌}
use dotvirt.Netstate.Doc.{Labels}
use dotvirt.Netstate.External.{External}
use dotvirt.Netstate.View.{PolicyBinding, EffectivePolicy}
use dotvirt.Netstate.Match.{Match, match_no, is_yes, is_cond, subject_match}
use dotvirt.Netstate.Decode.{Bindable}
use dotvirt.Netstate.Snapshot.{
  Snapshot, sorted_anps, baselines, gateways, netpols, snat_pools, external_routes,
}

-- A policy with its subject's verdict against a workload.
pub record Bound : Type 0 where
  pub pol : Bindable
  pub m : Match

unfoldable pub binding : String → Bound → PolicyBinding
binding note b = record { policy = b.pol.view; conditional = is_cond b.m; note = note }

-- kept unless the subject certainly does not match
attach : Match → Bindable → List Bound → List Bound
attach match_no p rest = rest
attach m p rest = record { pol = p; m = m } ∷ rest

-- the loop over the selecting NetworkPolicies, with `eff` in its arguments
select_all : List Bound → EffectivePolicy → EffectivePolicy
select_all [] eff = eff
select_all (b ∷ bs) eff = select_all bs (record eff {
  default_deny_ingress =
      if is_yes b.m
      then eff.default_deny_ingress || b.pol.deny_ingress
      else eff.default_deny_ingress;
  default_deny_egress =
      if is_yes b.m then eff.default_deny_egress || b.pol.deny_egress else eff.default_deny_egress;
  east_west = eff.east_west ++ binding "" b ∷ [];
})

module _ (x : External) where
  unfoldable pub bind : List Bindable → Labels → Labels → Bool → List Bound
  unfolding attach
  bind [] ns_labels pod_labels pod_scoped = []
  bind (p ∷ ps) ns_labels pod_labels pod_scoped =
      attach (subject_match x p.subject ns_labels pod_labels pod_scoped) p
        (bind ps ns_labels pod_labels pod_scoped)

  unfoldable pub selecting_netpols : Snapshot → String → Labels → Bool → List Bound
  selecting_netpols s ns pod_labels pod_scoped = bind (netpols s ns) [] pod_labels pod_scoped

  -- The SNAT pools, then the external routes.
  unfoldable pub egress_bindings : Snapshot → Labels → Labels → Bool → List Bound × List Bound
  egress_bindings s ns_labels pod_labels pod_scoped = (
    bind (snat_pools s) ns_labels pod_labels pod_scoped,
    bind (external_routes s) ns_labels pod_labels pod_scoped,
  )

  unfoldable pub effective : Snapshot → String → Labels → Labels → Bool → EffectivePolicy
  unfolding select_all
  effective s ns ns_labels pod_labels pod_scoped =
      let admin : EffectivePolicy = record {
        namespace = ns;
        east_west = map (binding "") (bind (sorted_anps s) ns_labels pod_labels pod_scoped);
        default_deny_ingress = false;
        default_deny_egress = false;
        gateway = [];
        snat = [];
        routes = [];
      } in
      let project = select_all (selecting_netpols s ns pod_labels pod_scoped) admin in
      let planes = egress_bindings s ns_labels pod_labels pod_scoped in
      record project {
        east_west =
            project.east_west
            ++ map (binding "Applies only where no admin or project rule decided.")
                (bind (baselines s) ns_labels pod_labels pod_scoped);
        gateway =
            map (λ (p : Bindable). record { policy = p.view; conditional = false; note = "" })
              (gateways s ns);
        snat = map (binding "") planes.0;
        routes = map (binding "") planes.1;
      }
