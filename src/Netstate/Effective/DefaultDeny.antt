-- ===== src/Netstate/Effective/DefaultDeny.antt =====
-- What the default-deny flags of the effective policy say of the NetworkPolicies.
use dotvirt.Prelude.{
  any, String, refl, inl, inr, Bool, some, List, [], arith, str_eq, any-map, any-keep_if, any-cong,
  ◌≡◌, ◌∙◌, ◌&&◌, ◌||◌, ◌∷◌,
}
use dotvirt.Prelude.Sort.{any-sort_by}
use dotvirt.Netstate.Doc.{Object, Labels, NetworkPolicySpec}
use dotvirt.Netstate.External.{External}
use dotvirt.Netstate.View.{EffectivePolicy}
use dotvirt.Netstate.Match.{
  Match, match_no, match_yes, match_cond, is_yes, combine_match, subject_match, pod_match,
  match_selector, empty_selector,
}
use dotvirt.Netstate.Match.Combine.{Match-cases}
use dotvirt.Netstate.Decode.{Bindable, netpol_types, decode_netpol, finish}
use dotvirt.Netstate.Snapshot.{Snapshot, in_namespace, netpols, by_name}
use dotvirt.Netstate.Effective.{Bound, select_all, attach, bind, selecting_netpols, effective}

abbrev denies_in : Bound → Bool
denies_in b = is_yes b.m && b.pol.deny_ingress

abbrev denies_out : Bound → Bool
denies_out b = is_yes b.m && b.pol.deny_egress

select_all-ingress :
    (bs : List Bound) (eff : EffectivePolicy)
    → (select_all bs eff).default_deny_ingress ≡ (eff.default_deny_ingress || any denies_in bs)
unfolding select_all
select_all-ingress [] eff = ground arith
select_all-ingress (b ∷ bs) eff = select_all-ingress bs _ ∙ ground arith

select_all-egress :
    (bs : List Bound) (eff : EffectivePolicy)
    → (select_all bs eff).default_deny_egress ≡ (eff.default_deny_egress || any denies_out bs)
unfolding select_all
select_all-egress [] eff = ground arith
select_all-egress (b ∷ bs) eff = select_all-egress bs _ ∙ ground arith

combine_yes : (m : Match) → combine_match match_yes m ≡ m
unfolding combine_match
combine_yes match_no = refl
combine_yes match_yes = refl
combine_yes match_cond = refl

module _ (x : External) (s : Snapshot) (ns : String) (ns_labels pod_labels : Labels)
    (scoped : Bool) where
  any-bind :
      (flag : Bindable → Bool) (ps : List Bindable)
      → any (λ (b : Bound). is_yes b.m && flag b.pol) (bind x ps [] pod_labels scoped)
        ≡ any (λ p. is_yes (subject_match x p.subject [] pod_labels scoped) && flag p) ps
  unfolding bind attach
  any-bind flag [] = refl
  any-bind flag (p ∷ ps) = elim (Match-cases (subject_match x p.subject [] pod_labels scoped)) [
    | inl e ↦ rw e (any-bind flag ps)
    | inr (inl e) ↦ rw (e, any-bind flag ps) refl
    | inr (inr e) ↦ rw e (any-bind flag ps)
  ]

  abbrev pub selected_for_certain : Object NetworkPolicySpec → Bool
  selected_for_certain u =
      str_eq u.namespace ns && is_yes (pod_match x (some u.spec.pod_selector) pod_labels scoped)

  netpol_subject :
      (u : Object NetworkPolicySpec)
      → subject_match x (decode_netpol u).subject [] pod_labels scoped
        ≡ pod_match x (some u.spec.pod_selector) pod_labels scoped
  unfolding subject_match decode_netpol finish match_selector empty_selector
  netpol_subject u = combine_yes _

  selecting_flag :
      (flag : Bindable → Bool) (named : Object NetworkPolicySpec → Bool)
      → ((u : Object NetworkPolicySpec) → flag (decode_netpol u) ≡ named u)
      → any (λ (b : Bound). is_yes b.m && flag b.pol) (selecting_netpols x s ns pod_labels scoped)
        ≡ any (λ u. selected_for_certain u && named u) s.netpol
  unfolding selecting_netpols netpols in_namespace
  selecting_flag flag named h =
      let q : Bindable → Bool =
        λ p. is_yes (subject_match x p.subject [] pod_labels scoped) && flag p in
      any-bind flag _
      ∙ any-sort_by by_name q _
      ∙ any-map decode_netpol q _
      ∙ any-keep_if (λ u. str_eq u.namespace ns) (λ u. q (decode_netpol u)) s.netpol
      ∙ any-cong _ _ s.netpol (λ u. rw (h u, netpol_subject u) (ground arith))

  -- The flags of the effective policy of a workload: a direction is denied by default exactly when
  -- some NetworkPolicy of the workload's namespace selects it for certain and is of that direction.
  pub effective_default_deny :
      ((effective x s ns ns_labels pod_labels scoped).default_deny_ingress
        ≡ any (λ u. selected_for_certain u && (netpol_types u.spec).0) s.netpol)
      × ((effective x s ns ns_labels pod_labels scoped).default_deny_egress
          ≡ any (λ u. selected_for_certain u && (netpol_types u.spec).1) s.netpol)
  unfolding effective
  effective_default_deny = (
    select_all-ingress (selecting_netpols x s ns pod_labels scoped) _
        ∙ selecting_flag (λ p. p.deny_ingress) (λ u. (netpol_types u.spec).0)
            (λ u. unfold decode_netpol finish in refl),
    select_all-egress (selecting_netpols x s ns pod_labels scoped) _
        ∙ selecting_flag (λ p. p.deny_egress) (λ u. (netpol_types u.spec).1)
            (λ u. unfold decode_netpol finish in refl),
  )
