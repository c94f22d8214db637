-- ===== src/Netstate/Trace/Certain/Netpols.antt =====
-- Every rule of a decoded NetworkPolicy allows.
use dotvirt.Prelude.{
  Bool-cases, keep_if, String, refl, inl, inr, Bool, true, List, [], map, str_eq, ◌≡◌, ◌∷◌,
}
use dotvirt.Prelude.Sort.{insert_by, sort_by}
use dotvirt.Netstate.Match.Combine.{Match-cases}
use dotvirt.Netstate.Doc.{Object, NetworkPolicySpec, NetworkPolicyRule, Labels}
use dotvirt.Netstate.External.{External}
use dotvirt.Netstate.Match.{subject_match}
use dotvirt.Netstate.Rule.{netpol_rule}
use dotvirt.Netstate.Decode.{Bindable, rules, decode_netpol}
use dotvirt.Netstate.Snapshot.{Snapshot, by_name, netpols}
use dotvirt.Netstate.Effective.{Bound, bind, selecting_netpols}
use dotvirt.Netstate.Trace.Certain.Project.{RuleActions, PolicyActions}

abbrev pub Allows : String → Type 0
Allows a = a ≡ "Allow"

map-Allows :
    (from : NetworkPolicyRule → _) (ns : String) (rs : List NetworkPolicyRule)
    → RuleActions Allows (map (λ (r : NetworkPolicyRule). netpol_rule (from r) r.ports ns) rs)
unfolding netpol_rule
map-Allows from ns [] = tt
map-Allows from ns (r ∷ rs) = (refl, map-Allows from ns rs)

module _ (dir : String) where
  abbrev AllAllow : List Bindable → Type 0
  AllAllow [] = Unit
  AllAllow (p ∷ ps) = RuleActions Allows (rules p dir) × AllAllow ps

  decode_netpol-Allows :
      (u : Object NetworkPolicySpec) → RuleActions Allows (rules (decode_netpol u) dir)
  unfolding rules decode_netpol
  decode_netpol-Allows u = elim (Bool-cases (str_eq dir "Ingress")) [
    | inl t ↦ rw t (map-Allows (λ r. r.from) u.namespace u.spec.ingress)
    | inr f ↦ rw f (map-Allows (λ r. r.to) u.namespace _)
  ]

  decoded-Allows : (us : List (Object NetworkPolicySpec)) → AllAllow (map decode_netpol us)
  decoded-Allows [] = tt
  decoded-Allows (u ∷ us) = (decode_netpol-Allows u, decoded-Allows us)

  insert_by-Allows :
      (p : Bindable) (ps : List Bindable)
      → RuleActions Allows (rules p dir)
      → AllAllow ps
      → AllAllow (insert_by by_name p ps)
  unfolding insert_by
  insert_by-Allows p [] h k = (h, tt)
  insert_by-Allows p (q ∷ qs) h k = elim (Bool-cases (by_name q p)) [
    | inl t ↦ rw t (k.0, insert_by-Allows p qs h k.1)
    | inr f ↦ rw f (h, k)
  ]

  sort_by-Allows : (ps : List Bindable) → AllAllow ps → AllAllow (sort_by by_name ps)
  unfolding sort_by
  sort_by-Allows [] h = tt
  sort_by-Allows (p ∷ ps) h = insert_by-Allows p _ h.0 (sort_by-Allows ps h.1)

  module _ (x : External) (ns_labels pod_labels : Labels) where
    bind-Allows :
        (ps : List Bindable)
        → AllAllow ps
        → PolicyActions Allows dir (bind x ps ns_labels pod_labels true)
    unfolding bind
    bind-Allows [] h = tt
    bind-Allows (p ∷ ps) h =
        elim (Match-cases (subject_match x p.subject ns_labels pod_labels true)) [
          | inl e ↦ rw e (bind-Allows ps h.1)
          | inr (inl e) ↦ rw e (h.0, bind-Allows ps h.1)
          | inr (inr e) ↦ rw e (h.0, bind-Allows ps h.1)
        ]

  keep_if-Allows :
      (sel : Bound → Bool) (bs : List Bound)
      → PolicyActions Allows dir bs
      → PolicyActions Allows dir (keep_if sel bs)
  keep_if-Allows sel [] h = tt
  keep_if-Allows sel (b ∷ bs) h = elim (Bool-cases (sel b)) [
    | inl t ↦ rw t (h.0, keep_if-Allows sel bs h.1)
    | inr f ↦ rw f (keep_if-Allows sel bs h.1)
  ]

  pub selecting_netpols-Allows :
      (x : External) (s : Snapshot) (ns : String) (pod_labels : Labels) (sel : Bound → Bool)
      → PolicyActions Allows dir (keep_if sel (selecting_netpols x s ns pod_labels true))
  unfolding selecting_netpols netpols
  selecting_netpols-Allows x s ns pod_labels sel =
      keep_if-Allows sel _ (bind-Allows x [] pod_labels _ (sort_by-Allows _ (decoded-Allows _)))
