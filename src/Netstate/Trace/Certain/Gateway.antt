-- ===== src/Netstate/Trace/Certain/Gateway.antt =====
-- The gateway walk against a reference: the first rule that applies, over every resolution.
use dotvirt.Prelude.{
  Bool-cases, ℕ, String, refl, inl, inr, Bool, true, false, Option, none, some, List, [], Elem, ◌≡◌,
  ◌≢◌, ◌∷◌,
}
use dotvirt.Netstate.Match.Combine.{Match-cases}
use dotvirt.Netstate.External.{External}
use dotvirt.Netstate.Rule.{Rule}
use dotvirt.Netstate.Decode.{Bindable}
use dotvirt.Netstate.Snapshot.{Snapshot, gateways}
use dotvirt.Netstate.RuleMatch.{PeerTarget, address, rule_match}
use dotvirt.Netstate.Trace.Walk.{Walk, WalkResult, add_step, start}
use dotvirt.Netstate.Trace.Report.{
  gateway_rules, gateway_next, gateway_policies, gateway_default, finish_gateway, gateway_tier,
  gateway_walk,
}
use dotvirt.Netstate.Trace.Resolution.{Settles, allow_rule, or_else}
use dotvirt.Netstate.Trace.Certain.Track.{Unanimous, decide_certain, maybe-Elem, maybe-Elem_keep}
use dotvirt.Netstate.Trace.Certain.Project.{Kept-or_else, ProjectDecides, ProjectTracks}
use dotvirt.Netstate.Trace.Certain.Verdict.{AnyAction, decided_outcome}

unfoldable pub gateway_list : (Rule → Bool) → List Bindable → Option String
gateway_list applies [] = none
gateway_list applies (p ∷ ps) = or_else (allow_rule applies p.egress) (gateway_list applies ps)

-- The first rule that applies, over the firewalls of the namespace; the gateway allows the rest.
unfoldable pub allowed_by_default : Option String → String
allowed_by_default none = "Allow"
allowed_by_default (some a) = a

module _ (x : External) (target : PeerTarget) (protocol : String) (port : ℕ) where
  -- Which gateway rules match.
  pub record GatewayResolution : Type 0 where
    pub applies : Rule → Bool
    pub settles : (r : Rule) → Settles (rule_match x r target protocol port).m (applies r)

  abbrev one : Bindable → List Rule → Walk → Walk × Option WalkResult
  one = gateway_rules x target protocol port

  abbrev tier : List Bindable → Walk → Walk × Option WalkResult
  tier = gateway_policies x target protocol port

  rules-Elem :
      (p : Bindable) (rs : List Rule) (w : Walk) (a : String)
      → Elem a w.cond_actions
      → Elem a (one p rs w).0.cond_actions
  unfolding gateway_rules add_step
  rules-Elem p [] w a m = m
  rules-Elem p (r ∷ rs) w a m = elim (Match-cases (rule_match x r target protocol port).m) [
    | inl e ↦ rw (e, gateway_rules) (rules-Elem p rs w a m)
    | inr (inl e) ↦ rw (e, gateway_rules) m
    | inr (inr e) ↦
        rw (e, gateway_rules) (rules-Elem p rs _ a (maybe-Elem_keep _ _ "gateway" r.action _ w a m))
  ]

  rules-Decides :
      (p : Bindable) (rs : List Rule) (w : Walk)
      → ProjectDecides AnyAction (one p rs w).0 (one p rs w).1
  unfolding gateway_rules
  rules-Decides p [] w = tt
  rules-Decides p (r ∷ rs) w = elim (Match-cases (rule_match x r target protocol port).m) [
    | inl e ↦ rw (e, gateway_rules) (rules-Decides p rs w)
    | inr (inl e) ↦ rw (e, gateway_rules) (r.action, refl, tt)
    | inr (inr e) ↦ rw (e, gateway_rules) (rules-Decides p rs _)
  ]

  next-Elem :
      (ps : List Bindable) (q : Walk × Option WalkResult) (a : String)
      → ((w : Walk) → Elem a w.cond_actions → Elem a (tier ps w).0.cond_actions)
      → Elem a q.0.cond_actions
      → Elem a (gateway_next x target protocol port (tier ps) q).0.cond_actions
  unfolding gateway_next
  next-Elem ps (w, none) a more m = more w m
  next-Elem ps (w, some r) a more m = m

  tier-Elem :
      (ps : List Bindable) (w : Walk) (a : String)
      → Elem a w.cond_actions
      → Elem a (tier ps w).0.cond_actions
  unfolding gateway_policies
  tier-Elem [] w a m = m
  tier-Elem (p ∷ ps) w a m =
      next-Elem ps _ a (λ w'. tier-Elem ps w' a) (rules-Elem p p.egress w a m)

  next-Decides :
      (ps : List Bindable) (q : Walk × Option WalkResult)
      → ProjectDecides AnyAction q.0 q.1
      → ((w : Walk) → ProjectDecides AnyAction (tier ps w).0 (tier ps w).1)
      → let n = gateway_next x target protocol port (tier ps) q in ProjectDecides AnyAction n.0 n.1
  unfolding gateway_next
  next-Decides ps (w, none) h more = more w
  next-Decides ps (w, some r) h more = h

  tier-Decides :
      (ps : List Bindable) (w : Walk) → ProjectDecides AnyAction (tier ps w).0 (tier ps w).1
  unfolding gateway_policies
  tier-Decides [] w = tt
  tier-Decides (p ∷ ps) w =
      next-Decides ps _ (rules-Decides p p.egress w) (λ w'. tier-Decides ps w')

  module _ (ρ : GatewayResolution) where
    rules-Tracks :
        (p : Bindable) (rs : List Rule) (w : Walk)
        → ProjectTracks (one p rs w) (allow_rule ρ.applies rs)
    unfolding gateway_rules allow_rule
    rules-Tracks p [] w = inr tt
    rules-Tracks p (r ∷ rs) w = elim (Match-cases (rule_match x r target protocol port).m) [
      | inl e ↦
          let miss : ρ.applies r ≡ false = rw e at (ρ.settles r) in
          rw (e, gateway_rules, miss) (rules-Tracks p rs w)
      | inr (inl e) ↦
          let hit : ρ.applies r ≡ true = rw e at (ρ.settles r) in
          rw (e, gateway_rules, hit) (inr refl)
      | inr (inr e) ↦
          rw (e, gateway_rules)
            (elim (Bool-cases (ρ.applies r)) [
              | inl hit ↦
                  rw hit (inl (rules-Elem p rs _ r.action (maybe-Elem _ _ "gateway" r.action _ w)))
              | inr miss ↦ rw miss (rules-Tracks p rs _)
            ])
    ]

    next-Tracks :
        (ps : List Bindable) (q : Walk × Option WalkResult) (o k : Option String)
        → ProjectTracks q o
        → ProjectTracks (tier ps q.0) k
        → ProjectTracks (gateway_next x target protocol port (tier ps) q) (or_else o k)
    unfolding gateway_next or_else
    next-Tracks ps (w, none) o k (inl h) more =
        inl (Kept-or_else w.cond_actions _ o k (λ a. tier-Elem ps w a) h)
    next-Tracks ps (w, none) none k (inr h) more = more
    next-Tracks ps (w, none) (some a) k (inr h) more = absurd h
    next-Tracks ps (w, some r) o k (inl h) more = inl (Kept-or_else _ _ o k (λ a m. m) h)
    next-Tracks ps (w, some r) (some a) k (inr h) more = inr h
    next-Tracks ps (w, some r) none k (inr h) more = absurd h

    tier-Tracks :
        (ps : List Bindable) (w : Walk) → ProjectTracks (tier ps w) (gateway_list ρ.applies ps)
    unfolding gateway_policies gateway_list
    tier-Tracks [] w = inr tt
    tier-Tracks (p ∷ ps) w = next-Tracks ps _ _ _ (rules-Tracks p p.egress w) (tier-Tracks ps _)

    default_certain :
        (fw : Option Bindable) (o : String) (w : Walk)
        → o ≢ "Conditional"
        → (gateway_default fw w).outcome ≡ o
        → ("Allow" ≡ o) × Unanimous o w
    unfolding gateway_default add_step
    default_certain none o w sure h = decide_certain "Allow" o w h sure
    default_certain (some fw) o w sure h = decide_certain "Allow" o _ h sure

    finish_certain :
        (fw : Option Bindable) (q : Walk × Option WalkResult) (l : Option String) (o : String)
        → o ≢ "Conditional"
        → ProjectDecides AnyAction q.0 q.1
        → ProjectTracks q l
        → (finish_gateway x target protocol port fw q).outcome ≡ o
        → allowed_by_default l ≡ o
    unfolding finish_gateway allowed_by_default
    finish_certain fw (w, none) none o sure d t h = (default_certain fw o w sure h).0
    finish_certain fw (w, none) (some a) o sure d (inl k) h = (default_certain fw o w sure h).1 a k
    finish_certain fw (w, none) (some a) o sure d (inr k) h = absurd k
    finish_certain fw (w, some r) none o sure d (inl k) h = absurd k
    finish_certain fw (w, some r) none o sure d (inr k) h = absurd k
    finish_certain fw (w, some r) (some a) o sure (c, e, _) (inl k) h =
        (decided_outcome x "" target protocol port o sure c r w e h).1 a k
    finish_certain fw (w, some r) (some a) o sure d (inr k) h =
        (decided_outcome x "" target protocol port o sure a r w k h).0

    pub gateway_tier_certain :
        (ps : List Bindable) (o : String)
        → o ≢ "Conditional"
        → (gateway_tier x target protocol port ps).outcome ≡ o
        → allowed_by_default (gateway_list ρ.applies ps) ≡ o
    unfolding gateway_tier
    gateway_tier_certain ps o sure h =
        finish_certain _ _ _ o sure (tier-Decides ps (start "Egress"))
          (tier-Tracks ps (start "Egress")) h

-- Any outcome of the gateway walk but Conditional is what happens: the action of the first rule that
-- applies, or Allow where none does, whichever way the open rules are resolved.
pub gateway_outcome_certain :
    (x : External) (protocol : String) (port : ℕ) (s : Snapshot) (ns dst_ip o : String)
    (ρ : GatewayResolution x (address dst_ip) protocol port)
    → o ≢ "Conditional"
    → (gateway_walk x s ns dst_ip protocol port).outcome ≡ o
    → allowed_by_default (gateway_list ρ.applies (gateways s ns)) ≡ o
unfolding gateway_walk
gateway_outcome_certain x protocol port s ns dst_ip o ρ sure h =
    gateway_tier_certain x (address dst_ip) protocol port ρ (gateways s ns) o sure h
