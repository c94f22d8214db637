-- ===== src/Netstate/Trace/Certain/Verdict.antt =====
-- The outcome of one direction against the reference.
use dotvirt.Prelude.{
  Bool-cases, keep_if, any, ℕ, String, refl, sym, ap, inl, inr, Bool, true, false, Option, none,
  some, List, [], arith, str_eq_iff, ◌≡◌, ◌∙◌, ◌≢◌, ◌⊎◌, ◌||◌, ◌∷◌,
}
use dotvirt.Netstate.External.{External}
use dotvirt.Netstate.Match.{Match, match_yes, is_yes}
use dotvirt.Netstate.Rule.{Rule}
use dotvirt.Netstate.Decode.{rules}
use dotvirt.Netstate.RuleMatch.{PeerTarget}
use dotvirt.Netstate.Effective.{Bound}
use dotvirt.Netstate.Trace.Walk.{Walk, WalkResult, add_step, decide, result}
use dotvirt.Netstate.Trace.Direction.{
  project_default, default_tier, finish_baseline, finish_project, lower_tiers,
}
use dotvirt.Netstate.Trace.Resolution.{
  Settles, Resolution, Decision, undecided, delegated, decided, allow_list, baseline_action,
  isolated_action, lower_action,
}
use dotvirt.Netstate.Trace.Certain.Track.{Unanimous, decide_certain}
use dotvirt.Netstate.Trace.Certain.Tier.{TierTracks, tier-Tracks, tier-Elem}
use dotvirt.Netstate.Trace.Certain.Project.{
  PolicyActions, ProjectTracks, ProjectDecides, Quiet, RuleActions, tier-Decides, tier-Quiet,
  tier-Tracks as project-Tracks, tier-Elem as project-Elem,
}
use dotvirt.Netstate.Trace.Certain.Netpols.{Allows}

-- Every policy of the list selects for certain.
abbrev pub AllDefinite : List Bound → Type 0
AllDefinite [] = Unit
AllDefinite (b ∷ bs) = (b.m ≡ match_yes) × AllDefinite bs

abbrev pub AnyAction : String → Type 0
AnyAction a = Unit

any_rules : (rs : List Rule) → RuleActions AnyAction rs
any_rules [] = tt
any_rules (r ∷ rs) = (tt, any_rules rs)

any_actions : (dir : String) (bs : List Bound) → PolicyActions AnyAction dir bs
any_actions dir [] = tt
any_actions dir (b ∷ bs) = (any_rules (rules b.pol dir), any_actions dir bs)

allow_ne_deny : ◌≢◌ {A = String} "Allow" "Deny"
allow_ne_deny = ground (arith, str_eq_iff "Allow" "Deny")

settled : (m : Match) (v : Bool) → Settles m v → m ≡ match_yes → v ≡ true
settled m v s h = ground arith

rest_definite :
    (m : Match) (r v : Bool) → Settles m v → v ≡ false → (is_yes m || r) ≡ true → r ≡ true
rest_definite m r v s f h = ground arith

module _ (x : External) (dir : String) (peer : PeerTarget) (protocol : String) (port : ℕ)
    (o : String) (sure : o ≢ "Conditional") where
  -- a result that some action decided, at a certain outcome
  pub decided_outcome :
      (a : String) (r : WalkResult) (w : Walk)
      → r ≡ decide a w
      → r.outcome ≡ o
      → (a ≡ o) × Unanimous o w
  decided_outcome a r w e h = decide_certain a o w (rw e at h) sure

  baseline_certain :
      (p : Walk × Option WalkResult) (d : Decision)
      → TierTracks true p d
      → (finish_baseline x dir peer protocol port p).outcome ≡ o
      → Unanimous o p.0 × (baseline_action d ≡ o)
  unfolding finish_baseline default_tier baseline_action add_step
  baseline_certain (w, none) undecided t h = let c = decide_certain "Allow" o _ h sure in (c.1, c.0)
  baseline_certain (w, none) delegated t h = let c = decide_certain "Allow" o _ h sure in (c.1, c.0)
  baseline_certain (w, none) (decided a) (t, inl k) h =
      let c = decide_certain "Allow" o _ h sure in (c.1, c.1 a k.1)
  baseline_certain (w, none) (decided a) (t, inr k) h = absurd k
  baseline_certain (w, some r) undecided (t, inl k) h = absurd k
  baseline_certain (w, some r) undecided (t, inr k) h = absurd k
  baseline_certain (w, some r) delegated (t, inl k) h = cc (k.0)
  baseline_certain (w, some r) delegated (t, inr k) h = absurd k
  baseline_certain (w, some r) (decided a) ((b, e, f), inl k) h =
      let c = decided_outcome b r w e h in (c.1, c.1 a k.1)
  baseline_certain (w, some r) (decided a) (t, inr k) h =
      let c = decided_outcome a r w k h in (c.1, c.0)

  definite_all :
      (ρ : Resolution x dir peer protocol port) (bs : List Bound)
      → AllDefinite bs
      → keep_if ρ.selects bs ≡ bs
  definite_all ρ [] h = refl
  definite_all ρ (b ∷ bs) h =
      rw (settled b.m (ρ.selects b) (ρ.select_settles b) h.0)
        (ap (λ l. b ∷ l) (definite_all ρ bs h.1))

  -- a definite policy is among those that the resolution keeps
  keeps_one :
      (ρ : Resolution x dir peer protocol port) (bs : List Bound)
      → any (λ (c : Bound). is_yes c.m) bs ≡ true
      → keep_if ρ.selects bs ≢ []
  keeps_one ρ [] h e = cc
  keeps_one ρ (b ∷ bs) h e = elim (Bool-cases (ρ.selects b)) [
    | inl t ↦ cc (rw t at e)
    | inr f ↦
        keeps_one ρ bs (rest_definite b.m _ (ρ.selects b) (ρ.select_settles b) f h) (rw f at e)
  ]

  isolated_lower :
      (ρ : Resolution x dir peer protocol port) (bs base : List Bound)
      → bs ≢ []
      → lower_action ρ.admin_applies ρ.rule_applies dir bs base
        ≡ isolated_action (allow_list ρ.rule_applies dir bs)
  unfolding lower_action
  isolated_lower ρ [] base h = absurd (h refl)
  isolated_lower ρ (b ∷ bs) base h = refl

  default_certain :
      (n : ℕ) (b : Bound) (definite : Bool) (w : Walk)
      → (project_default x dir peer protocol port n b definite w).outcome ≡ o
      → (definite ≡ true) × ("Deny" ≡ o) × Unanimous o w
  unfolding project_default add_step result
  default_certain n b true w h = let c = decide_certain "Deny" o _ h sure in (refl, c.0, c.1)
  default_certain n b false w h = absurd (sure (sym h))

  -- with every rule of the list in view
  list_certain :
      (b : Bound) (bs : List Bound) (p : Walk × Option WalkResult) (l : Option String)
      → ProjectDecides AnyAction p.0 p.1
      → ProjectTracks p l
      → (finish_project x dir peer protocol port b bs p).outcome ≡ o
      → Unanimous o p.0 × (isolated_action l ≡ o)
  unfolding finish_project isolated_action
  list_certain b bs (w, some r) (some a) (c, e, _) (inl k) h =
      let d = decided_outcome c r w e h in (d.1, d.1 a k)
  list_certain b bs (w, some r) (some a) d (inr k) h =
      let e = decided_outcome a r w k h in (e.1, e.0)
  list_certain b bs (w, some r) none d (inl k) h = absurd k
  list_certain b bs (w, some r) none d (inr k) h = absurd k
  list_certain b bs (w, none) none d k h = let e = default_certain _ b _ w h in (e.2, e.1)
  list_certain b bs (w, none) (some a) d (inl k) h =
      let e = default_certain _ b _ w h in (e.2, e.2 a k)
  list_certain b bs (w, none) (some a) d (inr k) h = absurd k

  -- with the rules of some of the policies in view, where every rule allows and the flow is denied
  deny_certain :
      (b : Bound) (bs : List Bound) (p : Walk × Option WalkResult) (l : Option String)
      → ProjectDecides Allows p.0 p.1
      → (p.1 ≡ none → Quiet p.0.cond_actions l)
      → o ≡ "Deny"
      → (finish_project x dir peer protocol port b bs p).outcome ≡ o
      → Unanimous o p.0
        × (isolated_action l ≡ o)
        × (any (λ (c : Bound). is_yes c.m) (b ∷ bs) ≡ true)
  unfolding finish_project isolated_action
  deny_certain b bs (w, some r) l (a, e, f) q deny h =
      let d = decided_outcome a r w e h in absurd (allow_ne_deny (sym f ∙ d.0 ∙ deny))
  deny_certain b bs (w, none) none d q deny h = let e = default_certain _ b _ w h in (e.2, e.1, e.0)
  deny_certain b bs (w, none) (some a) d q deny h =
      let e = default_certain _ b _ w h in (e.2, e.2 a (q refl), e.0)

  -- Either the selection is certain throughout, or the outcome is a denial over rules that allow.
  abbrev pub Sound : List Bound → Type 0
  Sound bs = AllDefinite bs ⊎ ((o ≡ "Deny") × PolicyActions Allows dir bs)

  pub lower_certain :
      (ρ : Resolution x dir peer protocol port) (selecting base : List Bound) (w : Walk)
      → Sound selecting
      → (lower_tiers x dir peer protocol port selecting base w).outcome ≡ o
      → Unanimous o w
        × (lower_action ρ.admin_applies ρ.rule_applies dir (keep_if ρ.selects selecting) base ≡ o)
  unfolding lower_tiers lower_action
  lower_certain ρ [] base w s h =
      let c =
        baseline_certain _ _ (tier-Tracks x dir peer protocol port true "baseline" ρ base w) h in
      (λ a m. c.0 a (tier-Elem x dir peer protocol port true "baseline" base w a m), c.1)
  lower_certain ρ (b ∷ bs) base w (inl d) h =
      let c =
        list_certain b bs _ _
          (tier-Decides x dir peer protocol port AnyAction (b ∷ bs) w (any_actions dir (b ∷ bs)))
          (project-Tracks x dir peer protocol port ρ (b ∷ bs) w) h in
      (
        λ a m. c.0 a (project-Elem x dir peer protocol port (b ∷ bs) w a m),
        rw (definite_all ρ (b ∷ bs) d) c.1,
      )
  lower_certain ρ (b ∷ bs) base w (inr (deny, allows)) h =
      let c =
        deny_certain b bs _ _ (tier-Decides x dir peer protocol port Allows (b ∷ bs) w allows)
          (tier-Quiet x dir peer protocol port ρ ρ.selects (b ∷ bs) w) deny h in
      (
        λ a m. c.0 a (project-Elem x dir peer protocol port (b ∷ bs) w a m),
        isolated_lower ρ _ base (keeps_one ρ (b ∷ bs) c.2) ∙ c.1,
      )
