-- ===== src/Netstate/Trace/Certain/Admin.antt =====
-- The admin and baseline tiers of a walk against the reference.
use dotvirt.Prelude.{
  Bool-cases, ℕ, String, refl, subst, inl, inr, Bool, true, false, not, none, some, List, [], arith,
  str_eq, str_eq_iff, Elem, if◌then◌else◌, ◌≡◌, ◌⊎◌, ◌&&◌, ◌∷◌,
}
use dotvirt.Netstate.Match.Combine.{Match-cases}
use dotvirt.Netstate.External.{External}
use dotvirt.Netstate.Rule.{Rule}
use dotvirt.Netstate.RuleMatch.{PeerTarget}
use dotvirt.Netstate.Effective.{Bound}
use dotvirt.Netstate.Trace.Walk.{Walk, Flow, next, stop, decide, add_step}
use dotvirt.Netstate.Trace.Direction.{admin_verdict, admin_hit, admin_rules}
use dotvirt.Netstate.Trace.Resolution.{
  Resolution, Decision, undecided, delegated, decided, first_rule,
}
use dotvirt.Netstate.Trace.Certain.Track.{maybe-Elem, maybe-Elem_keep}

-- the test on Pass: it delegates in the upper tier only
abbrev pub passes : Bool → String → Bool
passes baseline a = not baseline && str_eq a "Pass"

-- The decision is an open rule's, and the walk remembers its action.
abbrev pub Recorded : Bool → List String → Decision → Type 0
Recorded baseline cs undecided = ⊥
Recorded baseline cs delegated = (baseline ≡ false) × Elem "Pass" cs
Recorded baseline cs (decided a) = (passes baseline a ≡ false) × Elem a cs

-- The decision is the one that ends the loop.
abbrev pub Ends : Bool → Walk → Flow → Decision → Type 0
Ends baseline w next undecided = Unit
Ends baseline w next _ = ⊥
Ends baseline w (stop none) delegated = Unit
Ends baseline w (stop none) _ = ⊥
Ends baseline w (stop (some r)) (decided a) = r ≡ decide a w
Ends baseline w (stop (some r)) _ = ⊥

-- A result comes from a certain rule.
abbrev pub Decides : Bool → Walk → Flow → Type 0
Decides baseline w next = Unit
Decides baseline w (stop none) = Unit
Decides baseline w (stop (some r)) = (a : String) × (r ≡ decide a w) × (passes baseline a ≡ false)

abbrev pub Tracks : Bool → Walk × Flow → Decision → Type 0
Tracks baseline p d =
    Decides baseline p.0 p.1 × (Recorded baseline p.0.cond_actions d ⊎ Ends baseline p.0 p.1 d)

-- what the tier does with a rule that applies
abbrev pub applied : Bool → String → Decision
applied baseline a = if passes baseline a then delegated else decided a

pub passes-Pass :
    (baseline : Bool) (a : String) → passes baseline a ≡ true → (baseline ≡ false) × (a ≡ "Pass")
passes-Pass baseline a h = ground (arith, str_eq_iff a "Pass")

pub applied-Recorded :
    (baseline : Bool) (a : String) (cs : List String)
    → Elem a cs
    → Recorded baseline cs (applied baseline a)
applied-Recorded baseline a cs m = elim (Bool-cases (passes baseline a)) [
  | inl t ↦ let (e, p) = passes-Pass baseline a t in rw t (e, subst (λ c. Elem c cs) p m)
  | inr f ↦ rw f (f, m)
]

module _ (x : External) (dir : String) (peer : PeerTarget) (protocol : String) (port : ℕ)
    (baseline : Bool) (stage : String) where
  abbrev pub walk_rules : Bound → List Rule → Walk → Walk × Flow
  walk_rules = admin_rules x dir peer protocol port baseline stage

  hit-Elem :
      (b : Bound) (r : Rule) (w : Walk) (a : String)
      → Elem a w.cond_actions
      → Elem a (admin_hit x dir peer protocol port baseline stage b r w).0.cond_actions
  unfolding admin_hit add_step
  hit-Elem b r w a m = elim (Bool-cases (passes baseline r.action)) [
    | inl t ↦ rw t m
    | inr f ↦ rw f m
  ]

  pub rules-Elem :
      (b : Bound) (rs : List Rule) (w : Walk) (a : String)
      → Elem a w.cond_actions
      → Elem a (walk_rules b rs w).0.cond_actions
  unfolding admin_rules
  rules-Elem b [] w a m = m
  rules-Elem b (r ∷ rs) w a m = elim (Match-cases (admin_verdict x dir peer protocol port b r).m) [
    | inl e ↦ rw (e, admin_rules) (rules-Elem b rs w a m)
    | inr (inl e) ↦ rw (e, admin_rules) (hit-Elem b r w a m)
    | inr (inr e) ↦
        rw (e, admin_rules) (rules-Elem b rs _ a (maybe-Elem_keep _ _ stage r.action _ w a m))
  ]

  hit-Tracks :
      (b : Bound) (r : Rule) (w : Walk)
      → Tracks baseline
          (admin_hit x dir peer protocol port baseline stage b r w)
          (applied baseline r.action)
  unfolding admin_hit
  hit-Tracks b r w = elim (Bool-cases (passes baseline r.action)) [
    | inl t ↦ rw t (tt, inr tt)
    | inr f ↦ rw f ((r.action, refl, f), inr refl)
  ]

  module _ (ρ : Resolution x dir peer protocol port) where
    pub rules-Tracks :
        (b : Bound) (rs : List Rule) (w : Walk)
        → Tracks baseline (walk_rules b rs w) (first_rule (ρ.admin_applies b) baseline rs)
    unfolding admin_rules first_rule
    rules-Tracks b [] w = (tt, inr tt)
    rules-Tracks b (r ∷ rs) w = elim (Match-cases (admin_verdict x dir peer protocol port b r).m) [
      | inl e ↦
          let miss : ρ.admin_applies b r ≡ false = rw e at (ρ.admin_settles b r) in
          rw (e, admin_rules, miss) (rules-Tracks b rs w)
      | inr (inl e) ↦
          let hit : ρ.admin_applies b r ≡ true = rw e at (ρ.admin_settles b r) in
          rw (e, admin_rules, hit) (hit-Tracks b r w)
      | inr (inr e) ↦
          rw (e, admin_rules)
            (elim (Bool-cases (ρ.admin_applies b r)) [
              | inl hit ↦ rw hit (
                (rules-Tracks b rs _).0,
                inl (
                    applied-Recorded baseline r.action _
                      (rules-Elem b rs _ r.action (maybe-Elem _ _ stage r.action _ w))),
              )
              | inr miss ↦ rw miss (rules-Tracks b rs _)
            ])
    ]
