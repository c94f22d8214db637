-- ===== src/Netstate/Trace/Certain/Project.antt =====
-- The project tier of a walk, the rules of the selecting NetworkPolicies, against the reference.
use dotvirt.Prelude.{
  Bool-cases, keep_if, ℕ, String, refl, inl, inr, Bool, true, false, Option, none, some, List, [],
  Elem, ◌≡◌, ◌⊎◌, ◌∷◌,
}
use dotvirt.Netstate.Match.Combine.{Match-cases}
use dotvirt.Netstate.External.{External}
use dotvirt.Netstate.Rule.{Rule}
use dotvirt.Netstate.Decode.{rules}
use dotvirt.Netstate.RuleMatch.{PeerTarget, rule_match}
use dotvirt.Netstate.Effective.{Bound}
use dotvirt.Netstate.Trace.Walk.{Walk, WalkResult, decide, add_step}
use dotvirt.Netstate.Trace.Direction.{project_rules, project_next, project_tier}
use dotvirt.Netstate.Trace.Resolution.{Resolution, allow_rule, or_else, allow_list}
use dotvirt.Netstate.Trace.Certain.Track.{maybe-Elem, maybe-Elem_keep}

-- Every action of a rule list, or of the policies, has a property.
abbrev pub RuleActions : (String → Type 0) → List Rule → Type 0
RuleActions P [] = Unit
RuleActions P (r ∷ rs) = P r.action × RuleActions P rs

abbrev pub PolicyActions : (String → Type 0) → String → List Bound → Type 0
PolicyActions P dir [] = Unit
PolicyActions P dir (b ∷ bs) = RuleActions P (rules b.pol dir) × PolicyActions P dir bs

-- An open rule's action, remembered.
abbrev pub Kept : List String → Option String → Type 0
Kept cs none = ⊥
Kept cs (some a) = Elem a cs

abbrev pub Quiet : List String → Option String → Type 0
Quiet cs none = Unit
Quiet cs (some a) = Elem a cs

abbrev pub ProjectEnds : Walk → Option WalkResult → Option String → Type 0
ProjectEnds w none none = Unit
ProjectEnds w none (some a) = ⊥
ProjectEnds w (some r) none = ⊥
ProjectEnds w (some r) (some a) = r ≡ decide a w

abbrev pub ProjectDecides : (String → Type 0) → Walk → Option WalkResult → Type 0
ProjectDecides P w none = Unit
ProjectDecides P w (some r) = (a : String) × (r ≡ decide a w) × P a

abbrev pub ProjectTracks : Walk × Option WalkResult → Option String → Type 0
ProjectTracks p o = Kept p.0.cond_actions o ⊎ ProjectEnds p.0 p.1 o

settled-Quiet :
    (p : Walk × Option WalkResult) (o : Option String)
    → ProjectTracks p o
    → p.1 ≡ none
    → Quiet p.0.cond_actions o
settled-Quiet p none t e = tt
settled-Quiet p (some a) (inl h) e = h
settled-Quiet (w, none) (some a) (inr h) e = absurd h
settled-Quiet (w, some r) (some a) (inr h) e = cc

pub Kept-or_else :
    (cs ds : List String) (o p : Option String)
    → ((a : String) → Elem a cs → Elem a ds)
    → Kept cs o
    → Kept ds (or_else o p)
unfolding or_else
Kept-or_else cs ds none p f h = absurd h
Kept-or_else cs ds (some a) p f h = f a h

Quiet-or_else :
    (cs ds : List String) (o p : Option String)
    → ((a : String) → Elem a cs → Elem a ds)
    → Quiet cs o
    → Quiet ds p
    → Quiet ds (or_else o p)
unfolding or_else
Quiet-or_else cs ds none p f h k = k
Quiet-or_else cs ds (some a) p f h k = f a h

module _ (x : External) (dir : String) (peer : PeerTarget) (protocol : String) (port : ℕ) where
  abbrev pub one : Bound → List Rule → Walk → Walk × Option WalkResult
  one = project_rules x dir peer protocol port

  abbrev pub tier : List Bound → Walk → Walk × Option WalkResult
  tier = project_tier x dir peer protocol port

  rules-Elem :
      (b : Bound) (rs : List Rule) (w : Walk) (a : String)
      → Elem a w.cond_actions
      → Elem a (one b rs w).0.cond_actions
  unfolding project_rules add_step
  rules-Elem b [] w a m = m
  rules-Elem b (r ∷ rs) w a m = elim (Match-cases (rule_match x r peer protocol port).m) [
    | inl e ↦ rw (e, project_rules) (rules-Elem b rs w a m)
    | inr (inl e) ↦ rw (e, project_rules) m
    | inr (inr e) ↦
        rw (e, project_rules) (rules-Elem b rs _ a (maybe-Elem_keep _ _ "dfw" r.action _ w a m))
  ]

  rules-Decides :
      (P : String → Type 0) (b : Bound) (rs : List Rule) (w : Walk)
      → RuleActions P rs
      → ProjectDecides P (one b rs w).0 (one b rs w).1
  unfolding project_rules
  rules-Decides P b [] w h = tt
  rules-Decides P b (r ∷ rs) w h = elim (Match-cases (rule_match x r peer protocol port).m) [
    | inl e ↦ rw (e, project_rules) (rules-Decides P b rs w h.1)
    | inr (inl e) ↦ rw (e, project_rules) (r.action, refl, h.0)
    | inr (inr e) ↦ rw (e, project_rules) (rules-Decides P b rs _ h.1)
  ]

  next-Elem :
      (bs : List Bound) (p : Walk × Option WalkResult) (a : String)
      → ((w : Walk) → Elem a w.cond_actions → Elem a (tier bs w).0.cond_actions)
      → Elem a p.0.cond_actions
      → Elem a (project_next x dir peer protocol port (tier bs) p).0.cond_actions
  unfolding project_next
  next-Elem bs (w, none) a more m = more w m
  next-Elem bs (w, some r) a more m = m

  pub tier-Elem :
      (bs : List Bound) (w : Walk) (a : String)
      → Elem a w.cond_actions
      → Elem a (tier bs w).0.cond_actions
  unfolding project_tier
  tier-Elem [] w a m = m
  tier-Elem (b ∷ bs) w a m =
      next-Elem bs _ a (λ w'. tier-Elem bs w' a) (rules-Elem b (rules b.pol dir) w a m)

  next-Decides :
      (P : String → Type 0) (bs : List Bound) (p : Walk × Option WalkResult)
      → ProjectDecides P p.0 p.1
      → ((w : Walk) → ProjectDecides P (tier bs w).0 (tier bs w).1)
      → let q = project_next x dir peer protocol port (tier bs) p in ProjectDecides P q.0 q.1
  unfolding project_next
  next-Decides P bs (w, none) h more = more w
  next-Decides P bs (w, some r) h more = h

  pub tier-Decides :
      (P : String → Type 0) (bs : List Bound) (w : Walk)
      → PolicyActions P dir bs
      → ProjectDecides P (tier bs w).0 (tier bs w).1
  unfolding project_tier
  tier-Decides P [] w h = tt
  tier-Decides P (b ∷ bs) w h =
      next-Decides P bs _ (rules-Decides P b (rules b.pol dir) w h.0)
        (λ w'. tier-Decides P bs w' h.1)

  module _ (ρ : Resolution x dir peer protocol port) where
    rules-Tracks :
        (b : Bound) (rs : List Rule) (w : Walk)
        → ProjectTracks (one b rs w) (allow_rule (ρ.rule_applies b) rs)
    unfolding project_rules allow_rule
    rules-Tracks b [] w = inr tt
    rules-Tracks b (r ∷ rs) w = elim (Match-cases (rule_match x r peer protocol port).m) [
      | inl e ↦
          let miss : ρ.rule_applies b r ≡ false = rw e at (ρ.rule_settles b r) in
          rw (e, project_rules, miss) (rules-Tracks b rs w)
      | inr (inl e) ↦
          let hit : ρ.rule_applies b r ≡ true = rw e at (ρ.rule_settles b r) in
          rw (e, project_rules, hit) (inr refl)
      | inr (inr e) ↦
          rw (e, project_rules)
            (elim (Bool-cases (ρ.rule_applies b r)) [
              | inl hit ↦
                  rw hit (inl (rules-Elem b rs _ r.action (maybe-Elem _ _ "dfw" r.action _ w)))
              | inr miss ↦ rw miss (rules-Tracks b rs _)
            ])
    ]

    next-Tracks :
        (bs : List Bound) (p : Walk × Option WalkResult) (o q : Option String)
        → ProjectTracks p o
        → ProjectTracks (tier bs p.0) q
        → ProjectTracks (project_next x dir peer protocol port (tier bs) p) (or_else o q)
    unfolding project_next or_else
    next-Tracks bs (w, none) o q (inl h) more =
        inl (Kept-or_else w.cond_actions _ o q (λ a. tier-Elem bs w a) h)
    next-Tracks bs (w, none) none q (inr h) more = more
    next-Tracks bs (w, none) (some a) q (inr h) more = absurd h
    next-Tracks bs (w, some r) o q (inl h) more = inl (Kept-or_else _ _ o q (λ a m. m) h)
    next-Tracks bs (w, some r) (some a) q (inr h) more = inr h
    next-Tracks bs (w, some r) none q (inr h) more = absurd h

    pub tier-Tracks :
        (bs : List Bound) (w : Walk) → ProjectTracks (tier bs w) (allow_list ρ.rule_applies dir bs)
    unfolding project_tier allow_list
    tier-Tracks [] w = inr tt
    tier-Tracks (b ∷ bs) w =
        next-Tracks bs _ _ _ (rules-Tracks b (rules b.pol dir) w) (tier-Tracks bs _)

    -- Where no rule decides for certain, every rule of a sublist that applies is remembered.
    next-Quiet :
        (bs : List Bound) (sel : Bound → Bool) (b : Bound) (p : Walk × Option WalkResult)
        → ProjectTracks p (allow_rule (ρ.rule_applies b) (rules b.pol dir))
        → ((w : Walk)
            → (tier bs w).1 ≡ none
            → Quiet (tier bs w).0.cond_actions (allow_list ρ.rule_applies dir (keep_if sel bs)))
        → let q = project_next x dir peer protocol port (tier bs) p in
          q.1 ≡ none → Quiet q.0.cond_actions (allow_list ρ.rule_applies dir (keep_if sel (b ∷ bs)))
    unfolding project_next allow_list
    next-Quiet bs sel b (w, none) t more e = elim (Bool-cases (sel b)) [
      | inl kept ↦ rw kept (
          Quiet-or_else w.cond_actions _ _ _ (λ a. tier-Elem bs w a)
            (settled-Quiet (w, none) _ t refl) (more w e))
      | inr left ↦ rw left (more w e)
    ]
    next-Quiet bs sel b (w, some r) t more e = cc

    pub tier-Quiet :
        (sel : Bound → Bool) (bs : List Bound) (w : Walk)
        → (tier bs w).1 ≡ none
        → Quiet (tier bs w).0.cond_actions (allow_list ρ.rule_applies dir (keep_if sel bs))
    unfolding project_tier allow_list
    tier-Quiet sel [] w e = tt
    tier-Quiet sel (b ∷ bs) w e =
        next-Quiet bs sel b _ (rules-Tracks b (rules b.pol dir) w) (λ w'. tier-Quiet sel bs w') e
