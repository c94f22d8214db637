-- ===== src/Netstate/Trace/Certain/Tier.antt =====
-- A whole admin tier, over its bound policies, against the reference.
use dotvirt.Prelude.{
  ℕ, String, inl, inr, Bool, false, Option, none, some, List, [], Elem, ◌≡◌, ◌⊎◌, ◌∷◌,
}
use dotvirt.Netstate.External.{External}
use dotvirt.Netstate.Decode.{rules}
use dotvirt.Netstate.RuleMatch.{PeerTarget}
use dotvirt.Netstate.Effective.{Bound}
use dotvirt.Netstate.Trace.Walk.{Walk, WalkResult, Flow, next, stop, decide}
use dotvirt.Netstate.Trace.Direction.{admin_next, admin_tier}
use dotvirt.Netstate.Trace.Resolution.{
  Resolution, Decision, undecided, delegated, decided, or_next, first_policy,
}
use dotvirt.Netstate.Trace.Certain.Admin.{passes, Recorded, Tracks, rules-Elem, rules-Tracks}

-- What the closure returns: nil where nothing decided or a Pass handed the flow down.
abbrev pub TierEnds : Walk → Option WalkResult → Decision → Type 0
TierEnds w none undecided = Unit
TierEnds w none delegated = Unit
TierEnds w none (decided a) = ⊥
TierEnds w (some r) (decided a) = r ≡ decide a w
TierEnds w (some r) _ = ⊥

abbrev pub TierDecides : Bool → Walk → Option WalkResult → Type 0
TierDecides baseline w none = Unit
TierDecides baseline w (some r) = (a : String) × (r ≡ decide a w) × (passes baseline a ≡ false)

abbrev pub TierTracks : Bool → Walk × Option WalkResult → Decision → Type 0
TierTracks baseline p d =
    TierDecides baseline p.0 p.1 × (Recorded baseline p.0.cond_actions d ⊎ TierEnds p.0 p.1 d)

-- a recorded decision is the tier's, whatever the policies below say
Recorded-or_next :
    (baseline : Bool) (cs : List String) (d e : Decision)
    → Recorded baseline cs d
    → Recorded baseline cs (or_next d e)
unfolding or_next
Recorded-or_next baseline cs undecided e h = absurd h
Recorded-or_next baseline cs delegated e h = h
Recorded-or_next baseline cs (decided a) e h = h

Recorded-mono :
    (baseline : Bool) (cs ds : List String) (d : Decision)
    → ((a : String) → Elem a cs → Elem a ds)
    → Recorded baseline cs d
    → Recorded baseline ds d
Recorded-mono baseline cs ds undecided f h = h
Recorded-mono baseline cs ds delegated f h = (h.0, f "Pass" h.1)
Recorded-mono baseline cs ds (decided a) f h = (h.0, f a h.1)

module _ (x : External) (dir : String) (peer : PeerTarget) (protocol : String) (port : ℕ)
    (baseline : Bool) (stage : String) where
  abbrev tier : List Bound → Walk → Walk × Option WalkResult
  tier = admin_tier x dir peer protocol port baseline stage

  next-Elem :
      (bs : List Bound) (p : Walk × Flow) (a : String)
      → ((w : Walk) → Elem a w.cond_actions → Elem a (tier bs w).0.cond_actions)
      → Elem a p.0.cond_actions
      → Elem a (admin_next x dir peer protocol port (tier bs) p).0.cond_actions
  unfolding admin_next
  next-Elem bs (w, next) a more m = more w m
  next-Elem bs (w, stop r) a more m = m

  pub tier-Elem :
      (bs : List Bound) (w : Walk) (a : String)
      → Elem a w.cond_actions
      → Elem a (tier bs w).0.cond_actions
  unfolding admin_tier
  tier-Elem [] w a m = m
  tier-Elem (b ∷ bs) w a m =
      next-Elem bs _ a (λ w'. tier-Elem bs w' a)
        (rules-Elem x dir peer protocol port baseline stage b (rules b.pol dir) w a m)

  next-Tracks :
      (bs : List Bound) (p : Walk × Flow) (d e : Decision)
      → Tracks baseline p d
      → TierTracks baseline (tier bs p.0) e
      → TierTracks baseline (admin_next x dir peer protocol port (tier bs) p) (or_next d e)
  unfolding admin_next or_next
  next-Tracks bs (w, next) d e (t, inl h) more = (
    more.0,
    inl (
        Recorded-or_next baseline _ d e
          (Recorded-mono baseline w.cond_actions _ d (λ a. tier-Elem bs w a) h)),
  )
  next-Tracks bs (w, next) undecided e (t, inr h) more = more
  next-Tracks bs (w, next) delegated e (t, inr h) more = absurd h
  next-Tracks bs (w, next) (decided a) e (t, inr h) more = absurd h
  next-Tracks bs (w, stop none) d e (t, inl h) more = (tt, inl (Recorded-or_next baseline _ d e h))
  next-Tracks bs (w, stop none) delegated e (t, inr h) more = (tt, inr tt)
  next-Tracks bs (w, stop none) undecided e (t, inr h) more = absurd h
  next-Tracks bs (w, stop none) (decided a) e (t, inr h) more = absurd h
  next-Tracks bs (w, stop (some r)) d e (t, inl h) more =
      (t, inl (Recorded-or_next baseline _ d e h))
  next-Tracks bs (w, stop (some r)) (decided a) e (t, inr h) more = (t, inr h)
  next-Tracks bs (w, stop (some r)) undecided e (t, inr h) more = absurd h
  next-Tracks bs (w, stop (some r)) delegated e (t, inr h) more = absurd h

  pub tier-Tracks :
      (ρ : Resolution x dir peer protocol port) (bs : List Bound) (w : Walk)
      → TierTracks baseline (tier bs w) (first_policy ρ.admin_applies dir baseline bs)
  unfolding admin_tier first_policy
  tier-Tracks ρ [] w = (tt, inr tt)
  tier-Tracks ρ (b ∷ bs) w =
      next-Tracks bs _ _ _
        (rules-Tracks x dir peer protocol port baseline stage ρ b (rules b.pol dir) w)
        (tier-Tracks ρ bs _)
