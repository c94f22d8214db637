-- ===== src/Eventbus/Wakeup.antt =====
-- No lost wakeup. A publisher bumps the version and wakes the subscribers in two steps, a consumer
-- takes the wake from its channel and reads the version in two more, and all of them interleave. The
-- counters of a version are read at one moment.
use dotvirt.Prelude.{
  Bool-cases, any, ℕ, refl, sym, inl, inr, Bool, true, false, List, [], arith, ◌≡◌, ◌∙◌, ◌⊎◌, ◌∷◌,
  ◌++◌,
}
use dotvirt.Eventbus.Levels.{same_kind_comm}
use dotvirt.Eventbus.{Kind, same_kind, Subscription, listens, notify, bump, sum_versions}

-- A consumer: its subscription, whether it runs between a wake and its read, and the version that it
-- read last.
pub record Consumer : Type 0 where
  pub sub : Subscription
  pub awake : Bool
  pub seen : ℕ

-- The versions, the publishers between their bump and their wake, and one consumer.
pub record System : Type 0 where
  pub versions : Kind → ℕ
  pub waking : List Kind
  pub consumer : Consumer

abbrev pub level : System → ℕ
level s = sum_versions s.versions s.consumer.sub.kinds 0

abbrev pub taken : Consumer → Consumer
taken c = record c { sub = record c.sub { pending = false }; awake = true }

pub data Step : System → System → Type 0 where
  -- the first half of Publish and of PublishKey
  bumps :
      (s : System) (k : Kind)
      → Step s (record s { versions = bump s.versions k; waking = k ∷ s.waking })
  -- the second half, in any order
  wakes :
      (s : System) (k : Kind) (before after : List Kind)
      → s.waking ≡ before ++ k ∷ after
      → Step s (record s {
        waking = before ++ after;
        consumer = record s.consumer { sub = notify k s.consumer.sub };
      })
  -- the consumer takes the pending wake
  takes :
      (s : System)
      → s.consumer.sub.pending ≡ true
      → Step s (record s { consumer = taken s.consumer })
  -- and reads the level
  reads :
      (s : System)
      → s.consumer.awake ≡ true
      → Step s (record s { consumer = record s.consumer { awake = false; seen = level s } })

pub data Reach (s : System) : System → Type 0 where
  here : Reach s s
  and_then : {t u : System} → Reach s t → Step t u → Reach s u

-- A level that the consumer has not seen is announced: a wake is pending, the consumer is on its way
-- to read, or a publisher of one of its kinds is on its way to wake it.
abbrev pub Announced : System → Type 0
Announced s =
    (level s ≡ s.consumer.seen)
    ⊎ ((s.consumer.sub.pending ≡ true)
        ⊎ ((s.consumer.awake ≡ true) ⊎ (any (λ k. listens k s.consumer.sub.kinds) s.waking ≡ true)))

sum-bump_other :
    (f : Kind → ℕ) (k : Kind) (ks : List Kind) (v : ℕ)
    → listens k ks ≡ false
    → sum_versions (bump f k) ks v ≡ sum_versions f ks v
unfolding sum_versions bump listens
sum-bump_other f k [] v h = refl
sum-bump_other f k (j ∷ js) v h = elim (Bool-cases (same_kind k j)) [
  | inl t ↦ cc (rw t at h)
  | inr e ↦ rw (same_kind_comm j k, e) (sum-bump_other f k js _ (rw e at h))
]

any-drop :
    (p : Kind → Bool) (before after : List Kind) (k : Kind)
    → p k ≡ false
    → any p (before ++ k ∷ after) ≡ any p (before ++ after)
any-drop p [] after k h = rw h
any-drop p (j ∷ js) after k h = rw (any-drop p js after k h)

notify_other : (k : Kind) (s : Subscription) → listens k s.kinds ≡ false → notify k s ≡ s
unfolding notify
notify_other k s h = rw h

notify_own : (k : Kind) (s : Subscription) → listens k s.kinds ≡ true → (notify k s).pending ≡ true
unfolding notify
notify_own k s h = rw h

notify-kinds : (k : Kind) (s : Subscription) → (notify k s).kinds ≡ s.kinds
unfolding notify
notify-kinds k s = ground arith

bumps-Announced :
    (s : System) (k : Kind)
    → Announced s
    → Announced (record s { versions = bump s.versions k; waking = k ∷ s.waking })
bumps-Announced s k h = elim (Bool-cases (listens k s.consumer.sub.kinds)) [
  | inl t ↦ inr (inr (inr (rw t)))
  | inr f ↦ elim h [
    | inl e ↦ inl (sum-bump_other s.versions k s.consumer.sub.kinds 0 f ∙ e)
    | inr (inl e) ↦ inr (inl e)
    | inr (inr (inl e)) ↦ inr (inr (inl e))
    | inr (inr (inr e)) ↦ inr (inr (inr (rw f e)))
  ]
]

wakes-Announced :
    (s : System) (k : Kind) (before after : List Kind)
    → s.waking ≡ before ++ k ∷ after
    → Announced s
    → Announced (record s {
      waking = before ++ after;
      consumer = record s.consumer { sub = notify k s.consumer.sub };
    })
wakes-Announced s k before after e h = elim (Bool-cases (listens k s.consumer.sub.kinds)) [
  | inl t ↦ inr (inl (notify_own k s.consumer.sub t))
  | inr f ↦ rw (notify_other k s.consumer.sub f) (elim h [
    | inl q ↦ inl q
    | inr (inl q) ↦ inr (inl q)
    | inr (inr (inl q)) ↦ inr (inr (inl q))
    | inr (inr (inr q)) ↦ inr (
        inr (
          inr
            (sym (any-drop (λ j. listens j s.consumer.sub.kinds) before after k f) ∙ (rw e at q))))
  ])
]

Step-Announced : {s t : System} → Step s t → Announced s → Announced t
Step-Announced (bumps s k) h = bumps-Announced s k h
Step-Announced (wakes s k before after e) h = wakes-Announced s k before after e h
Step-Announced (takes s e) h = inr (inr (inl refl))
Step-Announced (reads s e) h = inl refl

-- From a state in which the consumer is up to date, along every interleaving of publishers and the
-- consumer: a level that the consumer has not read is announced to it.
pub no_lost_wakeup : {s t : System} → level s ≡ s.consumer.seen → Reach s t → Announced t
no_lost_wakeup e here = inl e
no_lost_wakeup e (and_then r st) = Step-Announced st (no_lost_wakeup e r)
