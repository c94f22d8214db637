-- ===== src/Netstate/Trace/Certain/Track.antt =====
-- What a walk remembers of the rules that may match, and when its outcome is certain.
use dotvirt.Prelude.{
  Bool-cases, String, refl, sym, inl, inr, true, Option, List, [], arith, str_eq_iff, Elem,
  Elem-append_left, Elem-append_right, ◌≡◌, ◌∙◌, ◌≢◌, ◌∷◌,
}
use dotvirt.Netstate.View.{Policy, PolicyRuleView}
use dotvirt.Netstate.Trace.Walk.{Walk, maybe, decide, agree, result}

agree-Elem : (o a : String) (cs : List String) → agree o cs ≡ true → Elem a cs → a ≡ o
unfolding agree
agree-Elem o a (c ∷ cs) h (inl e) = ground (arith, str_eq_iff c o)
agree-Elem o a (c ∷ cs) h (inr e) = agree-Elem o a cs (ground arith) e
agree-Elem o a [] h e = absurd e

-- Every remembered action is the outcome.
abbrev pub Unanimous : String → Walk → Type 0
Unanimous o w = (a : String) → Elem a w.cond_actions → a ≡ o

pub decide_certain :
    (a o : String) (w : Walk)
    → (decide a w).outcome ≡ o
    → o ≢ "Conditional"
    → (a ≡ o) × Unanimous o w
unfolding decide result
decide_certain a o w h c = elim (Bool-cases (agree a w.cond_actions)) [
  | inl t ↦ let e : a ≡ o = rw t at h in (e, λ b m. agree-Elem a b w.cond_actions t m ∙ e)
  | inr f ↦ absurd (c (sym (rw f at h)))
]

-- A possible match is remembered, and what was remembered stays.
pub maybe-Elem :
    (pol : Option Policy) (rule : Option PolicyRuleView) (stage action reason : String) (w : Walk)
    → Elem action (maybe pol rule stage action reason w).cond_actions
unfolding maybe
maybe-Elem pol rule stage action reason w =
    Elem-append_right action w.cond_actions (action ∷ []) (inl refl)

pub maybe-Elem_keep :
    (pol : Option Policy) (rule : Option PolicyRuleView) (stage action reason : String) (w : Walk)
    (a : String)
    → Elem a w.cond_actions
    → Elem a (maybe pol rule stage action reason w).cond_actions
unfolding maybe
maybe-Elem_keep pol rule stage action reason w a m =
    Elem-append_left a w.cond_actions (action ∷ []) m
