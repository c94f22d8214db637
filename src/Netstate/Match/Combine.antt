-- ===== src/Netstate/Match/Combine.antt =====
-- What `allOf` and `anyOf` make of the verdicts of the parts.
use dotvirt.Prelude.{
  any, all, String, refl, inl, inr, Bool, false, List, [], arith, ◌≡◌, ◌⊎◌, ◌&&◌, ◌∷◌,
}
use dotvirt.Netstate.Match.{
  Match, match_no, match_yes, match_cond, is_yes, is_no, Matched, just, all_of, all_of_from,
  all_of_step, any_of, any_of_from, any_of_step,
}

abbrev pub surely_part : Matched → Bool
surely_part p = is_yes p.m

abbrev pub never_part : Matched → Bool
never_part p = is_no p.m

pub Match-cases : (m : Match) → (m ≡ match_no) ⊎ ((m ≡ match_yes) ⊎ (m ≡ match_cond))
Match-cases match_no = inl refl
Match-cases match_yes = inr (inl refl)
Match-cases match_cond = inr (inr refl)

all_of_from_lem :
    (out : Matched) (ps : List Matched)
    → is_no out.m ≡ false
    → (is_no (all_of_from out ps).m ≡ any never_part ps)
      × (is_yes (all_of_from out ps).m ≡ (is_yes out.m && all surely_part ps))
unfolding all_of_from all_of_step
all_of_from_lem out [] h = (h, ground arith)
all_of_from_lem out (p ∷ ps) h = elim (Match-cases p.m) [
  | inl e ↦ rw e (ground arith, ground arith)
  | inr (inl e) ↦ rw e (all_of_from_lem out ps h)
  | inr (inr e) ↦
      let (n, y) = all_of_from_lem (all_of_step match_cond p out) ps refl in
      rw e (n, rw y (ground arith))
]

abbrev AnyFrom : Matched → List Matched → Type 0
AnyFrom out ps =
    (is_yes (any_of_from out ps).m ≡ any surely_part ps)
    × (is_no (any_of_from out ps).m ≡ (is_no out.m && all never_part ps))

abbrev with_reason : Match → String → Matched
with_reason m reason = record { m = m; reason = reason }

any_of_from_step :
    (o m : Match) (r q : String) (ps : List Matched)
    → is_yes o ≡ false
    → ((o' : Match) (r' : String) → is_yes o' ≡ false → AnyFrom (with_reason o' r') ps)
    → AnyFrom (with_reason o r) (with_reason m q ∷ ps)
unfolding any_of_from any_of_step
any_of_from_step o match_no r q ps h more = more o r h
any_of_from_step o match_yes r q ps h more = (refl, ground arith)
any_of_from_step match_no match_cond r q ps h more = more match_cond q refl
any_of_from_step match_cond match_cond r q ps h more = more match_cond r refl
any_of_from_step match_yes match_cond r q ps h more = cc

any_of_from_lem :
    (o : Match) (r : String) (ps : List Matched) → is_yes o ≡ false → AnyFrom (with_reason o r) ps
unfolding any_of_from
any_of_from_lem o r [] h = (h, ground arith)
any_of_from_lem o r (p ∷ ps) h =
    any_of_from_step o p.m r p.reason ps h (λ o' r' h'. any_of_from_lem o' r' ps h')

-- `all_of` fails exactly when a part does and holds for certain exactly when every part does;
-- `any_of` holds for certain exactly when a part does and fails exactly when every part does.
pub all_of-any_of :
    (ps : List Matched)
    → (is_no (all_of ps).m ≡ any never_part ps)
      × (is_yes (all_of ps).m ≡ all surely_part ps)
      × (is_yes (any_of ps).m ≡ any surely_part ps)
      × (is_no (any_of ps).m ≡ all never_part ps)
unfolding all_of any_of
all_of-any_of ps =
    let (n, y) = all_of_from_lem (just match_yes) ps refl in
    let (t, f) = any_of_from_lem match_no "" ps refl in (n, y, t, f)
