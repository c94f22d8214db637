-- ===== src/Netstate/Match.antt =====
-- internal/netstate/effective.go and tracematch.go: the three-valued verdict of a selector, and how
-- the verdicts of the parts of a rule are combined.
pub mod Combine
use dotvirt.Prelude.{
  length, String, Bool, true, false, not, Option, none, some, List, [], str_eq, ◌==◌, if◌then◌else◌,
  ◌&&◌, ◌∷◌,
}
use dotvirt.Netstate.Doc.{LabelSelector, Labels}
use dotvirt.Netstate.External.{External}

pub data Match : Type 0 where
  match_no match_yes match_cond : Match

abbrev pub is_yes : Match → Bool
is_yes match_yes = true
is_yes _ = false

abbrev pub is_cond : Match → Bool
is_cond match_cond = true
is_cond _ = false

abbrev pub is_no : Match → Bool
is_no match_no = true
is_no _ = false

unfoldable pub combine_match : Match → Match → Match
combine_match match_no b = match_no
combine_match match_yes match_no = match_no
combine_match match_yes match_yes = match_yes
combine_match match_yes match_cond = match_cond
combine_match match_cond match_no = match_no
combine_match match_cond b = match_cond

pub record Matched : Type 0 where
  pub m : Match
  pub reason : String

-- the literals `matched{m: ...}` leave the reason empty
abbrev pub just : Match → Matched
just m = record { m = m; reason = "" }

-- The loop of `allOf`, with `out` in its arguments.
all_of_step : Match → Matched → Matched → Matched
all_of_step match_cond p out = record {
  m = match_cond;
  reason = if str_eq out.reason "" then p.reason else out.reason;
}
all_of_step _ p out = out

all_of_from : Matched → List Matched → Matched
all_of_from out [] = out
all_of_from out (p ∷ ps) =
    let rest = all_of_from (all_of_step p.m p out) ps in
    elim p.m [ match_no ↦ just match_no | _ ↦ rest ]

unfoldable pub all_of : List Matched → Matched
unfolding all_of_from all_of_step
all_of parts = all_of_from (just match_yes) parts

-- `if p.m == matchCond && out.m == matchNo { out = p }`
any_of_step : Match → Match → Matched → Matched → Matched
any_of_step match_cond match_no p out = p
any_of_step _ _ p out = out

any_of_from : Matched → List Matched → Matched
any_of_from out [] = out
any_of_from out (p ∷ ps) =
    let rest = any_of_from (any_of_step p.m out.m p out) ps in elim p.m [ match_yes ↦ p | _ ↦ rest ]

unfoldable pub any_of : List Matched → Matched
unfolding any_of_from any_of_step
any_of parts = any_of_from (just match_no) parts

unfoldable pub empty_selector : Option LabelSelector → Bool
empty_selector none = true
empty_selector (some sel) = length sel.match_labels == 0 && length sel.match_expressions == 0

-- What a policy applies to.
pub record Subject : Type 0 where
  pub ns : Option LabelSelector
  pub pod : Option LabelSelector
  -- the source's `none`
  pub nothing : Bool

module _ (x : External) where
  selects : Option LabelSelector → Labels → Match
  selects none lbls = match_yes
  selects (some sel) lbls = elim (x.as_selector sel) [
    | none ↦ match_cond
    | some matches ↦ if matches lbls then match_yes else match_no
  ]

  unfoldable pub match_selector : Option LabelSelector → Labels → Match
  unfolding selects
  match_selector sel lbls = if empty_selector sel then match_yes else selects sel lbls

  unfoldable pub pod_match : Option LabelSelector → Labels → Bool → Match
  pod_match sel pod_labels pod_scoped =
      if empty_selector sel
      then match_yes
      else if not pod_scoped
      then match_cond
      else match_selector sel pod_labels

  unfoldable pub subject_match : Subject → Labels → Labels → Bool → Match
  subject_match s ns_labels pod_labels pod_scoped =
      if s.nothing
      then match_no
      else combine_match (match_selector s.ns ns_labels) (pod_match s.pod pod_labels pod_scoped)
