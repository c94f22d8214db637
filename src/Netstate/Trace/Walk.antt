-- ===== src/Netstate/Trace/Walk.antt =====
-- internal/netstate/trace.go, `walk`: the steps of one pass, and the actions of the rules that may
-- match. The mutable state is passed along.
use dotvirt.Prelude.{
  any, concat, String, Bool, true, false, Option, none, some, List, [], str_eq, if◌then◌else◌, ◌&&◌,
  ◌∷◌, ◌++◌,
}
use dotvirt.Netstate.View.{Policy, PolicyRuleView, TraceStep}

pub record Walk : Type 0 where
  pub dir : String
  pub steps : List TraceStep
  pub cond_actions : List String

pub record WalkResult : Type 0 where
  pub steps : List TraceStep
  pub outcome : String

-- What a loop over rules leaves: the rules are exhausted, or the closure returns.
pub data Flow : Type 0 where
  next : Flow
  stop : Option WalkResult → Flow

abbrev pub start : String → Walk
start dir = record { dir = dir; steps = []; cond_actions = [] }

-- the step carries the policy without its rules
without_rules : Option Policy → Option Policy
without_rules none = none
without_rules (some p) = some (record p { rules = [] })

unfoldable pub add_step :
    Option Policy → Option PolicyRuleView → String → String → String → Bool → Bool → Walk → Walk
unfolding without_rules
add_step pol rule stage action note cond decisive w = record w {
  steps =
      w.steps
      ++ record {
        stage = stage;
        direction = w.dir;
        policy = without_rules pol;
        rule = rule;
        action = action;
        conditional = cond;
        decisive = decisive;
        note = note;
      }
        ∷ [];
}

unfoldable pub maybe :
    Option Policy → Option PolicyRuleView → String → String → String → Walk → Walk
unfolding add_step
maybe pol rule stage action reason w =
    let w' =
      add_step pol rule stage action (concat ("May match: " ∷ reason ∷ "." ∷ [])) true false w in
    record w' { cond_actions = w'.cond_actions ++ action ∷ [] }

unfoldable pub result : String → Walk → WalkResult
result outcome w = record { steps = w.steps; outcome = outcome }

unfoldable pub agree : String → List String → Bool
agree action [] = true
agree action (a ∷ as') = str_eq a action && agree action as'

unfoldable pub decide : String → Walk → WalkResult
unfolding result agree
decide action w = if agree action w.cond_actions then result action w else result "Conditional" w

-- The verdict over the directional outcomes.
unfoldable pub verdict : List WalkResult → String
verdict rs =
    if any (λ (r : WalkResult). str_eq r.outcome "Deny") rs
    then "Deny"
    else if any (λ (r : WalkResult). str_eq r.outcome "Conditional") rs
    then "Conditional"
    else "Allow"
