-- ===== src/Netstate/Trace/Resolution.antt =====
-- The reference for a walk: every verdict that a rule or a selection leaves open is resolved one way
-- or the other, and the tiers are evaluated as the cluster does, with nothing conditional left.
use dotvirt.Prelude.{
  ℕ, String, Bool, true, false, not, Option, none, some, List, [], str_eq, if◌then◌else◌, ◌≡◌, ◌&&◌,
  ◌∷◌,
}
use dotvirt.Netstate.External.{External}
use dotvirt.Netstate.Match.{Match, match_no, match_yes, match_cond}
use dotvirt.Netstate.Rule.{Rule}
use dotvirt.Netstate.Decode.{rules}
use dotvirt.Netstate.RuleMatch.{PeerTarget, rule_match}
use dotvirt.Netstate.Effective.{Bound}
use dotvirt.Netstate.Trace.Direction.{admin_verdict}

-- A certain verdict is kept, an open one may go either way.
abbrev pub Settles : Match → Bool → Type 0
Settles match_no b = b ≡ false
Settles match_yes b = b ≡ true
Settles match_cond b = Unit

pub data Decision : Type 0 where
  undecided delegated : Decision
  decided : String → Decision

module _ (x : External) (dir : String) (peer : PeerTarget) (protocol : String) (port : ℕ) where
  -- Which rules match, and which NetworkPolicies select the workload.
  pub record Resolution : Type 0 where
    pub admin_applies : Bound → Rule → Bool
    pub rule_applies : Bound → Rule → Bool
    pub selects : Bound → Bool
    pub admin_settles :
        (b : Bound) (r : Rule)
        → Settles (admin_verdict x dir peer protocol port b r).m (admin_applies b r)
    pub rule_settles :
        (b : Bound) (r : Rule) → Settles (rule_match x r peer protocol port).m (rule_applies b r)
    pub select_settles : (b : Bound) → Settles b.m (selects b)

-- The first rule of an admin tier that applies decides; in the upper tier Pass hands down.
unfoldable pub first_rule : (Rule → Bool) → Bool → List Rule → Decision
first_rule applies baseline [] = undecided
first_rule applies baseline (r ∷ rs) =
    let rest = first_rule applies baseline rs in
    if applies r
    then (if not baseline && str_eq r.action "Pass" then delegated else decided r.action)
    else rest

-- The first decision stands.
unfoldable pub or_next : Decision → Decision → Decision
or_next undecided d = d
or_next delegated d = delegated
or_next (decided a) d = decided a

unfoldable pub first_policy : (Bound → Rule → Bool) → String → Bool → List Bound → Decision
first_policy applies dir baseline [] = undecided
first_policy applies dir baseline (b ∷ bs) =
    or_next (first_rule (applies b) baseline (rules b.pol dir))
      (first_policy applies dir baseline bs)

-- The first rule of the selecting policies that applies gives the action.
unfoldable pub allow_rule : (Rule → Bool) → List Rule → Option String
allow_rule applies [] = none
allow_rule applies (r ∷ rs) =
    let rest = allow_rule applies rs in if applies r then some r.action else rest

unfoldable pub or_else : Option String → Option String → Option String
or_else none o = o
or_else (some a) o = some a

unfoldable pub allow_list : (Bound → Rule → Bool) → String → List Bound → Option String
allow_list applies dir [] = none
allow_list applies dir (b ∷ bs) =
    or_else (allow_rule (applies b) (rules b.pol dir)) (allow_list applies dir bs)

-- an undecided baseline leaves the network default
unfoldable pub baseline_action : Decision → String
baseline_action (decided a) = a
baseline_action _ = "Allow"

unfoldable pub isolated_action : Option String → String
isolated_action none = "Deny"
isolated_action (some a) = a

module _ (admin_applies rule_applies : Bound → Rule → Bool) (dir : String) where
  unfoldable pub lower_action : List Bound → List Bound → String
  lower_action [] base = baseline_action (first_policy admin_applies dir true base)
  lower_action (b ∷ bs) base = isolated_action (allow_list rule_applies dir (b ∷ bs))

  unfoldable pub admin_action : Decision → List Bound → List Bound → String
  admin_action (decided a) selecting base = a
  admin_action undecided selecting base = lower_action selecting base
  admin_action delegated selecting base = lower_action selecting base

  -- What happens to the flow: the admin tier, then the allow list of the policies that select the
  -- workload, with default deny, or the baseline where none does, then the network default.
  unfoldable pub action_of : List Bound → List Bound → List Bound → String
  action_of admins selecting base =
      admin_action (first_policy admin_applies dir false admins) selecting base
