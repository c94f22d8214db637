-- ===== src/Netstate/View.antt =====
-- internal/model/policy.go: the rows that the Security view and the trace show.
use dotvirt.Prelude.{ℕ, String, Bool, Option, List}

pub data PolicyKind : Type 0 where
  dfw admin baseline gateway egressip route : PolicyKind

pub record PolicyRuleView : Type 0 where
  pub direction : String
  pub action : String
  pub peer : String
  pub ports : String

-- The fields that the read plane fills; the drift fields are filled by the API handlers.
pub record Policy : Type 0 where
  pub name : String
  pub kind : PolicyKind
  pub namespace : String
  pub backing : String
  pub priority : ℕ
  pub target : String
  pub namespaces : Option (List String)
  pub rules : List PolicyRuleView

pub record PolicyBinding : Type 0 where
  pub policy : Policy
  pub conditional : Bool
  pub note : String

pub record EffectivePolicy : Type 0 where
  pub namespace : String
  pub east_west : List PolicyBinding
  pub default_deny_ingress : Bool
  pub default_deny_egress : Bool
  pub gateway : List PolicyBinding
  pub snat : List PolicyBinding
  pub routes : List PolicyBinding

pub record TraceStep : Type 0 where
  pub stage : String
  pub direction : String
  pub policy : Option Policy
  pub rule : Option PolicyRuleView
  pub action : String
  pub conditional : Bool
  pub decisive : Bool
  pub note : String

pub record TraceResult : Type 0 where
  pub verdict : String
  pub steps : List TraceStep
