-- ===== src/Netstate/Trace/Direction.antt =====
-- internal/netstate/trace.go, `directionWalk`: one side of the flow through the east-west tiers.
use dotvirt.Prelude.{
  length, keep_if, any, concat, itoa, ℕ, String, Bool, true, false, not, Option, none, some, List,
  [], str_eq, ◌==◌, if◌then◌else◌, ◌&&◌, ◌||◌, ◌∷◌,
}
use dotvirt.Netstate.External.{External}
use dotvirt.Netstate.Match.{Match, match_no, match_yes, match_cond, Matched, just, all_of, is_yes}
use dotvirt.Netstate.Rule.{Rule}
use dotvirt.Netstate.Rule.Summary.{rule_view}
use dotvirt.Netstate.Decode.{rules}
use dotvirt.Netstate.Snapshot.{Snapshot, sorted_anps, baselines}
use dotvirt.Netstate.RuleMatch.{TraceWorkload, PeerTarget, unresolved, reason_subject, rule_match}
use dotvirt.Netstate.Effective.{Bound, bind, selecting_netpols}
use dotvirt.Netstate.Trace.Walk.{
  Walk, WalkResult, Flow, next, stop, start, add_step, maybe, decide, result,
}

-- the subject's verdict, with the reason that the closure adds
subject_verdict : Match → Matched
subject_verdict match_cond = unresolved reason_subject
subject_verdict m = just m

plural : ℕ → String → String → String
plural n one many = if n == 1 then one else many

-- strings.ToLower of the two directions
lower_dir : String → String
lower_dir dir = if str_eq dir "Ingress" then "ingress" else "egress"

isolated_note : ℕ → String → String
unfolding plural lower_dir
isolated_note n dir = concat (
    "Selected by "
    ∷ itoa n
    ∷ " project "
    ∷ plural n "policy" "policies"
    ∷ " for "
    ∷ lower_dir dir
    ∷ "; no rule allows this flow."
    ∷ [])

module _ (x : External) (dir : String) (peer : PeerTarget) (protocol : String) (port : ℕ) where
  -- the rule's verdict in an admin tier: the subject's and its own
  unfoldable pub admin_verdict : Bound → Rule → Matched
  unfolding subject_verdict
  admin_verdict b r = all_of (subject_verdict b.m ∷ rule_match x r peer protocol port ∷ [])

  -- a rule that matches for certain
  unfoldable pub admin_hit : Bool → String → Bound → Rule → Walk → Walk × Flow
  admin_hit baseline stage b r w =
      if not baseline && str_eq r.action "Pass"
      then (
        add_step (some b.pol.view) (some (rule_view r dir)) stage r.action
            "Delegates this flow to the project tier." false true w,
        stop none,
      )
      else (let w' =
            add_step (some b.pol.view) (some (rule_view r dir)) stage r.action "" false true w in
          (w', stop (some (decide r.action w'))))

  unfoldable pub admin_rules : Bool → String → Bound → List Rule → Walk → Walk × Flow
  admin_rules baseline stage b [] w = (w, next)
  admin_rules baseline stage b (r ∷ rs) w = elim (admin_verdict b r).m [
    | match_no ↦ admin_rules baseline stage b rs w
    | match_cond ↦ admin_rules baseline stage b rs (
        maybe (some b.pol.view) (some (rule_view r dir)) stage r.action (admin_verdict b r).reason
          w)
    | match_yes ↦ admin_hit baseline stage b r w
  ]

  -- The closure `adminTier`, over the bound policies; `none` is its nil.
  unfoldable pub admin_next :
      (Walk → Walk × Option WalkResult) → Walk × Flow → Walk × Option WalkResult
  admin_next more (w, next) = more w
  admin_next more (w, stop r) = (w, r)

  unfoldable pub admin_tier : Bool → String → List Bound → Walk → Walk × Option WalkResult
  admin_tier baseline stage [] w = (w, none)
  admin_tier baseline stage (b ∷ bs) w =
      admin_next (λ w'. admin_tier baseline stage bs w')
        (admin_rules baseline stage b (rules b.pol dir) w)

  -- The rules of one selecting policy.
  unfoldable pub project_rules : Bound → List Rule → Walk → Walk × Option WalkResult
  project_rules b [] w = (w, none)
  project_rules b (r ∷ rs) w = elim (rule_match x r peer protocol port).m [
    | match_no ↦ project_rules b rs w
    | match_cond ↦ project_rules b rs (
        maybe (some b.pol.view) (some (rule_view r dir)) "dfw" r.action
          (rule_match x r peer protocol port).reason w)
    | match_yes ↦
        (let w' =
            add_step (some b.pol.view) (some (rule_view r dir)) "dfw" r.action "" false true w in
          (w', some (decide r.action w')))
  ]

  unfoldable pub project_next :
      (Walk → Walk × Option WalkResult) → Walk × Option WalkResult → Walk × Option WalkResult
  project_next more (w, none) = more w
  project_next more (w, some r) = (w, some r)

  unfoldable pub project_tier : List Bound → Walk → Walk × Option WalkResult
  project_tier [] w = (w, none)
  project_tier (b ∷ bs) w =
      project_next (λ w'. project_tier bs w') (project_rules b (rules b.pol dir) w)

  -- Nothing allowed the flow: the tier denies it, if a policy selects for certain.
  unfoldable pub project_default : ℕ → Bound → Bool → Walk → WalkResult
  unfolding isolated_note
  project_default count first definite w =
      if not definite
      then result "Conditional" (
          add_step (some first.pol.view) none "dfw" "Deny"
            (concat (isolated_note count dir ∷ " Selection could not be resolved." ∷ [])) true false
            w)
      else decide "Deny"
          (add_step (some first.pol.view) none "dfw" "Deny" (isolated_note count dir) false true w)

  unfoldable pub isolates : Bound → Bool
  isolates b = not (
      str_eq dir "Ingress" && not b.pol.deny_ingress
      || str_eq dir "Egress" && not b.pol.deny_egress)

  unfoldable pub default_tier : Walk → WalkResult
  default_tier w = decide "Allow" (
      add_step none none "default" "Allow"
        "No policy matches this flow - the network default allows it." false true w)

  unfoldable pub finish_baseline : Walk × Option WalkResult → WalkResult
  finish_baseline (w, some r) = r
  finish_baseline (w, none) = default_tier w

  unfoldable pub finish_project : Bound → List Bound → Walk × Option WalkResult → WalkResult
  finish_project b bs (w, some r) = r
  finish_project b bs (w, none) =
      project_default (length (b ∷ bs)) b (any (λ (c : Bound). is_yes c.m) (b ∷ bs)) w

  -- Below the admin tier: `selecting` isolate the direction, or else the baseline is asked.
  unfoldable pub lower_tiers : List Bound → List Bound → Walk → WalkResult
  lower_tiers [] base w = finish_baseline (admin_tier true "baseline" base w)
  lower_tiers (b ∷ bs) base w = finish_project b bs (project_tier (b ∷ bs) w)

  unfoldable pub finish_admin : List Bound → List Bound → Walk × Option WalkResult → WalkResult
  finish_admin selecting base (w, some r) = r
  finish_admin selecting base (w, none) =
      lower_tiers selecting base
        (record w { cond_actions = keep_if (λ a. not (str_eq a "Pass")) w.cond_actions })

  -- The three tiers, over the policies that may bind.
  unfoldable pub tiers : List Bound → List Bound → List Bound → WalkResult
  tiers admins selecting base =
      finish_admin selecting base (admin_tier false "admin" admins (start dir))

  unfoldable pub direction_walk : Snapshot → TraceWorkload → WalkResult
  direction_walk s subject =
      tiers (bind x (sorted_anps s) subject.ns_labels subject.pod_labels true)
        (keep_if isolates (selecting_netpols x s subject.namespace subject.pod_labels true))
        (bind x (baselines s) subject.ns_labels subject.pod_labels true)
