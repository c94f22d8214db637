-- ===== src/Access/Scopes.antt =====
-- internal/api/scope.go: the project that a request is for.
use dotvirt.Prelude.{
  any, ℕ, Bool, true, false, not, Option, none, some, List, [], Bytes, bytes, bytes_eq,
  if◌then◌else◌, ◌∷◌, ◌++◌,
}
use dotvirt.Forge.{Net}
use dotvirt.Project.{ProjectInfo, platform_name, resolve}
use dotvirt.Access.{
  Times, unavailable, not_found, forbidden, invalid, Answer, ok, err, CreateRef, Caller, Server,
  Scope, visible_for, can_create_cached, find_project, owning_project,
}

-- `platformAuthorResources`
abbrev pub platform_author_resources : List CreateRef
platform_author_resources =
    record { api_group = bytes "k8s.ovn.org"; plural = bytes "clusteruserdefinednetworks" }
    ∷ record { api_group = bytes "operator.openshift.io"; plural = bytes "kubedeschedulers" }
    ∷ record { api_group = bytes "template.kubevirt.io"; plural = bytes "virtualmachinetemplates" }
    ∷ []

abbrev pub plain_scope : Caller → ProjectInfo → Scope
plain_scope c p = record { caller = c; proj = p; platform = false }

-- `containerScope` before it narrows to a project: a scope with no project
abbrev pub no_project : ProjectInfo
no_project = record { name = []; repo = []; namespaces = []; error = [] }

unfoldable pub pick_or_fail : Option ProjectInfo → Answer ProjectInfo
pick_or_fail none = err not_found
pick_or_fail (some p) = ok p

unfoldable pub scope_of : Caller → Answer ProjectInfo → Answer Scope
scope_of c (err e) = err e
scope_of c (ok p) = ok (plain_scope c p)

unfoldable pub backed_namespaces : List ProjectInfo → List Bytes
backed_namespaces [] = []
backed_namespaces (p ∷ ps) =
    let rest = backed_namespaces ps in
    if not (bytes_eq p.repo []) then p.namespaces ++ rest else rest

-- `?namespace=`
unfoldable pub narrow_namespace :
    Caller → ProjectInfo → Bytes → List ProjectInfo → Answer (Scope × List Bytes)
narrow_namespace c p ns projects =
    if bytes_eq ns []
    then ok (plain_scope c p, backed_namespaces projects)
    else elim (owning_project projects ns) [
      | none ↦ err not_found
      | some q ↦
          if bytes_eq q.repo [] then ok (plain_scope c q, []) else ok (plain_scope c q, ns ∷ [])
    ]

-- `?project=` first
unfoldable pub narrow : Caller → Bytes → Bytes → List ProjectInfo → Answer (Scope × List Bytes)
narrow c want ns projects =
    if bytes_eq want []
    then narrow_namespace c no_project ns projects
    else elim (find_project projects want) [
      | none ↦ err not_found
      | some p ↦ narrow_namespace c p ns (p ∷ [])
    ]

unfoldable pub platform_project : Server → ProjectInfo
platform_project s = record {
  name = platform_name;
  repo = s.platform_repo;
  namespaces = [];
  error = [];
}

unfoldable pub with_projects :
    Caller → Answer (List ProjectInfo) × Server → Answer (Caller × List ProjectInfo) × Server
with_projects c (err e, s) = (err e, s)
with_projects c (ok ps, s) = (ok (c, ps), s)

module _ (net : Net) (token_key : Bytes → Bytes) where
  unfoldable pub resolved_for : Server → ℕ → Answer (List Bytes) → Answer (List ProjectInfo)
  resolved_for s t (err e) = err e
  resolved_for s t (ok visible) =
      ok (resolve net s.resolver (some (λ n. any (λ v. bytes_eq v n) visible)) (s.namespaces t))

  unfoldable pub projects_for : Times → Caller → Server → Answer (List ProjectInfo) × Server
  projects_for times caller s =
      let (a, t) = visible_for net token_key times caller s in (resolved_for s times.resolved a, t)

  -- `userCluster` failed, or the caller's projects
  unfoldable pub caller_projects :
      Times → Option Caller → Server → Answer (Caller × List ProjectInfo) × Server
  caller_projects times none s = (err unavailable, s)
  caller_projects times (some c) s = with_projects c (projects_for times c s)

  unfoldable pub pick_scope :
      (List ProjectInfo → Option ProjectInfo)
      → Answer (Caller × List ProjectInfo) × Server
      → Answer Scope × Server
  pick_scope pick (err e, s) = (err e, s)
  pick_scope pick (ok (c, projects), s) = (scope_of c (pick_or_fail (pick projects)), s)

  unfoldable pub resolve_project :
      Times
      → Option Caller
      → (List ProjectInfo → Option ProjectInfo)
      → Server
      → Answer Scope × Server
  resolve_project times caller pick s = pick_scope pick (caller_projects times caller s)

  unfoldable pub narrowed :
      Bytes
      → Bytes
      → Answer (Caller × List ProjectInfo) × Server
      → Answer (Scope × List Bytes) × Server
  narrowed want ns (err e, s) = (err e, s)
  narrowed want ns (ok (c, projects), s) = (narrow c want ns projects, s)

  unfoldable pub container_scope :
      Times → Option Caller → Bytes → Bytes → Server → Answer (Scope × List Bytes) × Server
  container_scope times caller want ns s = narrowed want ns (caller_projects times caller s)

  -- The loop of `canAuthorPlatform`: the first authority that is held ends it.
  unfoldable pub author_any : Times → Caller → List CreateRef → Server → Bool × Server
  author_any times caller [] s = (false, s)
  author_any times caller (r ∷ rs) s =
      let (held, t) = can_create_cached net token_key times caller r s in
      let rest = author_any times caller rs t in if held then (true, t) else rest

  unfoldable pub can_author_platform : Times → Caller → Server → Bool × Server
  can_author_platform times caller s =
      if bytes_eq s.platform_repo []
      then (false, s)
      else author_any times caller platform_author_resources s

  unfoldable pub platform_scope_with :
      Option Caller → (Caller → Server → Bool × Server) → Server → Answer Scope × Server
  platform_scope_with none authorized s = (err unavailable, s)
  platform_scope_with (some c) authorized s =
      if bytes_eq s.platform_repo []
      then (err unavailable, s)
      else (let (held, t) = authorized c s in
          (
            if held
                then ok (record { caller = c; proj = platform_project s; platform = true })
                else err forbidden,
            t,
          ))

  unfoldable pub platform_scope : Times → Option Caller → CreateRef → Server → Answer Scope × Server
  platform_scope times caller ref s =
      platform_scope_with caller (λ c t. can_create_cached net token_key times c ref t) s

  unfoldable pub pick_project : Times → Option Caller → Bytes → Server → Answer Scope × Server
  pick_project times caller want s =
      if bytes_eq want platform_name
      then platform_scope_with caller (λ c t. can_author_platform times c t) s
      else resolve_project times caller (λ ps. find_project ps want) s

  unfoldable pub draft_scope : Times → Option Caller → Bytes → Server → Answer Scope × Server
  draft_scope times caller want s =
      let picked = pick_project times caller want s in
      if bytes_eq want [] then (err invalid, s) else picked

  unfoldable pub vm_scope : Times → Option Caller → Bytes → Server → Answer Scope × Server
  vm_scope times caller ns s = resolve_project times caller (λ ps. owning_project ps ns) s

  -- without the filter of what a caller may see
  unfoldable pub all_projects : ℕ → Server → List ProjectInfo
  all_projects t s = resolve net s.resolver none (s.namespaces t)

  unfoldable pub project_by_name : ℕ → Bytes → Server → Option ProjectInfo
  project_by_name t name s = find_project (all_projects t s) name
