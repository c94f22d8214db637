-- ===== src/Project.antt =====
-- internal/project/project.go: the tenants that the namespaces of the cluster name, for one caller. The
-- log of reserved names, and the set that keeps it short, are left out. A map is a function or an
-- association list; the order in which Go ranges over a map is not seen, since the result is sorted by
-- its keys.
pub mod Member
pub mod Tenancy
use dotvirt.Prelude.{
  any, Bool, true, not, Option, none, some, List, [], map, Bytes, bytes, bytes_eq, bytes_lt,
  if◌then◌else◌, ◌∷◌, ◌++◌,
}
use dotvirt.Prelude.Sort.{sort_by}
use dotvirt.Prelude.Maps.{lookup, insert}
use dotvirt.Forge.{Net, resolve_ref}

pub record ProjectInfo : Type 0 where
  pub name : Bytes
  pub repo : Bytes
  pub namespaces : List Bytes
  pub error : Bytes

pub record Namespace : Type 0 where
  pub name : Bytes
  pub labels : List (Bytes × Bytes)
  pub annotations : List (Bytes × Bytes)

pub record Resolver : Type 0 where
  pub project_label : Bytes
  pub repo_anno : Bytes
  pub forge_base : Bytes

abbrev pub platform_name : Bytes
platform_name = bytes "platform"

pub record Accum : Type 0 where
  pub namespaces : List Bytes
  pub repos : List Bytes

abbrev pub no_accum : Accum
no_accum = record { namespaces = []; repos = [] }

-- a read of a missing key gives the empty text
unfoldable pub read_key : Bytes → List (Bytes × Bytes) → Bytes
read_key k m = elim (lookup k m) [ none ↦ [] | some v ↦ v ]

-- `nil` is no filter
unfoldable pub is_visible : Option (Bytes → Bool) → Bytes → Bool
is_visible none n = true
is_visible (some visible) n = visible n

unfoldable pub add_repo : Bytes → List Bytes → List Bytes
add_repo r repos = if any (bytes_eq r) repos then repos else r ∷ repos

unfoldable pub or_new : Option Accum → Accum
or_new none = no_accum
or_new (some a) = a

unfoldable pub by_project_name : ProjectInfo → ProjectInfo → Bool
by_project_name a b = bytes_lt a.name b.name

-- `len(a.repos)` decides
unfoldable pub repo_of : List Bytes → Bytes × Bytes
repo_of [] = ([], bytes "no repo configured (set the dotvirt.io/repo annotation)")
repo_of (r ∷ []) = (
  r,
  if bytes_eq r []
      then bytes "repo ref is relative but no forge is configured to resolve it"
      else [],
)
repo_of (r ∷ q ∷ rs) =
    ([], bytes "conflicting dotvirt.io/repo annotations across the project's namespaces")

unfoldable pub info_of : Bytes × Accum → ProjectInfo
unfolding repo_of
info_of (name, a) = record {
  name = name;
  repo = (repo_of a.repos).0;
  namespaces = sort_by bytes_lt a.namespaces;
  error = (repo_of a.repos).1;
}

module _ (net : Net) (r : Resolver) where
  -- the project that a namespace is labeled with
  unfoldable pub label_of : Namespace → Bytes
  label_of ns = read_key r.project_label ns.labels

  unfoldable pub repo_ref : Namespace → Bytes
  repo_ref ns = read_key r.repo_anno ns.annotations

  unfoldable pub join_accum : Namespace → Accum → Accum
  join_accum ns a = record {
    namespaces = a.namespaces ++ ns.name ∷ [];
    repos =
        if bytes_eq (repo_ref ns) []
        then a.repos
        else add_repo (resolve_ref net r.forge_base (repo_ref ns)) a.repos;
  }

  module _ (visible : Option (Bytes → Bool)) where
    unfoldable pub group_one : Namespace → List (Bytes × Accum) → List (Bytes × Accum)
    group_one ns m =
        if not (is_visible visible ns.name)
        then m
        else if bytes_eq (label_of ns) []
        then m
        else if bytes_eq (label_of ns) platform_name
        then m
        else insert (label_of ns) (join_accum ns (or_new (lookup (label_of ns) m))) m

    unfoldable pub group : List Namespace → List (Bytes × Accum) → List (Bytes × Accum)
    group [] m = m
    group (ns ∷ nss) m = group nss (group_one ns m)

    unfoldable pub resolve : List Namespace → List ProjectInfo
    resolve nss = sort_by by_project_name (map info_of (group nss []))
