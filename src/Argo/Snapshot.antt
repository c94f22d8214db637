-- ===== src/Argo/Snapshot.antt =====
-- internal/argo/snapshot.go: the memoized drift over the store of Applications, and what else is read of
-- them. A store is the list of its objects. The live lookup, the JSON of a patch and the patch itself
-- are parameters; WaitForSync, Healthy and the wiring of the reflector are left out.
pub mod Memo
use dotvirt.Prelude.Sort.{sort_by}
use dotvirt.Forge.{Net, normalize_repo_url}
use dotvirt.Argo.{
  SyncStatus, unset, synced, out_of_sync, not_tracked, pending, unknown, Drift, ProjectSync, Any,
  text, truth, object, other, Fields, Reader, value_at, as_string, nested_objects, nested_string,
}
use dotvirt.Argo.Keys.{ResKey, find_key}
use dotvirt.Argo.Reading.{status_resources, resource_drift_from_apps, vm_view}
use dotvirt.Argo.Rollup.{app_sync_from_apps, app_repos}
use dotvirt.Prelude.{
  length, keep_if, any, all, ℕ, Bool, true, false, not, Option, none, some, List, [], map, Bytes,
  bytes, bytes_eq, bytes_lt, ◌==◌, if◌then◌else◌, ◌+◌, ◌%◌, ◌&&◌, ◌||◌, ◌∷◌, ◌++◌,
}

pub record App : Type 0 where
  pub namespace : Bytes
  pub name : Bytes
  pub object : Fields

pub record Snapshot : Type 0 where
  pub apps : List App
  pub is_synced : Bool
  pub resource_cache : Option (List (ResKey × Drift))
  pub drift_cache : List (Bytes × Drift)
  pub app_sync_cache : List (Bytes × ProjectSync)
  pub drift_dirty : Bool
  pub obj_gen : ℕ

unfoldable pub app_key : App → Bytes
app_key a = a.namespace ++ 47 ∷ a.name

unfoldable pub by_app_key : App → App → Bool
by_app_key a b = bytes_lt (app_key a) (app_key b)

unfoldable pub is_vm_key : ResKey → Bool
is_vm_key k = bytes_eq k.group (bytes "kubevirt.io") && bytes_eq k.kind (bytes "VirtualMachine")

unfoldable pub sync_index : SyncStatus → ℕ
sync_index unset = 0
sync_index synced = 1
sync_index out_of_sync = 2
sync_index not_tracked = 3
sync_index pending = 4
sync_index unknown = 5

-- `==` on Drift
unfoldable pub same_drift : Drift → Drift → Bool
same_drift a b =
    sync_index a.sync == sync_index b.sync
    && (bytes_eq a.health b.health && bytes_eq a.message b.message)

abbrev pub is_same_drift : Drift → Option Drift → Bool
is_same_drift d none = false
is_same_drift d (some bd) = same_drift d bd

unfoldable pub non_vm : List (ResKey × Drift) → List (ResKey × Drift)
non_vm m = keep_if (λ (e : ResKey × Drift). not (is_vm_key e.0)) m

unfoldable pub non_vm_equal : List (ResKey × Drift) → List (ResKey × Drift) → Bool
non_vm_equal a b =
    length (non_vm a) == length (non_vm b)
    && all (λ (e : ResKey × Drift). is_same_drift e.1 (find_key e.0 b)) (non_vm a)

-- a nil map has no entries
abbrev pub entries : Option (List (ResKey × Drift)) → List (ResKey × Drift)
entries none = []
entries (some m) = m

-- the guard of rebuildLocked, which takes the flag where there is a cache
unfoldable pub needs_rebuild : Snapshot → Bool
needs_rebuild s = elim s.resource_cache [ none ↦ true | some m ↦ s.drift_dirty ]

unfoldable pub swapped : Snapshot → Snapshot
swapped s = record s {
  drift_dirty = elim s.resource_cache [ none ↦ s.drift_dirty | some m ↦ false ];
}

abbrev pub manifests : List App → List Fields
manifests apps = map App.object (sort_by by_app_key apps)

unfoldable pub manages_vm : Bytes → Bytes → Fields → Bool
manages_vm namespace name res =
    bytes_eq (as_string res (bytes "kind")) (bytes "VirtualMachine")
    && (bytes_eq (as_string res (bytes "namespace")) namespace
        && bytes_eq (as_string res (bytes "name")) name)

module _ (net : Net) (rd : Reader) where
  -- the rest of rebuildLocked, which lists the store
  unfoldable pub rebuilt : Snapshot → Snapshot
  rebuilt s =
      let all_drift = resource_drift_from_apps rd (manifests s.apps) in
      record s {
        resource_cache = some all_drift;
        drift_cache = vm_view all_drift;
        app_sync_cache = app_sync_from_apps net rd (manifests s.apps);
        obj_gen =
            if non_vm_equal (entries s.resource_cache) all_drift
            then s.obj_gen
            else (s.obj_gen + 1) % 18446744073709551616;
      }

  unfoldable pub rebuild_locked : Snapshot → Snapshot
  rebuild_locked s = if needs_rebuild s then rebuilt (swapped s) else swapped s

  -- nil before the first list
  unfoldable pub drift : Snapshot → Option (List (Bytes × Drift)) × Snapshot
  drift s =
      if s.is_synced then (some (rebuild_locked s).drift_cache, rebuild_locked s) else (none, s)

  unfoldable pub project_drift : Snapshot → Option (List (Bytes × ProjectSync)) × Snapshot
  project_drift s =
      if s.is_synced then (some (rebuild_locked s).app_sync_cache, rebuild_locked s) else (none, s)

  unfoldable pub resource_drift : ResKey → Snapshot → Option Drift × Snapshot
  resource_drift k s =
      if s.is_synced
      then (find_key k (entries (rebuild_locked s).resource_cache), rebuild_locked s)
      else (none, s)

  unfoldable pub object_drift_gen : Snapshot → ℕ × Snapshot
  object_drift_gen s =
      if s.is_synced then ((rebuild_locked s).obj_gen, rebuild_locked s) else (0, s)

  unfoldable pub sources : Bytes → App → Bool
  sources repo a = any (bytes_eq repo) (app_repos net rd a.object)

  -- the names under which an Application may be claimed
  unfoldable pub foreign_names : Bytes → List App → List Bytes
  foreign_names own [] = []
  foreign_names own (a ∷ apps) =
      let rest = foreign_names own apps in
      if not (bytes_eq own []) && sources own a
      then rest
      else a.name ∷ (a.namespace ++ 95 ∷ a.name) ∷ app_key a ∷ rest

  unfoldable pub foreign_apps : Bytes → Snapshot → Option (List Bytes)
  foreign_apps own_repo s =
      if s.is_synced then some (foreign_names (normalize_repo_url net own_repo) s.apps) else none

  -- appSourcesAny for each Application: whom RefreshForRepo patches
  unfoldable pub refreshed : List Bytes → Snapshot → List App
  refreshed repos s =
      let want = keep_if (λ r. not (bytes_eq r [])) (map (normalize_repo_url net) repos) in
      if s.is_synced then keep_if (λ a. any (λ r. sources r a) want) s.apps else []

pub record AppRef : Type 0 where
  pub namespace : Bytes
  pub name : Bytes
  pub target_revision : Bytes

module _ (rd : Reader) where
  unfoldable pub app_ref_of : App → AppRef
  app_ref_of a = record {
    namespace = a.namespace;
    name = a.name;
    target_revision =
        nested_string rd a.object (bytes "spec" ∷ bytes "source" ∷ bytes "targetRevision" ∷ []);
  }

  unfoldable pub app_manages_vm : Bytes → Bytes → Fields → Bool
  app_manages_vm namespace name app =
      any (manages_vm namespace name) (nested_objects rd app status_resources)

  unfoldable pub first_managing : Bytes → Bytes → List App → Option AppRef
  first_managing namespace name [] = none
  first_managing namespace name (a ∷ apps) =
      let rest = first_managing namespace name apps in
      if app_manages_vm namespace name a.object then some (app_ref_of a) else rest

  unfoldable pub managing_app : Bytes → Bytes → Snapshot → Option AppRef
  managing_app namespace name s = if s.is_synced then first_managing namespace name s.apps else none

-- what Resync syncs, and to which revision: `live` is the lookup that it falls back to; none is not found
unfoldable pub sync_target : Option AppRef → Option AppRef → Option (AppRef × Bytes)
sync_target none none = none
sync_target none (some live) =
    some (live, if bytes_eq live.target_revision [] then bytes "HEAD" else live.target_revision)
sync_target (some ref) live =
    some (ref, if bytes_eq ref.target_revision [] then bytes "HEAD" else ref.target_revision)

pub record ObjectRef : Type 0 where
  pub kind : Bytes
  pub namespace : Bytes
  pub name : Bytes

abbrev pub is_true : Option Any → Bool
is_true none = false
is_true (some (truth b)) = b
is_true (some (text s)) = false
is_true (some (object m)) = false
is_true (some other) = false

unfoldable pub ref_of : Fields → ObjectRef
ref_of res = record {
  kind = as_string res (bytes "kind");
  namespace = as_string res (bytes "namespace");
  name = as_string res (bytes "name");
}

unfoldable pub is_pruned : List Bytes → Fields → Bool
is_pruned namespaces res =
    is_true (value_at (bytes "requiresPruning") res)
    && (not (bytes_eq (as_string res (bytes "kind")) [])
        && (not (bytes_eq (as_string res (bytes "name")) [])
            && any (bytes_eq (as_string res (bytes "namespace"))) namespaces))

unfoldable pub by_place : ObjectRef → ObjectRef → Bool
by_place a b =
    if not (bytes_eq a.namespace b.namespace)
    then bytes_lt a.namespace b.namespace
    else if not (bytes_eq a.kind b.kind)
    then bytes_lt a.kind b.kind
    else bytes_lt a.name b.name

module _ (net : Net) (rd : Reader) where
  unfoldable pub pruned_refs : List Bytes → List App → List ObjectRef
  pruned_refs namespaces [] = []
  pruned_refs namespaces (a ∷ apps) =
      map ref_of (keep_if (is_pruned namespaces) (nested_objects rd a.object status_resources))
      ++ pruned_refs namespaces apps

  unfoldable pub prune_pending : Bytes → List Bytes → Snapshot → List ObjectRef
  prune_pending repo namespaces s =
      let own = normalize_repo_url net repo in
      if not s.is_synced || bytes_eq own []
      then []
      else sort_by by_place (pruned_refs namespaces (keep_if (sources net rd own) s.apps))
