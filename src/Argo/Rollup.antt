-- ===== src/Argo/Rollup.antt =====
-- internal/argo/argo.go: the rollup of each repository.
use dotvirt.Prelude.Maps.{lookup, insert}
use dotvirt.Forge.{Net, normalize_repo_url}
use dotvirt.Argo.{
  SyncStatus, is_synced, ProjectSync, Fields, Reader, as_string, nested_objects, nested_string,
  sync_status, short_rev, one_of, rollup_severity,
}
use dotvirt.Argo.Reading.{error_condition, unhealthy_resources}
use dotvirt.Prelude.{
  leb, not, Option, none, some, List, [], map, Bytes, bytes, bytes_eq, if◌then◌else◌, ◌&&◌, ◌∷◌,
}

module _ (net : Net) (rd : Reader) where
  unfoldable pub source_repos : List Bytes → List Bytes
  source_repos [] = []
  source_repos (u ∷ us) =
      let rest = source_repos us in if bytes_eq u [] then rest else normalize_repo_url net u ∷ rest

  unfoldable pub app_repos : Fields → List Bytes
  app_repos app = source_repos (
      nested_string rd app (bytes "spec" ∷ bytes "source" ∷ bytes "repoURL" ∷ [])
      ∷ map (λ src. as_string src (bytes "repoURL"))
          (nested_objects rd app (bytes "spec" ∷ bytes "sources" ∷ [])))

  abbrev first_of : List Bytes → Bytes
  first_of [] = []
  first_of (r ∷ rs) = r

  unfoldable pub app_repo : Fields → Bytes
  app_repo app = first_of (app_repos app)

  unfoldable pub sync_error : Fields → Bytes → SyncStatus → Bytes
  sync_error app operation sync =
      let standing = one_of (bytes "Failed") (bytes "Error") operation && not (is_synced sync) in
      let said =
        rd.scrub
          (nested_string rd app (bytes "status" ∷ bytes "operationState" ∷ bytes "message" ∷ [])) in
      if standing && not (bytes_eq said []) then said else error_condition rd app

  -- what one Application says of its repository
  unfoldable pub rollup : Fields → ProjectSync
  rollup app =
      let sync =
        sync_status (nested_string rd app (bytes "status" ∷ bytes "sync" ∷ bytes "status" ∷ [])) in
      let operation =
        nested_string rd app (bytes "status" ∷ bytes "operationState" ∷ bytes "phase" ∷ []) in
      record {
        sync = sync;
        health = nested_string rd app (bytes "status" ∷ bytes "health" ∷ bytes "status" ∷ []);
        operation = operation;
        sync_error = sync_error app operation sync;
        revision =
            short_rev
              (nested_string rd app (bytes "status" ∷ bytes "sync" ∷ bytes "revision" ∷ []));
        unhealthy = unhealthy_resources rd app (one_of (bytes "Failed") (bytes "Error") operation);
      }

  unfoldable pub keep_worse :
      Bytes
      → ProjectSync
      → Option ProjectSync
      → List (Bytes × ProjectSync)
      → List (Bytes × ProjectSync)
  keep_worse repo ps none out = insert repo ps out
  keep_worse repo ps (some prev) out =
      if leb (rollup_severity prev) (rollup_severity ps) then insert repo ps out else out

  unfoldable pub add_app : Fields → List (Bytes × ProjectSync) → List (Bytes × ProjectSync)
  add_app app out =
      let repo = app_repo app in
      if bytes_eq repo [] then out else keep_worse repo (rollup app) (lookup repo out) out

  unfoldable pub sync_from : List Fields → List (Bytes × ProjectSync) → List (Bytes × ProjectSync)
  sync_from [] out = out
  sync_from (app ∷ apps) out = sync_from apps (add_app app out)

  unfoldable pub app_sync_from_apps : List Fields → List (Bytes × ProjectSync)
  app_sync_from_apps apps = sync_from apps []
