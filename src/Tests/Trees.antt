-- ===== src/Tests/Trees.antt =====
-- Runs of the drift reading and of the inventory on one machine.
use dotvirt.Prelude.Maps.{lookup}
use dotvirt.Prelude.Sort.{count_if, sort_by}
use dotvirt.Stream.{keys_eq}
use dotvirt.Project.{ProjectInfo, Namespace}
use dotvirt.Clusterstate.{stopped}
use dotvirt.Argo.{ProjectSync, synced, Drift, Fields, text, object, no_fields, field, Reader}
use dotvirt.Argo.Keys.{ResKey, key_of, find_key}
use dotvirt.Argo.Reading.{vm_view, status_resources, sync_results, resource_drift_from_apps}
use dotvirt.Argo.Rollup.{app_sync_from_apps}
use dotvirt.Argo.Snapshot.{App, manifests, drift, project_drift}
use dotvirt.Argo.Snapshot.Memo.{Watched, here, and_then, stores, marks, drift-OfStore}
use dotvirt.Argo.Tracked.{is_some_drift, is_listed, resource_drift-exact}
use dotvirt.Argo.Worst.{apps_of, AtLeast, app_sync-worst}
use dotvirt.Inventory.{
  cluster_only, ProjectNamespace, machines, Inputs, allowed, by_vm_name, build_project,
}
use dotvirt.Inventory.Tree.{rows_shown, is_entry_of, Shown, build_project-buckets}
use dotvirt.Inventory.Adopt.{
  AdoptableNamespace, adoptable, is_candidate, machines_in, adoptable-exact,
}
use dotvirt.Tests.Tenants.{plain}
use dotvirt.Prelude.{
  refl, true, false, none, some, [], Elem, Bytes, bytes, if◌then◌else◌, ◌<◌, ◌≡◌, ◌↔◌, ◌⊎◌, ◌∷◌,
}

abbrev entry_of_web : Bytes → Fields
entry_of_web status = field (bytes "kind") (text (bytes "VirtualMachine")) (
    field (bytes "name") (text (bytes "web")) (
      field (bytes "status") (text status)
        (field (bytes "message") (text (bytes "denied")) no_fields)))

-- an Application that lists one machine as Synced, after an apply of it failed
abbrev one_app : Reader
one_app = record {
  nested_slice = λ app path.
      if keys_eq path status_resources
      then some (object (entry_of_web (bytes "Synced")) ∷ [])
      else if keys_eq path sync_results
      then some (object (entry_of_web (bytes "SyncFailed")) ∷ [])
      else none;
  nested_string = λ app path. some (bytes "git/shop");
  scrub = λ msg. msg;
}

abbrev web_key : ResKey
web_key = key_of (entry_of_web [])

resource_drift-exact_example :
    (is_some_drift (find_key web_key (resource_drift_from_apps one_app (no_fields ∷ [])))
      ≡ is_listed one_app web_key (no_fields ∷ []))
    × ((d : Drift)
        → find_key web_key (resource_drift_from_apps one_app (no_fields ∷ [])) ≡ some d
        → d.sync ≡ synced
        → d.message ≡ [])
resource_drift-exact_example = resource_drift-exact one_app web_key (no_fields ∷ [])

app_sync-worst_example :
    ((apps_of plain one_app (bytes "git/shop") (no_fields ∷ []) ≡ [])
      × (lookup (bytes "git/shop") (app_sync_from_apps plain one_app (no_fields ∷ [])) ≡ none))
    ⊎ ((w : ProjectSync) × (lookup
            (bytes "git/shop")
            (app_sync_from_apps plain one_app (no_fields ∷ []))
          ≡ some w)
        × Elem w (apps_of plain one_app (bytes "git/shop") (no_fields ∷ []))
        × AtLeast (apps_of plain one_app (bytes "git/shop") (no_fields ∷ [])) w)
app_sync-worst_example =
    app_sync-worst plain one_app (bytes "git/shop") (no_fields ∷ []) (λ e. cc e)

abbrev shop_app : App
shop_app = record { namespace = bytes "argocd"; name = bytes "shop"; object = no_fields }

-- the first list has landed, and nothing was read
abbrev unread : Watched
unread = record {
  snap = record {
    apps = [];
    is_synced = true;
    resource_cache = none;
    drift_cache = [];
    app_sync_cache = [];
    drift_dirty = false;
    obj_gen = 0;
  };
  unmarked = 0;
  is_listing = false;
}

abbrev stored : Watched
stored = record unread { snap = record unread.snap { apps = shop_app ∷ [] }; unmarked = 1 }

abbrev marked : Watched
marked = record stored { snap = record stored.snap { drift_dirty = true }; unmarked = 0 }

drift-OfStore_example :
    ((drift plain one_app marked.snap).0
      ≡ some (vm_view (resource_drift_from_apps one_app (manifests (shop_app ∷ [])))))
    × ((project_drift plain one_app marked.snap).0
        ≡ some (app_sync_from_apps plain one_app (manifests (shop_app ∷ []))))
drift-OfStore_example =
    drift-OfStore plain one_app {v = unread} {w = marked} refl
      (and_then (and_then here (stores unread (shop_app ∷ []))) (marks stored 0 refl)) refl refl
      refl

abbrev shop_info : ProjectInfo
shop_info = record {
  name = bytes "shop";
  repo = bytes "git/shop";
  namespaces = bytes "shop-web" ∷ [];
  error = [];
}

-- git has one machine, and another one lives beside it
abbrev shop_inputs : Inputs
shop_inputs = record {
  read = λ repo. machines (cluster_only (bytes "shop-web") (bytes "web") ∷ []);
  live = (bytes "shop-web/db", stopped) ∷ (bytes "other/web", stopped) ∷ [];
  drift = none;
  project_drift = none;
}

abbrev web_bucket : ProjectNamespace
web_bucket = record {
  namespace = bytes "shop-web";
  vms = sort_by by_vm_name (rows_shown shop_inputs shop_info (bytes "shop-web"));
}

build_project-buckets_example :
    (count_if
        (is_entry_of (bytes "shop-web"))
        (build_project plain shop_inputs shop_info).namespaces
      ≡ (if allowed shop_info.namespaces (bytes "shop-web") then 1 else 0))
    × (Elem web_bucket (build_project plain shop_inputs shop_info).namespaces
        ↔ Shown shop_inputs shop_info web_bucket)
build_project-buckets_example =
    build_project-buckets plain shop_inputs shop_info (bytes "shop-web") web_bucket

abbrev other_namespace : AdoptableNamespace
other_namespace = record { namespace = bytes "other"; vms = 1 }

abbrev shop_namespace : Namespace
shop_namespace = record { name = bytes "shop-web"; labels = []; annotations = [] }

adoptable-exact_example :
    Elem other_namespace (adoptable (shop_namespace ∷ []) shop_inputs.live) ↔ (
      (is_candidate (shop_namespace ∷ []) other_namespace.namespace ≡ true)
      × (other_namespace.vms
          ≡ machines_in (shop_namespace ∷ []) other_namespace.namespace shop_inputs.live)
      × (0 < other_namespace.vms))
adoptable-exact_example = adoptable-exact (shop_namespace ∷ []) shop_inputs.live other_namespace
