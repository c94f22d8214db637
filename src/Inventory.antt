-- ===== src/Inventory.antt =====
-- internal/inventory/inventory.go and the inventory of internal/model/vm.go: the tree of one project,
-- from its repository, the live snapshot and the drift. Reading a repository is a parameter. A Go map is
-- an association list, and what is ranged over in Go's random order is in the order of the list. The log
-- of repository errors is left out, and so is CanAuthor, which the API fills in later.
mod Rows
pub mod Buckets
pub mod Tree
pub mod Adopt
pub use Rows.*
use dotvirt.Prelude.Sort.{sort_by}
use dotvirt.Prelude.Maps.{lookup, insert}
use dotvirt.Forge.{Net, normalize_repo_url}
use dotvirt.Argo.{SyncStatus, not_tracked, pending, Drift, ProjectSync}
use dotvirt.Project.{ProjectInfo}
use dotvirt.Clusterstate.{LiveNic, LiveVm, Migration, object_key}
use dotvirt.Prelude.{
  any, ℕ, Bool, false, not, Option, none, some, List, [], map, Bytes, bytes, bytes_eq, bytes_lt,
  ◌==◌, if◌then◌else◌, ◌&&◌, ◌||◌, ◌∷◌, ◌++◌,
}

-- a repository that cannot be opened, one that cannot be read, or its machines on the branch
pub data RepoRead : Type 0 where
  unavailable unreadable : RepoRead
  machines : List Vm → RepoRead

-- `drift` and `project_drift` are none where they are nil
pub record Inputs : Type 0 where
  pub read : Bytes → RepoRead
  pub live : List (Bytes × LiveVm)
  pub drift : Option (List (Bytes × Drift))
  pub project_drift : Option (List (Bytes × ProjectSync))

-- the last interface of a name
unfoldable pub last_nic : Bytes → Option LiveNic → List LiveNic → Option LiveNic
last_nic name found [] = found
last_nic name found (n ∷ ns) = last_nic name (if bytes_eq n.name name then some n else found) ns

abbrev pub with_address : Nic → Option LiveNic → Nic
with_address nic none = nic
with_address nic (some n) = record nic { mac = n.mac; ip = n.ip }

unfoldable pub merge_nics : List LiveNic → List Nic → List Nic
merge_nics live nics = map (λ (nic : Nic). with_address nic (last_nic nic.name none live)) nics

abbrev pub some_migration : Option Migration → Option Migration → Option Migration
some_migration none before = before
some_migration (some m) before = some m

unfoldable pub apply_live : LiveVm → Vm → Vm
apply_live s vm = record vm {
  phase = s.phase;
  guest_ip = s.guest_ip;
  node_name = s.node_name;
  paused = s.paused;
  ips = s.ips;
  os = s.os;
  memory_actual = s.memory_actual;
  vcpus = s.vcpus;
  networks = merge_nics s.interfaces vm.networks;
  started_at = if bytes_eq s.started_at [] then vm.started_at else s.started_at;
  migration = some_migration s.migration vm.migration;
}

abbrev pub apply_found : Option LiveVm → Vm → Vm
apply_found none vm = vm
apply_found (some s) vm = apply_live s vm

-- a machine of git that no Application lists waits for Argo
unfoldable pub with_drift : Option Drift → Vm → Vm
with_drift none vm = record vm { sync = pending }
with_drift (some d) vm = record vm { sync = d.sync; health = d.health; sync_error = d.message }

unfoldable pub enrich_drift : Option (List (Bytes × Drift)) → Vm → Vm
enrich_drift none vm = vm
enrich_drift (some drift) vm = with_drift (lookup (object_key vm.namespace vm.name) drift) vm

unfoldable pub enrich : Inputs → Vm → Vm
enrich i vm =
    enrich_drift i.drift (apply_found (lookup (object_key vm.namespace vm.name) i.live) vm)

-- strings.Cut at the slash; none where there is none
unfoldable pub with_head : ℕ → Option (Bytes × Bytes) → Option (Bytes × Bytes)
with_head c none = none
with_head c (some (ns, name)) = some (c ∷ ns, name)

unfoldable pub split_key : Bytes → Option (Bytes × Bytes)
split_key [] = none
split_key (c ∷ k) = let rest = split_key k in if c == 47 then some ([], k) else with_head c rest

abbrev pub rows_of : Option (List Vm) → List Vm
rows_of none = []
rows_of (some vms) = vms

-- byNS[ns] = append(byNS[ns], vm)
unfoldable pub add_row : Bytes → Vm → List (Bytes × List Vm) → List (Bytes × List Vm)
add_row ns vm by_ns = insert ns (rows_of (lookup ns by_ns) ++ (vm ∷ [])) by_ns

unfoldable pub seed : List Bytes → List (Bytes × List Vm) → List (Bytes × List Vm)
seed [] by_ns = by_ns
seed (ns ∷ nss) by_ns = seed nss (insert ns [] by_ns)

unfoldable pub allowed : List Bytes → Bytes → Bool
allowed namespaces ns = any (bytes_eq ns) namespaces

module _ (i : Inputs) (namespaces : List Bytes) where
  unfoldable pub add_git : List Vm → List (Bytes × List Vm) → List (Bytes × List Vm)
  add_git [] by_ns = by_ns
  add_git (vm ∷ vms) by_ns =
      add_git vms (
        if allowed namespaces vm.namespace then add_row vm.namespace (enrich i vm) by_ns else by_ns)

  -- the map `inGit`
  unfoldable pub in_git : List Vm → Bytes → Bool
  in_git [] k = false
  in_git (vm ∷ vms) k =
      (allowed namespaces vm.namespace && bytes_eq (object_key vm.namespace vm.name) k)
      || in_git vms k

  unfoldable pub add_live_row :
      List Vm
      → Bytes
      → LiveVm
      → Option (Bytes × Bytes)
      → List (Bytes × List Vm)
      → List (Bytes × List Vm)
  add_live_row vms k live none by_ns = by_ns
  add_live_row vms k live (some (ns, name)) by_ns =
      if allowed namespaces ns && not (in_git vms k)
      then add_row ns (apply_live live (cluster_only ns name)) by_ns
      else by_ns

  unfoldable pub add_live :
      List Vm → List (Bytes × LiveVm) → List (Bytes × List Vm) → List (Bytes × List Vm)
  add_live vms [] by_ns = by_ns
  add_live vms ((k, live) ∷ rest) by_ns =
      add_live vms rest (add_live_row vms k live (split_key k) by_ns)

unfoldable pub by_vm_name : Vm → Vm → Bool
by_vm_name a b = bytes_lt a.name b.name

unfoldable pub by_namespace : ProjectNamespace → ProjectNamespace → Bool
by_namespace a b = bytes_lt a.namespace b.namespace

unfoldable pub bucket : Bytes × List Vm → ProjectNamespace
bucket (ns, vms) = record { namespace = ns; vms = sort_by by_vm_name vms }

unfoldable pub group_namespaces : List (Bytes × List Vm) → List ProjectNamespace
group_namespaces by_ns = sort_by by_namespace (map bucket by_ns)

unfoldable pub git_machines : RepoRead → List Vm
git_machines unavailable = []
git_machines unreadable = []
git_machines (machines vms) = vms

unfoldable pub read_error : Bytes → RepoRead → Bytes
read_error before unavailable = bytes "repo unavailable"
read_error before unreadable = bytes "repo unreadable"
read_error before (machines vms) = before

-- no repository is not read
unfoldable pub project_machines : Inputs → Bytes → List Vm
project_machines i repo = if bytes_eq repo [] then [] else git_machines (i.read repo)

abbrev pub rollup_of : Option (List (Bytes × ProjectSync)) → Bytes → Option ProjectSync
rollup_of none repo = none
rollup_of (some drift) repo = lookup repo drift

unfoldable pub build_project : Net → Inputs → ProjectInfo → ProjectTree
build_project net i p =
    let vms = project_machines i p.repo in
    record {
      name = p.name;
      repo = p.repo;
      namespaces =
          group_namespaces (
            add_live i p.namespaces vms i.live (add_git i p.namespaces vms (seed p.namespaces [])));
      error = if bytes_eq p.repo [] then p.error else read_error p.error (i.read p.repo);
      git_ops =
          if bytes_eq p.repo []
          then none
          else rollup_of i.project_drift (normalize_repo_url net p.repo);
    }

unfoldable pub build : Net → Inputs → List ProjectInfo → List ProjectTree
build net i projects = map (build_project net i) projects
