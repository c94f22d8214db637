-- ===== src/Inventory/Rows.antt =====
-- internal/model/vm.go: the rows of the inventory.
use dotvirt.Argo.{SyncStatus, not_tracked, ProjectSync}
use dotvirt.Clusterstate.{Migration}
use dotvirt.Prelude.{ℕ, Bool, false, Option, none, List, [], Bytes}

pub data Power : Type 0 where
  on off unknown_power : Power

pub record Disk : Type 0 where
  pub name : Bytes
  pub type : Bytes
  pub size : Bytes
  pub storage_class : Bytes

pub record Nic : Type 0 where
  pub name : Bytes
  pub network : Bytes
  pub mac : Bytes
  pub ip : Bytes
  pub implicit_ : Bool

pub record PlacementGroup : Type 0 where
  pub name : Bytes
  pub mode : Bytes
  pub strict : Bool

pub record VmScheduling : Type 0 where
  pub pin : List Bytes
  pub groups : List PlacementGroup
  pub custom : Bool

pub record Vm : Type 0 where
  pub namespace : Bytes
  pub name : Bytes
  pub power : Power
  pub cpu_cores : ℕ
  pub memory : Bytes
  pub instancetype : Bytes
  pub preference : Bytes
  pub labels : List (Bytes × Bytes)
  pub disks : List Disk
  pub networks : List Nic
  pub source_file : Bytes
  pub drs_exclude : Bool
  pub eviction_strategy : Bytes
  pub scheduling : Option VmScheduling
  pub phase : Bytes
  pub paused : Bool
  pub guest_ip : Bytes
  pub ips : List Bytes
  pub node_name : Bytes
  pub os : Bytes
  pub memory_actual : Bytes
  pub vcpus : ℕ
  pub started_at : Bytes
  pub migration : Option Migration
  pub sync : SyncStatus
  pub health : Bytes
  pub sync_error : Bytes

-- model.VM{Namespace: ..., Name: ..., Power: PowerUnknown, Sync: SyncNotTracked}
abbrev pub cluster_only : Bytes → Bytes → Vm
cluster_only namespace name = record {
  namespace = namespace;
  name = name;
  power = unknown_power;
  cpu_cores = 0;
  memory = [];
  instancetype = [];
  preference = [];
  labels = [];
  disks = [];
  networks = [];
  source_file = [];
  drs_exclude = false;
  eviction_strategy = [];
  scheduling = none;
  phase = [];
  paused = false;
  guest_ip = [];
  ips = [];
  node_name = [];
  os = [];
  memory_actual = [];
  vcpus = 0;
  started_at = [];
  migration = none;
  sync = not_tracked;
  health = [];
  sync_error = [];
}

pub record ProjectNamespace : Type 0 where
  pub namespace : Bytes
  pub vms : List Vm

pub record ProjectTree : Type 0 where
  pub name : Bytes
  pub repo : Bytes
  pub namespaces : List ProjectNamespace
  pub error : Bytes
  pub git_ops : Option ProjectSync
