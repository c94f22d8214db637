-- ===== src/Clusterstate.antt =====
-- internal/clusterstate/clusterstate.go: what the snapshot says of the machines that live in the
-- cluster. A store of the snapshot is the list of its objects; the types of KubeVirt are records of what
-- is read of them. A time is its RFC 3339 text, empty for the zero time. Readiness and the wiring of the
-- reflectors are left out; so are the checks on the type of a stored object, which each store has by
-- construction.
pub mod Workload
use dotvirt.Project.{Namespace}
use dotvirt.Prelude.Maps.{insert}
use dotvirt.Prelude.{
  keep_if, any, ℕ, Bool, false, Option, none, some, List, [], map, Bytes, bytes, bytes_eq, ◌==◌,
  if◌then◌else◌, ◌*◌, ◌%◌, ◌∷◌, ◌++◌,
}

pub record LiveNic : Type 0 where
  pub name : Bytes
  pub mac : Bytes
  pub ip : Bytes

pub record Migration : Type 0 where
  pub source_node : Bytes
  pub target_node : Bytes
  pub started_at : Bytes
  pub ended_at : Bytes
  pub completed : Bool
  pub failed : Bool

pub record LiveVm : Type 0 where
  pub phase : Bytes
  pub guest_ip : Bytes
  pub ips : List Bytes
  pub node_name : Bytes
  pub os : Bytes
  pub memory_actual : Bytes
  pub vcpus : ℕ
  pub started_at : Bytes
  pub paused : Bool
  pub ready : Bool
  pub interfaces : List LiveNic
  pub migration : Option Migration

abbrev pub stopped : LiveVm
stopped = record {
  phase = [];
  guest_ip = [];
  ips = [];
  node_name = [];
  os = [];
  memory_actual = [];
  vcpus = 0;
  started_at = [];
  paused = false;
  ready = false;
  interfaces = [];
  migration = none;
}

-- of KubeVirt
pub record Cpu : Type 0 where
  pub sockets : ℕ
  pub cores : ℕ
  pub threads : ℕ

pub record Multus : Type 0 where
  pub network_name : Bytes
  pub default : Bool

pub record Network : Type 0 where
  pub pod : Bool
  pub multus : Option Multus

pub record VmiSpec : Type 0 where
  pub networks : List Network
  pub cpu : Option Cpu
  pub autoattach : Option Bool

pub record Interface : Type 0 where
  pub name : Bytes
  pub mac : Bytes
  pub ip : Bytes
  pub ips : List Bytes

pub record Condition : Type 0 where
  pub type : Bytes
  pub status : Bytes

pub record MigrationState : Type 0 where
  pub source_node : Bytes
  pub target_node : Bytes
  pub start_timestamp : Option Bytes
  pub end_timestamp : Option Bytes
  pub completed : Bool
  pub failed : Bool

-- `guest_current` is the text of the quantity; a transition is a phase and its time
pub record VmiStatus : Type 0 where
  pub phase : Bytes
  pub node_name : Bytes
  pub pretty_name : Bytes
  pub interfaces : List Interface
  pub guest_current : Option Bytes
  pub topology : Option Cpu
  pub transitions : List (Bytes × Bytes)
  pub conditions : List Condition
  pub migration_state : Option MigrationState

pub record Vmi : Type 0 where
  pub namespace : Bytes
  pub name : Bytes
  pub labels : List (Bytes × Bytes)
  pub spec : VmiSpec
  pub status : VmiStatus

pub record Template : Type 0 where
  pub labels : List (Bytes × Bytes)
  pub spec : VmiSpec

pub record VirtualMachine : Type 0 where
  pub namespace : Bytes
  pub name : Bytes
  pub template : Option Template

pub record State : Type 0 where
  pub vms : List VirtualMachine
  pub vmis : List Vmi
  pub nss : List Namespace

-- namespace + "/" + name
unfoldable pub object_key : Bytes → Bytes → Bytes
object_key namespace name = namespace ++ 47 ∷ name

unfoldable pub at_least_one : ℕ → ℕ
at_least_one v = if v == 0 then 1 else v

-- the bits of an `int`
unfoldable pub cpu_product : Cpu → ℕ
cpu_product c =
    at_least_one c.sockets * at_least_one c.cores * at_least_one c.threads % 18446744073709551616

abbrev pub first_ip : List Interface → Bytes
first_ip [] = []
first_ip (i ∷ is) = i.ip

unfoldable pub all_ips : List Interface → List Bytes
all_ips [] = []
all_ips (i ∷ is) = i.ips ++ all_ips is

abbrev pub live_nic : Interface → LiveNic
live_nic i = record { name = i.name; mac = i.mac; ip = i.ip }

unfoldable pub vcpus_of : Option Cpu → Option Cpu → ℕ
vcpus_of (some topo) cpu = cpu_product topo
vcpus_of none (some cpu) = cpu_product cpu
vcpus_of none none = 0

-- the last transition to Running
unfoldable pub running_since : Bytes → List (Bytes × Bytes) → Bytes
running_since since [] = since
running_since since ((phase, time) ∷ rest) =
    running_since (if bytes_eq phase (bytes "Running") then time else since) rest

-- the last condition of a type
unfoldable pub holds_condition : Bytes → Bool → List Condition → Bool
holds_condition type b [] = b
holds_condition type b (c ∷ cs) =
    holds_condition type (if bytes_eq c.type type then bytes_eq c.status (bytes "True") else b) cs

abbrev pub or_blank : Option Bytes → Bytes
or_blank none = []
or_blank (some time) = time

unfoldable pub migration_of : Option MigrationState → Option Migration
migration_of none = none
migration_of (some ms) = some (record {
  source_node = ms.source_node;
  target_node = ms.target_node;
  started_at = or_blank ms.start_timestamp;
  ended_at = or_blank ms.end_timestamp;
  completed = ms.completed;
  failed = ms.failed;
})

unfoldable pub live_from_vmi : Vmi → LiveVm
live_from_vmi vmi = record {
  phase = vmi.status.phase;
  guest_ip = first_ip vmi.status.interfaces;
  ips = all_ips vmi.status.interfaces;
  node_name = vmi.status.node_name;
  os = vmi.status.pretty_name;
  memory_actual = or_blank vmi.status.guest_current;
  vcpus = vcpus_of vmi.status.topology vmi.spec.cpu;
  started_at = running_since [] vmi.status.transitions;
  paused = holds_condition (bytes "Paused") false vmi.status.conditions;
  ready = holds_condition (bytes "Ready") false vmi.status.conditions;
  interfaces = map live_nic vmi.status.interfaces;
  migration = migration_of vmi.status.migration_state;
}

unfoldable pub put_vms : List VirtualMachine → List (Bytes × LiveVm) → List (Bytes × LiveVm)
put_vms [] out = out
put_vms (vm ∷ vms) out = put_vms vms (insert (object_key vm.namespace vm.name) stopped out)

unfoldable pub put_vmis : List Vmi → List (Bytes × LiveVm) → List (Bytes × LiveVm)
put_vmis [] out = out
put_vmis (vmi ∷ vmis) out =
    put_vmis vmis (insert (object_key vmi.namespace vmi.name) (live_from_vmi vmi) out)

unfoldable pub live_vms : State → List (Bytes × LiveVm)
live_vms s = put_vmis s.vmis (put_vms s.vms [])

unfoldable pub vm_objects : List Bytes → State → List VirtualMachine
vm_objects namespaces s =
    keep_if (λ (vm : VirtualMachine). any (bytes_eq vm.namespace) namespaces) s.vms
