-- ===== src/Clusterstate/Workload.antt =====
-- internal/clusterstate/clusterstate.go: the labels and the networks of one workload, the running
-- instance before the template.
use dotvirt.Project.{Namespace}
use dotvirt.Clusterstate.{
  Multus, Network, Vmi, Template, VirtualMachine, State, object_key, all_ips,
}
use dotvirt.Prelude.{
  any, Bool, true, false, Option, none, some, List, [], Bytes, bytes_eq, ◌==◌, if◌then◌else◌, ◌&&◌,
  ◌∷◌, ◌++◌,
}

unfoldable pub find_vmi : Bytes → List Vmi → Option Vmi
find_vmi key [] = none
find_vmi key (v ∷ vs) =
    let rest = find_vmi key vs in
    if bytes_eq (object_key v.namespace v.name) key then some v else rest

unfoldable pub find_machine : Bytes → List VirtualMachine → Option VirtualMachine
find_machine key [] = none
find_machine key (v ∷ vs) =
    let rest = find_machine key vs in
    if bytes_eq (object_key v.namespace v.name) key then some v else rest

pub record LabelsRead : Type 0 where
  pub labels : List (Bytes × Bytes)
  pub live : Bool
  pub found : Bool

abbrev template_labels : Option Template → List (Bytes × Bytes)
template_labels none = []
template_labels (some t) = t.labels

unfoldable pub labels_of : Option Vmi → Option VirtualMachine → LabelsRead
labels_of (some vmi) vm = record { labels = vmi.labels; live = true; found = true }
labels_of none (some vm) = record {
  labels = template_labels vm.template;
  live = false;
  found = true;
}
labels_of none none = record { labels = []; live = false; found = false }

unfoldable pub workload_labels : Bytes → Bytes → State → LabelsRead
workload_labels namespace name s =
    labels_of (find_vmi (object_key namespace name) s.vmis)
      (find_machine (object_key namespace name) s.vms)

pub record Attached : Type 0 where
  pub pod_net : Bool
  pub default_net : Bytes
  pub nets : List Bytes
  pub ips : List Bytes
  pub found : Bool

abbrev pub detached : Attached
detached = record { pod_net = false; default_net = []; nets = []; ips = []; found = false }

-- a reference that names no namespace is of the workload's
unfoldable pub qualified : Bytes → Bytes → Bytes
qualified namespace ref = if any (λ c. c == 47) ref then ref else object_key namespace ref

unfoldable pub attach_multus : Bytes → Option Multus → Attached → Attached
attach_multus namespace none a = a
attach_multus namespace (some m) a =
    if m.default
    then record a { default_net = qualified namespace m.network_name }
    else record a { nets = a.nets ++ (qualified namespace m.network_name ∷ []) }

unfoldable pub attach_networks : Bytes → List Network → Attached → Attached
attach_networks namespace [] a = a
attach_networks namespace (n ∷ ns) a =
    attach_networks namespace ns
      (if n.pod then record a { pod_net = true } else attach_multus namespace n.multus a)

-- nil attaches
abbrev attaches : Option Bool → Bool
attaches none = true
attaches (some auto) = auto

abbrev no_networks : List Network → Bool
no_networks [] = true
no_networks (n ∷ ns) = false

-- KubeVirt attaches the pod network where a template names none
unfoldable pub template_networks : Bytes → Option Template → Attached
template_networks namespace none = record detached { found = true }
template_networks namespace (some t) =
    let a = attach_networks namespace t.spec.networks (record detached { found = true }) in
    if no_networks t.spec.networks && attaches t.spec.autoattach
    then record a { pod_net = true }
    else a

unfoldable pub networks_of : Bytes → Option Vmi → Option VirtualMachine → Attached
networks_of namespace (some vmi) vm =
    record (attach_networks namespace vmi.spec.networks (record detached { found = true })) {
      ips = all_ips vmi.status.interfaces;
    }
networks_of namespace none (some vm) = template_networks namespace vm.template
networks_of namespace none none = detached

unfoldable pub workload_networks : Bytes → Bytes → State → Attached
workload_networks namespace name s =
    networks_of namespace (find_vmi (object_key namespace name) s.vmis)
      (find_machine (object_key namespace name) s.vms)

-- nil where the snapshot does not hold the namespace
unfoldable pub namespace_labels : Bytes → List Namespace → Option (List (Bytes × Bytes))
namespace_labels name [] = none
namespace_labels name (ns ∷ nss) =
    let rest = namespace_labels name nss in if bytes_eq ns.name name then some ns.labels else rest
