-- ===== src/Manifest/Devices.antt =====
-- internal/manifest/edit_devices.go and the items of a sequence in lineeditor.go: the disks and networks
-- of a VM. The lines that the YAML encoder gives for a blank volume are a parameter.
pub mod Append
use dotvirt.Prelude.{
  ltb, leb, get_elem?, any, ℕ, zero, suc, Bool, true, false, Option, none, some, List, [], Bytes,
  bytes, bytes_eq, drop, ◌==◌, if◌then◌else◌, ◌-◌, ◌∷◌, ◌++◌,
}
use dotvirt.Prelude.Chain.{◌>>=◌}
use dotvirt.Manifest.{
  Node, Nodes, no_nodes, and_node, is_sequence, kind_of, line_of, column_of, content_of, child,
  node_value, find_named,
}
use dotvirt.Manifest.Editor.{
  LineEditor, is_blank, indent_of, pad_lines, queue, remove_range, insert_block,
}
use dotvirt.Manifest.Sizing.{spec_node, template_spec_node, domain_node, is_some_node}

-- `model.DiskAdd`
pub record DiskAdd : Type 0 where
  pub name : Bytes
  pub size : Bytes
  pub storage_class : Bytes

-- the fields of `VMEdit` that `applyDisksNetworks` reads
pub record DeviceEdit : Type 0 where
  pub add_disks : List DiskAdd
  pub remove_disks : List Bytes
  pub add_networks : List Bytes
  pub remove_networks : List Bytes

unfoldable pub last_node : Nodes → Option Node
last_node no_nodes = none
last_node (and_node n no_nodes) = some n
last_node (and_node n (and_node m ns)) = last_node (and_node m ns)

abbrev pub first_node : Nodes → Option Node
first_node no_nodes = none
first_node (and_node n ns) = some n

-- what follows the last slash
unfoldable pub interface_name : Bytes → Bytes
interface_name [] = []
interface_name (c ∷ s) =
    let rest = interface_name s in
    if any (λ d. d == 47) (c ∷ s) then (if any (λ d. d == 47) s then rest else s) else c ∷ s

-- the dash of an item stands two columns before it
abbrev pub dash_indent : ℕ → ℕ
dash_indent column = if ltb column 3 then column - 1 else column - 3

module _ (trim_space : Bytes → Bytes) where
  -- The loop of `itemEndLine` for a last item.
  unfoldable pub scan_end : ℕ → ℕ → ℕ → List Bytes → ℕ
  scan_end indent j last [] = suc last
  scan_end indent j last (l ∷ ls) =
      let rest = scan_end indent (suc j) (if is_blank trim_space l then last else j) ls in
      if is_blank trim_space l then rest else if leb (indent_of l) indent then j else rest

  unfoldable pub end_from : ℕ → Option Bytes → Option Node → LineEditor → Option ℕ
  end_from start none next e = none
  end_from start (some l) (some n) e = some (line_of n - 1)
  end_from start (some l) none e =
      some (scan_end (indent_of l) (suc start) start (drop (suc start) e.lines))

  -- an item and the one that follows it; `none` where the item's line is not of the text
  unfoldable pub item_end_at : ℕ → Option Node → LineEditor → Option ℕ
  item_end_at zero next e = none
  item_end_at (suc start) next e = end_from start (get_elem? e.lines start) next e

  unfoldable pub item_end_line : Node → Option Node → LineEditor → Option ℕ
  item_end_line item next e = item_end_at (line_of item) next e

  -- a block after a last item of the column
  unfoldable pub queue_item : ℕ → Option ℕ → List Bytes → LineEditor → Option LineEditor
  queue_item zero a ls e = none
  queue_item (suc c) none ls e = none
  queue_item (suc c) (some a) ls e =
      some (queue trim_space (a - 1) (pad_lines (dash_indent (suc c)) ls) e)

  unfoldable pub append_after : Option Node → List Bytes → LineEditor → Option LineEditor
  append_after none ls e = some e
  append_after (some item) ls e = queue_item (column_of item) (item_end_line item none e) ls e

  unfoldable pub append_item : Option Node → List Bytes → LineEditor → Option LineEditor
  append_item none ls e = some e
  append_item (some seq) ls e =
      let appended = append_after (last_node (content_of seq)) ls e in
      if is_sequence (kind_of seq) then appended else some e

  unfoldable pub remove_to : ℕ → Option ℕ → LineEditor → Option LineEditor
  remove_to line none e = none
  remove_to line (some end) e = some (remove_range (line - 1) end e)

  unfoldable pub remove_found : Option (ℕ × Node × Nodes) → LineEditor → Option LineEditor
  remove_found none e = some e
  remove_found (some (i, item, rest)) e =
      remove_to (line_of item) (item_end_line item (first_node rest) e) e

  abbrev pub remove_named_item : Option Node → Bytes → LineEditor → Option LineEditor
  remove_named_item seq name e = remove_found (find_named seq name false) e

  abbrev pub remove_template_named : Option Node → Bytes → LineEditor → Option LineEditor
  remove_template_named seq name e = remove_found (find_named seq name true) e

  -- a step for each element, in order
  unfoldable pub each :
      {A : Type 0} → (A → LineEditor → Option LineEditor) → List A → LineEditor → Option LineEditor
  each step [] e = some e
  each step (a ∷ xs) e = do d ← step a e; each step xs d

  abbrev pub named_item : Option Node → Bytes → Bool → Option Node
  named_item seq name via_meta = elim (find_named seq name via_meta) [
    | none ↦ none
    | some (i, item, rest) ↦ some item
  ]

  unfoldable pub remove_template_of : Option Node → Option Node → LineEditor → Option LineEditor
  remove_template_of spec none e = some e
  remove_template_of spec (some dv) e =
      remove_template_named (child spec (bytes "dataVolumeTemplates")) (node_value (some dv)) e

  unfoldable pub remove_disk : Node → Bytes → LineEditor → Option LineEditor
  remove_disk vm name e = do
    let volumes = child (template_spec_node vm) (bytes "volumes")
    let dv = child (child (named_item volumes name false) (bytes "dataVolume")) (bytes "name")
    d ← remove_template_of (spec_node vm) dv e
    c ← remove_named_item (child (child (domain_node vm) (bytes "devices")) (bytes "disks")) name d
    remove_named_item volumes name c

  unfoldable pub add_network : Node → Bytes → LineEditor → Option LineEditor
  add_network vm name e = do
    let iface = interface_name name
    d ←
        append_item (child (child (domain_node vm) (bytes "devices")) (bytes "interfaces"))
          ((bytes "- name: " ++ iface) ∷ bytes "  bridge: {}" ∷ []) e
    append_item (child (template_spec_node vm) (bytes "networks"))
        ((bytes "- name: " ++ iface) ∷ bytes "  multus:" ∷ (bytes "    networkName: " ++ name) ∷ [])
        d

  unfoldable pub remove_network : Node → Bytes → LineEditor → Option LineEditor
  remove_network vm name e = do
    d ←
        remove_named_item (child (child (domain_node vm) (bytes "devices")) (bytes "interfaces"))
          name e
    remove_named_item (child (template_spec_node vm) (bytes "networks")) name d

  -- the name, size and class of a blank volume, as lines of a sequence item
  module _ (blank_dv_template : Bytes → Bytes → Bytes → List Bytes) where
    abbrev pub vm_name : Node → Bytes
    vm_name vm = node_value (child (child (some vm) (bytes "metadata")) (bytes "name"))

    abbrev pub size_or_default : Bytes → Bytes
    size_or_default size = if bytes_eq size [] then bytes "10Gi" else size

    abbrev pub volume_name : Node → DiskAdd → Bytes
    volume_name vm d = vm_name vm ++ (bytes "-" ++ d.name)

    abbrev pub template_item : Node → DiskAdd → List Bytes
    template_item vm d =
        blank_dv_template (volume_name vm d) (size_or_default d.size) d.storage_class

    abbrev pub templates_of : Node → Option Node
    templates_of vm = child (spec_node vm) (bytes "dataVolumeTemplates")

    unfoldable pub add_disk : Node → DiskAdd → LineEditor → Option LineEditor
    add_disk vm a e = do
      d ←
          append_item (child (child (domain_node vm) (bytes "devices")) (bytes "disks"))
            ((bytes "- name: " ++ a.name) ∷ bytes "  disk:" ∷ bytes "    bus: virtio" ∷ []) e
      c ←
          append_item (child (template_spec_node vm) (bytes "volumes"))
            ((bytes "- name: " ++ a.name)
              ∷ bytes "  dataVolume:"
              ∷ (bytes "    name: " ++ volume_name vm a)
              ∷ [])
            d
      append_item (templates_of vm) (template_item vm a) c

    -- the section of the templates, where there is none
    unfoldable pub create_section : Node → List Bytes → LineEditor → Option LineEditor
    create_section vm [] e = some e
    create_section vm (l ∷ ls) e =
        insert_block trim_space (spec_node vm) (bytes "dataVolumeTemplates:" ∷ l ∷ ls) e

    unfoldable pub created_items : Node → List DiskAdd → List Bytes
    created_items vm [] = []
    created_items vm (a ∷ as') = template_item vm a ++ created_items vm as'

    unfoldable pub apply_add_disks : Node → List DiskAdd → LineEditor → Option LineEditor
    apply_add_disks vm adds e = do
      d ← each (add_disk vm) adds e
      if is_some_node (templates_of vm) then some d else create_section vm (created_items vm adds) d

    unfoldable pub apply_disks_networks : Node → DeviceEdit → LineEditor → Option LineEditor
    apply_disks_networks vm edit e =
        if is_some_node (template_spec_node vm)
        then (do
          a ← apply_add_disks vm edit.add_disks e
          b ← each (remove_disk vm) edit.remove_disks a
          c ← each (add_network vm) edit.add_networks b
          each (remove_network vm) edit.remove_networks c)
        else some e
