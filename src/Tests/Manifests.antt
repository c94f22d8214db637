-- ===== src/Tests/Manifests.antt =====
-- Runs of the line editor on one VM, which has an instancetype and a CPU of its own.
use dotvirt.Prelude.{
  length, all, ℕ, suc, refl, inl, true, none, some, List, [], arith, Bytes, bytes, bytes_eq, drop,
  ◌==◌, if◌then◌else◌, ◌+◌, ◌≤◌, ◌<◌, ◌≡◌, ◌↔◌, ◌⊎◌, ◌∷◌, ◌++◌,
}
use dotvirt.Manifest.{
  Node, Nodes, no_nodes, and_node, node, mapping_node, scalar_node, sequence_node, entry_of,
  entry_at, child,
}
use dotvirt.Manifest.Editor.{
  LineEditor, fresh_editor, new_line_editor, bytes_of, has_prefix, has_other_break, other_break,
  lone_return, split_lines, on_first, delete_child, insert_block, pad_lines, rendered,
}
use dotvirt.Manifest.Breaks.{bytes_of-new_line_editor, BreaksHere, new_line_editor_refuses}
use dotvirt.Manifest.Span.{Under, Nested, delete_child_exact}
use dotvirt.Manifest.Splice.{written_to, written_after, shallower, insert_block_splices}
use dotvirt.Manifest.Sizing.{
  SizingEdit, spec_node, domain_node, template_spec_node, strip_ref, apply_inline, apply_cpu,
  apply_memory, cpu_of_domain, cpu_in, set_count, apply_sizing,
}
use dotvirt.Manifest.Exclusive.{StandsAt, sizing_never_both}
use dotvirt.Manifest.Migration.{base_name, taken_names, next_dv_name}
use dotvirt.Manifest.Migration.Fresh.{Found, next_dv_name_fresh}

abbrev trim : Bytes → Bytes
trim l = if all (λ c. c == 32) l then [] else l

abbrev scalar : Bytes → ℕ → ℕ → Node
scalar s line column = node scalar_node s line column no_nodes

abbrev entry : Node → Node → Nodes → Nodes
entry k v rest = and_node k (and_node v rest)

abbrev block : ℕ → ℕ → Nodes → Node
block line column ns = node mapping_node [] line column ns

abbrev cores_map : Node
cores_map = block 8 11 (entry (scalar (bytes "cores") 8 11) (scalar (bytes "2") 8 18) no_nodes)

abbrev domain_map : Node
domain_map = block 7 9 (entry (scalar (bytes "cpu") 7 9) cores_map no_nodes)

abbrev inner_map : Node
inner_map = block 6 7 (entry (scalar (bytes "domain") 6 7) domain_map no_nodes)

abbrev template_map : Node
template_map = block 5 5 (entry (scalar (bytes "spec") 5 5) inner_map no_nodes)

abbrev ref_map : Node
ref_map = block 3 5 (entry (scalar (bytes "name") 3 5) (scalar (bytes "u1") 3 11) no_nodes)

abbrev spec_entries : Nodes
spec_entries =
    entry (scalar (bytes "instancetype") 2 3) ref_map
      (entry (scalar (bytes "template") 4 3) template_map no_nodes)

abbrev spec_map : Node
spec_map = block 2 3 spec_entries

abbrev vm : Node
vm = block 1 1 (entry (scalar (bytes "spec") 1 1) spec_map no_nodes)

abbrev text_lines : List Bytes
text_lines =
    bytes "spec:"
    ∷ bytes "  instancetype:"
    ∷ bytes "    name: u1"
    ∷ bytes "  template:"
    ∷ bytes "    spec:"
    ∷ bytes "      domain:"
    ∷ bytes "        cpu:"
    ∷ bytes "          cores: 2"
    ∷ []

abbrev opened : LineEditor
opened = fresh_editor text_lines

two_lines :
    new_line_editor (bytes "a" ++ 13 ∷ 10 ∷ bytes "b")
    ≡ some (fresh_editor ((97 ∷ 13 ∷ []) ∷ bytes "b" ∷ []))
unfolding new_line_editor has_other_break other_break lone_return has_prefix split_lines on_first
two_lines = refl

bytes_of-new_line_editor_example :
    bytes_of (fresh_editor ((97 ∷ 13 ∷ []) ∷ bytes "b" ∷ [])) ≡ bytes "a" ++ 13 ∷ 10 ∷ bytes "b"
bytes_of-new_line_editor_example =
    bytes_of-new_line_editor (bytes "a" ++ 13 ∷ 10 ∷ bytes "b")
      (fresh_editor ((97 ∷ 13 ∷ []) ∷ bytes "b" ∷ [])) two_lines

new_line_editor_refuses_example :
    (new_line_editor (97 ∷ 13 ∷ 98 ∷ []) ≡ none)
    ↔ ((p : Bytes) × (q : Bytes) × (97 ∷ 13 ∷ 98 ∷ [] ≡ p ++ q) × BreaksHere q)
new_line_editor_refuses_example = new_line_editor_refuses (97 ∷ 13 ∷ 98 ∷ [])

-- the line of the instancetype's name
abbrev below : ℕ
below = 2

delete_child_exact_example :
    ((delete_child trim (some spec_map) (bytes "instancetype") opened).deleted below ≡ true) ↔ (
      (opened.deleted below ≡ true)
      ⊎ ((below ≡ 1) ⊎ Nested trim (bytes "  instancetype:") 1 opened.lines below))
unfolding entry_of entry_at bytes_eq
delete_child_exact_example =
    delete_child_exact trim (some spec_map) (bytes "instancetype") opened
      (scalar (bytes "instancetype") 2 3) ref_map 1 below (bytes "  instancetype:") refl refl refl

insert_block_splices_example :
    (a : ℕ) × (d : LineEditor) × (insert_block trim
        (some spec_map)
        (bytes "running: true" ∷ [])
        opened
      ≡ some d)
    × (1 ≤ a)
    × (a < length opened.lines)
    × ((suc 1 + 5 ≤ a) ↔ Under trim (shallower trim 2) (drop (suc 1) opened.lines) 5)
    × (rendered opened ≡ written_to trim a opened ++ written_after trim a opened)
    × (rendered d
        ≡ written_to trim a opened
          ++ (pad_lines 2 (bytes "running: true" ∷ []) ++ written_after trim a opened))
insert_block_splices_example =
    insert_block_splices trim 1 2 5 spec_map (scalar (bytes "instancetype") 2 3)
      (and_node ref_map (entry (scalar (bytes "template") 4 3) template_map no_nodes))
      (bytes "running: true" ∷ []) opened refl refl refl refl (omega arith)

abbrev four_cpus : SizingEdit
four_cpus = record {
  sizing = some (bytes "custom");
  instancetype = none;
  cpu_cores = some (bytes "4");
  memory = none;
}

vm-has_ref : StandsAt trim (spec_node vm) (bytes "instancetype") 1 opened
unfolding child entry_of entry_at bytes_eq
vm-has_ref = (scalar (bytes "instancetype") 2 3, ref_map, refl, refl, omega arith)

vm-has_cpu : StandsAt trim (domain_node vm) (bytes "cpu") 6 opened
unfolding domain_node template_spec_node child entry_of entry_at bytes_eq
vm-has_cpu = (scalar (bytes "cpu") 7 9, cores_map, refl, refl, omega arith)

abbrev resized : LineEditor
resized = elim (apply_sizing trim vm four_cpus opened) [ none ↦ opened | some d ↦ d ]

resizes : apply_sizing trim vm four_cpus opened ≡ some resized
unfolding apply_sizing strip_ref apply_inline apply_cpu apply_memory cpu_of_domain cpu_in set_count
    domain_node template_spec_node child entry_of entry_at bytes_eq
resizes = refl

sizing_never_both_example : (resized.deleted 1 ≡ true) ⊎ (resized.deleted 6 ≡ true)
sizing_never_both_example =
    sizing_never_both trim vm four_cpus opened resized (bytes "cpu") 1 6 vm-has_ref vm-has_cpu
      (inl refl) resizes

abbrev data_volumes : Node
data_volumes = node sequence_node [] 1 1 (
    and_node
      (block 1 3 (
        entry (scalar (bytes "metadata") 1 3)
          (block 2 5
            (entry (scalar (bytes "name") 2 5) (scalar (bytes "disk-mig-1") 2 11) no_nodes))
          no_nodes))
      no_nodes)

next_dv_name_fresh_example :
    Found
      (base_name (bytes "disk-mig-2"))
      (taken_names (bytes "disk-mig-2") data_volumes)
      1
      (next_dv_name (bytes "disk-mig-2") data_volumes)
next_dv_name_fresh_example = next_dv_name_fresh (bytes "disk-mig-2") data_volumes

abbrev volume_item : Node
volume_item = block 1 3 (entry (scalar (bytes "name") 1 3) (scalar (bytes "root") 1 9) no_nodes)

abbrev volumes : Node
volumes = node sequence_node [] 1 1 (and_node volume_item no_nodes)

abbrev volume_text : LineEditor
volume_text = fresh_editor (bytes "- name: root" ∷ bytes "  size: 1" ∷ [])
