-- ===== src/Manifest/Meta.antt =====
-- internal/manifest/edit_meta.go: labels and annotations. A map of texts is an association list without
-- a key twice; `%q` is a parameter.
use dotvirt.Prelude.{
  any, zero, suc, Bool, true, false, Option, none, some, List, [], Bytes, bytes, bytes_eq, bytes_lt,
  ◌==◌, if◌then◌else◌, ◌&&◌, ◌||◌, ◌∷◌, ◌++◌,
}
use dotvirt.Prelude.Sort.{sort_by}
use dotvirt.Prelude.Chain.{◌>>=◌}
use dotvirt.Manifest.{
  Node, Nodes, no_nodes, and_node, is_mapping, kind_of, content_of, line_of, value_of, child,
}
use dotvirt.Manifest.Editor.{LineEditor, delete_child, insert_block, remove_line}
use dotvirt.Manifest.Sizing.{spec_node, set_or_insert}
use dotvirt.Manifest.Devices.{each}

-- the fields of `VMEdit` that are read here
pub record MetaEdit : Type 0 where
  pub set_labels : List (Bytes × Bytes)
  pub remove_labels : List Bytes
  pub drs_exclude : Option Bool

-- `for _, k := range sortedKeys(set)`
abbrev pub key_before : Bytes × Bytes → Bytes × Bytes → Bool
key_before a b = bytes_lt a.0 b.0

abbrev pub by_sorted_keys : List (Bytes × Bytes) → List (Bytes × Bytes)
by_sorted_keys set = sort_by key_before set

-- an extendable block mapping
abbrev pub is_extendable : Node → Bool
is_extendable m = elim (content_of m) [ no_nodes ↦ false | and_node k ns ↦ is_mapping (kind_of m) ]

-- Each key of a mapping is one of the removed.
unfoldable pub empties : Nodes → List Bytes → Bool
empties no_nodes remove = true
empties (and_node k no_nodes) remove = true
empties (and_node k (and_node v rest)) remove =
    any (bytes_eq (value_of k)) remove && empties rest remove

abbrev pub empties_map : Node → List Bytes → Bool
empties_map m remove = empties (content_of m) remove

abbrev pub is_empty : {A : Type 0} → List A → Bool
is_empty [] = true
is_empty (a ∷ as') = false

abbrev pub prefer_no_eviction : Bytes
prefer_no_eviction = bytes "descheduler.alpha.kubernetes.io/prefer-no-eviction"

unfoldable pub drs_annotation_edits : Option Bool → List (Bytes × Bytes) × List Bytes
drs_annotation_edits none = ([], [])
drs_annotation_edits (some b) =
    if b
    then ((prefer_no_eviction, 34 ∷ (bytes "true" ++ 34 ∷ [])) ∷ [], [])
    else ([], prefer_no_eviction ∷ [])

module _ (trim_space quote : Bytes → Bytes) where
  unfoldable pub quote_key : Bytes → Bytes
  quote_key k = if any (λ c. (c == 47) || ((c == 46) || (c == 58))) k then quote k else k

  -- what `mappingField` finds, and whether it clears a degenerate value
  unfoldable pub field_of : Option Node → Option Node
  field_of none = none
  field_of (some m) = if is_extendable m then some m else none

  unfoldable pub clear_field : Option Node → Option Node → Bytes → LineEditor → LineEditor
  clear_field none parent field e = e
  clear_field (some m) parent field e =
      if is_extendable m then e else delete_child trim_space parent field e

  unfoldable pub mapping_field : Option Node → Bytes → LineEditor → Option Node × LineEditor
  mapping_field parent field e =
      let m = child parent field in (field_of m, clear_field m parent field e)

  unfoldable pub entry_lines : Bytes → List (Bytes × Bytes) → List Bytes
  entry_lines pad [] = []
  entry_lines pad ((k, v) ∷ set) = (pad ++ (quote_key k ++ (bytes ": " ++ v))) ∷ entry_lines pad set

  unfoldable pub set_entry : Option Node → Bytes × Bytes → LineEditor → Option LineEditor
  set_entry m (k, v) e = set_or_insert trim_space (child m k) m (quote_key k) v e

  -- a line of 0 is before the text
  unfoldable pub remove_at : Option Node → LineEditor → LineEditor
  remove_at none e = e
  remove_at (some v) e = elim (line_of v) [ zero ↦ e | suc i ↦ remove_line i e ]

  unfoldable pub remove_entries : Option Node → List Bytes → LineEditor → LineEditor
  remove_entries m [] e = e
  remove_entries m (k ∷ ks) e = remove_entries m ks (remove_at (child m k) e)

  unfoldable pub edit_found :
      Option Node
      → Option Node
      → Bytes
      → List (Bytes × Bytes)
      → List Bytes
      → LineEditor
      → Option LineEditor
  edit_found none parent field set remove e =
      if is_empty set
      then some e
      else insert_block trim_space parent
          ((field ++ bytes ":") ∷ entry_lines (bytes "  ") (by_sorted_keys set)) e
  edit_found (some m) parent field set remove e =
      if is_empty set && empties_map m remove
      then some (delete_child trim_space parent field e)
      else (do
        d ← each trim_space (set_entry (some m)) (by_sorted_keys set) e
        some (remove_entries (some m) remove d))

  unfoldable pub apply_map_edits :
      Option Node → Bytes → List (Bytes × Bytes) → List Bytes → LineEditor → Option LineEditor
  apply_map_edits parent field set remove e =
      let (m, d) = mapping_field parent field e in
      if is_empty set && is_empty remove then some e else edit_found m parent field set remove d

  unfoldable pub apply_metadata : Node → MetaEdit → LineEditor → Option LineEditor
  apply_metadata vm edit e = elim (child (some vm) (bytes "metadata")) [
    | none ↦ some e
    | some meta ↦ apply_map_edits (some meta) (bytes "labels") edit.set_labels edit.remove_labels e
  ]

  unfoldable pub section : Bytes → List (Bytes × Bytes) → List Bytes
  section field [] = []
  section field (a ∷ set) =
      (bytes "  " ++ (field ++ bytes ":")) ∷ entry_lines (bytes "    ") (by_sorted_keys (a ∷ set))

  -- both sections in one block
  unfoldable pub create_meta : Option Node → List Bytes → LineEditor → Option LineEditor
  create_meta tmpl [] e = some e
  create_meta tmpl (l ∷ ls) e = insert_block trim_space tmpl (bytes "metadata:" ∷ l ∷ ls) e

  abbrev pub MapEdits : Type 0
  MapEdits = List (Bytes × Bytes) × List Bytes

  unfoldable pub edit_meta :
      Option Node → Option Node → MapEdits → MapEdits → LineEditor → Option LineEditor
  edit_meta (some meta) tmpl (set, remove) (ann_set, ann_remove) e = do
    d ← apply_map_edits (some meta) (bytes "labels") set remove e
    apply_map_edits (some meta) (bytes "annotations") ann_set ann_remove d
  edit_meta none tmpl (set, remove) (ann_set, ann_remove) e =
      create_meta tmpl (section (bytes "labels") set ++ section (bytes "annotations") ann_set) e

  abbrev pub nothing_asked : MapEdits → Bool
  nothing_asked (set, remove) = is_empty set && is_empty remove

  unfoldable pub meta_of_template :
      Option Node → MapEdits → MapEdits → LineEditor → Option LineEditor
  meta_of_template none labels anns e = some e
  meta_of_template (some tmpl) labels anns e =
      let (m, d) = mapping_field (some tmpl) (bytes "metadata") e in
      edit_meta m (some tmpl) labels anns d

  unfoldable pub apply_template_meta : Node → MapEdits → MetaEdit → LineEditor → Option LineEditor
  apply_template_meta vm labels edit e =
      let anns = drs_annotation_edits edit.drs_exclude in
      if nothing_asked labels && nothing_asked anns
      then some e
      else meta_of_template (child (spec_node vm) (bytes "template")) labels anns e
