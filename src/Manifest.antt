-- ===== src/Manifest.antt =====
-- internal/manifest: the tree that yaml.v3 gives for a document, and the walks over it
-- (yamlnode.go, edit_storage.go). A document that is not `nil` is `some`. yaml.v3 itself is not here:
-- a node is what it reports, its lines and columns counted from 1, and 0 where none is set.
pub mod Editor
pub mod Breaks
pub mod Span
pub mod Splice
pub mod Sizing
pub mod Keeps
pub mod Exclusive
pub mod Migration
pub mod Devices
pub mod Volumes
pub mod Meta
use dotvirt.Prelude.{
  ℕ, suc, Bool, true, false, Option, none, some, [], Bytes, bytes, bytes_eq, if◌then◌else◌,
}

pub data Kind : Type 0 where
  document_node sequence_node mapping_node scalar_node alias_node : Kind

mutual
  pub data Node : Type 0 where
    node : Kind → Bytes → ℕ → ℕ → Nodes → Node

  pub data Nodes : Type 0 where
    no_nodes : Nodes
    and_node : Node → Nodes → Nodes

abbrev pub kind_of : Node → Kind
kind_of (node k v l c ns) = k

abbrev pub value_of : Node → Bytes
value_of (node k v l c ns) = v

abbrev pub line_of : Node → ℕ
line_of (node k v l c ns) = l

abbrev pub column_of : Node → ℕ
column_of (node k v l c ns) = c

abbrev pub content_of : Node → Nodes
content_of (node k v l c ns) = ns

abbrev pub is_mapping : Kind → Bool
is_mapping mapping_node = true
is_mapping _ = false

abbrev pub is_sequence : Kind → Bool
is_sequence sequence_node = true
is_sequence _ = false

abbrev pub content_root : Node → Option Node
content_root (node document_node v l c (and_node n no_nodes)) = some n
content_root (node mapping_node v l c ns) = some (node mapping_node v l c ns)
content_root (node _ v l c ns) = none

abbrev pub node_value : Option Node → Bytes
node_value none = []
node_value (some n) = value_of n

-- The first entry of a key, and its value: a mapping's children alternate.
unfoldable pub entry_at : Bytes → Nodes → Option (Node × Node)
entry_at key no_nodes = none
entry_at key (and_node k no_nodes) = none
entry_at key (and_node k (and_node v rest)) =
    let later = entry_at key rest in if bytes_eq (value_of k) key then some (k, v) else later

unfoldable pub entry_of : Option Node → Bytes → Option (Node × Node)
entry_of none key = none
entry_of (some n) key = if is_mapping (kind_of n) then entry_at key (content_of n) else none

-- `get`
unfoldable pub child : Option Node → Bytes → Option Node
child m key = elim (entry_of m key) [ none ↦ none | some (k, v) ↦ some v ]

abbrev pub item_name : Bool → Node → Bytes
item_name via_meta n = node_value (
    if via_meta
    then child (child (some n) (bytes "metadata")) (bytes "name")
    else child (some n) (bytes "name"))

-- The item that is found, what follows it, and its place.
unfoldable pub find_item : Bytes → Bool → ℕ → Nodes → Option (ℕ × Node × Nodes)
find_item name via_meta i no_nodes = none
find_item name via_meta i (and_node n rest) =
    let later = find_item name via_meta (suc i) rest in
    if bytes_eq (item_name via_meta n) name then some (i, n, rest) else later

unfoldable pub find_named : Option Node → Bytes → Bool → Option (ℕ × Node × Nodes)
find_named none name via_meta = none
find_named (some seq) name via_meta =
    if is_sequence (kind_of seq) then find_item name via_meta 0 (content_of seq) else none
