-- ===== src/Manifest/Migration.antt =====
-- internal/manifest/edit_storage.go: the name of the volume that a disk migrates to. The loop of Go has
-- no bound; here it has one step more than there are names to avoid, which is enough.
pub mod Fresh
use dotvirt.Prelude.{
  ltb, leb, length, any, all, ℕ, zero, suc, Bool, true, not, Option, none, some, List, [], Bytes,
  bytes, bytes_eq, drop, if◌then◌else◌, ◌+◌, ◌/◌, ◌%◌, ◌&&◌, ◌∷◌, ◌++◌,
}
use dotvirt.Manifest.{Node, Nodes, no_nodes, and_node, content_of, item_name}
use dotvirt.Manifest.Editor.{has_prefix}

unfoldable pub decimal_from : ℕ → ℕ → Bytes
decimal_from zero n = []
decimal_from (suc fuel) n =
    let rest = decimal_from fuel (n / 10) in
    if ltb n 10 then (48 + n) ∷ [] else rest ++ (48 + n % 10) ∷ []

-- `%d`: a number has fewer digits than it has predecessors, or one
unfoldable pub decimal : ℕ → Bytes
decimal n = decimal_from (suc n) n

abbrev pub is_digit : ℕ → Bool
is_digit c = leb 48 c && leb c 57

abbrev pub mig : Bytes
mig = bytes "-mig-"

-- `-mig-\d+$`
abbrev pub is_suffix : Bytes → Bool
is_suffix s = has_prefix mig s && (not (bytes_eq (drop 5 s) []) && all is_digit (drop 5 s))

unfoldable pub base_name : Bytes → Bytes
base_name [] = []
base_name (c ∷ s) = let rest = base_name s in if is_suffix (c ∷ s) then [] else c ∷ rest

unfoldable pub mig_name : Bytes → ℕ → Bytes
mig_name base n = (base ++ mig) ++ decimal n

unfoldable pub template_names : Nodes → List Bytes
template_names no_nodes = []
template_names (and_node item items) = item_name true item ∷ template_names items

unfoldable pub first_free : ℕ → ℕ → Bytes → List Bytes → Option Bytes
first_free zero n base taken = none
first_free (suc fuel) n base taken =
    let rest = first_free fuel (suc n) base taken in
    if any (bytes_eq (mig_name base n)) taken then rest else some (mig_name base n)

abbrev pub taken_names : Bytes → Node → List Bytes
taken_names old templates = old ∷ template_names (content_of templates)

unfoldable pub next_dv_name : Bytes → Node → Option Bytes
next_dv_name old templates =
    let taken = taken_names old templates in first_free (suc (length taken)) 1 (base_name old) taken
