-- ===== src/Draft/Entries.antt =====
-- internal/draft/draft.go: `Entry`, its key, and the map from keys to entries.
use dotvirt.Prelude.{
  ℕ, Bool, Option, List, [], Bytes, bytes, bytes_eq, bytes_lt, if◌then◌else◌, ◌&&◌, ◌||◌, ◌∷◌, ◌++◌,
}
use dotvirt.Prelude.Maps.{insert}
use dotvirt.Prelude.Sort.{sort_by}

-- `Kind`, a text as in the file; another word than the three is kept
abbrev pub ChangeKind : Type 0
ChangeKind = Bytes

abbrev pub edit_change : ChangeKind
edit_change = bytes "edit"

abbrev pub create_change : ChangeKind
create_change = bytes "create"

abbrev pub delete_change : ChangeKind
delete_change = bytes "delete"

abbrev pub Resource : Type 0
Resource = Bytes

abbrev pub resource_vm : Resource
resource_vm = bytes "vm"

abbrev pub resource_drs : Resource
resource_drs = bytes "drs"

unfoldable pub atomic : Resource → Bool
atomic r = bytes_eq r resource_drs

pub record Entry (Edit : Type 0) : Type 0 where
  pub kind : ChangeKind
  pub resource : Resource
  pub namespace : Bytes
  pub name : Bytes
  pub source_file : Bytes
  pub edit : Option Edit
  pub manifest : Bytes
  pub from_wizard : Bool
  pub from_template : Bytes
  pub from_version : Bytes

abbrev pub slash : ℕ
slash = 47

abbrev pub colon : ℕ
colon = 58

unfoldable pub entry_key : Resource → Bytes → Bytes → Bytes
entry_key resource namespace name =
    if bytes_eq resource [] || bytes_eq resource resource_vm
    then namespace ++ slash ∷ name
    else resource ++ colon ∷ (namespace ++ slash ∷ name)

module _ {Edit : Type 0} where
  unfoldable pub key : Entry Edit → Bytes
  key e = entry_key e.resource e.namespace e.name

  -- a create with nothing to commit
  unfoldable pub is_stale : Entry Edit → Bool
  is_stale e = bytes_eq e.kind create_change && bytes_eq e.manifest []

abbrev pub Draft : Type 0 → Type 0
Draft Edit = List (Bytes × Entry Edit)

module _ {Edit : Type 0} where
  unfoldable pub by_key : Entry Edit → Entry Edit → Bool
  by_key a b = bytes_lt (key a) (key b)

  unfoldable pub values : Draft Edit → List (Entry Edit)
  values [] = []
  values ((k, e) ∷ d) = e ∷ values d

  unfoldable pub sorted_entries : Draft Edit → List (Entry Edit)
  sorted_entries d = sort_by by_key (values d)

  -- The loop of `loadLocked` over the entries of a file, with the map in its arguments.
  unfoldable pub index_entries : List (Entry Edit) → Draft Edit → Draft Edit
  index_entries [] d = d
  index_entries (e ∷ es) d = index_entries es (if is_stale e then d else insert (key e) e d)
