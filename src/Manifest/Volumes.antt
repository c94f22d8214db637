-- ===== src/Manifest/Volumes.antt =====
-- internal/manifest/edit_storage.go: the migration of the volumes of a VM to another storage class. A
-- scalar that is set where no node stands is a panic in Go.
use dotvirt.Prelude.{
  Bool, true, false, Option, none, some, List, [], Bytes, bytes, if◌then◌else◌, ◌||◌, ◌∷◌,
}
use dotvirt.Prelude.Chain.{◌>>=◌}
use dotvirt.Manifest.{Node, child, value_of}
use dotvirt.Manifest.Editor.{LineEditor, set_scalar_at, delete_child, insert_block}
use dotvirt.Manifest.Sizing.{spec_node, template_spec_node, set_or_insert, is_some_node}
use dotvirt.Manifest.Migration.{next_dv_name}
use dotvirt.Manifest.Devices.{named_item}

-- `model.VolumeMigration`
pub record VolumeMigration : Type 0 where
  pub name : Bytes
  pub storage_class : Bytes

-- a dereference of the node
unfoldable pub set_scalar : Option Node → Bytes → LineEditor → Option LineEditor
set_scalar none v e = none
set_scalar (some n) v e = some (set_scalar_at n v e)

unfoldable pub or_legacy : Option Node → Option Node → Option Node
or_legacy none b = b
or_legacy (some a) b = some a

module _ (trim_space : Bytes → Bytes) where
  -- A destination is provisioned blank.
  unfoldable pub blank_source : Option Node → LineEditor → Option LineEditor
  blank_source spec e =
      let cleared =
        delete_child trim_space spec (bytes "sourceRef")
          (delete_child trim_space spec (bytes "source") e) in
      if is_some_node (child (child spec (bytes "source")) (bytes "blank"))
      then some e
      else insert_block trim_space spec (bytes "source:" ∷ bytes "  blank: {}" ∷ []) cleared

  unfoldable pub rewrite_volume :
      Node → Node → Option Node → Option Node → VolumeMigration → LineEditor → Option LineEditor
  rewrite_volume templates dv tmpl storage m e = do
    name ← next_dv_name (value_of dv) templates
    a ← set_scalar (child (child tmpl (bytes "metadata")) (bytes "name")) name e
    let b = set_scalar_at dv name a
    c ←
        set_or_insert trim_space (child storage (bytes "storageClassName")) storage
          (bytes "storageClassName") m.storage_class b
    blank_source (child tmpl (bytes "spec")) c

  -- the storage of a template, or its older form
  abbrev pub storage_of : Option Node → Option Node
  storage_of tmpl =
      let spec = child tmpl (bytes "spec") in
      or_legacy (child spec (bytes "storage")) (child spec (bytes "pvc"))

  unfoldable pub migrate_with :
      Node
      → Node
      → Option Node
      → Option Node
      → VolumeMigration
      → LineEditor
      → Option (Bool × LineEditor)
  migrate_with templates dv tmpl none m e = some (false, e)
  migrate_with templates dv tmpl (some storage) m e = do
    d ← rewrite_volume templates dv tmpl (some storage) m e
    some (true, d)

  unfoldable pub migrate_dv :
      Node → Option Node → VolumeMigration → LineEditor → Option (Bool × LineEditor)
  migrate_dv templates none m e = some (false, e)
  migrate_dv templates (some dv) m e =
      let tmpl = named_item trim_space (some templates) (value_of dv) true in
      migrate_with templates dv tmpl (storage_of tmpl) m e

  unfoldable pub migrate_one_volume :
      Node → Node → VolumeMigration → LineEditor → Option (Bool × LineEditor)
  migrate_one_volume templates volumes m e =
      migrate_dv templates
        (child (child (named_item trim_space (some volumes) m.name false) (bytes "dataVolume"))
          (bytes "name"))
        m e

  -- the loop, and whether some migration was applied
  unfoldable pub migrate_each :
      Node → Node → List VolumeMigration → Bool → LineEditor → Option (Bool × LineEditor)
  migrate_each templates volumes [] applied e = some (applied, e)
  migrate_each templates volumes (m ∷ ms) applied e = do
    (one, d) ← migrate_one_volume templates volumes m e
    migrate_each templates volumes ms (one || applied) d

  unfoldable pub set_strategy : Option Node → Bool → LineEditor → Option LineEditor
  set_strategy spec false e = some e
  set_strategy spec true e =
      set_or_insert trim_space (child spec (bytes "updateVolumesStrategy")) spec
        (bytes "updateVolumesStrategy") (bytes "Migration") e

  unfoldable pub migrate_in :
      Option Node
      → Option Node
      → Option Node
      → List VolumeMigration
      → LineEditor
      → Option LineEditor
  migrate_in spec none volumes ms e = some e
  migrate_in spec (some templates) none ms e = some e
  migrate_in spec (some templates) (some volumes) ms e = do
    (applied, d) ← migrate_each templates volumes ms false e
    set_strategy spec applied d

  unfoldable pub apply_volume_migrations :
      Node → List VolumeMigration → LineEditor → Option LineEditor
  apply_volume_migrations vm [] e = some e
  apply_volume_migrations vm (m ∷ ms) e =
      migrate_in (spec_node vm) (child (spec_node vm) (bytes "dataVolumeTemplates"))
        (child (template_spec_node vm) (bytes "volumes")) (m ∷ ms) e
