-- ===== src/Argo.antt =====
-- internal/argo/argo.go: what the Applications of ArgoCD say of each object and of each repository, and
-- the statuses of internal/model/model.go and vm.go. The accessors of apimachinery's unstructured
-- objects and the scrubbing of a message by a regular expression are a parameter (`Reader`); a read that
-- is not found or fails is `none`. The list and watch of the Applications is left out.
pub mod Keys
pub mod Reading
pub mod Rollup
pub mod Tracked
pub mod Worst
pub mod Snapshot
use dotvirt.Prelude.{
  ltb, length, take, ℕ, Bool, true, false, Option, none, some, List, [], Bytes, bytes, bytes_eq,
  max, if◌then◌else◌, ◌||◌, ◌∷◌,
}

-- a text; `unset` is the empty one
pub data SyncStatus : Type 0 where
  unset synced out_of_sync not_tracked pending unknown : SyncStatus

abbrev pub is_synced : SyncStatus → Bool
is_synced synced = true
is_synced unset = false
is_synced out_of_sync = false
is_synced not_tracked = false
is_synced pending = false
is_synced unknown = false

pub record Drift : Type 0 where
  pub sync : SyncStatus
  pub health : Bytes
  pub message : Bytes

pub record ObjectHealth : Type 0 where
  pub kind : Bytes
  pub namespace : Bytes
  pub name : Bytes
  pub health : Bytes
  pub message : Bytes

pub record ProjectSync : Type 0 where
  pub sync : SyncStatus
  pub health : Bytes
  pub operation : Bytes
  pub sync_error : Bytes
  pub revision : Bytes
  pub unhealthy : List ObjectHealth

-- map[string]any, as far as it is read by hand
mutual
  pub data Any : Type 0 where
    text : Bytes → Any
    truth : Bool → Any
    object : Fields → Any
    other : Any

  pub data Fields : Type 0 where
    no_fields : Fields
    field : Bytes → Any → Fields → Fields

pub record Reader : Type 0 where
  pub nested_slice : Fields → List Bytes → Option (List Any)
  pub nested_string : Fields → List Bytes → Option Bytes
  pub scrub : Bytes → Bytes

unfoldable pub value_at : Bytes → Fields → Option Any
value_at key no_fields = none
value_at key (field k v rest) = if bytes_eq k key then some v else value_at key rest

abbrev pub text_of : Option Any → Bytes
text_of (some (text s)) = s
text_of (some (truth b)) = []
text_of (some (object m)) = []
text_of (some other) = []
text_of none = []

unfoldable pub as_string : Fields → Bytes → Bytes
as_string m key = text_of (value_at key m)

-- the elements that are objects: every loop goes on where `raw.(map[string]any)` fails
unfoldable pub objects : List Any → List Fields
objects [] = []
objects (text s ∷ rest) = objects rest
objects (truth b ∷ rest) = objects rest
objects (object m ∷ rest) = m ∷ objects rest
objects (other ∷ rest) = objects rest

abbrev pub slice_objects : Option (List Any) → List Fields
slice_objects none = []
slice_objects (some items) = objects items

abbrev pub or_empty : Option Bytes → Bytes
or_empty none = []
or_empty (some s) = s

unfoldable pub nested_objects : Reader → Fields → List Bytes → List Fields
nested_objects rd app path = slice_objects (rd.nested_slice app path)

unfoldable pub nested_string : Reader → Fields → List Bytes → Bytes
nested_string rd m keys = or_empty (rd.nested_string m keys)

unfoldable pub sync_status : Bytes → SyncStatus
sync_status s =
    if bytes_eq s (bytes "Synced")
    then synced
    else if bytes_eq s (bytes "OutOfSync")
    then out_of_sync
    else unknown

unfoldable pub short_rev : Bytes → Bytes
short_rev rev = if ltb 7 (length rev) then take 7 rev else rev

unfoldable pub sync_severity : SyncStatus → ℕ
sync_severity out_of_sync = 3
sync_severity unknown = 2
sync_severity synced = 1
sync_severity unset = 0
sync_severity not_tracked = 0
sync_severity pending = 0

unfoldable pub one_of : Bytes → Bytes → Bytes → Bool
one_of a b s = bytes_eq s a || bytes_eq s b

unfoldable pub health_severity : Bytes → ℕ
health_severity h =
    if one_of (bytes "Degraded") (bytes "Missing") h
    then 3
    else if one_of (bytes "Unknown") (bytes "Progressing") h
    then 2
    else if one_of (bytes "Healthy") (bytes "Suspended") h
    then 1
    else 0

unfoldable pub op_severity : Bytes → ℕ
op_severity phase =
    if one_of (bytes "Failed") (bytes "Error") phase
    then 3
    else if one_of (bytes "Running") (bytes "Terminating") phase
    then 2
    else if bytes_eq phase (bytes "Succeeded")
    then 1
    else 0

unfoldable pub rollup_severity : ProjectSync → ℕ
rollup_severity ps =
    max (max (sync_severity ps.sync) (health_severity ps.health)) (op_severity ps.operation)
