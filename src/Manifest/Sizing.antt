-- ===== src/Manifest/Sizing.antt =====
-- internal/manifest/edit.go: the appliers of one VM's edit that set scalars and drop entries. A step is
-- `none` where Go panics. A count is the text that `%d` prints of it.
use dotvirt.Prelude.{
  Bool, true, false, not, Option, none, some, [], Bytes, bytes, bytes_eq, if◌then◌else◌, ◌||◌, ◌∷◌,
  ◌++◌,
}
use dotvirt.Prelude.Chain.{◌>>=◌}
use dotvirt.Manifest.{Node, child}
use dotvirt.Manifest.Editor.{LineEditor, set_scalar_at, delete_child, insert_block, insert_child}

-- the fields of `VMEdit` that `applySizing` reads
pub record SizingEdit : Type 0 where
  pub sizing : Option Bytes
  pub instancetype : Option Bytes
  pub cpu_cores : Option Bytes
  pub memory : Option Bytes

abbrev pub run_strategy : Bool → Bytes
run_strategy on = if on then bytes "Always" else bytes "Halted"

abbrev pub bool_str : Bool → Bytes
bool_str b = if b then bytes "true" else bytes "false"

abbrev pub spec_node : Node → Option Node
spec_node vm = child (some vm) (bytes "spec")

unfoldable pub template_spec_node : Node → Option Node
template_spec_node vm = child (child (spec_node vm) (bytes "template")) (bytes "spec")

unfoldable pub domain_node : Node → Option Node
domain_node vm = child (template_spec_node vm) (bytes "domain")

-- `*edit.Sizing`, or the empty text
abbrev pub mode_of : SizingEdit → Bytes
mode_of edit = elim edit.sizing [ none ↦ [] | some m ↦ m ]

abbrev pub is_some_node : Option Node → Bool
is_some_node none = false
is_some_node (some n) = true

abbrev pub sets_text : Option Bytes → Bool
sets_text none = false
sets_text (some t) = not (bytes_eq t [])

module _ (trim_space : Bytes → Bytes) where
  -- Sets the scalar where it stands, else adds the entry.
  unfoldable pub set_or_insert :
      Option Node → Option Node → Bytes → Bytes → LineEditor → Option LineEditor
  set_or_insert (some n) m key val e = some (set_scalar_at n val e)
  set_or_insert none m key val e = insert_child trim_space m key val e

  -- `ed.deleteChild` under a test that the entry is there
  unfoldable pub delete_if : Option Node → Option Node → Bytes → LineEditor → LineEditor
  delete_if none m key e = e
  delete_if (some n) m key e = delete_child trim_space m key e

  abbrev pub delete_if_there : Option Node → Bytes → LineEditor → LineEditor
  delete_if_there m key e = delete_if (child m key) m key e

  unfoldable pub apply_ref_in :
      Option Node → Bytes → Bytes → Option Node → LineEditor → Option LineEditor
  apply_ref_in spec key value none e =
      insert_block trim_space spec ((key ++ bytes ":") ∷ (bytes "  name: " ++ value) ∷ []) e
  apply_ref_in spec key value (some ref) e =
      set_or_insert (child (some ref) (bytes "name")) (some ref) (bytes "name") value
        (delete_if_there (some ref) (bytes "revisionName") e)

  unfoldable pub apply_ref_to : Option Node → Bytes → Bytes → LineEditor → Option LineEditor
  apply_ref_to none key value e = some e
  apply_ref_to (some spec) key value e =
      apply_ref_in (some spec) key value (child (some spec) key) e

  unfoldable pub apply_ref : Node → Bytes → Bytes → LineEditor → Option LineEditor
  apply_ref vm key value e = apply_ref_to (spec_node vm) key value e

  unfoldable pub strip_ref : Node → Bytes → LineEditor → LineEditor
  strip_ref vm key e = delete_child trim_space (spec_node vm) key e

  unfoldable pub strip_sizes : Option Node → LineEditor → LineEditor
  strip_sizes m e =
      delete_child trim_space m (bytes "memory") (delete_child trim_space m (bytes "cpu") e)

  abbrev pub requests_of : Option Node → Option Node
  requests_of domain = child (child domain (bytes "resources")) (bytes "requests")

  unfoldable pub strip_requests : Option Node → LineEditor → LineEditor
  strip_requests none e = e
  strip_requests (some reqs) e = strip_sizes (some reqs) e

  unfoldable pub strip_domain : Option Node → LineEditor → LineEditor
  strip_domain none e = e
  strip_domain (some domain) e =
      strip_requests (requests_of (some domain)) (strip_sizes (some domain) e)

  unfoldable pub strip_inline_sizing : Node → LineEditor → LineEditor
  strip_inline_sizing vm e = strip_domain (domain_node vm) e

  -- a topology other than cores alone
  unfoldable pub collapse : Option Node → Bytes → LineEditor → Option LineEditor
  collapse cpu val e =
      set_or_insert (child cpu (bytes "sockets")) cpu (bytes "sockets") val
        (delete_if_there cpu (bytes "threads") (delete_if_there cpu (bytes "cores") e))

  unfoldable pub set_count : Option Node → Option Node → Bytes → LineEditor → Option LineEditor
  set_count none cpu val e = collapse cpu val e
  set_count (some cores) cpu val e =
      if is_some_node (child cpu (bytes "sockets")) || is_some_node (child cpu (bytes "threads"))
      then collapse cpu val e
      else some (set_scalar_at cores val e)

  unfoldable pub cpu_in : Option Node → Option Node → Bytes → LineEditor → Option LineEditor
  cpu_in none domain val e =
      insert_block trim_space domain (bytes "cpu:" ∷ (bytes "  sockets: " ++ val) ∷ []) e
  cpu_in (some cpu) domain val e = set_count (child (some cpu) (bytes "cores")) (some cpu) val e

  unfoldable pub cpu_of_domain : Option Node → Bytes → LineEditor → Option LineEditor
  cpu_of_domain none val e = some e
  cpu_of_domain (some domain) val e = cpu_in (child (some domain) (bytes "cpu")) (some domain) val e

  unfoldable pub apply_cpu : Node → Bytes → LineEditor → Option LineEditor
  apply_cpu vm val e = cpu_of_domain (domain_node vm) val e

  -- the guest memory where it stands, else the request, else a new block
  unfoldable pub memory_in :
      Option Node → Option Node → Option Node → Bytes → LineEditor → Option LineEditor
  memory_in (some mem) request domain memory e =
      set_or_insert (child (some mem) (bytes "guest")) (some mem) (bytes "guest") memory e
  memory_in none (some m) domain memory e = some (set_scalar_at m memory e)
  memory_in none none domain memory e =
      insert_block trim_space domain (bytes "memory:" ∷ (bytes "  guest: " ++ memory) ∷ []) e

  unfoldable pub memory_of_domain : Option Node → Bytes → LineEditor → Option LineEditor
  memory_of_domain none memory e = some e
  memory_of_domain (some domain) memory e =
      memory_in (child (some domain) (bytes "memory"))
        (child (requests_of (some domain)) (bytes "memory")) (some domain) memory e

  unfoldable pub apply_memory : Node → Bytes → LineEditor → Option LineEditor
  apply_memory vm memory e = memory_of_domain (domain_node vm) memory e

  -- a step for a field that is set
  abbrev pub when_set :
      Option Bytes → (Bytes → LineEditor → Option LineEditor) → LineEditor → Option LineEditor
  when_set none step e = some e
  when_set (some v) step e = step v e

  unfoldable pub apply_inline : Node → SizingEdit → LineEditor → Option LineEditor
  apply_inline vm edit e = do
    d ← when_set edit.cpu_cores (apply_cpu vm) e
    when_set edit.memory (apply_memory vm) d

  unfoldable pub apply_sizing : Node → SizingEdit → LineEditor → Option LineEditor
  apply_sizing vm edit e =
      if bytes_eq (mode_of edit) (bytes "custom")
      then apply_inline vm edit (strip_ref vm (bytes "instancetype") e)
      else if bytes_eq (mode_of edit) (bytes "instancetype")
      then (do
        d ← when_set edit.instancetype (apply_ref vm (bytes "instancetype")) e
        some (strip_inline_sizing vm d))
      else (do
        d ← when_set edit.instancetype (apply_ref vm (bytes "instancetype")) e
        if is_some_node (child (spec_node vm) (bytes "instancetype")) || sets_text edit.instancetype
            then some (strip_inline_sizing vm d)
            else apply_inline vm edit d)

  unfoldable pub apply_power : Node → Bytes → LineEditor → Option LineEditor
  apply_power vm power e =
      let on = bytes_eq power (bytes "On") in
      elim (spec_node vm) [
        | none ↦ some e
        | some s ↦ elim (child (some s) (bytes "running")) [
          | some running ↦ some (set_scalar_at running (bool_str on) e)
          | none ↦
              set_or_insert (child (some s) (bytes "runStrategy")) (some s) (bytes "runStrategy")
                (run_strategy on) e
        ]
      ]

  unfoldable pub apply_eviction_strategy : Node → Bytes → LineEditor → Option LineEditor
  apply_eviction_strategy vm strategy e = elim (template_spec_node vm) [
    | none ↦ some e
    | some s ↦ elim (child (some s) (bytes "evictionStrategy")) [
      | some es ↦ some (
          if bytes_eq strategy []
          then delete_child trim_space (some s) (bytes "evictionStrategy") e
          else set_scalar_at es strategy e)
      | none ↦
          if bytes_eq strategy []
          then some e
          else insert_child trim_space (some s) (bytes "evictionStrategy") strategy e
    ]
  ]
