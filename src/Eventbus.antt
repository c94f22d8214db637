-- ===== src/Eventbus.antt =====
-- internal/eventbus/bus.go: typed publish and subscribe, with a coalesced wake for each subscriber
-- (the edge) and a version for each kind (the level). A `*Bus` is `Option Bus`, nil is `none`.
pub mod Levels
pub mod Wakeup
use dotvirt.Prelude.{
  keep_if, any, ℕ, Bool, true, false, not, Option, none, some, List, [], map, Bytes, bytes_eq, ◌==◌,
  if◌then◌else◌, ◌+◌, ◌%◌, ◌&&◌, ◌∷◌,
}

pub data Kind : Type 0 where
  vm_spec_changed live_changed namespace_changed rbac_changed drift_changed : Kind
  git_changed proposals_changed network_changed task_changed : Kind

-- the constants of the `iota` block
unfoldable pub index : Kind → ℕ
index vm_spec_changed = 0
index live_changed = 1
index namespace_changed = 2
index rbac_changed = 3
index drift_changed = 4
index git_changed = 5
index proposals_changed = 6
index network_changed = 7
index task_changed = 8

unfoldable pub same_kind : Kind → Kind → Bool
unfolding index
same_kind j k = index j == index k

-- a uint64 counter wraps
abbrev pub u64 : ℕ → ℕ
u64 n = n % 18446744073709551616

-- A subscription; its channel holds one wake, or none.
pub record Subscription : Type 0 where
  pub id : ℕ
  pub kinds : List Kind
  pub pending : Bool

-- `keyed` reads 0 where the map has no such key.
pub record Bus : Type 0 where
  pub versions : Kind → ℕ
  pub broad : Kind → ℕ
  pub keyed : Kind → Bytes → ℕ
  pub subs : List Subscription
  pub next_id : ℕ

unfoldable pub new : Bus
new = record { versions = λ k. 0; broad = λ k. 0; keyed = λ k key. 0; subs = []; next_id = 0 }

-- `Add(1)` on one counter of an array
unfoldable pub bump : (Kind → ℕ) → Kind → Kind → ℕ
bump f k j = if same_kind j k then u64 (f j + 1) else f j

unfoldable pub bump_key : (Kind → Bytes → ℕ) → Kind → Bytes → Kind → Bytes → ℕ
bump_key f k key j name =
    if same_kind j k && bytes_eq name key then u64 (f j name + 1) else f j name

unfoldable pub listens : Kind → List Kind → Bool
listens k kinds = any (same_kind k) kinds

-- the send is not blocking: where a wake is pending, nothing is added
unfoldable pub notify : Kind → Subscription → Subscription
notify k s = if listens k s.kinds then record s { pending = true } else s

unfoldable pub wake : Kind → Bus → Bus
unfolding notify
wake k b = record b { subs = map (notify k) b.subs }

unfoldable pub publish : Kind → Option Bus → Option Bus
publish k none = none
publish k (some b) =
    some (wake k (record b { versions = bump b.versions k; broad = bump b.broad k }))

unfoldable pub publish_key : Kind → Bytes → Option Bus → Option Bus
publish_key k key none = none
publish_key k key (some b) =
    some (wake k (record b { versions = bump b.versions k; keyed = bump_key b.keyed k key }))

unfoldable pub key_version : Option Bus → Kind → Bytes → ℕ
key_version none k key = 0
key_version (some b) k key = u64 (b.keyed k key + b.broad k)

-- the loop of `Version`
unfoldable pub sum_versions : (Kind → ℕ) → List Kind → ℕ → ℕ
sum_versions f [] v = v
sum_versions f (k ∷ ks) v = sum_versions f ks (u64 (v + f k))

unfoldable pub version : Option Bus → List Kind → ℕ
version none kinds = 0
version (some b) kinds = sum_versions b.versions kinds 0

-- The subscription's identity stands for its pointer; a nil bus gives a nil channel.
unfoldable pub subscribe : List Kind → Option Bus → Option Bus × Option ℕ
subscribe kinds none = (none, none)
subscribe kinds (some b) = (
  some (record b {
    subs = record { id = b.next_id; kinds = kinds; pending = false } ∷ b.subs;
    next_id = b.next_id + 1;
  }),
  some b.next_id,
)

-- The cancel function of a subscription; a second call finds nothing to delete.
unfoldable pub cancel : ℕ → Bus → Bus
cancel i b = record b { subs = keep_if (λ (s : Subscription). not (s.id == i)) b.subs }
