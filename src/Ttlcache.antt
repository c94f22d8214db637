-- ===== src/Ttlcache.antt =====
-- internal/ttlcache/ttlcache.go: a cache whose entries live for a time, evicted on the next write.
-- The clock is an argument of the methods; times and durations are counted in nanoseconds. Each method
-- holds the cache's lock, so it is one step.
pub mod Window
use dotvirt.Prelude.{
  ltb, ℕ, Bool, not, Option, none, some, List, [], Bytes, if◌then◌else◌, ◌-◌, ◌∷◌,
}
use dotvirt.Prelude.Maps.{lookup, without}

-- `entry`
pub record Stamped {ℓ} (V : Type ℓ) : Type ℓ where
  pub val : V
  pub stored_at : ℕ

pub record Cache {ℓ} (V : Type ℓ) : Type ℓ where
  pub ttl : ℕ
  pub entries : List (Bytes × Stamped V)

module _ {ℓ} {V : Type ℓ} where
  unfoldable pub new_cache : ℕ → Cache V
  new_cache ttl = record { ttl = ttl; entries = [] }

  -- `time.Since(e.at) < c.ttl`
  unfoldable pub unexpired : ℕ → ℕ → Stamped V → Bool
  unexpired ttl now e = ltb (now - e.stored_at) ttl

  unfoldable pub answer : ℕ → ℕ → Option (Stamped V) → Option V
  answer ttl now none = none
  answer ttl now (some e) = if unexpired ttl now e then some e.val else none

  unfoldable pub get : ℕ → Bytes → Cache V → Option V
  get now k c = answer c.ttl now (lookup k c.entries)

  -- The eviction loop of `Put`.
  unfoldable pub evict : ℕ → ℕ → List (Bytes × Stamped V) → List (Bytes × Stamped V)
  evict ttl now [] = []
  evict ttl now ((j, e) ∷ m) =
      let rest = evict ttl now m in if not (unexpired ttl now e) then rest else (j, e) ∷ rest

  unfoldable pub put_entry : ℕ → Bytes → V → Cache V → Cache V
  put_entry now k v c = record c {
    entries = (k, record { val = v; stored_at = now }) ∷ without k (evict c.ttl now c.entries);
  }
