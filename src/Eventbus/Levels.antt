-- ===== src/Eventbus/Levels.antt =====
-- What a publish does to the levels.
use dotvirt.Prelude.{
  Bool-cases, length, ℕ, suc, refl, inl, inr, false, some, List, [], arith, Bytes, bytes_eq,
  if◌then◌else◌, ◌+◌, ◌≤◌, ◌<◌, ◌≡◌, ◌∙◌, ◌↔◌, ◌&&◌, ◌∷◌,
}
use dotvirt.Eventbus.{
  Kind, same_kind, u64, Bus, bump, bump_key, wake, publish, publish_key, key_version, sum_versions,
  version, listens,
}

-- how often a kind is named
unfoldable pub count : Kind → List Kind → ℕ
count k [] = 0
count k (j ∷ js) = if same_kind j k then suc (count k js) else count k js

sum-bump :
    (f : Kind → ℕ) (k : Kind) (ks : List Kind) (v w n : ℕ)
    → u64 w ≡ u64 (v + n)
    → u64 (sum_versions (bump f k) ks w) ≡ u64 (sum_versions f ks v + (n + count k ks))
unfolding sum_versions bump count
sum-bump f k [] v w n h = omega arith
sum-bump f k (j ∷ js) v w n h = elim (Bool-cases (same_kind j k)) [
  | inl t ↦ rw t (
      sum-bump f k js (u64 (v + f j)) (u64 (w + u64 (f j + 1))) (suc n) (omega arith) ∙ omega arith)
  | inr e ↦ rw e (sum-bump f k js (u64 (v + f j)) (u64 (w + f j)) n (omega arith))
]

pub sum-bounded :
    (f : Kind → ℕ) (ks : List Kind) (v : ℕ)
    → v < 18446744073709551616
    → sum_versions f ks v < 18446744073709551616
unfolding sum_versions
sum-bounded f [] v h = h
sum-bounded f (k ∷ ks) v h = sum-bounded f ks (u64 (v + f k)) (omega arith)

pub version-publish :
    (b : Bus) (k : Kind) (ks : List Kind)
    → version (publish k (some b)) ks ≡ u64 (version (some b) ks + count k ks)
unfolding version publish wake
version-publish b k ks = omega (
  arith,
  sum-bump b.versions k ks 0 0 0 refl,
  sum-bounded b.versions ks 0 (omega arith),
  sum-bounded (bump b.versions k) ks 0 (omega arith),
)

version-publish_key :
    (b : Bus) (k : Kind) (key : Bytes) (ks : List Kind)
    → version (publish_key k key (some b)) ks ≡ version (publish k (some b)) ks
unfolding version publish publish_key wake
version-publish_key b k key ks = refl

pub same_kind_comm : (j k : Kind) → same_kind j k ≡ same_kind k j
unfolding same_kind
same_kind_comm j k = ground arith

count-listens : (k : Kind) (ks : List Kind) → (count k ks ≡ 0) ↔ (listens k ks ≡ false)
unfolding count listens
count-listens k [] = (λ h. refl, λ h. refl)
count-listens k (j ∷ js) = ground (arith, same_kind_comm j k, count-listens k js)

count-le-length : (k : Kind) (ks : List Kind) → count k ks ≤ length ks
unfolding count
count-le-length k [] = omega arith
count-le-length k (j ∷ js) = ground (arith, count-le-length k js)

-- After a publish, keyed or not, the summed version of some kinds is what it was exactly when the
-- published kind is not among them (for fewer than 2^64 kinds, so that the sum cannot come round).
pub version_moves :
    (b : Bus) (k : Kind) (key : Bytes) (ks : List Kind)
    → length ks < 18446744073709551616
    → ((version (publish k (some b)) ks ≡ version (some b) ks) ↔ (listens k ks ≡ false))
      × ((version (publish_key k key (some b)) ks ≡ version (some b) ks) ↔ (listens k ks ≡ false))
version_moves b k key ks h = (moves, rw (version-publish_key b k key ks) moves)
  where
    bounded : version (some b) ks < 18446744073709551616
    bounded = unfold version in sum-bounded b.versions ks 0 (omega arith)

    moves : (version (publish k (some b)) ks ≡ version (some b) ks) ↔ (listens k ks ≡ false)
    moves = (
      λ e.
          (count-listens k ks).0
            (omega (arith, version-publish b k ks, count-le-length k ks, bounded)),
      λ e. let z = (count-listens k ks).1 e in omega (arith, version-publish b k ks, bounded),
    )

-- A keyed publish moves the level of its own key by one and of no other; an unkeyed publish moves
-- the level of every key of its kind by one, and of no key of another kind.
pub key_version_moves :
    (b : Bus) (k j : Kind) (key name : Bytes)
    → (key_version (publish_key k key (some b)) j name ≡ (
        if same_kind j k && bytes_eq name key
        then u64 (key_version (some b) j name + 1)
        else key_version (some b) j name))
      × (key_version (publish k (some b)) j name ≡ (
          if same_kind j k
          then u64 (key_version (some b) j name + 1)
          else key_version (some b) j name))
unfolding key_version publish publish_key wake bump bump_key
key_version_moves b k j key name = (ground arith, ground arith)
