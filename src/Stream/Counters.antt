-- ===== src/Stream/Counters.antt =====
-- The levels of a world, and what a stamp that did not move says of its parts.
use dotvirt.Stream.World.{Part, World}
use dotvirt.Stream.{Levels, keys_eq}
use dotvirt.Prelude.{ℕ, refl, true, List, [], arith, Bytes, bytes_eq_iff, ◌+◌, ◌≤◌, ◌≡◌, ◌∷◌}

unfoldable pub counter_stamp : (Part → ℕ) → List Bytes → ℕ
counter_stamp f [] = f Part.unscoped
counter_stamp f (d ∷ ds) = f (Part.repo d) + counter_stamp f ds

-- the levels of a world
abbrev pub counter_levels : {Inv : Type 0} → (Inv → List Bytes) → Levels World Inv
counter_levels deps = record {
  total = World.total;
  deps = deps;
  stamp = λ w ds. counter_stamp w.stamped ds;
}

-- for every part that a frame of these repositories depends on
abbrev pub Matters : (Part → Type 0) → List Bytes → Type 0
Matters P [] = P Part.unscoped
Matters P (d ∷ ds) = P (Part.repo d) × Matters P ds

counter_stamp_mono :
    (f g : Part → ℕ) (ds : List Bytes)
    → ((p : Part) → f p ≤ g p)
    → counter_stamp f ds ≤ counter_stamp g ds
unfolding counter_stamp
counter_stamp_mono f g [] h = h Part.unscoped
counter_stamp_mono f g (d ∷ ds) h = omega (arith, h (Part.repo d), counter_stamp_mono f g ds h)

-- Where a stamp did not move, no part of it did.
pub squeezed :
    (f s g : Part → ℕ) (ds : List Bytes)
    → ((p : Part) → f p ≤ s p)
    → ((p : Part) → s p ≤ g p)
    → counter_stamp g ds ≡ counter_stamp f ds
    → Matters (λ p. s p ≡ g p) ds
unfolding counter_stamp
squeezed f s g [] low high e = omega (arith, low Part.unscoped, high Part.unscoped, e)
squeezed f s g (d ∷ ds) low high e =
    let a = low (Part.repo d) in
    let b = high (Part.repo d) in
    let c : counter_stamp f ds ≤ counter_stamp g ds =
      counter_stamp_mono f g ds (λ p. omega (arith, low p, high p)) in
    (omega arith, squeezed f s g ds low high (omega arith))

pub keys_eq→≡ : (s t : List Bytes) → keys_eq s t ≡ true → s ≡ t
unfolding keys_eq
keys_eq→≡ [] [] h = refl
keys_eq→≡ [] (d ∷ t) h = cc
keys_eq→≡ (c ∷ s) [] h = cc
keys_eq→≡ (c ∷ s) (d ∷ t) h = ground (arith, bytes_eq_iff c d, keys_eq→≡ s t)
