-- ===== src/Stream/World.antt =====
-- The server around internal/stream/hub.go, as far as the levels tell of it. A part is a repository
-- that frames are scoped to, or all the rest. Whoever changes a part writes it first and publishes it
-- then, in two steps: internal/eventbus/bus.go counts the kind before the key. The three counters of a
-- part are of its writes and of these two steps; they do not wrap here.
use dotvirt.Prelude.{
  Bool-cases, ℕ, suc, refl, sym, ap, subst, inl, inr, Bool, true, false, arith, Bytes, bytes_eq,
  bytes_eq_iff, if◌then◌else◌, ◌+◌, ◌≤◌, ◌<◌, ◌≡◌,
}

pub data Part : Type 0 where
  unscoped : Part
  repo : Bytes → Part

abbrev pub same_part : Part → Part → Bool
same_part unscoped unscoped = true
same_part unscoped (repo d) = false
same_part (repo c) unscoped = false
same_part (repo c) (repo d) = bytes_eq c d

unfoldable pub raise : Part → (Part → ℕ) → Part → ℕ
raise p f q = if same_part q p then suc (f q) else f q

pub record World : Type 0 where
  pub written : Part → ℕ
  pub counted : Part → ℕ
  pub stamped : Part → ℕ
  pub total : ℕ

pub data Step : World → World → Type 0 where
  writes : (w : World) (p : Part) → Step w (record w { written = raise p w.written })
  -- a publisher follows its own write
  counts :
      (w : World) (p : Part)
      → w.counted p < w.written p
      → Step w (record w { counted = raise p w.counted; total = suc w.total })
  stamps :
      (w : World) (p : Part)
      → w.stamped p < w.counted p
      → Step w (record w { stamped = raise p w.stamped })

pub data Reach (v : World) : World → Type 0 where
  here : Reach v v
  and_then : {w u : World} → Reach v w → Step w u → Reach v u

-- No publisher is ahead of its write.
abbrev pub Ordered : World → Type 0
Ordered w = (p : Part) → (w.stamped p ≤ w.counted p) × (w.counted p ≤ w.written p)

-- Everything that is written is published.
abbrev pub Quiet : World → Type 0
Quiet w = (p : Part) → w.stamped p ≡ w.written p

-- what the steps do to a part
pub record Grows (v w : World) (p : Part) : Type 0 where
  pub written : v.written p ≤ w.written p
  pub counted : v.counted p ≤ w.counted p
  pub stamped : v.stamped p ≤ w.stamped p
  pub total : w.counted p + v.total ≤ v.counted p + w.total

raise-bounds : (p q : Part) (f : Part → ℕ) → (f q ≤ raise p f q) × (raise p f q ≤ suc (f q))
unfolding raise
raise-bounds p q f = ground arith

same_part→≡ : (p q : Part) → same_part p q ≡ true → p ≡ q
same_part→≡ unscoped unscoped h = refl
same_part→≡ unscoped (repo d) h = cc
same_part→≡ (repo c) unscoped h = cc
same_part→≡ (repo c) (repo d) h = ap repo ((bytes_eq_iff c d).0 h)

-- a counter that was below another one at the part that is raised stays at most that
raise-le : (p q : Part) (f g : Part → ℕ) → f p < g p → f q ≤ g q → raise p f q ≤ g q
unfolding raise
raise-le p q f g lt le = elim (Bool-cases (same_part q p)) [
  | inl t ↦
      let e = same_part→≡ q p t in
      let l : f q < g q = subst (λ (r : Part). f r < g r) (sym e) lt in rw t (omega arith)
  | inr n ↦ rw n le
]

Step-Grows : {v w : World} → Step v w → (p : Part) → Grows v w p
Step-Grows (writes w p) q = record {
  written = (raise-bounds p q w.written).0;
  counted = omega arith;
  stamped = omega arith;
  total = omega arith;
}
Step-Grows (counts w p h) q =
    let (low, high) = raise-bounds p q w.counted in
    record { written = omega arith; counted = low; stamped = omega arith; total = omega arith }
Step-Grows (stamps w p h) q = record {
  written = omega arith;
  counted = omega arith;
  stamped = (raise-bounds p q w.stamped).0;
  total = omega arith;
}

pub Reach-Grows : {v w : World} → Reach v w → (p : Part) → Grows v w p
Reach-Grows here p = record {
  written = omega arith;
  counted = omega arith;
  stamped = omega arith;
  total = omega arith;
}
Reach-Grows (and_then r st) p =
    let before = Reach-Grows r p in
    let last = Step-Grows st p in
    record {
      written = omega (arith, before.written, last.written);
      counted = omega (arith, before.counted, last.counted);
      stamped = omega (arith, before.stamped, last.stamped);
      total = omega (arith, before.total, last.total);
    }

Step-Ordered : {v w : World} → Step v w → Ordered v → Ordered w
Step-Ordered (writes w p) o q = ((o q).0, omega (arith, (o q).1, (raise-bounds p q w.written).0))
Step-Ordered (counts w p h) o q = (
  omega (arith, (o q).0, (raise-bounds p q w.counted).0),
  raise-le p q w.counted w.written h (o q).1,
)
Step-Ordered (stamps w p h) o q = (raise-le p q w.stamped w.counted h (o q).0, (o q).1)

pub Reach-Ordered : {v w : World} → Reach v w → Ordered v → Ordered w
Reach-Ordered here o = o
Reach-Ordered (and_then r st) o = Step-Ordered st (Reach-Ordered r o)

pub Reach-trans : {u v w : World} → Reach u v → Reach v w → Reach u w
Reach-trans r here = r
Reach-trans r (and_then s st) = and_then (Reach-trans r s) st
