-- ===== src/Stream/Fresh.antt =====
-- What a frame of the hub stands for. The inventory of an identity (`view`) is a function of what was
-- written; a build sees each part as it is at some moment of the build.
use dotvirt.Prelude.Maps.{lookup, lookup-insert, lookup-without}
use dotvirt.Stream.Counters.{counter_stamp, counter_levels, Matters, squeezed, keys_eq→≡}
use dotvirt.Stream.World.{
  Part, World, Reach, Reach-Grows, Reach-Ordered, Reach-trans, Ordered, Quiet,
}
use dotvirt.Stream.{
  Frame, Attempt, Hub, keys_eq, kept, marshalled, with_bytes, built, build, deps_of, store_frame,
  rebuild, serve, reconcile_one, reconcile_keys, pruned, connected, reconcile,
}
use mathlib.Core.Path.{fun_ext}
use dotvirt.Prelude.{
  ==_iff, Bool-cases, Option-cases, any, ℕ, sym, ap, subst, inl, inr, Option, none, some, List, [],
  arith, Bytes, bytes_eq, bytes_eq_iff, ◌==◌, if◌then◌else◌, ◌≤◌, ◌≡◌, ◌∙◌, ◌∷◌,
}

-- `deps` names what the inventory of an identity depends on
module _ {Inv : Type 0} (deps : Inv → List Bytes) (marshal : Inv → Option Bytes)
    (view : Bytes → (Part → ℕ) → Inv) where
  -- what Deps says it names
  abbrev pub DepsNamed : Type 0
  DepsNamed =
      (key : Bytes) (f g : Part → ℕ)
      → Matters (λ p. f p ≡ g p) (deps (view key f))
      → view key f ≡ view key g

  -- From a moment on: whenever all is published and the stamp of the frame holds, the frame is the
  -- inventory of that moment.
  abbrev pub Honest : Bytes → Frame → World → Type 0
  Honest key f w =
      (u : World)
      → Reach w u
      → Quiet u
      → counter_stamp u.stamped f.deps ≡ f.stamp
      → marshal (view key u.written) ≡ some f.payload

  -- A build that runs from `before` to `after` has seen each part at a moment between.
  abbrev pub Saw : Bytes → Attempt World Inv → Type 0
  Saw key a =
      (seen : Part → ℕ) × ((p : Part)
        → (a.before.written p ≤ seen p) × (seen p ≤ a.after.written p))
      × ((inv : Inv) → a.result ≡ some inv → inv ≡ view key seen)

  pub Honest-Reach :
      (key : Bytes) (f : Frame) (v w : World) → Reach v w → Honest key f v → Honest key f w
  Honest-Reach key f v w r h u s q e = h u (Reach-trans r s) q e

  -- The moments of a build that runs between two moments, in order.
  abbrev pub Ran : World → World → Attempt World Inv → Type 0
  Ran v w a =
      Reach v a.before × Reach a.before a.after × Reach a.after a.checked × Reach a.checked w

  -- every frame that the hub keeps
  abbrev pub HonestHub : World → Hub → Type 0
  HonestHub w h = (key : Bytes) (f : Frame) → lookup key h.idents ≡ some f → Honest key f w

  -- A pass from one moment to another: each frame is looked at, and each build runs, between.
  abbrev pub RunsFrom : World → World → (Bytes → Attempt World Inv) → Type 0
  RunsFrom v w tries = (key : Bytes) → Ran v w (tries key) × Saw key (tries key)

  module _ (named : DepsNamed) where
    -- A stamp that was published when the build began makes an honest frame.
    stamped-Honest :
        (key sent : Bytes) (v w : World) (seen : Part → ℕ)
        → ((p : Part) → v.stamped p ≤ seen p)
        → ((p : Part) → seen p ≤ w.written p)
        → marshal (view key seen) ≡ some sent
        → Honest key
            (record {
              payload = sent;
              deps = deps (view key seen);
              stamp = counter_stamp v.stamped (deps (view key seen));
            })
            w
    stamped-Honest key sent v w seen low high m u s q e =
        let above : (p : Part) → seen p ≤ u.stamped p =
          λ p. omega (arith, high p, (Reach-Grows s p).written, q p) in
        let same = squeezed v.stamped seen u.stamped (deps (view key seen)) low above e in
        let published : u.stamped ≡ u.written = fun_ext q in
        ap marshal (sym (named key seen u.stamped same ∙ ap (view key) published)) ∙ m

    -- the frame that is kept of a build
    kept-Honest :
        (key sent : Bytes) (a : Attempt World Inv) (prev : List Bytes) (seen : Part → ℕ) (f : Frame)
        → Ordered a.before
        → Reach a.before a.after
        → Reach a.after a.checked
        → ((p : Part) → (a.before.written p ≤ seen p) × (seen p ≤ a.after.written p))
        → marshal (view key seen) ≡ some sent
        → kept (counter_levels deps) marshal a prev (deps (view key seen)) sent ≡ some f
        → Honest key f a.checked
    unfolding kept
    kept-Honest key sent a prev seen f o r s between m e =
        elim (Bool-cases (keys_eq (deps (view key seen)) prev)) [
          | inl t ↦ by_stamp a.before low high (
              subst
                (λ ps.
                  some (record {
                    payload = sent;
                    deps = deps (view key seen);
                    stamp = counter_stamp a.before.stamped ps;
                  })
                  ≡ some f)
                (sym (keys_eq→≡ (deps (view key seen)) prev t)) (rw t at e))
          | inr n ↦ elim (Bool-cases (a.checked.total == a.before.total)) [
            | inl t ↦
                by_stamp a.after (still ((==_iff a.checked.total a.before.total).0 t)) high
                  (rw (n, t) at e)
            | inr c ↦ absurd (cc (rw (n, c) at e))
          ]
        ]
      where
        low : (p : Part) → a.before.stamped p ≤ seen p
        low p = omega (arith, (o p).0, (o p).1, (between p).0)

        high : (p : Part) → seen p ≤ a.checked.written p
        high p = omega (arith, (between p).1, (Reach-Grows s p).written)

        -- no total moved, so nothing was published
        still : a.checked.total ≡ a.before.total → (p : Part) → a.after.stamped p ≤ seen p
        still t p = omega (
          arith,
          (o p).1,
          (between p).0,
          (Reach-Ordered r o p).0,
          (Reach-Grows s p).counted,
          (Reach-Grows (Reach-trans r s) p).total,
        )

        by_stamp :
            (v : World)
            → ((p : Part) → v.stamped p ≤ seen p)
            → ((p : Part) → seen p ≤ a.checked.written p)
            → some (record {
              payload = sent;
              deps = deps (view key seen);
              stamp = counter_stamp v.stamped (deps (view key seen));
            })
              ≡ some f
            → Honest key f a.checked
        by_stamp v l h q =
            subst (λ (g : Frame). Honest key g a.checked) (cc q)
              (stamped-Honest key sent v a.checked seen l h m)

    build-Honest :
        (key : Bytes) (a : Attempt World Inv) (prev : Option Frame) (f : Frame) (v w : World)
        → Ordered v
        → Ran v w a
        → Saw key a
        → (build (counter_levels deps) marshal a prev).0 ≡ some f
        → Honest key f w
    unfolding build built marshalled with_bytes kept
    build-Honest key a prev f v w o (r, s, t, u) (seen, between, told) e =
        elim (Option-cases a.result) [
          | inl n ↦ cc (rw n at e)
          | inr (inv, q) ↦ elim (Option-cases (marshal inv)) [
            | inl n ↦ cc (rw (q, n) at e)
            | inr (sent, m) ↦
                let i = told inv q in
                Honest-Reach key f a.checked w u (
                  kept-Honest key sent a (deps_of prev) seen f (Reach-Ordered r o) s t between
                    (ap marshal (sym i) ∙ m) (rw (sym i) (rw (q, m) at e)))
          ]
        ]

    store_frame-Honest :
        (key : Bytes) (g : Option Frame) (w : World) (h : Hub)
        → ((f : Frame) → g ≡ some f → Honest key f w)
        → HonestHub w h
        → (j : Bytes) (f : Frame) → lookup j (store_frame key g h.idents) ≡ some f
        → Honest j f w
    unfolding store_frame
    store_frame-Honest key none w h new old j f e = elim (Bool-cases (bytes_eq key j)) [
      | inl t ↦ cc (rw (lookup-without key j h.idents, t) at e)
      | inr n ↦ old j f (rw (lookup-without key j h.idents, n) at e)
    ]
    store_frame-Honest key (some g) w h new old j f e = elim (Bool-cases (bytes_eq key j)) [
      | inl t ↦
          subst (λ (k : Bytes). Honest k f w) ((bytes_eq_iff key j).0 t)
            (new f (rw (lookup-insert key j g h.idents, t) at e))
      | inr n ↦ old j f (rw (lookup-insert key j g h.idents, n) at e)
    ]

    lookup-pruned :
        (keys : List Bytes) (k : Bytes) (idents : List (Bytes × Frame))
        → lookup k (pruned keys idents) ≡ (if any (bytes_eq k) keys then lookup k idents else none)
    unfolding pruned lookup
    lookup-pruned keys k [] = ground arith
    lookup-pruned keys k ((j, g) ∷ idents) = elim (Bool-cases (bytes_eq j k)) [
      | inl t ↦
          let e = (bytes_eq_iff j k).0 t in
          let rest = lookup-pruned keys k idents in rw e (ground (arith, bytes_eq_iff k k))
      | inr n ↦ let rest = lookup-pruned keys k idents in ground arith
    ]

    pub pruned-Honest :
        (keys : List Bytes) (w : World) (h : Hub)
        → HonestHub w h
        → HonestHub w (record h { idents = pruned keys h.idents })
    pruned-Honest keys w h old k f e =
        let kept_rows = lookup-pruned keys k h.idents in old k f (ground arith)

    pub serve-Honest :
        (key : Bytes) (now : Option Bytes) (tries : Bytes → Attempt World Inv) (v w : World)
        (h : Hub)
        → Ordered v
        → RunsFrom v w tries
        → HonestHub w h
        → HonestHub w (serve (counter_levels deps) marshal key now (tries key) h)
    unfolding serve rebuild
    serve-Honest key none tries v w h o runs old =
        let prev = lookup key h.idents in
        store_frame-Honest key (build (counter_levels deps) marshal (tries key) prev).0 w h
          (λ f e. build-Honest key (tries key) prev f v w o (runs key).0 (runs key).1 e) old
    serve-Honest key (some sent) tries v w h o runs old = old

    reconcile_keys-Honest :
        (ks : List Bytes) (checks : Bytes → World) (tries : Bytes → Attempt World Inv) (v w : World)
        (h : Hub)
        → Ordered v
        → RunsFrom v w tries
        → HonestHub w h
        → HonestHub w (reconcile_keys (counter_levels deps) marshal checks tries ks h)
    unfolding reconcile_keys reconcile_one
    reconcile_keys-Honest [] checks tries v w h o runs old = old
    reconcile_keys-Honest (k ∷ ks) checks tries v w h o runs old =
        reconcile_keys-Honest ks checks tries v w _ o runs (serve-Honest k _ tries v w h o runs old)

    -- A pass keeps every frame honest.
    pub reconcile-Honest :
        (checks : Bytes → World) (tries : Bytes → Attempt World Inv) (v w : World) (h : Hub)
        → Ordered v
        → Reach v w
        → RunsFrom v w tries
        → HonestHub v h
        → HonestHub w (reconcile (counter_levels deps) marshal checks tries h)
    unfolding reconcile
    reconcile-Honest checks tries v w h o r runs old =
        let later : HonestHub w h = λ k f e. Honest-Reach k f v w r (old k f e) in
        reconcile_keys-Honest (connected h.conns) checks tries v w _ o runs
          (pruned-Honest _ w h later)
