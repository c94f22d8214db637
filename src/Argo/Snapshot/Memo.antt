-- ===== src/Argo/Snapshot/Memo.antt =====
-- The memoized drift while the reflector moves the store. A mutation of the store and the mark of the
-- flag are two steps; a read that rebuilds takes the flag and then lists the store, in two steps under
-- one lock.
use dotvirt.Forge.{Net}
use dotvirt.Argo.{Drift, ProjectSync, Reader}
use dotvirt.Argo.Reading.{resource_drift_from_apps, vm_view}
use dotvirt.Argo.Rollup.{app_sync_from_apps}
use dotvirt.Argo.Snapshot.{
  App, Snapshot, manifests, needs_rebuild, swapped, rebuilt, rebuild_locked, drift, project_drift,
}
use dotvirt.Prelude.{
  Bool-cases, Option-cases, ℕ, suc, refl, ap, inl, inr, Bool, true, false, Option, none, some, List,
  arith, Bytes, if◌then◌else◌, ◌<◌, ◌≡◌, ◌∙◌, ◌⊎◌,
}

if_true {ℓ} : {A : Type ℓ} (x y : A) (b : Bool) → b ≡ true → (if b then x else y) ≡ x
if_true x y b e = rw e refl

-- the mutations that are not marked yet, and whether a read is between its two steps
pub record Watched : Type 0 where
  pub snap : Snapshot
  pub unmarked : ℕ
  pub is_listing : Bool

module _ (net : Net) (rd : Reader) where
  pub data Step : Watched → Watched → Type 0 where
    stores :
        (w : Watched) (apps : List App)
        → Step w (record w { snap = record w.snap { apps = apps }; unmarked = suc w.unmarked })
    -- the flag is set, and the bus told
    marks :
        (w : Watched) (n : ℕ)
        → w.unmarked ≡ suc n
        → Step w (record w { snap = record w.snap { drift_dirty = true }; unmarked = n })
    swaps :
        (w : Watched)
        → w.is_listing ≡ false
        → Step w (record w { snap = swapped w.snap; is_listing = needs_rebuild w.snap })
    lists :
        (w : Watched)
        → w.is_listing ≡ true
        → Step w (record w { snap = rebuilt net rd w.snap; is_listing = false })

  pub data Reach (v : Watched) : Watched → Type 0 where
    here : Reach v v
    and_then : {w u : Watched} → Reach v w → Step w u → Reach v u

  -- The caches are those of the store.
  abbrev Cached : Snapshot → Type 0
  Cached s =
      (s.drift_cache ≡ vm_view (resource_drift_from_apps rd (manifests s.apps)))
      × (s.app_sync_cache ≡ app_sync_from_apps net rd (manifests s.apps))

  -- A cache that is behind the store is going to be rebuilt.
  abbrev Tracked : Watched → Type 0
  Tracked w =
      Cached w.snap
      ⊎ ((w.snap.resource_cache ≡ none)
          ⊎ ((w.snap.drift_dirty ≡ true) ⊎ ((0 < w.unmarked) ⊎ (w.is_listing ≡ true))))

  rebuilt-Cached : (s : Snapshot) → Cached (rebuilt net rd s)
  unfolding rebuilt
  rebuilt-Cached s = (refl, refl)

  swaps-Tracked :
      (w : Watched)
      → w.is_listing ≡ false
      → Tracked w
      → Tracked (record w { snap = swapped w.snap; is_listing = needs_rebuild w.snap })
  unfolding swapped needs_rebuild
  swaps-Tracked w l h = elim (Option-cases w.snap.resource_cache) [
    | inl n ↦ inr (inl n)
    | inr (m, q) ↦ elim h [
      | inl c ↦ inl c
      | inr (inl n) ↦ cc (n, q)
      | inr (inr (inl d)) ↦ inr (inr (inr (inr (rw q d))))
      | inr (inr (inr (inl u))) ↦ inr (inr (inr (inl u)))
      | inr (inr (inr (inr i))) ↦ cc (i, l)
    ]
  ]

  Step-Tracked : {v w : Watched} → Step v w → Tracked v → Tracked w
  Step-Tracked (stores w apps) h = inr (inr (inr (inl (omega arith))))
  Step-Tracked (marks w n e) h = inr (inr (inl refl))
  Step-Tracked (swaps w l) h = swaps-Tracked w l h
  Step-Tracked (lists w l) h = inl (rebuilt-Cached w.snap)

  Reach-Tracked : {v w : Watched} → v.snap.resource_cache ≡ none → Reach v w → Tracked w
  Reach-Tracked n here = inr (inl n)
  Reach-Tracked n (and_then r st) = Step-Tracked st (Reach-Tracked n r)

  -- the flag and the cache decide
  needs_rebuild-true :
      (s : Snapshot) → (s.resource_cache ≡ none) ⊎ (s.drift_dirty ≡ true) → needs_rebuild s ≡ true
  unfolding needs_rebuild
  needs_rebuild-true s (inl n) = rw n refl
  needs_rebuild-true s (inr d) = elim (Option-cases s.resource_cache) [
    | inl n ↦ rw n refl
    | inr (m, q) ↦ rw q d
  ]

  Tracked-due :
      (w : Watched)
      → w.unmarked ≡ 0
      → w.is_listing ≡ false
      → Tracked w
      → Cached w.snap ⊎ (needs_rebuild w.snap ≡ true)
  Tracked-due w u l (inl c) = inl c
  Tracked-due w u l (inr (inl n)) = inr (needs_rebuild-true w.snap (inl n))
  Tracked-due w u l (inr (inr (inl d))) = inr (needs_rebuild-true w.snap (inr d))
  Tracked-due w u l (inr (inr (inr (inl p)))) = absurd (omega arith)
  Tracked-due w u l (inr (inr (inr (inr i)))) = cc (i, l)

  rebuild_locked-caches :
      (s : Snapshot)
      → Cached s ⊎ (needs_rebuild s ≡ true)
      → ((rebuild_locked net rd s).drift_cache
          ≡ vm_view (resource_drift_from_apps rd (manifests s.apps)))
        × ((rebuild_locked net rd s).app_sync_cache ≡ app_sync_from_apps net rd (manifests s.apps))
  unfolding rebuild_locked rebuilt swapped
  rebuild_locked-caches s h = elim (Bool-cases (needs_rebuild s)) [
    | inl t ↦ rw t (refl, refl)
    | inr f ↦ elim h [ inl c ↦ rw f c | inr t ↦ cc (t, f) ]
  ]

  -- Along every interleaving of the reflector and the readers, from a snapshot that was never read:
  -- once the initial list has landed, and while no mutation of the store waits for its mark and no
  -- reader is inside, Drift and ProjectDrift answer what the store holds then.
  pub drift-OfStore :
      {v w : Watched}
      → v.snap.resource_cache ≡ none
      → Reach v w
      → w.snap.is_synced ≡ true
      → w.unmarked ≡ 0
      → w.is_listing ≡ false
      → ((drift net rd w.snap).0
          ≡ some (vm_view (resource_drift_from_apps rd (manifests w.snap.apps))))
        × ((project_drift net rd w.snap).0
            ≡ some (app_sync_from_apps net rd (manifests w.snap.apps)))
  unfolding drift project_drift
  drift-OfStore {v} {w} n r y u l =
      let (a, b) = rebuild_locked-caches w.snap (Tracked-due w u l (Reach-Tracked n r)) in
      let now = rebuild_locked net rd w.snap in
      (
        ap (λ (x : Option (List (Bytes × Drift)) × Snapshot). x.0)
              (if_true (some now.drift_cache, now) (none, w.snap) w.snap.is_synced y)
            ∙ ap some a,
        ap (λ (x : Option (List (Bytes × ProjectSync)) × Snapshot). x.0)
              (if_true (some now.app_sync_cache, now) (none, w.snap) w.snap.is_synced y)
            ∙ ap some b,
      )
