-- ===== src/Stream/Repos.antt =====
-- internal/stream/levels.go: the levels of the hub, read off the bus.
use dotvirt.Forge.{Net, normalize_repo_url}
use dotvirt.Eventbus.{Kind, same_kind, u64, Bus, publish_key, key_version, version, listens}
use dotvirt.Eventbus.Levels.{version_moves, key_version_moves, sum-bounded, same_kind_comm}
use dotvirt.Inventory.{ProjectTree}
use dotvirt.Stream.{Levels}
use dotvirt.Prelude.{
  Bool-cases, length, keep_if, any, ℕ, suc, refl, inl, inr, Bool, true, false, not, Option, some,
  List, [], arith, Bytes, bytes_eq, bytes_eq_iff, if◌then◌else◌, ◌+◌, ◌≤◌, ◌<◌, ◌≡◌, ◌∙◌, ◌↔◌, ◌∷◌,
}

pub record RepoLevels : Type 0 where
  pub bus : Option Bus
  pub scoped : Kind
  pub all_kinds : List Kind
  pub unscoped : List Kind

-- RepoLevels
unfoldable pub repo_levels : Option Bus → Kind → List Kind → RepoLevels
repo_levels bus scoped kinds = record {
  bus = bus;
  scoped = scoped;
  all_kinds = kinds;
  unscoped = keep_if (λ k. not (same_kind k scoped)) kinds;
}

unfoldable pub total : RepoLevels → ℕ
total l = version l.bus l.all_kinds

unfoldable pub repo_deps : Net → List ProjectTree → List Bytes
repo_deps net [] = []
repo_deps net (p ∷ ps) =
    let rest = repo_deps net ps in
    if bytes_eq p.repo [] then rest else normalize_repo_url net p.repo ∷ rest

-- the loop of Stamp
unfoldable pub sum_keys : Option Bus → Kind → List Bytes → ℕ → ℕ
sum_keys bus scoped [] v = v
sum_keys bus scoped (d ∷ ds) v = sum_keys bus scoped ds (u64 (v + key_version bus scoped d))

unfoldable pub stamp : RepoLevels → List Bytes → ℕ
stamp l deps = sum_keys l.bus l.scoped deps (version l.bus l.unscoped)

-- the interface that the hub takes, at the moments of one bus
abbrev pub bus_levels : Net → Kind → List Kind → Levels (Option Bus) (List ProjectTree)
bus_levels net scoped kinds = record {
  total = λ bus. total (repo_levels bus scoped kinds);
  deps = repo_deps net;
  stamp = λ bus deps. stamp (repo_levels bus scoped kinds) deps;
}

-- how often a repository is named
unfoldable pub named : Bytes → List Bytes → ℕ
named key [] = 0
named key (d ∷ ds) = if bytes_eq d key then suc (named key ds) else named key ds

named-le-length : (key : Bytes) (ds : List Bytes) → named key ds ≤ length ds
unfolding named
named-le-length key [] = omega arith
named-le-length key (d ∷ ds) = ground (arith, named-le-length key ds)

same_kind_refl : (k : Kind) → same_kind k k ≡ true
unfolding same_kind
same_kind_refl k = ground arith

version-bounded : (b : Bus) (ks : List Kind) → version (some b) ks < 18446744073709551616
unfolding version
version-bounded b ks = sum-bounded b.versions ks 0 (omega arith)

module _ (b : Bus) (scoped : Kind) (key : Bytes) where
  sum_keys-publish_key :
      (ds : List Bytes) (v w n : ℕ)
      → u64 w ≡ u64 (v + n)
      → u64 (sum_keys (publish_key scoped key (some b)) scoped ds w)
        ≡ u64 (sum_keys (some b) scoped ds v + (n + named key ds))
  unfolding sum_keys named
  sum_keys-publish_key [] v w n h = omega arith
  sum_keys-publish_key (d ∷ ds) v w n h =
      let moved = (key_version_moves b scoped scoped key d).0 in
      let own = same_kind_refl scoped in
      elim (Bool-cases (bytes_eq d key)) [
        | inl t ↦
            let m = rw (own, t) at moved in
            rw (t, m)
              (sum_keys-publish_key ds (u64 (v + key_version (some b) scoped d))
                  (u64 (w + u64 (key_version (some b) scoped d + 1))) (suc n) (omega arith)
                ∙ omega arith)
        | inr f ↦
            let m = rw (own, f) at moved in
            rw (f, m)
              (sum_keys-publish_key ds (u64 (v + key_version (some b) scoped d))
                (u64 (w + key_version (some b) scoped d)) n (omega arith))
      ]

sum_keys-bounded :
    (bus : Option Bus) (scoped : Kind) (ds : List Bytes) (v : ℕ)
    → v < 18446744073709551616
    → sum_keys bus scoped ds v < 18446744073709551616
unfolding sum_keys
sum_keys-bounded bus scoped [] v h = h
sum_keys-bounded bus scoped (d ∷ ds) v h = sum_keys-bounded bus scoped ds _ (omega arith)

-- the kinds that are not scoped do not listen to the scoped one
unscoped_lem :
    (scoped : Kind) (kinds : List Kind)
    → listens scoped (keep_if (λ k. not (same_kind k scoped)) kinds) ≡ false
unfolding listens
unscoped_lem scoped [] = refl
unscoped_lem scoped (k ∷ ks) = ground (arith, unscoped_lem scoped ks, same_kind_comm k scoped)

length-keep_if : {A : Type 0} (p : A → Bool) (xs : List A) → length (keep_if p xs) ≤ length xs
length-keep_if p [] = omega arith
length-keep_if p (x ∷ xs) = ground (arith, length-keep_if p xs)

named-any : (key : Bytes) (ds : List Bytes) → (named key ds ≡ 0) ↔ (any (bytes_eq key) ds ≡ false)
unfolding named
named-any key [] = (λ h. refl, λ h. refl)
named-any key (d ∷ ds) = ground (arith, named-any key ds, bytes_eq_iff d key, bytes_eq_iff key d)

-- A push to one repository, for fewer than 2^64 kinds and repositories: the stamp of a frame is what
-- it was exactly when the frame does not depend on that repository, and the total is what it was
-- exactly when the kinds of the hub do not hold the scoped one.
pub stamp-publish_key :
    (b : Bus) (scoped : Kind) (kinds : List Kind) (key : Bytes) (ds : List Bytes)
    → length kinds < 18446744073709551616
    → length ds < 18446744073709551616
    → ((stamp (repo_levels (publish_key scoped key (some b)) scoped kinds) ds
          ≡ stamp (repo_levels (some b) scoped kinds) ds)
        ↔ (any (bytes_eq key) ds ≡ false))
      × ((total (repo_levels (publish_key scoped key (some b)) scoped kinds)
            ≡ total (repo_levels (some b) scoped kinds))
          ↔ (listens scoped kinds ≡ false))
unfolding stamp repo_levels total
stamp-publish_key b scoped kinds key ds hk hd = (
  (
    λ e. (named-any key ds).0 (omega (arith, moved, fits, named-le-length key ds, e)),
    λ e. let z = (named-any key ds).1 e in omega (arith, moved, fits, after_fits),
  ),
  (version_moves b scoped key kinds hk).1,
)
  where
    still :
        version (publish_key scoped key (some b)) (keep_if (λ k. not (same_kind k scoped)) kinds)
        ≡ version (some b) (keep_if (λ k. not (same_kind k scoped)) kinds)
    still =
        (version_moves b scoped key (keep_if (λ k. not (same_kind k scoped)) kinds)
            (omega (arith, length-keep_if (λ k. not (same_kind k scoped)) kinds, hk))).1.1
          (unscoped_lem scoped kinds)

    moved :
        u64 (
          sum_keys (publish_key scoped key (some b)) scoped ds (
            version
              (publish_key scoped key (some b))
              (keep_if (λ k. not (same_kind k scoped)) kinds)))
        ≡ u64 (
            sum_keys
              (some b)
              scoped
              ds
              (version (some b) (keep_if (λ k. not (same_kind k scoped)) kinds))
            + (0 + named key ds))
    moved = sum_keys-publish_key b scoped key ds _ _ 0 (rw still (omega arith))

    fits :
        sum_keys
          (some b)
          scoped
          ds
          (version (some b) (keep_if (λ k. not (same_kind k scoped)) kinds))
        < 18446744073709551616
    fits = sum_keys-bounded (some b) scoped ds _ (version-bounded b _)

    after_fits :
        sum_keys (publish_key scoped key (some b)) scoped ds (
          version (publish_key scoped key (some b)) (keep_if (λ k. not (same_kind k scoped)) kinds))
        < 18446744073709551616
    after_fits = sum_keys-bounded _ scoped ds _ (rw still (version-bounded b _))
