-- ===== src/Argo/Worst.antt =====
-- The rollup of a repository that several Applications serve.
use dotvirt.Prelude.Maps.{lookup, lookup-insert}
use dotvirt.Forge.{Net}
use dotvirt.Argo.{ProjectSync, Fields, Reader, rollup_severity}
use dotvirt.Argo.Rollup.{app_repo, rollup, keep_worse, add_app, sync_from, app_sync_from_apps}
use dotvirt.Prelude.{
  leb, Bool-cases, refl, sym, ap, inl, inr, Option, none, some, List, [], arith, Elem, Bytes,
  bytes_eq, bytes_eq_iff, if◌then◌else◌, ◌≤◌, ◌≡◌, ◌∙◌, ◌≢◌, ◌⊎◌, ◌∷◌,
}

-- as severe as each
abbrev pub AtLeast : List ProjectSync → ProjectSync → Type 0
AtLeast [] w = Unit
AtLeast (ps ∷ rest) w = (rollup_severity ps ≤ rollup_severity w) × AtLeast rest w

-- the Applications of a repository; one with no repository counts for none
module _ (net : Net) (rd : Reader) (repo : Bytes) where
  unfoldable pub apps_of : List Fields → List ProjectSync
  apps_of [] = []
  apps_of (app ∷ apps) =
      let rest = apps_of apps in
      if bytes_eq (app_repo net rd app) repo then rollup net rd app ∷ rest else rest

  -- of two, the one that comes later where they are as severe
  unfoldable pub worse : Option ProjectSync → ProjectSync → ProjectSync
  worse none ps = ps
  worse (some prev) ps = if leb (rollup_severity prev) (rollup_severity ps) then ps else prev

  -- the rollups of a repository, from the first to the last
  unfoldable pub worst_from : Option ProjectSync → List ProjectSync → Option ProjectSync
  worst_from o [] = o
  worst_from o (ps ∷ rest) = worst_from (some (worse o ps)) rest

  lookup-keep_worse :
      (r : Bytes) (ps : ProjectSync) (o : Option ProjectSync) (out : List (Bytes × ProjectSync))
      → lookup r out ≡ o
      → lookup repo (keep_worse net rd r ps o out)
        ≡ (if bytes_eq r repo then some (worse o ps) else lookup repo out)
  unfolding keep_worse worse
  lookup-keep_worse r ps none out e = lookup-insert r repo ps out
  lookup-keep_worse r ps (some prev) out e =
      ground (arith, lookup-insert r repo ps out, bytes_eq_iff r repo)

  lookup-add_app :
      (app : Fields) (out : List (Bytes × ProjectSync))
      → repo ≢ []
      → lookup repo (add_app net rd app out) ≡ (
          if bytes_eq (app_repo net rd app) repo
          then some (worse (lookup repo out) (rollup net rd app))
          else lookup repo out)
  unfolding add_app
  lookup-add_app app out ne = elim (Bool-cases (bytes_eq (app_repo net rd app) [])) [
    | inl t ↦ rw t (elim (Bool-cases (bytes_eq (app_repo net rd app) repo)) [
      | inl u ↦
          let e = (bytes_eq_iff (app_repo net rd app) []).0 t in
          let f = (bytes_eq_iff (app_repo net rd app) repo).0 u in absurd (ne (sym f ∙ e))
      | inr u ↦ rw u refl
    ])
    | inr n ↦ rw n (elim (Bool-cases (bytes_eq (app_repo net rd app) repo)) [
      | inl u ↦
          let e = (bytes_eq_iff (app_repo net rd app) repo).0 u in
          lookup-keep_worse _ _ _ out refl
          ∙ rw u (ap (λ (r : Bytes). some (worse (lookup r out) (rollup net rd app))) e)
      | inr u ↦ lookup-keep_worse _ _ _ out refl ∙ rw u refl
    ])
  ]

  lookup-sync_from :
      (apps : List Fields) (out : List (Bytes × ProjectSync))
      → repo ≢ []
      → lookup repo (sync_from net rd apps out) ≡ worst_from (lookup repo out) (apps_of apps)
  unfolding sync_from worst_from apps_of
  lookup-sync_from [] out ne = refl
  lookup-sync_from (app ∷ apps) out ne =
      let rest = lookup-sync_from apps (add_app net rd app out) ne in
      let one = lookup-add_app app out ne in
      elim (Bool-cases (bytes_eq (app_repo net rd app) repo)) [
        | inl t ↦ rest ∙ ap (λ o. worst_from o (apps_of apps)) one ∙ rw t refl
        | inr n ↦ rest ∙ ap (λ o. worst_from o (apps_of apps)) one ∙ rw n refl
      ]

  worse-severity :
      (p q : ProjectSync)
      → (rollup_severity p ≤ rollup_severity (worse (some p) q))
        × (rollup_severity q ≤ rollup_severity (worse (some p) q))
        × ((worse (some p) q ≡ p) ⊎ (worse (some p) q ≡ q))
  unfolding worse
  worse-severity p q = ground arith

  worst_from-AtLeast :
      (p : ProjectSync) (l : List ProjectSync)
      → (w : ProjectSync) × (worst_from (some p) l ≡ some w) × Elem w (p ∷ l) × AtLeast (p ∷ l) w
  unfolding worst_from
  worst_from-AtLeast p [] = (p, refl, inl refl, (omega arith, tt))
  worst_from-AtLeast p (q ∷ l) =
      let (w, e, m, (le, a)) = worst_from-AtLeast (worse (some p) q) l in
      let (lp, lq, which) = worse-severity p q in
      let member : Elem w (p ∷ q ∷ l) = by_which m which in
      let rest : AtLeast (q ∷ l) w = (omega arith, a) in
      let least : AtLeast (p ∷ q ∷ l) w = (omega arith, rest) in (w, e, member, least)
    where
      by_which :
          {w : ProjectSync}
          → Elem w (worse (some p) q ∷ l)
          → (worse (some p) q ≡ p) ⊎ (worse (some p) q ≡ q)
          → Elem w (p ∷ q ∷ l)
      by_which (inr m) o = inr (inr m)
      by_which (inl f) (inl g) = inl (f ∙ g)
      by_which (inl f) (inr g) = inr (inl (f ∙ g))

  -- For a repository that is named: it has a rollup exactly when it is the first source of some
  -- Application; that rollup is what one of those Applications says, and none of the others is more
  -- severe.
  pub app_sync-worst :
      (apps : List Fields)
      → repo ≢ []
      → ((apps_of apps ≡ []) × (lookup repo (app_sync_from_apps net rd apps) ≡ none))
        ⊎ ((w : ProjectSync) × (lookup repo (app_sync_from_apps net rd apps) ≡ some w)
            × Elem w (apps_of apps)
            × AtLeast (apps_of apps) w)
  unfolding app_sync_from_apps worst_from lookup worse
  app_sync-worst apps ne = by_apps (apps_of apps) (lookup-sync_from apps [] ne)
    where
      by_apps :
          (l : List ProjectSync)
          → lookup repo (sync_from net rd apps []) ≡ worst_from (lookup repo []) l
          → ((l ≡ []) × (lookup repo (sync_from net rd apps []) ≡ none))
            ⊎ ((w : ProjectSync) × (lookup repo (sync_from net rd apps []) ≡ some w)
                × Elem w l
                × AtLeast l w)
      by_apps [] e = inl (refl, e)
      by_apps (p ∷ l) e = let (w, f, m, a) = worst_from-AtLeast p l in inr (w, e ∙ f, m, a)
