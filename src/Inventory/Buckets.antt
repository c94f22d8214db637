-- ===== src/Inventory/Buckets.antt =====
-- What each step of the building of a project's tree leaves in the rows of one namespace.
use dotvirt.Prelude.Maps.{lookup, insert, lookup-insert, Single, Single-insert}
use dotvirt.Clusterstate.{LiveVm}
use dotvirt.Inventory.{
  Vm, cluster_only, Inputs, apply_live, enrich, split_key, rows_of, add_row, seed, allowed, add_git,
  in_git, add_live_row, add_live,
}
use dotvirt.Prelude.{
  Bool-cases, any, refl, sym, subst, inl, inr, Bool, true, false, not, Option, none, some, List, [],
  arith, Bytes, bytes_eq, bytes_eq_iff, append_assoc, append-nil, if◌then◌else◌, ◌≡◌, ◌∙◌, ◌&&◌,
  ◌∷◌, ◌++◌,
}

abbrev pub ByNs : Type 0
ByNs = List (Bytes × List Vm)

-- the rows of the namespaces that are allowed
abbrev pub held : Bool → List Vm → Option (List Vm)
held true r = some r
held false r = none

and_false : (b : Bool) → (b && false) ≡ false
and_false b = ground arith

module _ (i : Inputs) (namespaces : List Bytes) (ns : Bytes) where
  -- the machines of git in one namespace
  unfoldable pub git_rows : List Vm → List Vm
  git_rows [] = []
  git_rows (vm ∷ vms) =
      let rest = git_rows vms in if bytes_eq vm.namespace ns then enrich i vm ∷ rest else rest

  unfoldable pub live_row : List Vm → Bytes → LiveVm → Option (Bytes × Bytes) → List Vm
  live_row vms k live none = []
  live_row vms k live (some (j, name)) =
      if bytes_eq j ns && not (in_git i namespaces vms k)
      then apply_live live (cluster_only j name) ∷ []
      else []

  -- the live machines of one namespace that git does not have
  unfoldable pub live_rows : List Vm → List (Bytes × LiveVm) → List Vm
  live_rows vms [] = []
  live_rows vms ((k, live) ∷ rest) = live_row vms k live (split_key k) ++ live_rows vms rest

  abbrev pub Holds : List Vm → ByNs → Type 0
  Holds r m = lookup ns m ≡ held (allowed namespaces ns) r

  pub lookup-seed :
      (nss : List Bytes) (m : ByNs)
      → lookup ns (seed nss m) ≡ (if any (bytes_eq ns) nss then some [] else lookup ns m)
  unfolding seed
  lookup-seed [] m = refl
  lookup-seed (j ∷ js) m = ground (
    arith,
    lookup-seed js (insert j [] m),
    lookup-insert j ns [] m,
    bytes_eq_iff j ns,
    bytes_eq_iff ns j,
  )

  add_row-own :
      (j : Bytes) (v : Vm) (m : ByNs) (r : List Vm)
      → bytes_eq j ns ≡ true
      → allowed namespaces j ≡ true
      → Holds r m
      → Holds (r ++ (v ∷ [])) (add_row j v m)
  unfolding add_row
  add_row-own j v m r t a h =
      let e = (bytes_eq_iff j ns).0 t in
      let b : allowed namespaces ns ≡ true =
        subst (λ (k : Bytes). allowed namespaces k ≡ true) e a in
      let f : lookup j m ≡ some r =
        subst (λ (k : Bytes). lookup k m ≡ some r) (sym e) (rw b at h) in
      lookup-insert j ns _ m ∙ rw (t, b, f) refl

  add_row-other :
      (j : Bytes) (v : Vm) (m : ByNs) (r : List Vm)
      → bytes_eq j ns ≡ false
      → Holds r m
      → Holds r (add_row j v m)
  unfolding add_row
  add_row-other j v m r n h = lookup-insert j ns _ m ∙ rw n h

  Holds-cong : (l q : List Vm) (m : ByNs) → l ≡ q → Holds l m → Holds q m
  Holds-cong l q m e h = subst (λ (x : List Vm). Holds x m) e h

  -- of a namespace that is not allowed nothing is held
  Holds-any : (r q : List Vm) (m : ByNs) → allowed namespaces ns ≡ false → Holds r m → Holds q m
  Holds-any r q m n h = rw n (rw n at h)

  same :
      (j : Bytes) {b : Bool}
      → bytes_eq j ns ≡ true
      → allowed namespaces j ≡ b
      → allowed namespaces ns ≡ b
  same j {b} t a = subst (λ (k : Bytes). allowed namespaces k ≡ b) ((bytes_eq_iff j ns).0 t) a

  pub add_git-Holds :
      (vms : List Vm) (m : ByNs) (r : List Vm)
      → Holds r m
      → Holds (r ++ git_rows vms) (add_git i namespaces vms m)
  unfolding add_git git_rows
  add_git-Holds [] m r h = rw (append-nil r) h
  add_git-Holds (vm ∷ vms) m r h = elim (Bool-cases (allowed namespaces vm.namespace)) [
    | inl a ↦ elim (Bool-cases (bytes_eq vm.namespace ns)) [
      | inl t ↦
          rw (a, t)
            (Holds-cong _ _ _ (append_assoc r (enrich i vm ∷ []) (git_rows vms))
              (add_git-Holds vms _ _ (add_row-own vm.namespace (enrich i vm) m r t a h)))
      | inr n ↦ rw (a, n) (add_git-Holds vms _ r (add_row-other vm.namespace (enrich i vm) m r n h))
    ]
    | inr a ↦ elim (Bool-cases (bytes_eq vm.namespace ns)) [
      | inl t ↦ rw (a, t) (Holds-any _ _ _ (same vm.namespace t a) (add_git-Holds vms m r h))
      | inr n ↦ rw (a, n) (add_git-Holds vms m r h)
    ]
  ]

  add_live_row-Holds :
      (vms : List Vm) (k : Bytes) (live : LiveVm) (o : Option (Bytes × Bytes)) (m : ByNs)
      (r : List Vm)
      → Holds r m
      → Holds (r ++ live_row vms k live o) (add_live_row i namespaces vms k live o m)
  unfolding live_row add_live_row
  add_live_row-Holds vms k live none m r h = rw (append-nil r) h
  add_live_row-Holds vms k live (some (j, name)) m r h =
      elim (Bool-cases (in_git i namespaces vms k)) [
        | inl g ↦
            rw (g, and_false (allowed namespaces j), and_false (bytes_eq j ns), append-nil r) h
        | inr g ↦ elim (Bool-cases (bytes_eq j ns)) [
          | inl t ↦ elim (Bool-cases (allowed namespaces j)) [
            | inl a ↦ rw (g, t, a) (add_row-own j (apply_live live (cluster_only j name)) m r t a h)
            | inr a ↦ rw (g, t, a) (Holds-any _ _ _ (same j t a) h)
          ]
          | inr n ↦ elim (Bool-cases (allowed namespaces j)) [
            | inl a ↦
                rw (g, n, a, append-nil r)
                  (add_row-other j (apply_live live (cluster_only j name)) m r n h)
            | inr a ↦ rw (g, n, a, append-nil r) h
          ]
        ]
      ]

  pub add_live-Holds :
      (vms : List Vm) (live : List (Bytes × LiveVm)) (m : ByNs) (r : List Vm)
      → Holds r m
      → Holds (r ++ live_rows vms live) (add_live i namespaces vms live m)
  unfolding add_live live_rows
  add_live-Holds vms [] m r h = rw (append-nil r) h
  add_live-Holds vms ((k, live) ∷ rest) m r h =
      Holds-cong _ _ _ (append_assoc r (live_row vms k live (split_key k)) (live_rows vms rest))
        (add_live-Holds vms rest _ _ (add_live_row-Holds vms k live (split_key k) m r h))

pub seed-Single : (nss : List Bytes) (m : ByNs) → Single m → Single (seed nss m)
unfolding seed
seed-Single [] m s = s
seed-Single (ns ∷ nss) m s = seed-Single nss (insert ns [] m) (Single-insert ns [] m s)

add_row-Single : (ns : Bytes) (v : Vm) (m : ByNs) → Single m → Single (add_row ns v m)
unfolding add_row
add_row-Single ns v m s = Single-insert ns (rows_of (lookup ns m) ++ (v ∷ [])) m s

module _ (i : Inputs) (namespaces : List Bytes) where
  pub add_git-Single : (vms : List Vm) (m : ByNs) → Single m → Single (add_git i namespaces vms m)
  unfolding add_git
  add_git-Single [] m s = s
  add_git-Single (vm ∷ vms) m s = elim (Bool-cases (allowed namespaces vm.namespace)) [
    | inl t ↦ rw t (add_git-Single vms _ (add_row-Single vm.namespace (enrich i vm) m s))
    | inr n ↦ rw n (add_git-Single vms m s)
  ]

  add_live_row-Single :
      (vms : List Vm) (k : Bytes) (live : LiveVm) (o : Option (Bytes × Bytes)) (m : ByNs)
      → Single m
      → Single (add_live_row i namespaces vms k live o m)
  unfolding add_live_row
  add_live_row-Single vms k live none m s = s
  add_live_row-Single vms k live (some (ns, name)) m s =
      elim (Bool-cases (allowed namespaces ns && not (in_git i namespaces vms k))) [
        | inl t ↦ rw t (add_row-Single ns (apply_live live (cluster_only ns name)) m s)
        | inr n ↦ rw n s
      ]

  pub add_live-Single :
      (vms : List Vm) (live : List (Bytes × LiveVm)) (m : ByNs)
      → Single m
      → Single (add_live i namespaces vms live m)
  unfolding add_live
  add_live-Single vms [] m s = s
  add_live-Single vms ((k, live) ∷ rest) m s =
      add_live-Single vms rest _ (add_live_row-Single vms k live (split_key k) m s)
