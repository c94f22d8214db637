-- ===== src/Project/Tenancy.antt =====
-- Who learns of which project, and when a project has a repository.
use dotvirt.Prelude.{
  Bool-cases, Option-cases, any, refl, sym, ap, subst, inl, inr, Bool, true, false, Option, none,
  some, List, [], arith, Elem, Bytes, bytes_eq, bytes_lt, bytes_eq_iff, Elem-map, Elem-map_inv, ◌≡◌,
  ◌∙◌, ◌≢◌, ◌↔◌, ◌⊎◌, ◌∷◌,
}
use dotvirt.Prelude.Sort.{sort_by, Elem-sort_by}
use dotvirt.Prelude.Maps.{lookup, lookup-Elem, Elem-lookup}
use dotvirt.Forge.{Net, resolve_ref}
use dotvirt.Project.{
  ProjectInfo, Namespace, Resolver, Accum, repo_of, info_of, by_project_name, add_repo, or_new,
  repo_ref, join_accum, group, resolve,
}
use dotvirt.Project.Member.{belongs, gathered, lookup-group, Single-group, Holds, held, holds}

any-Elem : (r : Bytes) (rs : List Bytes) → any (bytes_eq r) rs ≡ true → Elem r rs
any-Elem r [] h = cc h
any-Elem r (q ∷ rs) h = elim (Bool-cases (bytes_eq r q)) [
  | inl t ↦ inl ((bytes_eq_iff r q).0 t)
  | inr f ↦ inr (any-Elem r rs (rw f at h))
]

add_repo-Elem : (r q : Bytes) (rs : List Bytes) → (q ≡ r) ⊎ Elem q rs → Elem q (add_repo r rs)
unfolding add_repo
add_repo-Elem r q rs h = elim (Bool-cases (any (bytes_eq r) rs)) [
  | inl t ↦
      rw t
        (elim h [ inl e ↦ subst (λ (k : Bytes). Elem k rs) (sym e) (any-Elem r rs t) | inr m ↦ m ])
  | inr f ↦ rw f h
]

module _ (net : Net) (r : Resolver) (visible : Option (Bytes → Bool)) where
  abbrev resolved : Namespace → Bytes
  resolved ns = resolve_ref net r.forge_base (repo_ref net r ns)

  join-keeps :
      (q : Bytes) (ns : Namespace) (a : Accum)
      → Elem q a.repos
      → Elem q (join_accum net r ns a).repos
  unfolding join_accum
  join-keeps q ns a h = elim (Bool-cases (bytes_eq (repo_ref net r ns) [])) [
    | inl t ↦ rw t h
    | inr f ↦ rw f (add_repo-Elem (resolved ns) q a.repos (inr h))
  ]

  gathered-keeps :
      (q name : Bytes) (nss : List Namespace) (o : Option Accum)
      → Elem q (or_new o).repos
      → Elem q (or_new (gathered net r visible name nss o)).repos
  unfolding gathered or_new
  gathered-keeps q name [] o h = h
  gathered-keeps q name (ns ∷ nss) o h = elim (Bool-cases (belongs net r visible name ns)) [
    | inr f ↦ rw f (gathered-keeps q name nss o h)
    | inl t ↦ rw t (
        gathered-keeps q name nss (some (join_accum net r ns (or_new o)))
          (join-keeps q ns (or_new o) h))
  ]

  -- the repository of each namespace of the project is among the gathered
  gathered-Elem :
      (name : Bytes) (ns : Namespace) (nss : List Namespace) (o : Option Accum)
      → Elem ns nss
      → belongs net r visible name ns ≡ true
      → bytes_eq (repo_ref net r ns) [] ≡ false
      → Elem (resolved ns) (or_new (gathered net r visible name nss o)).repos
  unfolding gathered or_new join_accum
  gathered-Elem name ns [] o m b f = absurd m
  gathered-Elem name ns (ms ∷ nss) o (inl e) b f =
      let t : belongs net r visible name ms ≡ true =
        subst (λ (k : Namespace). belongs net r visible name k ≡ true) e b in
      rw t (
        gathered-keeps (resolved ns) name nss (some (join_accum net r ms (or_new o))) (
          subst (λ (k : Namespace). Elem (resolved ns) (join_accum net r k (or_new o)).repos) e
            (rw f (add_repo-Elem (resolved ns) (resolved ns) (or_new o).repos (inl refl)))))
  gathered-Elem name ns (ms ∷ nss) o (inr m) b f = gathered-Elem name ns nss _ m b f

  resolve-Elem :
      (info : ProjectInfo) (nss : List Namespace)
      → Elem info (resolve net r visible nss)
      → (name : Bytes) × (a : Accum) × (gathered net r visible name nss none ≡ some a)
        × (info ≡ info_of (name, a))
  unfolding resolve lookup
  resolve-Elem info nss h =
      let ((name, a), m, e) =
        Elem-map_inv info_of info (group net r visible nss [])
          ((Elem-sort_by by_project_name info _).0 h) in
      (
        name,
        a,
        sym (lookup-group net r visible name nss [])
            ∙ Elem-lookup name a _ (Single-group net r visible nss [] tt) m,
        e,
      )

  pub known :
      (n : Bytes) (info : ProjectInfo) (nss : List Namespace)
      → Elem info (resolve net r visible nss)
      → Elem n info.namespaces
      → Holds net r visible info.name n nss
  unfolding info_of or_new
  known n info nss m i =
      let (k, a, g, q) = resolve-Elem info nss m in
      let j : Elem n (sort_by bytes_lt a.namespaces) =
        subst (λ (p : ProjectInfo). Elem n p.namespaces) q i in
      let l : Elem n (or_new (gathered net r visible k nss none)).namespaces =
        subst (λ (o : Option Accum). Elem n (or_new o).namespaces) (sym g)
          ((Elem-sort_by bytes_lt n a.namespaces).0 j) in
      let name : info.name ≡ k = ap (λ (p : ProjectInfo). p.name) q in
      subst (λ (x : Bytes). Holds net r visible x n nss) (sym name)
        (elim (held net r visible k n nss none l) [ inl z ↦ absurd z | inr z ↦ z ])

  entry-Elem :
      (name : Bytes) (a : Accum) (nss : List Namespace)
      → gathered net r visible name nss none ≡ some a
      → Elem (info_of (name, a)) (resolve net r visible nss)
  unfolding resolve lookup
  entry-Elem name a nss g = (Elem-sort_by by_project_name (info_of (name, a)) _).1 (
      Elem-map info_of (name, a) (group net r visible nss [])
        (lookup-Elem name a (group net r visible nss [])
          (lookup-group net r visible name nss [] ∙ g)))

  shown :
      (name n : Bytes) (nss : List Namespace)
      → Holds net r visible name n nss
      → (info : ProjectInfo) × Elem info (resolve net r visible nss)
        × (info.name ≡ name)
        × Elem n info.namespaces
  unfolding info_of or_new
  shown name n nss h =
      let l = holds net r visible name n nss none (inr h) in
      elim (Option-cases (gathered net r visible name nss none)) [
        | inl e ↦ absurd (subst (λ (o : Option Accum). Elem n (or_new o).namespaces) e l)
        | inr (a, e) ↦ (
          info_of (name, a),
          entry-Elem name a nss e,
          refl,
          (Elem-sort_by bytes_lt n a.namespaces).1
              (subst (λ (o : Option Accum). Elem n (or_new o).namespaces) e l),
        )
      ]

  -- A caller learns that the namespace `n` is part of the project `name` exactly when some namespace of
  -- the cluster is called `n`, the caller may see it, and its label is `name`, which is not empty and
  -- not the reserved name of the platform.
  pub resolve_exact :
      (name n : Bytes) (nss : List Namespace)
      → ((info : ProjectInfo) × Elem info (resolve net r visible nss)
          × (info.name ≡ name)
          × Elem n info.namespaces)
        ↔ Holds net r visible name n nss
  resolve_exact name n nss = (
    λ (info, m, e, i). subst (λ (k : Bytes). Holds net r visible k n nss) e (known n info nss m i),
    λ h. shown name n nss h,
  )

  one_repo :
      (q : Bytes) (rs : List Bytes)
      → Elem q rs
      → (repo_of rs).0 ≢ []
      → (q ≡ (repo_of rs).0) × ((repo_of rs).1 ≡ [])
  unfolding repo_of
  one_repo q [] m n = absurd m
  one_repo q (p ∷ []) m n =
      (elim m [ inl e ↦ e | inr z ↦ absurd z ], ground (arith, bytes_eq_iff p []))
  one_repo q (p ∷ p' ∷ rs) m n = absurd (n refl)

  -- Where a project that the caller is shown has a repository, it has no error, and every visible
  -- namespace of the project that names a repository names that one: a relative reference and its
  -- absolute form count as one.
  pub resolve_agreed :
      (info : ProjectInfo) (ns : Namespace) (nss : List Namespace)
      → Elem info (resolve net r visible nss)
      → info.repo ≢ []
      → Elem ns nss
      → belongs net r visible info.name ns ≡ true
      → bytes_eq (repo_ref net r ns) [] ≡ false
      → (resolve_ref net r.forge_base (repo_ref net r ns) ≡ info.repo) × (info.error ≡ [])
  unfolding info_of or_new
  resolve_agreed info ns nss m p i b f =
      let (k, a, g, q) = resolve-Elem info nss m in
      let name : info.name ≡ k = ap (λ (p : ProjectInfo). p.name) q in
      let c : belongs net r visible k ns ≡ true =
        subst (λ (x : Bytes). belongs net r visible x ns ≡ true) name b in
      let l : Elem (resolved ns) a.repos =
        subst (λ (o : Option Accum). Elem (resolved ns) (or_new o).repos) g
          (gathered-Elem k ns nss none i c f) in
      let repo : info.repo ≡ (repo_of a.repos).0 = ap (λ (p : ProjectInfo). p.repo) q in
      let error : info.error ≡ (repo_of a.repos).1 = ap (λ (p : ProjectInfo). p.error) q in
      let (x, y) = one_repo (resolved ns) a.repos l (λ e. p (repo ∙ e)) in (x ∙ sym repo, error ∙ y)
