-- ===== src/Project/Member.antt =====
-- Which namespaces stand behind an entry of the grouping.
use dotvirt.Prelude.{
  Bool-cases, refl, sym, ap, subst, inl, inr, Bool, true, not, Option, some, List, [], arith, Elem,
  Bytes, bytes_eq, bytes_eq_iff, Elem-append_iff, if◌then◌else◌, ◌≡◌, ◌∙◌, ◌⊎◌, ◌&&◌, ◌∷◌,
}
use dotvirt.Prelude.Maps.{lookup, insert, lookup-insert, Single, Single-insert}
use dotvirt.Forge.{Net}
use dotvirt.Project.{
  Namespace, Resolver, Accum, platform_name, is_visible, or_new, label_of, join_accum, group_one,
  group,
}

module _ (net : Net) (r : Resolver) (visible : Option (Bytes → Bool)) where
  -- The caller may see the namespace, and its label names a project that is not the reserved one.
  abbrev pub counts : Namespace → Bool
  counts ns =
      is_visible visible ns.name
      && (not (bytes_eq (label_of net r ns) []) && not (bytes_eq (label_of net r ns) platform_name))

  abbrev pub belongs : Bytes → Namespace → Bool
  belongs name ns = counts ns && bytes_eq (label_of net r ns) name

  abbrev extended : Namespace → List (Bytes × Accum) → List (Bytes × Accum)
  extended ns m =
      insert (label_of net r ns) (join_accum net r ns (or_new (lookup (label_of net r ns) m))) m

  group_one-counts :
      (ns : Namespace) (m : List (Bytes × Accum))
      → group_one net r visible ns m ≡ (if counts ns then extended ns m else m)
  unfolding group_one
  group_one-counts ns m = ground arith

  unfoldable pub gathered : Bytes → List Namespace → Option Accum → Option Accum
  gathered name [] o = o
  gathered name (ns ∷ nss) o =
      gathered name nss (if belongs name ns then some (join_accum net r ns (or_new o)) else o)

  lookup-group_one :
      (name : Bytes) (ns : Namespace) (m : List (Bytes × Accum))
      → lookup name (group_one net r visible ns m) ≡ (
          if belongs name ns
          then some (join_accum net r ns (or_new (lookup name m)))
          else lookup name m)
  lookup-group_one name ns m =
      ap (lookup name) (group_one-counts ns m) ∙ elim (Bool-cases (counts ns)) [
        | inr f ↦ rw f refl
        | inl t ↦ rw t (
            lookup-insert (label_of net r ns) name _ m
            ∙ elim (Bool-cases (bytes_eq (label_of net r ns) name)) [
              | inl q ↦ rw q (
                  ap (λ (k : Bytes). some (join_accum net r ns (or_new (lookup k m))))
                    ((bytes_eq_iff (label_of net r ns) name).0 q))
              | inr n ↦ rw n refl
            ])
      ]

  pub lookup-group :
      (name : Bytes) (nss : List Namespace) (m : List (Bytes × Accum))
      → lookup name (group net r visible nss m) ≡ gathered name nss (lookup name m)
  unfolding group gathered
  lookup-group name [] m = refl
  lookup-group name (ns ∷ nss) m =
      lookup-group name nss (group_one net r visible ns m)
      ∙ ap (gathered name nss) (lookup-group_one name ns m)

  Single-group_one :
      (ns : Namespace) (m : List (Bytes × Accum)) → Single m → Single (group_one net r visible ns m)
  Single-group_one ns m s =
      subst (λ (g : List (Bytes × Accum)). Single g) (sym (group_one-counts ns m))
        (elim (Bool-cases (counts ns)) [
          | inl t ↦ rw t (Single-insert (label_of net r ns) _ m s)
          | inr f ↦ rw f s
        ])

  pub Single-group :
      (nss : List Namespace) (m : List (Bytes × Accum))
      → Single m
      → Single (group net r visible nss m)
  unfolding group
  Single-group [] m s = s
  Single-group (ns ∷ nss) m s =
      Single-group nss (group_one net r visible ns m) (Single-group_one ns m s)

  -- Some namespace of the list belongs to the project `name` and is called `n`.
  abbrev pub Holds : Bytes → Bytes → List Namespace → Type 0
  Holds name n nss = (ns : Namespace) × Elem ns nss × (belongs name ns ≡ true) × (ns.name ≡ n)

  pub held :
      (name n : Bytes) (nss : List Namespace) (o : Option Accum)
      → Elem n (or_new (gathered name nss o)).namespaces
      → Elem n (or_new o).namespaces ⊎ Holds name n nss
  unfolding gathered join_accum or_new
  held name n [] o h = inl h
  held name n (ns ∷ nss) o h = elim (Bool-cases (belongs name ns)) [
    | inr f ↦ elim (held name n nss o (rw f at h)) [
      | inl e ↦ inl e
      | inr (m, i, b, e) ↦ inr (m, inr i, b, e)
    ]
    | inl t ↦ elim (held name n nss (some (join_accum net r ns (or_new o))) (rw t at h)) [
      | inl e ↦ elim ((Elem-append_iff n (or_new o).namespaces (ns.name ∷ [])).0 e) [
        | inl k ↦ inl k
        | inr (inl k) ↦ inr (ns, inl refl, t, sym k)
        | inr (inr k) ↦ absurd k
      ]
      | inr (m, i, b, e) ↦ inr (m, inr i, b, e)
    ]
  ]

  pub holds :
      (name n : Bytes) (nss : List Namespace) (o : Option Accum)
      → Elem n (or_new o).namespaces ⊎ Holds name n nss
      → Elem n (or_new (gathered name nss o)).namespaces
  unfolding gathered join_accum or_new
  holds name n [] o h = elim h [ inl e ↦ e | inr (m, i, b, e) ↦ absurd i ]
  holds name n (ns ∷ nss) o h = elim (Bool-cases (belongs name ns)) [
    | inr f ↦ rw f (
        holds name n nss o (elim h [
          | inl e ↦ inl e
          | inr (m, inl i, b, e) ↦ cc (subst (λ (k : Namespace). belongs name k ≡ true) i b, f)
          | inr (m, inr i, b, e) ↦ inr (m, i, b, e)
        ]))
    | inl t ↦ rw t (
        holds name n nss (some (join_accum net r ns (or_new o))) (elim h [
          | inl e ↦ inl ((Elem-append_iff n (or_new o).namespaces (ns.name ∷ [])).1 (inl e))
          | inr (m, inl i, b, e) ↦ inl (
              (Elem-append_iff n (or_new o).namespaces (ns.name ∷ [])).1
                (inr (inl (sym e ∙ ap (λ (k : Namespace). k.name) i))))
          | inr (m, inr i, b, e) ↦ inr (m, i, b, e)
        ]))
  ]
