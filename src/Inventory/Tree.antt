-- ===== src/Inventory/Tree.antt =====
-- What the tree of a project shows.
use dotvirt.Inventory.Buckets.{
  ByNs, held, git_rows, live_rows, lookup-seed, add_git-Holds, add_live-Holds, seed-Single,
  add_git-Single, add_live-Single,
}
use dotvirt.Prelude.Sort.{sort_by, Elem-sort_by, count_if, count_if-sort_by}
use dotvirt.Prelude.Maps.{lookup, Single, lookup-Elem, Elem-lookup}
use dotvirt.Forge.{Net}
use dotvirt.Project.{ProjectInfo}
use dotvirt.Inventory.{
  Vm, ProjectNamespace, Inputs, seed, allowed, add_git, add_live, by_vm_name, by_namespace, bucket,
  group_namespaces, project_machines, build_project,
}
use dotvirt.Prelude.{
  Bool-cases, ℕ, refl, sym, ap, subst, inl, inr, Bool, true, false, Option, none, some, List, [],
  map, arith, Elem, Bytes, bytes_eq, bytes_eq_iff, Elem-map, Elem-map_inv, if◌then◌else◌, ◌≡◌, ◌∙◌,
  ◌↔◌, ◌∷◌, ◌++◌,
}

-- the machines of one namespace: those of git, and those that only live
abbrev pub rows_shown : Inputs → ProjectInfo → Bytes → List Vm
rows_shown i p ns =
    git_rows i p.namespaces ns (project_machines i p.repo)
    ++ live_rows i p.namespaces ns (project_machines i p.repo) i.live

abbrev tree_map : Inputs → ProjectInfo → ByNs
tree_map i p =
    let vms = project_machines i p.repo in
    add_live i p.namespaces vms i.live (add_git i p.namespaces vms (seed p.namespaces []))

lookup-tree_map :
    (i : Inputs) (p : ProjectInfo) (ns : Bytes)
    → lookup ns (tree_map i p) ≡ held (allowed p.namespaces ns) (rows_shown i p ns)
unfolding allowed lookup
lookup-tree_map i p ns =
    let vms = project_machines i p.repo in
    let start : lookup ns (seed p.namespaces []) ≡ held (allowed p.namespaces ns) [] =
      lookup-seed i p.namespaces ns p.namespaces [] ∙ ground arith in
    add_live-Holds i p.namespaces ns vms i.live _ _ (add_git-Holds i p.namespaces ns vms _ [] start)

tree_map-Single : (i : Inputs) (p : ProjectInfo) → Single (tree_map i p)
tree_map-Single i p =
    add_live-Single i p.namespaces _ i.live _
      (add_git-Single i p.namespaces _ _ (seed-Single p.namespaces [] tt))

tree_map-shown :
    (i : Inputs) (p : ProjectInfo) (ns : Bytes) (r : List Vm)
    → Elem (ns, r) (tree_map i p)
    → (allowed p.namespaces ns ≡ true) × (r ≡ rows_shown i p ns)
tree_map-shown i p ns r m =
    let found = Elem-lookup ns r (tree_map i p) (tree_map-Single i p) m in
    let known = lookup-tree_map i p ns in
    elim (Bool-cases (allowed p.namespaces ns)) [
      | inl t ↦ let e : some r ≡ some (rows_shown i p ns) = sym found ∙ (rw t at known) in (t, cc e)
      | inr n ↦ let e : some r ≡ none = sym found ∙ (rw n at known) in cc e
    ]

-- an entry as it should be
abbrev pub Shown : Inputs → ProjectInfo → ProjectNamespace → Type 0
Shown i p b =
    (allowed p.namespaces b.namespace ≡ true)
    × (b.vms ≡ sort_by by_vm_name (rows_shown i p b.namespace))

-- the entry of a namespace
abbrev pub is_entry_of : Bytes → ProjectNamespace → Bool
is_entry_of ns e = bytes_eq e.namespace ns

abbrev one_if : {A : Type 0} → Option A → ℕ
one_if none = 0
one_if (some a) = 1

count_if-bucket :
    (ns : Bytes) (m : ByNs)
    → Single m
    → count_if (is_entry_of ns) (map bucket m) ≡ one_if (lookup ns m)
unfolding lookup bucket
count_if-bucket ns [] o = refl
count_if-bucket ns ((k, vms) ∷ m) o = elim (Bool-cases (bytes_eq k ns)) [
  | inl t ↦
      let gone : lookup ns m ≡ none =
        subst (λ (j : Bytes). lookup j m ≡ none) ((bytes_eq_iff k ns).0 t) o.0 in
      rw t (omega (arith, count_if-bucket ns m o.1 ∙ ap one_if gone))
  | inr f ↦ rw f (omega (arith, count_if-bucket ns m o.1))
]

one_if-held : (b : Bool) (r : List Vm) → one_if (held b r) ≡ (if b then 1 else 0)
one_if-held true r = refl
one_if-held false r = refl

Shown-iff :
    (net : Net) (i : Inputs) (p : ProjectInfo) (b : ProjectNamespace)
    → Elem b (build_project net i p).namespaces ↔ Shown i p b
unfolding build_project group_namespaces bucket
Shown-iff net i p b = (
  λ h.
      let ((ns, r), m, e) =
        Elem-map_inv bucket b (tree_map i p) ((Elem-sort_by by_namespace b _).0 h) in
      let (a, q) = tree_map-shown i p ns r m in
      subst
        (λ (c : ProjectNamespace).
          (allowed p.namespaces c.namespace ≡ true)
          × (c.vms ≡ sort_by by_vm_name (rows_shown i p c.namespace)))
        (sym e) (a, ap (sort_by by_vm_name) q),
  λ h.
      let rows = rows_shown i p b.namespace in
      let found : lookup b.namespace (tree_map i p) ≡ some rows =
        lookup-tree_map i p b.namespace ∙ rw h.0 refl in
      let m =
        Elem-map bucket _ (tree_map i p) (lookup-Elem b.namespace rows (tree_map i p) found) in
      (Elem-sort_by by_namespace b _).1 (
        subst
          (λ (vms : List Vm).
            Elem (record { namespace = b.namespace; vms = vms }) (map bucket (tree_map i p)))
          (sym h.1) m),
)

-- The tree of a project has exactly one entry for each of its namespaces, empty ones included, and no
-- other; an entry has, sorted by name, the machines of its repository in that namespace, with what is
-- live and the drift filled in, and the live machines of that namespace that the repository does not
-- have. A repository that cannot be read has no machines.
pub build_project-buckets :
    (net : Net) (i : Inputs) (p : ProjectInfo) (ns : Bytes) (b : ProjectNamespace)
    → (count_if (is_entry_of ns) (build_project net i p).namespaces
        ≡ (if allowed p.namespaces ns then 1 else 0))
      × (Elem b (build_project net i p).namespaces ↔ Shown i p b)
unfolding build_project group_namespaces
build_project-buckets net i p ns b = (
  count_if-sort_by by_namespace (is_entry_of ns) _
      ∙ (count_if-bucket ns (tree_map i p) (tree_map-Single i p)
          ∙ (ap one_if (lookup-tree_map i p ns) ∙ one_if-held (allowed p.namespaces ns) _)),
  Shown-iff net i p b,
)
