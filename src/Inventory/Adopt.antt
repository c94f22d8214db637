-- ===== src/Inventory/Adopt.antt =====
-- internal/inventory/inventory.go: the namespaces that hold machines and belong to no project.
use dotvirt.Prelude.Sort.{sort_by, Elem-sort_by}
use dotvirt.Prelude.Maps.{
  lookup, insert, lookup-insert, Single, Single-insert, lookup-Elem, Elem-lookup,
}
use dotvirt.Manifest.Editor.{has_prefix}
use dotvirt.Argo.Reading.{has_suffix}
use dotvirt.Project.{Namespace}
use dotvirt.Clusterstate.{LiveVm}
use dotvirt.Inventory.{split_key}
use dotvirt.Prelude.{
  Bool-cases, any, ℕ, zero, suc, refl, sym, ap, subst, inl, inr, Bool, true, false, not, Option,
  none, some, List, [], map, arith, Elem, Bytes, bytes, bytes_eq, bytes_lt, bytes_eq_iff, Elem-map,
  Elem-map_inv, if◌then◌else◌, ◌+◌, ◌<◌, ◌≡◌, ◌∙◌, ◌↔◌, ◌||◌, ◌∷◌,
}

pub record AdoptableNamespace : Type 0 where
  pub namespace : Bytes
  pub vms : ℕ

unfoldable pub is_system_namespace : Bytes → Bool
is_system_namespace ns =
    has_prefix (bytes "openshift-") ns
    || (has_prefix (bytes "kube-") ns || has_suffix (bytes "-operator-system") ns)

unfoldable pub is_owned : List Namespace → Bytes → Bool
is_owned labeled ns = any (λ (n : Namespace). bytes_eq n.name ns) labeled

abbrev pub or_zero : Option ℕ → ℕ
or_zero none = 0
or_zero (some n) = n

abbrev pub by_adoptable : AdoptableNamespace → AdoptableNamespace → Bool
by_adoptable a b = bytes_lt a.namespace b.namespace

abbrev pub adoptable_of : Bytes × ℕ → AdoptableNamespace
adoptable_of (ns, n) = record { namespace = ns; vms = n }

module _ (labeled : List Namespace) where
  unfoldable pub count_key : Option (Bytes × Bytes) → List (Bytes × ℕ) → List (Bytes × ℕ)
  count_key none counts = counts
  count_key (some (ns, name)) counts =
      if is_owned labeled ns || is_system_namespace ns
      then counts
      else insert ns (suc (or_zero (lookup ns counts))) counts

  unfoldable pub count_keys : List (Bytes × LiveVm) → List (Bytes × ℕ) → List (Bytes × ℕ)
  count_keys [] counts = counts
  count_keys ((k, live) ∷ rest) counts = count_keys rest (count_key (split_key k) counts)

  unfoldable pub adoptable : List (Bytes × LiveVm) → List AdoptableNamespace
  adoptable live = sort_by by_adoptable (map adoptable_of (count_keys live []))

  -- one, where the key is of the namespace
  unfoldable pub lives_in : Bytes → Option (Bytes × Bytes) → ℕ
  lives_in ns none = 0
  lives_in ns (some (j, name)) = if bytes_eq j ns then 1 else 0

  -- how many machines live in a namespace
  unfoldable pub machines_in : Bytes → List (Bytes × LiveVm) → ℕ
  machines_in ns [] = 0
  machines_in ns ((k, live) ∷ rest) = lives_in ns (split_key k) + machines_in ns rest

  abbrev pub is_candidate : Bytes → Bool
  is_candidate ns = not (is_owned labeled ns || is_system_namespace ns)

  abbrev tally : ℕ → Option ℕ
  tally zero = none
  tally (suc n) = some (suc n)

  abbrev counted : Bool → ℕ → Option ℕ
  counted true n = tally n
  counted false n = none

  abbrev Counts : Bytes → ℕ → List (Bytes × ℕ) → Type 0
  Counts ns n m = lookup ns m ≡ counted (is_candidate ns) n

  or_zero-tally : (n : ℕ) → or_zero (tally n) ≡ n
  or_zero-tally zero = refl
  or_zero-tally (suc n) = refl

  Counts-cong :
      (ns : Bytes) (m : List (Bytes × ℕ)) (n k : ℕ) → n ≡ k → Counts ns n m → Counts ns k m
  Counts-cong ns m n k e h = subst (λ (x : ℕ). Counts ns x m) e h

  count_key-own :
      (ns name : Bytes) (n : ℕ) (m : List (Bytes × ℕ))
      → Counts ns n m
      → Counts ns (suc n) (count_key (some (ns, name)) m)
  unfolding count_key
  count_key-own ns name n m h = elim (Bool-cases (is_owned labeled ns || is_system_namespace ns)) [
    | inl s ↦ rw s (rw s at h)
    | inr s ↦
        let same = (bytes_eq_iff ns ns).1 refl in
        let before : or_zero (lookup ns m) ≡ n = ap or_zero (rw s at h) ∙ or_zero-tally n in
        rw s (lookup-insert ns ns (suc (or_zero (lookup ns m))) m ∙ rw (same, before) refl)
  ]

  count_key-Counts :
      (ns : Bytes) (n : ℕ) (o : Option (Bytes × Bytes)) (m : List (Bytes × ℕ))
      → Counts ns n m
      → Counts ns (n + lives_in ns o) (count_key o m)
  unfolding count_key lives_in
  count_key-Counts ns n none m h = Counts-cong ns m n _ (omega arith) h
  count_key-Counts ns n (some (j, name)) m h = elim (Bool-cases (bytes_eq j ns)) [
    | inl t ↦ rw t (
        Counts-cong ns _ (suc n) _ (omega arith) (
          subst (λ (i : Bytes). Counts ns (suc n) (count_key (some (i, name)) m))
            (sym ((bytes_eq_iff j ns).0 t)) (count_key-own ns name n m h)))
    | inr f ↦ elim (Bool-cases (is_owned labeled j || is_system_namespace j)) [
      | inl s ↦ rw (f, s) (Counts-cong ns m n _ (omega arith) h)
      | inr s ↦
          rw (f, s)
            (Counts-cong ns _ n _ (omega arith)
              (lookup-insert j ns (suc (or_zero (lookup j m))) m ∙ rw f h))
    ]
  ]

  count_keys-Counts :
      (ns : Bytes) (live : List (Bytes × LiveVm)) (n : ℕ) (m : List (Bytes × ℕ))
      → Counts ns n m
      → Counts ns (n + machines_in ns live) (count_keys live m)
  unfolding count_keys machines_in
  count_keys-Counts ns [] n m h = Counts-cong ns m n _ (omega arith) h
  count_keys-Counts ns ((k, live) ∷ rest) n m h =
      Counts-cong ns _ _ _ (omega arith)
        (count_keys-Counts ns rest _ _ (count_key-Counts ns n (split_key k) m h))

  count_key-Single :
      (o : Option (Bytes × Bytes)) (m : List (Bytes × ℕ)) → Single m → Single (count_key o m)
  unfolding count_key
  count_key-Single none m s = s
  count_key-Single (some (ns, name)) m s =
      elim (Bool-cases (is_owned labeled ns || is_system_namespace ns)) [
        | inl t ↦ rw t s
        | inr f ↦ rw f (Single-insert ns (suc (or_zero (lookup ns m))) m s)
      ]

  count_keys-Single :
      (live : List (Bytes × LiveVm)) (m : List (Bytes × ℕ)) → Single m → Single (count_keys live m)
  unfolding count_keys
  count_keys-Single [] m s = s
  count_keys-Single ((k, live) ∷ rest) m s =
      count_keys-Single rest _ (count_key-Single (split_key k) m s)

  abbrev counts_of : List (Bytes × LiveVm) → List (Bytes × ℕ)
  counts_of live = count_keys live []

  lookup-counts_of :
      (ns : Bytes) (live : List (Bytes × LiveVm))
      → lookup ns (counts_of live) ≡ counted (is_candidate ns) (machines_in ns live)
  unfolding lookup
  lookup-counts_of ns live =
      let start : lookup ns [] ≡ counted (is_candidate ns) 0 = elim (Bool-cases (is_candidate ns)) [
        | inl t ↦ rw t refl
        | inr f ↦ rw f refl
      ] in
      Counts-cong ns _ _ _ (omega arith) (count_keys-Counts ns live 0 [] start)

  counted-some : (b : Bool) (n v : ℕ) → (counted b n ≡ some v) ↔ ((b ≡ true) × (v ≡ n) × (0 < v))
  counted-some true zero v = (λ h. cc h, λ h. absurd (omega (arith, h.1, h.2)))
  counted-some true (suc n) v =
      (λ h. let e : suc n ≡ v = cc h in (refl, sym e, omega arith), λ h. ap some (sym h.1))
  counted-some false n v = (λ h. cc h, λ h. cc (h.0))

  -- The namespaces proposed are those that hold a machine, carry no project and are not the system's,
  -- each with the number of its machines.
  pub adoptable-exact :
      (live : List (Bytes × LiveVm)) (a : AdoptableNamespace)
      → Elem a (adoptable live)
        ↔ ((is_candidate a.namespace ≡ true) × (a.vms ≡ machines_in a.namespace live) × (0 < a.vms))
  unfolding adoptable
  adoptable-exact live a = (
    λ h.
        let ((ns, n), m, e) =
          Elem-map_inv adoptable_of a (counts_of live) ((Elem-sort_by by_adoptable a _).0 h) in
        let found = Elem-lookup ns n (counts_of live) (count_keys-Single live [] tt) m in
        subst
          (λ (c : AdoptableNamespace).
            (is_candidate c.namespace ≡ true)
            × (c.vms ≡ machines_in c.namespace live)
            × (0 < c.vms))
          (sym e)
          ((counted-some (is_candidate ns) (machines_in ns live) n).0
            (sym (lookup-counts_of ns live) ∙ found)),
    λ h.
        let found =
          lookup-counts_of a.namespace live
          ∙ (counted-some (is_candidate a.namespace) (machines_in a.namespace live) a.vms).1 h in
        (Elem-sort_by by_adoptable a _).1 (
          Elem-map adoptable_of _ (counts_of live)
            (lookup-Elem a.namespace a.vms (counts_of live) found)),
  )
