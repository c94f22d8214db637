-- ===== src/Prelude/Maps.antt =====
-- Maps from texts: association lists, whose first entry of a key counts.
use mathlib.Core.Path.{◌≡◌, refl, sym, ap, ◌∙◌, subst}
use mathlib.Core.Logic.{inl, inr}
use mathlib.Core.List.{List, [], ◌∷◌}
use mathlib.Core.Option.{Option, none, some}
use native.Mathlib.Omega.{arith}
use dotvirt.Prelude.Tests.{if◌then◌else◌, Bool-cases}
use dotvirt.Prelude.Lists.{Elem}
use dotvirt.Prelude.ByteText.{Bytes, bytes_eq, bytes_eq_iff}

module _ {ℓ} {V : Type ℓ} where
  unfoldable pub lookup : Bytes → List (Bytes × V) → Option V
  lookup k [] = none
  lookup k ((j, v) ∷ m) = if bytes_eq j k then some v else lookup k m

  unfoldable pub without : Bytes → List (Bytes × V) → List (Bytes × V)
  without k [] = []
  without k ((j, v) ∷ m) = let rest = without k m in if bytes_eq j k then rest else (j, v) ∷ rest

  unfoldable pub insert : Bytes → V → List (Bytes × V) → List (Bytes × V)
  insert k v m = (k, v) ∷ without k m

  pub lookup-without :
      (k j : Bytes) (m : List (Bytes × V))
      → lookup j (without k m) ≡ (if bytes_eq k j then none else lookup j m)
  unfolding lookup without
  lookup-without k j [] = ground arith
  lookup-without k j ((i, v) ∷ m) =
      ground (arith, lookup-without k j m, bytes_eq_iff i k, bytes_eq_iff i j, bytes_eq_iff k j)

  pub lookup-insert :
      (k j : Bytes) (v : V) (m : List (Bytes × V))
      → lookup j (insert k v m) ≡ (if bytes_eq k j then some v else lookup j m)
  unfolding lookup insert
  lookup-insert k j v m = ground (arith, lookup-without k j m)

  -- No key stands twice.
  abbrev pub Single : List (Bytes × V) → Type ℓ
  Single [] = Unit
  Single ((k, v) ∷ m) = (lookup k m ≡ none) × Single m

  pub Single-without : (k : Bytes) (m : List (Bytes × V)) → Single m → Single (without k m)
  unfolding without
  Single-without k [] s = tt
  Single-without k ((i, e) ∷ m) s = elim (Bool-cases (bytes_eq i k)) [
    | inl t ↦ rw t (Single-without k m s.1)
    | inr f ↦ rw f (lookup-without k i m ∙ rw s.0 (ground arith), Single-without k m s.1)
  ]

  pub Single-insert : (k : Bytes) (v : V) (m : List (Bytes × V)) → Single m → Single (insert k v m)
  unfolding insert
  Single-insert k v m s =
      (lookup-without k k m ∙ rw ((bytes_eq_iff k k).1 refl) refl, Single-without k m s)

module _ {V : Type 0} where
  -- Where no key stands twice, the pairs of a map are its lookups.
  pub lookup-Elem : (k : Bytes) (v : V) (m : List (Bytes × V)) → lookup k m ≡ some v → Elem (k, v) m
  unfolding lookup
  lookup-Elem k v [] h = cc h
  lookup-Elem k v ((j, w) ∷ m) h = elim (Bool-cases (bytes_eq j k)) [
    | inl t ↦
        let q : some w ≡ some v = rw t at h in
        let e : j ≡ k = (bytes_eq_iff j k).0 t in inl (ground arith)
    | inr f ↦ inr (lookup-Elem k v m (rw f at h))
  ]

  pub Elem-lookup :
      (k : Bytes) (v : V) (m : List (Bytes × V)) → Single m → Elem (k, v) m → lookup k m ≡ some v
  unfolding lookup
  Elem-lookup k v [] s h = absurd h
  Elem-lookup k v ((j, w) ∷ m) s (inl e) =
      let a : k ≡ j = ap (λ (p : Bytes × V). p.0) e in
      let b : v ≡ w = ap (λ (p : Bytes × V). p.1) e in
      rw ((bytes_eq_iff j k).1 (sym a)) (ap some (sym b))
  Elem-lookup k v ((j, w) ∷ m) s (inr h) = elim (Bool-cases (bytes_eq j k)) [
    | inl t ↦
        let l = Elem-lookup k v m s.1 h in
        let q : lookup k m ≡ none =
          subst (λ (i : Bytes). lookup i m ≡ none) ((bytes_eq_iff j k).0 t) s.0 in
        cc (l, q)
    | inr f ↦ rw f (Elem-lookup k v m s.1 h)
  ]
