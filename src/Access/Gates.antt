-- ===== src/Access/Gates.antt =====
-- Who gets which scope: the authorization of the routes.
use dotvirt.Prelude.{
  Bool-cases, any, sym, ap, inl, inr, Bool, false, Option, none, some, List, [], Elem, Bytes,
  bytes_eq, bytes_eq_iff, ◌≡◌, ◌∙◌, ◌∷◌,
}
use dotvirt.Forge.{Net}
use dotvirt.Project.{ProjectInfo}
use dotvirt.Access.{Answer, ok, err, Scope, find_project}

-- A namespace that a narrowed read names is one of a project of the list, and that one has a repository.
abbrev pub Named : Bytes → List ProjectInfo → Type 0
Named n ps = (p : ProjectInfo) × Elem p ps × (bytes_eq p.repo [] ≡ false) × Elem n p.namespaces

pub find-Elem :
    (want : Bytes) (ps : List ProjectInfo) (p : ProjectInfo)
    → find_project ps want ≡ some p
    → Elem p ps × (p.name ≡ want)
unfolding find_project
find-Elem want [] p h = cc h
find-Elem want (q ∷ ps) p h = elim (Bool-cases (bytes_eq q.name want)) [
  | inl t ↦
      let z : some q ≡ some p = rw t at h in
      let e : q ≡ p = ap (λ (o : Option ProjectInfo). elim o [ none ↦ p | some x ↦ x ]) z in
      (inl (sym e), ap (λ (x : ProjectInfo). x.name) (sym e) ∙ (bytes_eq_iff q.name want).0 t)
  | inr f ↦ let (m, i) = find-Elem want ps p (rw f at h) in (inr m, i)
]

abbrev given : Answer (Scope × List Bytes) → List Bytes
given (err e) = []
given (ok (sc, ns)) = ns

module _ (net : Net) (token_key : Bytes → Bytes) where
  abbrev pub seen : List Bytes → Option (Bytes → Bool)
  seen vis = some (λ n. any (λ v. bytes_eq v n) vis)
