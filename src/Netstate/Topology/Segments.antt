-- ===== src/Netstate/Topology/Segments.antt =====
-- Which segments two endpoints share.
use dotvirt.Prelude.{
  str_lt, Bool-cases, Option-cases, String, refl, sym, ap, subst, inl, inr, true, false, none, some,
  List, [], arith, str_eq, str_eq_iff, Elem, ◌≡◌, ◌∙◌, ◌⊎◌, ◌∷◌,
}
use dotvirt.Prelude.Sort.{Elem-sort_by}
use dotvirt.Netstate.Snapshot.{Snapshot}
use dotvirt.Netstate.Topology.{segment_key, seen_name, mem, shared_from, shared_segments}

keep : {P : Type 0} {xs ys : List String} (n : String) → xs ≡ ys → P ⊎ Elem n ys → P ⊎ Elem n xs
keep n e (inl t) = inl t
keep n e (inr z) = inr (subst (Elem n) (sym e) z)

module _ (s : Snapshot) where
  abbrev pub identity : String → String
  identity ref = (segment_key s ref).0

  abbrev pub display : String → String
  display ref = (segment_key s ref).1

  -- A NIC of the list attaches the segment `k`, and its segment is shown as `n`.
  abbrev pub Attaches : List String → String → String → Type 0
  Attaches a k n = (ref : String) × Elem ref a × (identity ref ≡ k) × (display ref ≡ n)

  seen-Attaches : (a : List String) (k n : String) → seen_name s a k ≡ some n → Attaches a k n
  unfolding seen_name
  seen-Attaches [] k n h = cc h
  seen-Attaches (ref ∷ refs) k n h = elim (Option-cases (seen_name s refs k)) [
    | inl e ↦ elim (Bool-cases (str_eq (identity ref) k)) [
      | inl t ↦ (
        ref,
        inl refl,
        (str_eq_iff (identity ref) k).0 t,
        let z : some (display ref) ≡ some n = rw (e, t) at h in ground arith,
      )
      | inr f ↦ cc (rw (e, f) at h)
    ]
    | inr (m, e) ↦
        let (r, i, q, d) = seen-Attaches refs k m e in
        (r, inr i, q, d ∙ (let z : some m ≡ some n = rw e at h in ground arith))
  ]

  Attaches-seen :
      (a : List String) (ref : String)
      → Elem ref a
      → (n : String) × (seen_name s a (identity ref) ≡ some n)
  unfolding seen_name
  Attaches-seen [] ref m = absurd m
  Attaches-seen (r ∷ refs) ref m = elim (Option-cases (seen_name s refs (identity ref))) [
    | inr (n, e) ↦ (n, rw e refl)
    | inl e ↦ elim m [
      | inl q ↦ (
        display r,
        rw e (rw ((str_eq_iff (identity r) (identity ref)).1 (ap identity (sym q))) refl),
      )
      | inr k ↦ let (n, h) = Attaches-seen refs ref k in absurd (cc (e, h))
    ]
  ]

  module _ (a added : List String) (r : String) (refs : List String) where
    skip_unseen :
        seen_name s a (identity r) ≡ none
        → shared_from s a added (r ∷ refs) ≡ shared_from s a added refs
    unfolding shared_from
    skip_unseen e = rw (shared_from, e) refl

    skip_added :
        (m : String)
        → seen_name s a (identity r) ≡ some m
        → mem (identity r) added ≡ true
        → shared_from s a added (r ∷ refs) ≡ shared_from s a added refs
    unfolding shared_from
    skip_added m e t = rw (shared_from, e, t) refl

    add_new :
        (m : String)
        → seen_name s a (identity r) ≡ some m
        → mem (identity r) added ≡ false
        → shared_from s a added (r ∷ refs) ≡ m ∷ shared_from s a (identity r ∷ added) refs
    unfolding shared_from
    add_new m e f = rw (shared_from, e, f) refl

  shared_from-Attaches :
      (a added b : List String) (n : String)
      → Elem n (shared_from s a added b)
      → (ref : String) × Elem ref b × Attaches a (identity ref) n
  unfolding shared_from
  shared_from-Attaches a added [] n h = absurd h
  shared_from-Attaches a added (r ∷ refs) n h = elim (Option-cases (seen_name s a (identity r))) [
    | inl e ↦
        later
          (shared_from-Attaches a added refs n (subst (Elem n) (skip_unseen a added r refs e) h))
    | inr (m, e) ↦ elim (Bool-cases (mem (identity r) added)) [
      | inl t ↦
          later (
            shared_from-Attaches a added refs n
              (subst (Elem n) (skip_added a added r refs m e t) h))
      | inr f ↦
          let z : Elem n (m ∷ shared_from s a (identity r ∷ added) refs) =
            subst (Elem n) (add_new a added r refs m e f) h in
          elim z [
            | inl q ↦ (r, inl refl, seen-Attaches a (identity r) n (e ∙ ap some (sym q)))
            | inr k ↦ later (shared_from-Attaches a (identity r ∷ added) refs n k)
          ]
    ]
  ]
    where
      later :
          (ref : String) × Elem ref refs × Attaches a (identity ref) n
          → (ref : String) × Elem ref (r ∷ refs) × Attaches a (identity ref) n
      later (ref, i, w) = (ref, inr i, w)

  listed_or_added :
      (a added b : List String) (ref n : String)
      → Elem ref b
      → seen_name s a (identity ref) ≡ some n
      → (mem (identity ref) added ≡ true) ⊎ Elem n (shared_from s a added b)
  unfolding shared_from mem
  listed_or_added a added [] ref n m h = absurd m
  listed_or_added a added (r ∷ refs) ref n (inl q) h =
      elim (Bool-cases (mem (identity ref) added)) [
        | inl t ↦ inl t
        | inr f ↦
            let g : seen_name s a (identity r) ≡ some n =
              subst (λ t. seen_name s a (identity t) ≡ some n) q h in
            let f' : mem (identity r) added ≡ false =
              subst (λ t. mem (identity t) added ≡ false) q f in
            inr (subst (Elem n) (sym (add_new a added r refs n g f')) (inl refl))
      ]
  listed_or_added a added (r ∷ refs) ref n (inr k) h =
      elim (Option-cases (seen_name s a (identity r))) [
        | inl e ↦ keep n (skip_unseen a added r refs e) (listed_or_added a added refs ref n k h)
        | inr (m, e) ↦ elim (Bool-cases (mem (identity r) added)) [
          | inl t ↦
              keep n (skip_added a added r refs m e t) (listed_or_added a added refs ref n k h)
          | inr f ↦
              keep n (add_new a added r refs m e f)
                (elim (listed_or_added a (identity r ∷ added) refs ref n k h) [
                  | inr z ↦ inr (inr z)
                  | inl z ↦ elim (Bool-cases (str_eq (identity r) (identity ref))) [
                    | inl t ↦
                        let u = (str_eq_iff (identity r) (identity ref)).0 t in
                        let g : some m ≡ some n =
                          sym e ∙ (subst (λ t'. seen_name s a t' ≡ some n) (sym u) h) in
                        inr (inl (ground arith))
                    | inr g ↦ inl (rw g at z)
                  ]
                ])
        ]
      ]

  -- Each name that is listed as shared is the display name of a segment that NICs of both workloads
  -- attach.
  pub shared_segments_sound :
      (a b : List String) (n : String)
      → Elem n (shared_segments s a b)
      → (ref : String) × Elem ref b × Attaches a (identity ref) n
  unfolding shared_segments
  shared_segments_sound a b n h =
      shared_from-Attaches a [] b n ((Elem-sort_by str_lt n (shared_from s a [] b)).0 h)

  -- Each segment that NICs of both workloads attach is listed as shared, under a display name that it
  -- has for a NIC of the first.
  pub shared_segments_complete :
      (a b : List String) (q r : String)
      → Elem q a
      → Elem r b
      → identity q ≡ identity r
      → (n : String) × Elem n (shared_segments s a b) × Attaches a (identity r) n
  unfolding shared_segments
  shared_segments_complete a b q r i j e =
      let (n, h) = Attaches-seen a q i in
      let g : seen_name s a (identity r) ≡ some n = subst (λ k. seen_name s a k ≡ some n) e h in
      elim (listed_or_added a [] b r n j g) [
        | inl t ↦ cc t
        | inr k ↦ (
          n,
          (Elem-sort_by str_lt n (shared_from s a [] b)).1 k,
          seen-Attaches a (identity r) n g,
        )
      ]
