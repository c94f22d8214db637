-- ===== src/Draft/Persist.antt =====
-- The entries of a draft file against the draft in memory.
pub mod Tags
pub mod Restart
pub mod Methods
use dotvirt.Prelude.{
  Bool-cases, refl, inl, inr, false, Option, none, some, List, [], arith, Bytes, bytes_eq,
  bytes_eq_iff, if◌then◌else◌, ◌≡◌, ◌∙◌, ◌∷◌,
}
use dotvirt.Prelude.Sort.{insert_by, sort_by}
use dotvirt.Prelude.Maps.{lookup, insert, without, lookup-insert, lookup-without}
use dotvirt.Draft.Entries.{
  Entry, key, is_stale, Draft, by_key, values, sorted_entries, index_entries,
}

module _ {Edit : Type 0} where
  -- the entry of a list with a given key
  pub find : Bytes → List (Entry Edit) → Option (Entry Edit)
  find k [] = none
  find k (e ∷ es) = if bytes_eq (key e) k then some e else find k es

  -- No two entries have one key.
  abbrev pub Distinct : List (Entry Edit) → Type 0
  Distinct [] = Unit
  Distinct (e ∷ es) = (find (key e) es ≡ none) × Distinct es

  abbrev pub Fresh : List (Entry Edit) → Type 0
  Fresh [] = Unit
  Fresh (e ∷ es) = (is_stale e ≡ false) × Fresh es

  find-insert_by :
      (k : Bytes) (a : Entry Edit) (es : List (Entry Edit))
      → find (key a) es ≡ none
      → find k (insert_by by_key a es) ≡ (if bytes_eq (key a) k then some a else find k es)
  unfolding find insert_by
  find-insert_by k a [] h = refl
  find-insert_by k a (b ∷ bs) h = elim (Bool-cases (by_key b a)) [
    | inl t ↦ rw t (
        ground (
          arith,
          find-insert_by k a bs,
          bytes_eq_iff (key b) (key a),
          bytes_eq_iff (key b) k,
          bytes_eq_iff (key a) k,
        ))
    | inr f ↦ rw f
  ]

  Distinct-insert_by :
      (a : Entry Edit) (es : List (Entry Edit))
      → find (key a) es ≡ none
      → Distinct es
      → Distinct (insert_by by_key a es)
  unfolding insert_by find
  Distinct-insert_by a [] h d = (refl, tt)
  Distinct-insert_by a (b ∷ bs) h d = elim (Bool-cases (by_key b a)) [
    | inl t ↦ rw t (
      ground (
        arith,
        find-insert_by (key b) a bs,
        bytes_eq_iff (key b) (key a),
        bytes_eq_iff (key a) (key b),
      ),
      Distinct-insert_by a bs (ground arith) d.1,
    )
    | inr f ↦ rw f (h, d)
  ]

  find-sort_by :
      (k : Bytes) (es : List (Entry Edit)) → Distinct es → find k (sort_by by_key es) ≡ find k es
  unfolding find sort_by
  find-sort_by k [] d = refl
  find-sort_by k (e ∷ es) d =
      find-insert_by k e (sort_by by_key es) (find-sort_by (key e) es d.1 ∙ d.0)
      ∙ rw (find-sort_by k es d.1)

  Distinct-sort_by : (es : List (Entry Edit)) → Distinct es → Distinct (sort_by by_key es)
  unfolding sort_by
  Distinct-sort_by [] d = tt
  Distinct-sort_by (e ∷ es) d =
      Distinct-insert_by e (sort_by by_key es) (find-sort_by (key e) es d.1 ∙ d.0)
        (Distinct-sort_by es d.1)

  Fresh-insert_by :
      (a : Entry Edit) (es : List (Entry Edit))
      → is_stale a ≡ false
      → Fresh es
      → Fresh (insert_by by_key a es)
  unfolding insert_by
  Fresh-insert_by a [] h f = (h, tt)
  Fresh-insert_by a (b ∷ bs) h f = elim (Bool-cases (by_key b a)) [
    | inl t ↦ rw t (f.0, Fresh-insert_by a bs h f.1)
    | inr e ↦ rw e (h, f)
  ]

  Fresh-sort_by : (es : List (Entry Edit)) → Fresh es → Fresh (sort_by by_key es)
  unfolding sort_by
  Fresh-sort_by [] f = tt
  Fresh-sort_by (e ∷ es) f = Fresh-insert_by e _ f.0 (Fresh-sort_by es f.1)

  -- An entry found in the list, or else one that was there.
  abbrev or_old : Option (Entry Edit) → Option (Entry Edit) → Option (Entry Edit)
  or_old none o = o
  or_old (some e) o = some e

  lookup-index_entries :
      (k : Bytes) (es : List (Entry Edit)) (d : Draft Edit)
      → Distinct es
      → Fresh es
      → lookup k (index_entries es d) ≡ or_old (find k es) (lookup k d)
  unfolding index_entries find
  lookup-index_entries k [] d u f = refl
  lookup-index_entries k (e ∷ es) d u f = rw f.0 (
      lookup-index_entries k es (insert (key e) e d) u.1 f.1
      ∙ ground (arith, lookup-insert (key e) k e d, bytes_eq_iff (key e) k, u.0))

  -- A draft holds each entry under its own key, once, and no stale create.
  abbrev pub WellKeyed : Draft Edit → Type 0
  WellKeyed [] = Unit
  WellKeyed ((k, e) ∷ d) = (k ≡ key e) × (is_stale e ≡ false) × (lookup k d ≡ none) × WellKeyed d

  find-values : (k : Bytes) (d : Draft Edit) → WellKeyed d → find k (values d) ≡ lookup k d
  unfolding find lookup values
  find-values k [] w = refl
  find-values k ((j, e) ∷ d) w = rw (← w.0) (rw (find-values k d w.3))

  Distinct-values : (d : Draft Edit) → WellKeyed d → Distinct (values d)
  unfolding values
  Distinct-values [] w = tt
  Distinct-values ((j, e) ∷ d) w =
      (find-values (key e) d w.3 ∙ (rw w.0 at w.2), Distinct-values d w.3)

  Fresh-values : (d : Draft Edit) → WellKeyed d → Fresh (values d)
  unfolding values
  Fresh-values [] w = tt
  Fresh-values ((j, e) ∷ d) w = (w.1, Fresh-values d w.3)

  or_old-none : (o : Option (Entry Edit)) → or_old o none ≡ o
  or_old-none none = refl
  or_old-none (some e) = refl

  -- What is written and read back is the same map.
  pub lookup-reload :
      (k : Bytes) (d : Draft Edit)
      → WellKeyed d
      → lookup k (index_entries (sorted_entries d) []) ≡ lookup k d
  unfolding sorted_entries lookup
  lookup-reload k d w =
      lookup-index_entries k _ [] (Distinct-sort_by (values d) (Distinct-values d w))
        (Fresh-sort_by (values d) (Fresh-values d w))
      ∙ (or_old-none _ ∙ (find-sort_by k (values d) (Distinct-values d w) ∙ find-values k d w))

  pub WellKeyed-without : (k : Bytes) (d : Draft Edit) → WellKeyed d → WellKeyed (without k d)
  unfolding without
  WellKeyed-without k [] w = tt
  WellKeyed-without k ((j, e) ∷ d) w = elim (Bool-cases (bytes_eq j k)) [
    | inl t ↦ rw t (WellKeyed-without k d w.3)
    | inr f ↦ rw f (w.0, w.1, ground (arith, lookup-without k j d, w.2), WellKeyed-without k d w.3)
  ]

  pub WellKeyed-insert :
      (e : Entry Edit) (d : Draft Edit)
      → is_stale e ≡ false
      → WellKeyed d
      → WellKeyed (insert (key e) e d)
  unfolding insert
  WellKeyed-insert e d h w = (
    refl,
    h,
    lookup-without (key e) (key e) d ∙ rw ((bytes_eq_iff (key e) (key e)).1 refl),
    WellKeyed-without (key e) d w,
  )

  -- Whatever a file holds, the draft that is read from it is well keyed.
  pub WellKeyed-index_entries :
      (es : List (Entry Edit)) (d : Draft Edit) → WellKeyed d → WellKeyed (index_entries es d)
  unfolding index_entries
  WellKeyed-index_entries [] d w = w
  WellKeyed-index_entries (e ∷ es) d w = elim (Bool-cases (is_stale e)) [
    | inl t ↦ rw t (WellKeyed-index_entries es d w)
    | inr f ↦ rw f (WellKeyed-index_entries es _ (WellKeyed-insert e d f w))
  ]
