-- ===== src/Netstate/Catalog/Uplinks.antt =====
-- What mergeUplinks makes of the declared rows.
use dotvirt.Prelude.Sort.{any-sort_by, count_if, count_if-sort_by}
use dotvirt.Netstate.Catalog.{
  Uplink, unseen, sorted_set, first_row, fold_row, fold_uplink, merge_from, merge_uplinks,
}
use dotvirt.Prelude.{
  Bool-cases, length, any, refl, sym, subst, inl, inr, Bool, true, false, List, [], arith, Bytes,
  bytes_eq, bytes_lt, bytes_eq_iff, if◌then◌else◌, ◌≤◌, ◌≡◌, ◌∙◌, ◌&&◌, ◌||◌, ◌∷◌, ◌++◌,
}

any-append :
    {A : Type 0} (p : A → Bool) (xs ys : List A) → any p (xs ++ ys) ≡ (any p xs || any p ys)
any-append p [] ys = refl
any-append p (x ∷ xs) ys = ground (arith, any-append p xs ys)

abbrev pub is_in : Bytes → List Bytes → Bool
is_in v vs = any (bytes_eq v) vs

unseen-in :
    (v : Bytes) (seen vs : List Bytes)
    → (is_in v (unseen seen vs) || is_in v seen) ≡ (is_in v vs || is_in v seen)
unfolding unseen
unseen-in v seen [] = refl
unseen-in v seen (x ∷ xs) = elim (Bool-cases (is_in x seen)) [
  | inl t ↦ rw t (elim (Bool-cases (bytes_eq v x)) [
    | inl u ↦
        let e : is_in v seen ≡ true =
          subst (λ (y : Bytes). is_in y seen ≡ true) (sym ((bytes_eq_iff v x).0 u)) t in
        ground arith
    | inr u ↦ let rest = unseen-in v seen xs in ground arith
  ])
  | inr n ↦ rw n (let rest = unseen-in v (x ∷ seen) xs in ground arith)
]

sorted_set-in : (v : Bytes) (vs : List Bytes) → is_in v (sorted_set vs) ≡ is_in v vs
unfolding sorted_set
sorted_set-in v vs =
    any-sort_by bytes_lt (bytes_eq v) (unseen [] vs) ∙ ground (arith, unseen-in v [] vs)

-- no element stands twice
abbrev pub NoTwice : List Bytes → Type 0
NoTwice vs = (v : Bytes) → count_if (bytes_eq v) vs ≤ 1

unseen-count :
    (v : Bytes) (seen vs : List Bytes)
    → count_if (bytes_eq v) (unseen seen vs) ≤ (if is_in v seen then 0 else 1)
unfolding unseen
unseen-count v seen [] = ground arith
unseen-count v seen (x ∷ xs) = elim (Bool-cases (is_in x seen)) [
  | inl t ↦ rw t (unseen-count v seen xs)
  | inr n ↦ rw n (elim (Bool-cases (bytes_eq v x)) [
    | inl u ↦
        let e : is_in v seen ≡ false =
          subst (λ (y : Bytes). is_in y seen ≡ false) (sym ((bytes_eq_iff v x).0 u)) n in
        let rest = unseen-count v (x ∷ seen) xs in ground arith
    | inr u ↦ let rest = unseen-count v (x ∷ seen) xs in ground arith
  ])
]

sorted_set-NoTwice : (vs : List Bytes) → NoTwice (sorted_set vs)
unfolding sorted_set
sorted_set-NoTwice vs v =
    omega (arith, count_if-sort_by bytes_lt (bytes_eq v) (unseen [] vs), unseen-count v [] vs)

-- a row of a name
abbrev pub has_name : Bytes → Uplink → Bool
has_name n u = bytes_eq u.name n

-- a row of a name that has a node
abbrev pub carries : Bytes → Bytes → Uplink → Bool
carries n v u = bytes_eq u.name n && is_in v u.nodes

fold_uplink-carries :
    (n v : Bytes) (u : Uplink) (out : List Uplink)
    → any (carries n v) (fold_uplink u out) ≡ (carries n v u || any (carries n v) out)
unfolding fold_uplink first_row fold_row
fold_uplink-carries n v u [] = ground (arith, sorted_set-in v u.nodes)
fold_uplink-carries n v u (m ∷ out) = ground (
  arith,
  fold_uplink-carries n v u out,
  sorted_set-in v (m.nodes ++ u.nodes),
  any-append (bytes_eq v) m.nodes u.nodes,
  bytes_eq_iff m.name u.name,
)

fold_uplink-named :
    (n : Bytes) (u : Uplink) (out : List Uplink)
    → any (has_name n) (fold_uplink u out) ≡ (has_name n u || any (has_name n) out)
unfolding fold_uplink first_row fold_row
fold_uplink-named n u [] = refl
fold_uplink-named n u (m ∷ out) =
    ground (arith, fold_uplink-named n u out, bytes_eq_iff m.name u.name)

-- Each name once, and each row with every node once and their number.
abbrev pub Merged : List Uplink → Type 0
Merged [] = Unit
Merged (m ∷ out) =
    (any (has_name m.name) out ≡ false)
    × (m.node_count ≡ length m.nodes)
    × NoTwice m.nodes
    × Merged out

fold_uplink-Merged : (u : Uplink) (out : List Uplink) → Merged out → Merged (fold_uplink u out)
unfolding fold_uplink first_row fold_row
fold_uplink-Merged u [] h = (refl, refl, sorted_set-NoTwice u.nodes, tt)
fold_uplink-Merged u (m ∷ out) (a, b, once, c) = elim (Bool-cases (bytes_eq m.name u.name)) [
  | inl t ↦ rw t (a, refl, sorted_set-NoTwice (m.nodes ++ u.nodes), c)
  | inr f ↦ rw f (
    fold_uplink-named m.name u out
        ∙ ground (arith, a, f, bytes_eq_iff m.name u.name, bytes_eq_iff u.name m.name),
    b,
    once,
    fold_uplink-Merged u out c,
  )
]

merge_from-Merged : (us out : List Uplink) → Merged out → Merged (merge_from us out)
unfolding merge_from
merge_from-Merged [] out h = h
merge_from-Merged (u ∷ us) out h =
    merge_from-Merged us (fold_uplink u out) (fold_uplink-Merged u out h)

merge_from-any :
    (p : Uplink → Bool) (us out : List Uplink)
    → ((u : Uplink) (rows : List Uplink) → any p (fold_uplink u rows) ≡ (p u || any p rows))
    → any p (merge_from us out) ≡ (any p us || any p out)
unfolding merge_from
merge_from-any p [] out h = refl
merge_from-any p (u ∷ us) out h =
    let rest = merge_from-any p us (fold_uplink u out) h in let one = h u out in ground arith

-- The merged uplinks have each name once, the names of the declared rows and no others; the uplink of a
-- name has exactly the nodes that some row of that name has, each of them once, and their number.
pub merge_uplinks-exact :
    (us : List Uplink) (n v : Bytes)
    → Merged (merge_uplinks us)
      × (any (has_name n) (merge_uplinks us) ≡ any (has_name n) us)
      × (any (carries n v) (merge_uplinks us) ≡ any (carries n v) us)
unfolding merge_uplinks
merge_uplinks-exact us n v =
    let names = merge_from-any (has_name n) us [] (fold_uplink-named n) in
    let nodes = merge_from-any (carries n v) us [] (fold_uplink-carries n v) in
    (merge_from-Merged us [] tt, ground arith, ground arith)
