-- ===== src/Draft/Keys.antt =====
-- What the keys and the file names of drafts tell apart.
use dotvirt.Prelude.{
  Bool-cases, ℕ, refl, sym, ap, inl, inr, Bool, true, [], arith, Bytes, bytes, bytes_eq,
  bytes_eq_iff, Lacks, ◌/◌, ◌%◌, ◌≡◌, ◌≢◌, ◌⊎◌, ◌||◌, ◌∷◌, ◌++◌,
}
use dotvirt.Draft.Entries.{Resource, resource_vm, slash, colon, entry_key}
use dotvirt.Draft.Disk.{unreserved, hex, path_escape, safe_segment}

slash_reserved : (c : ℕ) → c ≡ slash → unreserved c ≡ true → ⊥
unfolding unreserved
slash_reserved c e h = ground arith

-- What stands before the first separator, and what stands behind it, are determined.
split_unique :
    (c : ℕ) (s t u v : Bytes) → Lacks c s → Lacks c t → s ++ c ∷ u ≡ t ++ c ∷ v → (s ≡ t) × (u ≡ v)
split_unique c [] [] u v a b e = (refl, ground arith)
split_unique c [] (d ∷ t) u v a b e = absurd (b.0 (ground arith))
split_unique c (d ∷ s) [] u v a b e = absurd (a.0 (ground arith))
split_unique c (d ∷ s) (g ∷ t) u v a b e =
    let (p, q) = split_unique c s t u v a.1 b.1 (ground arith) in (ground arith, q)

-- the text up to a separator that only one side has
no_split :
    (c : ℕ) (s t u v : Bytes)
    → Lacks c s
    → Lacks 47 t
    → c ≢ 47
    → Lacks c t
    → Lacks 47 s
    → s ++ 47 ∷ u ≡ t ++ c ∷ v
    → ⊥
no_split c [] [] u v a b n l m e = n (ground arith)
no_split c [] (d ∷ t) u v a b n l m e = b.0 (ground arith)
no_split c (d ∷ s) [] u v a b n l m e = a.0 (ground arith)
no_split c (d ∷ s) (g ∷ t) u v a b n l m e = no_split c s t u v a.1 b.1 n l.1 m.1 (ground arith)

-- a VM entry is one of the resource vm, or of none
abbrev pub is_vm : Resource → Bool
is_vm r = bytes_eq r [] || bytes_eq r resource_vm

-- A word or a name without the separators of a key.
abbrev pub Plain : Bytes → Type 0
Plain s = Lacks slash s × Lacks colon s

-- Where no resource word and no namespace has a slash or a colon in it, two entries of one key have
-- one namespace, one name, and one resource, or both are VM entries.
pub entry_key_injective :
    (r q : Resource) (ns ms n m : Bytes)
    → Plain r
    → Plain q
    → Plain ns
    → Plain ms
    → entry_key r ns n ≡ entry_key q ms m
    → (ns ≡ ms) × (n ≡ m) × ((r ≡ q) ⊎ ((is_vm r ≡ true) × (is_vm q ≡ true)))
unfolding entry_key
entry_key_injective r q ns ms n m pr pq pn pm e = elim (Bool-cases (is_vm r)) [
  | inl a ↦ elim (Bool-cases (is_vm q)) [
    | inl b ↦
        let (x, y) = split_unique slash ns ms n m pn.0 pm.0 (rw b at (rw a at e)) in
        (x, y, inr (a, b))
    | inr b ↦ absurd (
        no_split colon ns q n (ms ++ slash ∷ m) pn.1 pq.0 (omega arith) pq.1 pn.0
          (rw b at (rw a at e)))
  ]
  | inr a ↦ elim (Bool-cases (is_vm q)) [
    | inl b ↦ absurd (
        no_split colon ms r m (ns ++ slash ∷ n) pm.1 pr.0 (omega arith) pr.1 pm.0
          (sym (rw b at (rw a at e))))
    | inr b ↦
        let (x, y) =
          split_unique colon r q (ns ++ slash ∷ n) (ms ++ slash ∷ m) pr.1 pq.1
            (rw b at (rw a at e)) in
        let (z, w) = split_unique slash ns ms n m pn.0 pm.0 y in (z, w, inl x)
  ]
]

hex-slash : (d : ℕ) → hex d ≢ slash
unfolding hex
hex-slash d e = ground arith

Lacks-path_escape : (s : Bytes) → Lacks slash (path_escape s)
unfolding path_escape
Lacks-path_escape [] = tt
Lacks-path_escape (c ∷ s) = elim (Bool-cases (unreserved c)) [
  | inl t ↦ rw t ((λ e. slash_reserved c e t), Lacks-path_escape s)
  | inr f ↦
      rw f ((λ e. omega arith), (hex-slash (c / 16), (hex-slash (c % 16), Lacks-path_escape s)))
]

escape_empty : (s : Bytes) → path_escape s ≡ [] → s ≡ []
unfolding path_escape
escape_empty [] e = refl
escape_empty (c ∷ s) e = elim (Bool-cases (unreserved c)) [
  | inl t ↦ cc (rw t at e)
  | inr f ↦ cc (rw f at e)
]

-- A text that is escaped to one or two dots is that text.
escape_dot :
    (s t : Bytes) → path_escape s ≡ 46 ∷ t → (r : Bytes) × (s ≡ 46 ∷ r) × (path_escape r ≡ t)
unfolding path_escape
escape_dot [] t e = cc
escape_dot (c ∷ s) t e = elim (Bool-cases (unreserved c)) [
  | inl u ↦ let q : c ∷ path_escape s ≡ 46 ∷ t = rw u at e in (s, ground arith, ground arith)
  | inr f ↦
      let q : 37 ∷ hex (c / 16) ∷ hex (c % 16) ∷ path_escape s ≡ 46 ∷ t = rw f at e in
      absurd (ground arith)
]

dots_kept : (s : Bytes) → path_escape s ≡ 46 ∷ 46 ∷ [] → s ≡ 46 ∷ 46 ∷ []
dots_kept s e =
    let (r, a, b) = escape_dot s (46 ∷ []) e in
    let (q, c, d) = escape_dot r [] b in
    rw a (ap (λ (u : Bytes). 46 ∷ u) (rw c (ap (λ (u : Bytes). 46 ∷ u) (escape_empty q d))))

dot_kept : (s : Bytes) → path_escape s ≡ 46 ∷ [] → s ≡ 46 ∷ []
dot_kept s e =
    let (r, a, b) = escape_dot s [] e in rw a (ap (λ (u : Bytes). 46 ∷ u) (escape_empty r b))

-- Whatever a user or a project is called, the segment that its name becomes has no slash, and is
-- neither the directory itself nor its parent.
pub safe_segment_stays :
    (s : Bytes)
    → Lacks slash (safe_segment s) × (safe_segment s ≢ bytes ".") × (safe_segment s ≢ bytes "..")
unfolding safe_segment
safe_segment_stays s = elim (Bool-cases (bytes_eq s (bytes "."))) [
  | inl t ↦ rw t (omega arith, (λ e. ground arith), λ e. ground arith)
  | inr f ↦ rw f (elim (Bool-cases (bytes_eq s (bytes ".."))) [
    | inl t ↦ rw t (omega arith, (λ e. ground arith), λ e. ground arith)
    | inr g ↦ rw g (
      Lacks-path_escape s,
      (λ e. ground (arith, bytes_eq_iff s (bytes "."), dot_kept s e)),
      λ e. ground (arith, bytes_eq_iff s (bytes ".."), dots_kept s e),
    )
  ])
]
