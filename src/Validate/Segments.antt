-- ===== src/Validate/Segments.antt =====
-- A path of checked names is a checked path.
use dotvirt.Prelude.{
  any, all, ℕ, refl, sym, ap, subst, Bool, true, false, not, List, [], arith, Bytes, bytes_eq,
  bytes_eq_iff, ◌==◌, ◌≡◌, ◌∙◌, ◌||◌, ◌∷◌, ◌++◌,
}
use dotvirt.Forge.{split_at, slash}
use dotvirt.Validate.{
  is_alnum, label_tail, dns1123_label, dns1123_name, backslash, starts_with_slash, is_bad_segment,
  repo_path,
}

-- the names with a slash between them
unfoldable pub join_path : List Bytes → Bytes
join_path [] = []
join_path (n ∷ []) = n
join_path (n ∷ m ∷ ns) = n ++ slash ∷ join_path (m ∷ ns)

-- a byte that a label may hold
abbrev in_label : ℕ → Bool
in_label c = is_alnum c || c == 45

tail-in_label : (s : Bytes) → label_tail s ≡ true → all in_label s ≡ true
unfolding label_tail
tail-in_label [] h = refl
tail-in_label (d ∷ []) h = ground arith
tail-in_label (d ∷ e ∷ s) h = ground (arith, tail-in_label (e ∷ s))

name-first :
    (s : Bytes)
    → dns1123_name s ≡ true
    → (c : ℕ) × (t : Bytes) × (s ≡ c ∷ t) × (is_alnum c ≡ true) × (all in_label t ≡ true)
unfolding dns1123_name dns1123_label
name-first [] h = cc h
name-first (c ∷ t) h =
    let a : is_alnum c ≡ true = ground arith in
    let b : label_tail t ≡ true = ground arith in (c, t, refl, a, tail-in_label t b)

split_at-label :
    (n r : Bytes) → all in_label n ≡ true → split_at slash (n ++ slash ∷ r) ≡ n ∷ split_at slash r
unfolding split_at
split_at-label [] r h = refl
split_at-label (d ∷ n) r h =
    let f : (d == slash) ≡ false = ground arith in
    let t : all in_label n ≡ true = ground arith in rw (f, split_at-label n r t) refl

split_at-last : (n : Bytes) → all in_label n ≡ true → split_at slash n ≡ n ∷ []
unfolding split_at
split_at-last [] h = refl
split_at-last (d ∷ n) h =
    let f : (d == slash) ≡ false = ground arith in
    let t : all in_label n ≡ true = ground arith in rw (f, split_at-last n t) refl

alnum-in_label : (c : ℕ) → is_alnum c ≡ true → in_label c ≡ true
alnum-in_label c h = rw h refl

name-in_label : (s : Bytes) → dns1123_name s ≡ true → all in_label s ≡ true
name-in_label s h =
    let (c, t, e, a, b) = name-first s h in
    subst (λ (x : Bytes). all in_label x ≡ true) (sym e) (rw (alnum-in_label c a, b) refl)

name-segment : (s : Bytes) → dns1123_name s ≡ true → is_bad_segment s ≡ false
unfolding bytes_eq
name-segment s h =
    let (c, t, e, a, b) = name-first s h in
    subst (λ (x : Bytes). is_bad_segment x ≡ false) (sym e)
      (let f : (c == 46) ≡ false = ground arith in rw f refl)

split_at-join_path :
    (n : Bytes) (ns : List Bytes)
    → all dns1123_name (n ∷ ns) ≡ true
    → split_at slash (join_path (n ∷ ns)) ≡ n ∷ ns
unfolding join_path
split_at-join_path n [] h =
    let a : dns1123_name n ≡ true = ground arith in split_at-last n (name-in_label n a)
split_at-join_path n (m ∷ ns) h =
    let a : dns1123_name n ≡ true = ground arith in
    let b : all dns1123_name (m ∷ ns) ≡ true = ground arith in
    split_at-label n (join_path (m ∷ ns)) (name-in_label n a)
    ∙ ap (λ (r : List Bytes). n ∷ r) (split_at-join_path m ns b)

segments-fine : (ns : List Bytes) → all dns1123_name ns ≡ true → any is_bad_segment ns ≡ false
segments-fine [] h = refl
segments-fine (n ∷ ns) h =
    let a : dns1123_name n ≡ true = ground arith in
    let b : all dns1123_name ns ≡ true = ground arith in
    rw (name-segment n a, segments-fine ns b) refl

abbrev has_backslash : Bytes → Bool
has_backslash s = any (λ c. c == backslash) s

no_backslash : (s : Bytes) → all in_label s ≡ true → has_backslash s ≡ false
no_backslash [] h = refl
no_backslash (c ∷ s) h =
    let f : (c == backslash) ≡ false = ground arith in
    let t : all in_label s ≡ true = ground arith in rw (f, no_backslash s t) refl

no_backslash-append :
    (s t : Bytes)
    → has_backslash s ≡ false
    → has_backslash t ≡ false
    → has_backslash (s ++ t) ≡ false
no_backslash-append [] t h k = k
no_backslash-append (c ∷ s) t h k = ground (arith, no_backslash-append s t)

join_path-plain :
    (ns : List Bytes) → all dns1123_name ns ≡ true → has_backslash (join_path ns) ≡ false
unfolding join_path
join_path-plain [] h = refl
join_path-plain (n ∷ []) h =
    let a : dns1123_name n ≡ true = ground arith in no_backslash n (name-in_label n a)
join_path-plain (n ∷ m ∷ ns) h =
    let a : dns1123_name n ≡ true = ground arith in
    let b : all dns1123_name (m ∷ ns) ≡ true = ground arith in
    no_backslash-append n (slash ∷ join_path (m ∷ ns)) (no_backslash n (name-in_label n a))
      (join_path-plain (m ∷ ns) b)

-- neither empty nor from the root
abbrev relative : Bytes → Bool
relative p = not (bytes_eq p [] || starts_with_slash p)

first-relative :
    (c : ℕ) (t : Bytes) (ns : List Bytes)
    → (c == slash) ≡ false
    → relative (join_path ((c ∷ t) ∷ ns)) ≡ true
unfolding join_path bytes_eq
first-relative c t [] f = rw f refl
first-relative c t (m ∷ ms) f = rw f refl

join_path-relative :
    (n : Bytes) (ns : List Bytes)
    → all dns1123_name (n ∷ ns) ≡ true
    → relative (join_path (n ∷ ns)) ≡ true
join_path-relative n ns h =
    let a : dns1123_name n ≡ true = ground arith in
    let (c, t, e, al, b) = name-first n a in
    let f : (c == slash) ≡ false = ground arith in
    subst (λ (x : Bytes). relative (join_path (x ∷ ns)) ≡ true) (sym e) (first-relative c t ns f)

-- Where `path.Clean` leaves a path that has no empty segment, no dot and no pair of dots as it is, the
-- names of one or more segments that DNS1123Name admits make a path that RepoPath admits.
pub repo_path_names :
    (clean : Bytes → Bytes) (n : Bytes) (ns : List Bytes)
    → ((p : Bytes) → any is_bad_segment (split_at slash p) ≡ false → clean p ≡ p)
    → all dns1123_name (n ∷ ns) ≡ true
    → repo_path clean (join_path (n ∷ ns)) ≡ true
unfolding repo_path
repo_path_names clean n ns keeps h =
    let p = join_path (n ∷ ns) in
    let s : any is_bad_segment (split_at slash p) ≡ false =
      ap (any is_bad_segment) (split_at-join_path n ns h) ∙ segments-fine (n ∷ ns) h in
    let a = join_path-relative n ns h in
    let b = join_path-plain (n ∷ ns) h in
    let c : bytes_eq (clean p) p ≡ true = (bytes_eq_iff (clean p) p).1 (keeps p s) in
    ground (arith, s, a, b, c)
