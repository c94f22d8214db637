-- ===== src/Manifest/Breaks.antt =====
-- The line editor of a text: which texts it takes, and what it writes when nothing is edited.
use dotvirt.Prelude.{
  ==_iff, Bool-cases, ℕ, suc, refl, sym, ap, subst, inl, inr, true, false, Option, none, some, List,
  [], arith, Bytes, ◌==◌, ◌≡◌, ◌∙◌, ◌≢◌, ◌↔◌, ◌⊎◌, ◌∷◌, ◌++◌,
}
use dotvirt.Manifest.Editor.{
  LineEditor, fresh_editor, new_line_editor, split_lines, on_first, join_lines, emit, blocks_after,
  lone_return, rendered, bytes_of, has_prefix, other_break, has_other_break, next_line,
  line_separator, paragraph_separator,
}

split_lines-cons : (s : Bytes) → (l : Bytes) × (ls : List Bytes) × (split_lines s ≡ l ∷ ls)
unfolding split_lines on_first
split_lines-cons [] = ([], [], refl)
split_lines-cons (c ∷ s) = elim (Bool-cases (c == 10)) [
  | inl t ↦ ([], split_lines s, rw t refl)
  | inr f ↦ let (l, ls, e) = split_lines-cons s in (c ∷ l, ls, rw (f, e) refl)
]

on_first-join :
    (c : ℕ) (l : Bytes) (ls : List Bytes)
    → join_lines (on_first c (l ∷ ls)) ≡ c ∷ join_lines (l ∷ ls)
unfolding on_first join_lines
on_first-join c l [] = refl
on_first-join c l (m ∷ ls) = refl

join_lines-split_lines : (s : Bytes) → join_lines (split_lines s) ≡ s
unfolding split_lines join_lines
join_lines-split_lines [] = refl
join_lines-split_lines (c ∷ s) =
    let (l, ls, e) = split_lines-cons s in
    let ih : join_lines (l ∷ ls) ≡ s = ap join_lines (sym e) ∙ join_lines-split_lines s in
    elim (Bool-cases (c == 10)) [
      | inl t ↦
          rw (t, e)
            (ap (λ (r : Bytes). 10 ∷ r) ih ∙ ap (λ (d : ℕ). d ∷ s) (sym ((==_iff c 10).0 t)))
      | inr f ↦ rw (f, e) (on_first-join c l ls ∙ ap (λ (r : Bytes). c ∷ r) ih)
    ]

emit-all : (i : ℕ) (ls : List Bytes) → emit (λ j. false) [] i ls ≡ ls
unfolding emit blocks_after
emit-all i [] = refl
emit-all i (l ∷ ls) = ap (λ (r : List Bytes). l ∷ r) (emit-all (suc i) ls)

-- An editor that was made of a text and edits nothing writes that text.
pub bytes_of-new_line_editor :
    (s : Bytes) (e : LineEditor) → new_line_editor s ≡ some e → bytes_of e ≡ s
unfolding new_line_editor rendered
bytes_of-new_line_editor s e h = elim (Bool-cases (has_other_break s)) [
  | inl t ↦ cc (rw t at h)
  | inr f ↦
      let z : some (fresh_editor (split_lines s)) ≡ some e = rw f at h in
      let q : fresh_editor (split_lines s) ≡ e =
        ap (λ (o : Option LineEditor). elim o [ none ↦ e | some x ↦ x ]) z in
      subst (λ (x : LineEditor). bytes_of x ≡ s) q
        (ap join_lines (emit-all 0 (split_lines s)) ∙ join_lines-split_lines s)
]

-- A text begins with a carriage return that ends it or stands before another byte than a line feed, or
-- with U+0085, U+2028 or U+2029.
abbrev pub BreaksHere : Bytes → Type 0
BreaksHere s =
    (s ≡ 13 ∷ [])
    ⊎ ((c : ℕ) × (r : Bytes) × (s ≡ 13 ∷ c ∷ r) × (c ≢ 10))
    ⊎ ((r : Bytes) × (s ≡ next_line ++ r))
    ⊎ ((r : Bytes) × (s ≡ line_separator ++ r))
    ⊎ ((r : Bytes) × (s ≡ paragraph_separator ++ r))

has_prefix-append : (p s : Bytes) → has_prefix p s ≡ true → (r : Bytes) × (s ≡ p ++ r)
unfolding has_prefix
has_prefix-append [] s h = (s, refl)
has_prefix-append (c ∷ p) [] h = cc h
has_prefix-append (c ∷ p) (d ∷ s) h = elim (Bool-cases (c == d)) [
  | inr f ↦ cc (rw f at h)
  | inl t ↦
      let (r, e) = has_prefix-append p s (rw t at h) in
      (r, ap (λ (x : ℕ). x ∷ s) (sym ((==_iff c d).0 t)) ∙ ap (λ (x : Bytes). c ∷ x) e)
]

append-has_prefix : (p r : Bytes) → has_prefix p (p ++ r) ≡ true
unfolding has_prefix
append-has_prefix [] r = refl
append-has_prefix (c ∷ p) r = rw ((==_iff c c).1 refl) (append-has_prefix p r)

lone_return-BreaksHere : (s : Bytes) → lone_return s ≡ true → BreaksHere s
unfolding lone_return has_prefix
lone_return-BreaksHere [] h = cc h
lone_return-BreaksHere (d ∷ []) h = elim (Bool-cases (13 == d)) [
  | inl t ↦ inl (ap (λ (x : ℕ). x ∷ []) (sym ((==_iff 13 d).0 t)))
  | inr f ↦ cc (rw f at h)
]
lone_return-BreaksHere (d ∷ c ∷ r) h = elim (Bool-cases (13 == d)) [
  | inl t ↦ elim (Bool-cases (10 == c)) [
    | inl u ↦ cc (rw (t, u) at h)
    | inr g ↦ inr (
        inl (
          c,
          r,
          ap (λ (x : ℕ). x ∷ c ∷ r) (sym ((==_iff 13 d).0 t)),
          λ e. cc ((==_iff 10 c).1 (sym e), g),
        ))
  ]
  | inr f ↦ cc (rw f at h)
]

other_break-BreaksHere : (s : Bytes) → other_break s ≡ true → BreaksHere s
unfolding other_break
other_break-BreaksHere s h = elim (Bool-cases (lone_return s)) [
  | inl t ↦ lone_return-BreaksHere s t
  | inr f ↦ elim (Bool-cases (has_prefix next_line s)) [
    | inl t ↦ inr (inr (inl (has_prefix-append next_line s t)))
    | inr g ↦ elim (Bool-cases (has_prefix line_separator s)) [
      | inl t ↦ inr (inr (inr (inl (has_prefix-append line_separator s t))))
      | inr k ↦ inr (inr (inr (inr (has_prefix-append paragraph_separator s (rw (f, g, k) at h)))))
    ]
  ]
]

BreaksHere-other_break : (s : Bytes) → BreaksHere s → other_break s ≡ true
unfolding other_break lone_return has_prefix
BreaksHere-other_break s (inl e) = rw e refl
BreaksHere-other_break s (inr (inl (c, r, e, n))) = rw e (ground arith)
BreaksHere-other_break s (inr (inr (inl (r, e)))) = rw e refl
BreaksHere-other_break s (inr (inr (inr (inl (r, e))))) = rw e refl
BreaksHere-other_break s (inr (inr (inr (inr (r, e))))) = rw e refl

has_other_break-at :
    (s : Bytes) → has_other_break s ≡ true → (p : Bytes) × (q : Bytes) × (s ≡ p ++ q) × BreaksHere q
unfolding has_other_break
has_other_break-at [] h = cc h
has_other_break-at (c ∷ s) h = elim (Bool-cases (other_break (c ∷ s))) [
  | inl t ↦ ([], c ∷ s, refl, other_break-BreaksHere (c ∷ s) t)
  | inr f ↦
      let (p, q, e, b) = has_other_break-at s (rw f at h) in
      (c ∷ p, q, ap (λ (x : Bytes). c ∷ x) e, b)
]

at-has_other_break : (p q : Bytes) → BreaksHere q → has_other_break (p ++ q) ≡ true
unfolding has_other_break other_break lone_return has_prefix
at-has_other_break [] [] b = cc (BreaksHere-other_break [] b)
at-has_other_break [] (c ∷ q) b = rw (BreaksHere-other_break (c ∷ q) b) refl
at-has_other_break (c ∷ p) q b = elim (Bool-cases (other_break (c ∷ p ++ q))) [
  | inl t ↦ rw t refl
  | inr f ↦ rw f (at-has_other_break p q b)
]

-- A text is refused exactly when somewhere in it stands a line break of yaml.v3 other than LF and CRLF:
-- a carriage return that no line feed follows, U+0085, U+2028 or U+2029.
pub new_line_editor_refuses :
    (s : Bytes)
    → (new_line_editor s ≡ none) ↔ ((p : Bytes) × (q : Bytes) × (s ≡ p ++ q) × BreaksHere q)
unfolding new_line_editor
new_line_editor_refuses s = (
  λ h. elim (Bool-cases (has_other_break s)) [
    | inl t ↦ has_other_break-at s t
    | inr f ↦ cc (rw f at h)
  ],
  λ (p, q, e, b).
      let t : has_other_break s ≡ true = ap has_other_break e ∙ at-has_other_break p q b in
      rw t refl,
)
