-- ===== src/Manifest/Span.antt =====
-- Which lines the scans of the line editor reach, and which lines `deleteChild` removes.
use dotvirt.Prelude.{
  leb, ==_iff, Bool-cases, length, get_elem?, ℕ, zero, suc, refl, sym, ap, subst, inl, inr, Bool,
  true, false, Option, some, List, [], arith, Bytes, drop, lt-length_of_get_elem?, length-drop,
  ◌==◌, if◌then◌else◌, ◌+◌, ◌-◌, ◌≤◌, ◌<◌, ◌≡◌, ◌∙◌, ◌↔◌, ◌⊎◌, ◌∷◌,
}
use dotvirt.Manifest.{Node, entry_of, line_of}
use dotvirt.Manifest.Editor.{
  LineEditor, indent_of, is_blank, scan_last, child_last, remove_range, delete_entry, delete_at,
  delete_from, delete_child,
}

module _ (trim_space : Bytes → Bytes) where
  module _ (stop : Bytes → Bool) where
    abbrev pub Free : Bytes → Type 0
    Free l = (is_blank trim_space l ≡ true) ⊎ (stop l ≡ false)

    -- From the line `k` on comes a line that is not blank, and no line up to that one stops.
    abbrev pub Under : List Bytes → ℕ → Type 0
    Under [] k = ⊥
    Under (l ∷ ls) zero = Free l × ((is_blank trim_space l ≡ false) ⊎ Under ls zero)
    Under (l ∷ ls) (suc k) = Free l × Under ls k

    Under-length : (ls : List Bytes) (k : ℕ) → Under ls k → k < length ls
    Under-length [] k u = absurd u
    Under-length (l ∷ ls) zero u = omega arith
    Under-length (l ∷ ls) (suc k) u = omega (arith, Under-length ls k u.1)

    abbrev next : ℕ → ℕ → Bytes → ℕ
    next j last l = if is_blank trim_space l then last else j

    pub scan_last-range :
        (j last : ℕ) (ls : List Bytes)
        → (scan_last trim_space stop j last ls ≡ last)
          ⊎ ((j ≤ scan_last trim_space stop j last ls)
              × (scan_last trim_space stop j last ls < j + length ls))
    unfolding scan_last
    scan_last-range j last [] = inl refl
    scan_last-range j last (l ∷ ls) = elim (Bool-cases (is_blank trim_space l)) [
      | inl t ↦ rw t (elim (scan_last-range (suc j) last ls) [
        | inl e ↦ inl e
        | inr (a, b) ↦ inr (omega arith, omega arith)
      ])
      | inr f ↦ elim (Bool-cases (stop l)) [
        | inl t ↦ rw (f, t) (inl refl)
        | inr g ↦
            rw (f, g)
              (elim (scan_last-range (suc j) j ls) [
                | inl e ↦ inr (omega arith, omega arith)
                | inr (a, b) ↦ inr (omega arith, omega arith)
              ])
      ]
    ]

    scan_last-Under :
        (j last k : ℕ) (ls : List Bytes)
        → last < j
        → j + k ≤ scan_last trim_space stop j last ls
        → Under ls k
    unfolding scan_last
    scan_last-Under j last k [] lt h = absurd (omega arith)
    scan_last-Under j last zero (l ∷ ls) lt h = elim (Bool-cases (is_blank trim_space l)) [
      | inl t ↦
          let z : j + 0 ≤ scan_last trim_space stop (suc j) last ls = rw t at h in
          elim (scan_last-range (suc j) last ls) [
            | inl e ↦ absurd (omega arith)
            | inr (a, b) ↦
                (inl t, inr (scan_last-Under (suc j) last 0 ls (omega arith) (omega arith)))
          ]
      | inr f ↦ elim (Bool-cases (stop l)) [
        | inl t ↦ let z : j + 0 ≤ last = rw (f, t) at h in absurd (omega arith)
        | inr g ↦ (inr g, inl f)
      ]
    ]
    scan_last-Under j last (suc k) (l ∷ ls) lt h = elim (Bool-cases (is_blank trim_space l)) [
      | inl t ↦
          let z : j + suc k ≤ scan_last trim_space stop (suc j) last ls = rw t at h in
          (inl t, scan_last-Under (suc j) last k ls (omega arith) (omega arith))
      | inr f ↦ elim (Bool-cases (stop l)) [
        | inl t ↦ let z : j + suc k ≤ last = rw (f, t) at h in absurd (omega arith)
        | inr g ↦
            let z : j + suc k ≤ scan_last trim_space stop (suc j) j ls = rw (f, g) at h in
            (inr g, scan_last-Under (suc j) j k ls (omega arith) (omega arith))
      ]
    ]

    Under-scan_last :
        (j last k : ℕ) (ls : List Bytes)
        → last < j
        → Under ls k
        → j + k ≤ scan_last trim_space stop j last ls
    unfolding scan_last
    Under-scan_last j last k [] lt u = absurd u
    Under-scan_last j last zero (l ∷ ls) lt u = elim (Bool-cases (is_blank trim_space l)) [
      | inl t ↦
          let v : Under ls 0 = elim u.1 [ inl f ↦ cc (f, t) | inr v ↦ v ] in
          let z = Under-scan_last (suc j) last 0 ls (omega arith) v in rw t (omega arith)
      | inr f ↦
          let g : stop l ≡ false = elim u.0 [ inl t ↦ cc (f, t) | inr g ↦ g ] in
          let z = scan_last-range (suc j) j ls in
          rw (f, g) (elim z [ inl e ↦ omega arith | inr (a, b) ↦ omega arith ])
    ]
    Under-scan_last j last (suc k) (l ∷ ls) lt u = elim (Bool-cases (is_blank trim_space l)) [
      | inl t ↦ let z = Under-scan_last (suc j) last k ls (omega arith) u.1 in rw t (omega arith)
      | inr f ↦
          let g : stop l ≡ false = elim u.0 [ inl t ↦ cc (f, t) | inr g ↦ g ] in
          let z = Under-scan_last (suc j) j k ls (omega arith) u.1 in rw (f, g) (omega arith)
    ]

    -- A scan reaches exactly the lines that a line which is not blank follows before the first that stops.
    pub scan_last_reach :
        (j last k : ℕ) (ls : List Bytes)
        → last < j
        → (j + k ≤ scan_last trim_space stop j last ls) ↔ Under ls k
    scan_last_reach j last k ls lt =
        (scan_last-Under j last k ls lt, Under-scan_last j last k ls lt)

  remove_range_iff :
      (a b i : ℕ) (e : LineEditor)
      → ((remove_range a b e).deleted i ≡ true)
        ↔ ((e.deleted i ≡ true) ⊎ ((a ≤ i) × (i < b) × (i < length e.lines)))
  unfolding remove_range
  remove_range_iff a b i e = (λ h. ground arith, λ h. ground arith)

  abbrev pub deeper : Bytes → Bytes → Bool
  deeper head l = leb (indent_of l) (indent_of head)

  -- Line `i` is nested under the line `start`, whose text is `head`.
  abbrev pub Nested : Bytes → ℕ → List Bytes → ℕ → Type 0
  Nested head start ls i =
      (k : ℕ) × (i ≡ suc start + k) × Under (deeper head) (drop (suc start) ls) k

  child_last_iff :
      (start i : ℕ) (head : Bytes) (ls : List Bytes)
      → get_elem? ls start ≡ some head
      → ((start ≤ i) × (i < suc (child_last trim_space start head ls)) × (i < length ls))
        ↔ ((i ≡ start) ⊎ Nested head start ls i)
  unfolding child_last
  child_last_iff start i head ls h =
      let r = drop (suc start) ls in
      (
        λ (a, b, c). elim (Bool-cases (i == start)) [
          | inl t ↦ inl ((==_iff i start).0 t)
          | inr f ↦
              let k = i - suc start in
              let n : suc start ≤ i = ground arith in
              let g =
                (scan_last_reach (deeper head) (suc start) start k r (omega arith)).0
                  (omega arith) in
              inr (k, omega arith, g)
        ],
        λ o. elim o [
          | inl e ↦
              let z = scan_last-range (deeper head) (suc start) start r in
              let l = lt-length_of_get_elem? start head ls h in
              (omega arith, elim z [ inl q ↦ omega arith | inr (a, b) ↦ omega arith ], omega arith)
          | inr (k, e, u) ↦
              let z = (scan_last_reach (deeper head) (suc start) start k r (omega arith)).1 u in
              let l = Under-length (deeper head) r k u in
              (omega arith, omega arith, omega (arith, length-drop (suc start) ls))
        ],
      )

  deleted-entry :
      (m : Option Node) (key : Bytes) (e : LineEditor) (k v : Node) (start : ℕ) (head : Bytes)
      → entry_of m key ≡ some (k, v)
      → line_of k ≡ suc start
      → get_elem? e.lines start ≡ some head
      → delete_child trim_space m key e
        ≡ remove_range start (suc (child_last trim_space start head e.lines)) e
  unfolding delete_child delete_entry delete_at delete_from
  deleted-entry m key e k v start head a b c =
      ap (λ (o : Option (Node × Node)). delete_entry trim_space o e) a
      ∙ ap (λ (n : ℕ). delete_at trim_space n e) b
      ∙ ap (λ (o : Option Bytes). delete_from trim_space start o e) c

  -- Where a mapping has an entry of the key, whose key stands on line `start` of the text, deleting it
  -- drops that line and the lines under it, up to the last one that is not blank before the first line
  -- that is not indented deeper than the key's: these lines and no others, next to what was dropped.
  pub delete_child_exact :
      (m : Option Node) (key : Bytes) (e : LineEditor) (k v : Node) (start i : ℕ) (head : Bytes)
      → entry_of m key ≡ some (k, v)
      → line_of k ≡ suc start
      → get_elem? e.lines start ≡ some head
      → ((delete_child trim_space m key e).deleted i ≡ true)
        ↔ ((e.deleted i ≡ true) ⊎ ((i ≡ start) ⊎ Nested head start e.lines i))
  delete_child_exact m key e k v start i head a b c =
      let r = remove_range_iff start (suc (child_last trim_space start head e.lines)) i e in
      let q = child_last_iff start i head e.lines c in
      subst
        (λ (d : LineEditor).
          (d.deleted i ≡ true)
          ↔ ((e.deleted i ≡ true) ⊎ ((i ≡ start) ⊎ Nested head start e.lines i)))
        (sym (deleted-entry m key e k v start head a b c))
        (
          λ h. elim (r.0 h) [ inl d ↦ inl d | inr w ↦ inr (q.0 w) ],
          λ h. elim h [ inl d ↦ r.1 (inl d) | inr w ↦ r.1 (inr (q.1 w)) ],
        )
