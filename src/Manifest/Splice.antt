-- ===== src/Manifest/Splice.antt =====
-- What a queued block adds to the text that the line editor writes.
use dotvirt.Prelude.{
  ltb, ==_iff, Bool-cases, length, take, ℕ, zero, suc, refl, sym, ap, inl, inr, Bool, true, false,
  Option, none, some, List, [], arith, Bytes, drop, length-drop, append_assoc, append-nil, ◌==◌,
  if◌then◌else◌, ◌+◌, ◌-◌, ◌≤◌, ◌<◌, ◌≡◌, ◌∙◌, ◌↔◌, ◌∷◌, ◌++◌,
}
use dotvirt.Manifest.{Node, Nodes, and_node, is_mapping, kind_of, line_of, column_of, content_of}
use dotvirt.Manifest.Editor.{
  LineEditor, Insertion, indent_of, scan_last, mapping_last_line, queue, pad_lines, insert_in,
  insert_at, insert_block, blocks_after, emit, rendered,
}
use dotvirt.Manifest.Span.{Under, scan_last_reach, scan_last-range}

abbrev block_at : ℕ → List Bytes → Insertion
block_at i text = record { after_line = i; text = text }

blocks_after-append :
    (i a : ℕ) (text : List Bytes) (bs : List Insertion)
    → blocks_after i (bs ++ block_at a text ∷ [])
      ≡ blocks_after i bs ++ (if a == i then text else [])
unfolding blocks_after
blocks_after-append i a text [] = ground (arith, append-nil text)
blocks_after-append i a text (b ∷ bs) = elim (Bool-cases (b.after_line == i)) [
  | inl t ↦
      rw (t, blocks_after-append i a text bs)
        (sym (append_assoc b.text (blocks_after i bs) (if a == i then text else [])))
  | inr f ↦ rw f (blocks_after-append i a text bs)
]

same : {a j : ℕ} → a ≡ j + 0 → j ≡ a
same e = omega arith

regroup : (x y z w : List Bytes) → x ++ (y ++ (z ++ w)) ≡ (x ++ (y ++ z)) ++ w
regroup x y z w = rw (append_assoc x (y ++ z) w, append_assoc y z w) refl

module _ (deleted : ℕ → Bool) (bs : List Insertion) (a : ℕ) (text : List Bytes) where
  abbrev queued : List Insertion
  queued = bs ++ block_at a text ∷ []

  abbrev one : ℕ → Bytes → List Bytes
  one j l = if deleted j then [] else l ∷ []

  emit-cons :
      (cs : List Insertion) (j : ℕ) (l : Bytes) (ls : List Bytes)
      → emit deleted cs j (l ∷ ls) ≡ one j l ++ (blocks_after j cs ++ emit deleted cs (suc j) ls)
  unfolding emit
  emit-cons cs j l ls = elim (Bool-cases (deleted j)) [ inl t ↦ rw t refl | inr f ↦ rw f refl ]

  blocks-queued : (j : ℕ) → (a == j) ≡ false → blocks_after j queued ≡ blocks_after j bs
  blocks-queued j f = blocks_after-append j a text bs ∙ rw f (append-nil (blocks_after j bs))

  emit-later : (j : ℕ) (ls : List Bytes) → a < j → emit deleted queued j ls ≡ emit deleted bs j ls
  unfolding emit
  emit-later j [] lt = refl
  emit-later j (l ∷ ls) lt =
      emit-cons queued j l ls
      ∙ rw (blocks-queued j (ground arith), emit-later (suc j) ls (omega arith))
          (sym (emit-cons bs j l ls))

  -- what is written for the lines up to `n` lines after `j`, and then for the others
  emit-split :
      (j n : ℕ) (ls : List Bytes)
      → emit deleted bs j ls ≡ emit deleted bs j (take n ls) ++ emit deleted bs (j + n) (drop n ls)
  unfolding emit
  emit-split j zero ls = ap (λ (k : ℕ). emit deleted bs k ls) (omega arith)
  emit-split j (suc n) [] = refl
  emit-split j (suc n) (l ∷ ls) =
      let e : suc j + n ≡ j + suc n = omega arith in
      emit-cons bs j l ls
      ∙ ap (λ (r : List Bytes). one j l ++ (blocks_after j bs ++ r)) (emit-split (suc j) n ls)
      ∙ regroup (one j l) (blocks_after j bs) _ _
      ∙ ap (λ (r : List Bytes). r ++ emit deleted bs (suc j + n) (drop n ls))
          (sym (emit-cons bs j l (take n ls)))
      ∙ ap (λ (k : ℕ). emit deleted bs j (l ∷ take n ls) ++ emit deleted bs k (drop n ls)) e

  emit-at :
      (j n : ℕ) (ls : List Bytes)
      → a ≡ j + n
      → n < length ls
      → emit deleted queued j ls
        ≡ emit deleted bs j (take (suc n) ls) ++ (text ++ emit deleted bs (suc a) (drop (suc n) ls))
  unfolding emit
  emit-at j n [] e lt = absurd (omega arith)
  emit-at j zero (l ∷ ls) e lt =
      emit-cons queued j l ls
      ∙ ap (λ (r : List Bytes). one j l ++ (r ++ emit deleted queued (suc j) ls))
          (blocks_after-append j a text bs ∙ rw ((==_iff a j).1 (omega arith)) refl)
      ∙ ap (λ (r : List Bytes). one j l ++ r) (append_assoc (blocks_after j bs) text _)
      ∙ ap (λ (r : List Bytes). one j l ++ (blocks_after j bs ++ (text ++ r)))
          (emit-later (suc j) ls (omega arith))
      ∙ regroup (one j l) (blocks_after j bs) [] _
      ∙ ap (λ (r : List Bytes). r ++ (text ++ emit deleted bs (suc j) ls))
          (sym (emit-cons bs j l []))
      ∙ ap (λ (k : ℕ). emit deleted bs j (l ∷ []) ++ (text ++ emit deleted bs (suc k) ls)) (same e)
  emit-at j (suc n) (l ∷ ls) e lt =
      emit-cons queued j l ls
      ∙ rw (blocks-queued j (ground arith), emit-at (suc j) n ls (omega arith) (omega arith))
          (regroup (one j l) (blocks_after j bs) _ _)
      ∙ ap (λ (r : List Bytes). r ++ (text ++ emit deleted bs (suc a) (drop (suc n) ls)))
          (sym (emit-cons bs j l (take (suc n) ls)))

module _ (trim_space : Bytes → Bytes) where
  -- what is written of the lines up to `i`, and what after them
  abbrev pub written_to : ℕ → LineEditor → List Bytes
  written_to i e = emit e.deleted e.inserts 0 (take (suc i) e.lines)

  abbrev pub written_after : ℕ → LineEditor → List Bytes
  written_after i e = emit e.deleted e.inserts (suc i) (drop (suc i) e.lines)

  pub queue-rendered :
      (i : ℕ) (text : List Bytes) (e : LineEditor)
      → i < length e.lines
      → (rendered e ≡ written_to i e ++ written_after i e)
        × (rendered (queue trim_space i text e) ≡ written_to i e ++ (text ++ written_after i e))
  unfolding rendered queue
  queue-rendered i text e lt = (
    emit-split e.deleted e.inserts i text 0 (suc i) e.lines
        ∙ ap (λ (k : ℕ). written_to i e ++ emit e.deleted e.inserts k (drop (suc i) e.lines))
            (omega arith),
    emit-at e.deleted e.inserts i text 0 i e.lines (omega arith) lt,
  )

  abbrev pub shallower : ℕ → Bytes → Bool
  shallower indent l = ltb (indent_of l) indent

  -- the line that a block of the mapping is queued after
  abbrev pub last_of : ℕ → ℕ → List Bytes → ℕ
  last_of start indent ls =
      scan_last trim_space (shallower indent) (suc start) start (drop (suc start) ls)

  mapping_last_line-last_of :
      (start indent : ℕ) (m : Node) (ls : List Bytes)
      → line_of m ≡ suc start
      → column_of m ≡ suc indent
      → mapping_last_line trim_space m ls ≡ some (last_of start indent ls)
  unfolding mapping_last_line
  mapping_last_line-last_of start indent m ls l c =
      let e : column_of m - 1 ≡ indent = omega arith in
      ap (λ (n : ℕ). elim n [ zero ↦ none | suc b ↦ some (last_of b (column_of m - 1) ls) ]) l
      ∙ ap (λ (k : ℕ). some (last_of start k ls)) e

  insert_block-queue :
      (start indent : ℕ) (m k : Node) (ns : Nodes) (block : List Bytes) (e : LineEditor)
      → content_of m ≡ and_node k ns
      → is_mapping (kind_of m) ≡ true
      → line_of m ≡ suc start
      → column_of m ≡ suc indent
      → insert_block trim_space (some m) block e
        ≡ some (queue trim_space (last_of start indent e.lines) (pad_lines indent block) e)
  unfolding insert_block insert_in insert_at
  insert_block-queue start indent m k ns block e t i l c =
      ap (λ (x : Nodes). insert_in trim_space (is_mapping (kind_of m)) x m block e) t
      ∙ ap (λ (b : Bool). insert_in trim_space b (and_node k ns) m block e) i
      ∙ ap (λ (n : ℕ). insert_at trim_space n (mapping_last_line trim_space m e.lines) block e) c
      ∙ ap (λ (o : Option ℕ). insert_at trim_space (suc indent) o block e)
          (mapping_last_line-last_of start indent m e.lines l c)

  last_of-bounds :
      (start indent : ℕ) (ls : List Bytes)
      → start < length ls
      → (start ≤ last_of start indent ls) × (last_of start indent ls < length ls)
  last_of-bounds start indent ls lt =
      let d = length-drop (suc start) ls in
      elim (scan_last-range trim_space (shallower indent) (suc start) start (drop (suc start) ls)) [
        | inl q ↦ (omega arith, omega arith)
        | inr (a, b) ↦ (omega arith, omega arith)
      ]

  -- Where a mapping has children, and its first one stands on a line of the text, a block is written for
  -- it after one line `a`, indented like the children; all else that is written stays as it was. The line
  -- is in the mapping: the `k`th line below the first child is at or above `a` exactly where a line that
  -- is not blank comes from there on before the first that is indented less than the children.
  pub insert_block_splices :
      (start indent k : ℕ) (m c : Node) (ns : Nodes) (block : List Bytes) (e : LineEditor)
      → content_of m ≡ and_node c ns
      → is_mapping (kind_of m) ≡ true
      → line_of m ≡ suc start
      → column_of m ≡ suc indent
      → start < length e.lines
      → (a : ℕ) × (d : LineEditor) × (insert_block trim_space (some m) block e ≡ some d)
        × (start ≤ a)
        × (a < length e.lines)
        × ((suc start + k ≤ a) ↔ Under trim_space (shallower indent) (drop (suc start) e.lines) k)
        × (rendered e ≡ written_to a e ++ written_after a e)
        × (rendered d ≡ written_to a e ++ (pad_lines indent block ++ written_after a e))
  insert_block_splices start indent k m c ns block e t i l p lt =
      let a = last_of start indent e.lines in
      let (b, u) = last_of-bounds start indent e.lines lt in
      let (x, y) = queue-rendered a (pad_lines indent block) e u in
      (
        a,
        queue trim_space a (pad_lines indent block) e,
        insert_block-queue start indent m c ns block e t i l p,
        b,
        u,
        scan_last_reach trim_space (shallower indent) (suc start) start k (drop (suc start) e.lines)
            (omega arith),
        x,
        y,
      )
