-- ===== src/Manifest/Devices/Append.antt =====
-- Where an appended item is written.
use dotvirt.Prelude.{
  leb, Bool-cases, length, get_elem?, take, all, ℕ, zero, suc, refl, ap, subst, inl, inr, Bool,
  true, not, Option, none, some, List, [], arith, Bytes, drop, lt-length_of_get_elem?, length-drop,
  ◌+◌, ◌-◌, ◌≤◌, ◌<◌, ◌≡◌, ◌∙◌, ◌||◌, ◌∷◌, ◌++◌,
}
use dotvirt.Manifest.{Node, is_sequence, kind_of, line_of, column_of, content_of}
use dotvirt.Manifest.Editor.{LineEditor, is_blank, indent_of, pad_lines, queue, rendered}
use dotvirt.Manifest.Splice.{written_to, written_after, queue-rendered}
use dotvirt.Manifest.Devices.{
  last_node, dash_indent, scan_end, end_from, item_end_at, item_end_line, queue_item, append_after,
  append_item,
}

all-take :
    (p : Bytes → Bool) (n : ℕ) (l : Bytes) (ls : List Bytes)
    → p l ≡ true
    → all p (take (n - 1) ls) ≡ true
    → all p (take n (l ∷ ls)) ≡ true
all-take p zero l ls h k = refl
all-take p (suc n) l ls h k =
    let e : suc n - 1 ≡ n = omega arith in rw h (subst (λ (m : ℕ). all p (take m ls) ≡ true) e k)

all-take_nil : (p : Bytes → Bool) (n : ℕ) → all p (take n []) ≡ true
all-take_nil p zero = refl
all-take_nil p (suc n) = refl

module _ (trim_space : Bytes → Bytes) where
  -- A line is blank or indented deeper than `indent`.
  abbrev pub inside : ℕ → Bytes → Bool
  inside indent l = is_blank trim_space l || not (leb (indent_of l) indent)

  scan_end-range :
      (indent j last : ℕ) (ls : List Bytes)
      → last < j
      → (suc last ≤ scan_end trim_space indent j last ls)
        × (scan_end trim_space indent j last ls ≤ j + length ls)
  unfolding scan_end
  scan_end-range indent j last [] lt = (omega arith, omega arith)
  scan_end-range indent j last (l ∷ ls) lt = elim (Bool-cases (is_blank trim_space l)) [
    | inl t ↦
        let (a, b) = scan_end-range indent (suc j) last ls (omega arith) in
        rw t (omega arith, omega arith)
    | inr f ↦ elim (Bool-cases (leb (indent_of l) indent)) [
      | inl t ↦ rw (f, t) (omega arith, omega arith)
      | inr g ↦
          let (a, b) = scan_end-range indent (suc j) j ls (omega arith) in
          rw (f, g) (omega arith, omega arith)
    ]
  ]

  scan_end-inside :
      (indent j last : ℕ) (ls : List Bytes)
      → all (inside indent) (take (scan_end trim_space indent j last ls - j) ls) ≡ true
  unfolding scan_end
  scan_end-inside indent j last [] = all-take_nil (inside indent) (suc last - j)
  scan_end-inside indent j last (l ∷ ls) = elim (Bool-cases (is_blank trim_space l)) [
    | inl t ↦
        let r = scan_end trim_space indent (suc j) last ls in
        let e : r - suc j ≡ r - j - 1 = omega arith in
        rw t (
          all-take (inside indent) (r - j) l ls (rw t refl) (
            subst (λ (m : ℕ). all (inside indent) (take m ls) ≡ true) e
              (scan_end-inside indent (suc j) last ls)))
    | inr f ↦ elim (Bool-cases (leb (indent_of l) indent)) [
      | inl t ↦
          let e : 0 ≡ j - j = omega arith in
          rw (f, t) (subst (λ (m : ℕ). all (inside indent) (take m (l ∷ ls)) ≡ true) e refl)
      | inr g ↦
          let r = scan_end trim_space indent (suc j) j ls in
          let e : r - suc j ≡ r - j - 1 = omega arith in
          rw (f, g)
            (all-take (inside indent) (r - j) l ls (rw (f, g) refl) (
              subst (λ (m : ℕ). all (inside indent) (take m ls) ≡ true) e
                (scan_end-inside indent (suc j) j ls)))
    ]
  ]

  -- the line that an item is queued after
  abbrev pub last_line : ℕ → Bytes → List Bytes → ℕ
  last_line start head ls =
      scan_end trim_space (indent_of head) (suc start) start (drop (suc start) ls) - 1

  append_item-queue :
      (seq item : Node) (start c : ℕ) (head : Bytes) (ls : List Bytes) (e : LineEditor)
      → is_sequence (kind_of seq) ≡ true
      → last_node (content_of seq) ≡ some item
      → line_of item ≡ suc start
      → column_of item ≡ suc c
      → get_elem? e.lines start ≡ some head
      → append_item trim_space (some seq) ls e
        ≡ some
            (queue trim_space (last_line start head e.lines) (pad_lines (dash_indent (suc c)) ls) e)
  unfolding append_item append_after item_end_line item_end_at end_from queue_item
  append_item-queue seq item start c head ls e s n l k h =
      rw s refl
      ∙ ap (λ (o : Option Node). append_after trim_space o ls e) n
      ∙ ap (λ (i : ℕ). queue_item trim_space i (item_end_line trim_space item none e) ls e) k
      ∙ ap (λ (i : ℕ). queue_item trim_space (suc c) (item_end_at trim_space i none e) ls e) l
      ∙ ap
          (λ (o : Option Bytes).
            queue_item trim_space (suc c) (end_from trim_space start o none e) ls e)
          h

  -- Where the last item of a sequence stands on a line of the text, the lines of a new item are written
  -- after one line `a`, under the dashes of the others; all else that is written stays as it was. The
  -- line is the item's own or below it, and each line between them is blank or is indented deeper than
  -- the item's first.
  pub append_item_splices :
      (seq item : Node) (start c : ℕ) (head : Bytes) (ls : List Bytes) (e : LineEditor)
      → is_sequence (kind_of seq) ≡ true
      → last_node (content_of seq) ≡ some item
      → line_of item ≡ suc start
      → column_of item ≡ suc c
      → get_elem? e.lines start ≡ some head
      → (a : ℕ) × (d : LineEditor) × (append_item trim_space (some seq) ls e ≡ some d)
        × (start ≤ a)
        × (a < length e.lines)
        × (all (inside (indent_of head)) (take (a - start) (drop (suc start) e.lines)) ≡ true)
        × (rendered e ≡ written_to trim_space a e ++ written_after trim_space a e)
        × (rendered d
            ≡ written_to trim_space a e
              ++ (pad_lines (dash_indent (suc c)) ls ++ written_after trim_space a e))
  append_item_splices seq item start c head ls e s n l k h =
      let r = drop (suc start) e.lines in
      let q = scan_end trim_space (indent_of head) (suc start) start r in
      let (x, y) = scan_end-range (indent_of head) (suc start) start r (omega arith) in
      let z = lt-length_of_get_elem? start head e.lines h in
      let w = length-drop (suc start) e.lines in
      let g : q - suc start ≡ q - 1 - start = omega arith in
      let lt : q - 1 < length e.lines = omega arith in
      let (u, v) = queue-rendered trim_space (q - 1) (pad_lines (dash_indent (suc c)) ls) e lt in
      (
        q - 1,
        queue trim_space (q - 1) (pad_lines (dash_indent (suc c)) ls) e,
        append_item-queue seq item start c head ls e s n l k h,
        omega arith,
        lt,
        subst (λ (m : ℕ). all (inside (indent_of head)) (take m r) ≡ true) g
            (scan_end-inside (indent_of head) (suc start) start r),
        u,
        v,
      )
