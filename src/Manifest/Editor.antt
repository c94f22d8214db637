-- ===== src/Manifest/Editor.antt =====
-- internal/manifest/lineeditor.go: the line editor. `strings.TrimSpace` is a parameter. What panics in
-- Go, a negative count or an index outside of the lines, is `none`. A set of lines is a test.
use dotvirt.Prelude.{
  ltb, leb, length, get_elem?, take, ℕ, zero, suc, Bool, true, false, not, Option, none, some, List,
  [], map, Bytes, bytes, bytes_eq, drop, replicate, ◌==◌, if◌then◌else◌, ◌-◌, ◌&&◌, ◌||◌, ◌∷◌, ◌++◌,
}
use dotvirt.Manifest.{
  Node, Nodes, no_nodes, and_node, line_of, column_of, kind_of, content_of, is_mapping, entry_of,
}

abbrev pub space : ℕ
space = 32

unfoldable pub has_prefix : Bytes → Bytes → Bool
has_prefix [] s = true
has_prefix (c ∷ p) [] = false
has_prefix (c ∷ p) (d ∷ s) = let rest = has_prefix p s in if c == d then rest else false

-- a carriage return that no line feed follows
unfoldable pub lone_return : Bytes → Bool
lone_return s = has_prefix (13 ∷ []) s && not (has_prefix (13 ∷ 10 ∷ []) s)

-- U+0085, U+2028 and U+2029 in UTF-8
abbrev pub next_line : Bytes
next_line = 194 ∷ 133 ∷ []

abbrev pub line_separator : Bytes
line_separator = 226 ∷ 128 ∷ 168 ∷ []

abbrev pub paragraph_separator : Bytes
paragraph_separator = 226 ∷ 128 ∷ 169 ∷ []

-- Some line break of yaml.v3 that is not a line feed stands here.
unfoldable pub other_break : Bytes → Bool
other_break s =
    lone_return s
    || (has_prefix next_line s || (has_prefix line_separator s || has_prefix paragraph_separator s))

unfoldable pub has_other_break : Bytes → Bool
has_other_break [] = false
has_other_break (c ∷ s) = let rest = has_other_break s in if other_break (c ∷ s) then true else rest

-- `strings.Split` at a line feed
unfoldable pub on_first : ℕ → List Bytes → List Bytes
on_first c [] = (c ∷ []) ∷ []
on_first c (l ∷ ls) = (c ∷ l) ∷ ls

unfoldable pub split_lines : Bytes → List Bytes
split_lines [] = [] ∷ []
split_lines (c ∷ s) = let rest = split_lines s in if c == 10 then [] ∷ rest else on_first c rest

-- `strings.Join` with a line feed
unfoldable pub join_lines : List Bytes → Bytes
join_lines [] = []
join_lines (l ∷ []) = l
join_lines (l ∷ m ∷ ls) = l ++ 10 ∷ join_lines (m ∷ ls)

pub record Insertion : Type 0 where
  pub after_line : ℕ
  pub text : List Bytes

pub record LineEditor : Type 0 where
  pub lines : List Bytes
  pub inserts : List Insertion
  pub deleted : ℕ → Bool

abbrev pub fresh_editor : List Bytes → LineEditor
fresh_editor ls = record { lines = ls; inserts = []; deleted = λ i. false }

-- `newLineEditor`; `none` is the error
unfoldable pub new_line_editor : Bytes → Option LineEditor
new_line_editor s = if has_other_break s then none else some (fresh_editor (split_lines s))

unfoldable pub remove_range : ℕ → ℕ → LineEditor → LineEditor
remove_range start end e = record e {
  deleted = λ i. if leb start i && (ltb i end && ltb i (length e.lines)) then true else e.deleted i;
}

unfoldable pub remove_line : ℕ → LineEditor → LineEditor
remove_line i e = record e {
  deleted = λ j. if j == i && ltb i (length e.lines) then true else e.deleted j;
}

unfoldable pub indent_of : Bytes → ℕ
indent_of [] = 0
indent_of (c ∷ s) = let n = indent_of s in if c == space then suc n else 0

unfoldable pub pad_lines : ℕ → List Bytes → List Bytes
pad_lines n ls = map (λ l. replicate n space ++ l) ls

-- The rest of a value segment from its first " #".
unfoldable pub trailing_comment : Bytes → Bytes
trailing_comment [] = []
trailing_comment (c ∷ s) =
    let rest = trailing_comment s in if has_prefix (bytes " #") (c ∷ s) then c ∷ s else rest

unfoldable pub set_line : ℕ → Bytes → List Bytes → List Bytes
set_line i v [] = []
set_line zero v (l ∷ ls) = v ∷ ls
set_line (suc i) v (l ∷ ls) = l ∷ set_line i v ls

-- the new text of a line, where the column is one of it
abbrev pub with_value : ℕ → Bytes → Bytes → Bytes
with_value n v l = take n l ++ (v ++ trailing_comment (drop n l))

-- where the line is there
unfoldable pub put_value : ℕ → ℕ → Bytes → Option Bytes → LineEditor → LineEditor
put_value i n v none e = e
put_value i n v (some l) e =
    if ltb (length l) n then e else record e { lines = set_line i (with_value n v l) e.lines }

-- `setScalarAt`: a line or a column of 0 is out of range
unfoldable pub put_at : ℕ → ℕ → Bytes → LineEditor → LineEditor
put_at zero c v e = e
put_at (suc i) zero v e = e
put_at (suc i) (suc n) v e = put_value i n v (get_elem? e.lines i) e

unfoldable pub set_scalar_at : Node → Bytes → LineEditor → LineEditor
set_scalar_at nd v e = put_at (line_of nd) (column_of nd) v e

module _ (trim_space : Bytes → Bytes) where
  abbrev pub is_blank : Bytes → Bool
  is_blank l = bytes_eq (trim_space l) []

  -- The last line that is not blank before the first that stops the scan; the lines are numbered from `j`.
  unfoldable pub scan_last : (Bytes → Bool) → ℕ → ℕ → List Bytes → ℕ
  scan_last stop j last [] = last
  scan_last stop j last (l ∷ ls) =
      let rest = scan_last stop (suc j) (if is_blank l then last else j) ls in
      if is_blank l then rest else if stop l then last else rest

  -- The loop of `deleteChild`, from the key's line on.
  unfoldable pub child_last : ℕ → Bytes → List Bytes → ℕ
  child_last start head ls =
      scan_last (λ l. leb (indent_of l) (indent_of head)) (suc start) start (drop (suc start) ls)

  unfoldable pub delete_from : ℕ → Option Bytes → LineEditor → LineEditor
  delete_from start none e = e
  delete_from start (some head) e = remove_range start (suc (child_last start head e.lines)) e

  unfoldable pub delete_at : ℕ → LineEditor → LineEditor
  delete_at zero e = e
  delete_at (suc start) e = delete_from start (get_elem? e.lines start) e

  unfoldable pub delete_entry : Option (Node × Node) → LineEditor → LineEditor
  delete_entry none e = e
  delete_entry (some (k, v)) e = delete_at (line_of k) e

  unfoldable pub delete_child : Option Node → Bytes → LineEditor → LineEditor
  delete_child m key e = delete_entry (entry_of m key) e

  -- `none` where the line of the mapping is 0: `lines[-1]`
  unfoldable pub mapping_last_line : Node → List Bytes → Option ℕ
  mapping_last_line m ls = elim (line_of m) [
    | zero ↦ none
    | suc start ↦ some (
        scan_last (λ l. ltb (indent_of l) (column_of m - 1)) (suc start) start
          (drop (suc start) ls))
  ]

  unfoldable pub queue : ℕ → List Bytes → LineEditor → LineEditor
  queue i ls e = record e { inserts = e.inserts ++ record { after_line = i; text = ls } ∷ [] }

  -- a block for the column and the last line of a mapping
  unfoldable pub insert_at : ℕ → Option ℕ → List Bytes → LineEditor → Option LineEditor
  insert_at zero a block e = none
  insert_at (suc indent) none block e = none
  insert_at (suc indent) (some i) block e = some (queue i (pad_lines indent block) e)

  unfoldable pub insert_in : Bool → Nodes → Node → List Bytes → LineEditor → Option LineEditor
  insert_in b no_nodes m block e = some e
  insert_in false (and_node k ns) m block e = some e
  insert_in true (and_node k ns) m block e =
      insert_at (column_of m) (mapping_last_line m e.lines) block e

  unfoldable pub insert_block : Option Node → List Bytes → LineEditor → Option LineEditor
  insert_block none block e = some e
  insert_block (some m) block e = insert_in (is_mapping (kind_of m)) (content_of m) m block e

  abbrev pub insert_child : Option Node → Bytes → Bytes → LineEditor → Option LineEditor
  insert_child m key val e = insert_block m ((key ++ (bytes ": " ++ val)) ∷ []) e

-- The blocks that are queued after a line, in the order in which they were queued.
unfoldable pub blocks_after : ℕ → List Insertion → List Bytes
blocks_after i [] = []
blocks_after i (b ∷ bs) =
    let rest = blocks_after i bs in if b.after_line == i then b.text ++ rest else rest

unfoldable pub emit : (ℕ → Bool) → List Insertion → ℕ → List Bytes → List Bytes
emit deleted bs i [] = []
emit deleted bs i (l ∷ ls) =
    let rest = blocks_after i bs ++ emit deleted bs (suc i) ls in
    if deleted i then rest else l ∷ rest

unfoldable pub rendered : LineEditor → List Bytes
rendered e = emit e.deleted e.inserts 0 e.lines

-- `bytes`
abbrev pub bytes_of : LineEditor → Bytes
bytes_of e = join_lines (rendered e)
