-- ===== src/Manifest/Keeps.antt =====
-- What no step of the line editor undoes: the count of the lines, and the lines that were dropped.
use dotvirt.Prelude.{
  ltb, Bool-cases, length, get_elem?, ℕ, zero, suc, refl, ap, inl, inr, Bool, true, false, Option,
  none, some, List, [], arith, Bytes, bytes, ◌≡◌, ◌∙◌, ◌||◌, ◌∷◌,
}
use dotvirt.Prelude.Chain.{◌>>=◌}
use dotvirt.Manifest.{Node, Nodes, no_nodes, and_node, entry_of, child, line_of, column_of}
use dotvirt.Manifest.Editor.{
  LineEditor, set_line, put_value, put_at, set_scalar_at, remove_range, delete_from, delete_at,
  delete_entry, delete_child, insert_at, insert_in, insert_block, queue, with_value,
}
use dotvirt.Manifest.Sizing.{
  SizingEdit, is_some_node, set_or_insert, delete_if, delete_if_there, apply_ref_in, apply_ref_to,
  apply_ref, apply_inline, apply_cpu, apply_memory, when_set, set_count, collapse, cpu_in,
  cpu_of_domain, memory_in, memory_of_domain,
}

-- No line comes or goes by a step, and what was dropped stays dropped.
abbrev pub Keeps : LineEditor → LineEditor → Type 0
Keeps e d = (length d.lines ≡ length e.lines) × ((i : ℕ) → e.deleted i ≡ true → d.deleted i ≡ true)

pub Keeps-refl : (e : LineEditor) → Keeps e e
Keeps-refl e = (refl, λ i h. h)

pub Keeps-trans : (a b c : LineEditor) → Keeps a b → Keeps b c → Keeps a c
Keeps-trans a b c h k = (k.0 ∙ h.0, λ i d. k.1 i (h.1 i d))

length-set_line : (i : ℕ) (v : Bytes) (ls : List Bytes) → length (set_line i v ls) ≡ length ls
unfolding set_line
length-set_line i v [] = refl
length-set_line zero v (l ∷ ls) = refl
length-set_line (suc i) v (l ∷ ls) = ap suc (length-set_line i v ls)

put_value-Keeps :
    (i n : ℕ) (v : Bytes) (o : Option Bytes) (e : LineEditor) → Keeps e (put_value i n v o e)
unfolding put_value
put_value-Keeps i n v none e = Keeps-refl e
put_value-Keeps i n v (some l) e = elim (Bool-cases (ltb (length l) n)) [
  | inl t ↦ rw t (Keeps-refl e)
  | inr f ↦ rw f (length-set_line i (with_value n v l) e.lines, λ j h. h)
]

put_at-Keeps : (i c : ℕ) (v : Bytes) (e : LineEditor) → Keeps e (put_at i c v e)
unfolding put_at
put_at-Keeps zero c v e = Keeps-refl e
put_at-Keeps (suc i) zero v e = Keeps-refl e
put_at-Keeps (suc i) (suc n) v e = put_value-Keeps i n v (get_elem? e.lines i) e

set_scalar_at-Keeps : (nd : Node) (v : Bytes) (e : LineEditor) → Keeps e (set_scalar_at nd v e)
unfolding set_scalar_at
set_scalar_at-Keeps nd v e = put_at-Keeps (line_of nd) (column_of nd) v e

remove_range-Keeps : (a b : ℕ) (e : LineEditor) → Keeps e (remove_range a b e)
unfolding remove_range
remove_range-Keeps a b e = (refl, λ i h. ground arith)

module _ (trim_space : Bytes → Bytes) where
  delete_from-Keeps :
      (n : ℕ) (o : Option Bytes) (e : LineEditor) → Keeps e (delete_from trim_space n o e)
  unfolding delete_from
  delete_from-Keeps n none e = Keeps-refl e
  delete_from-Keeps n (some head) e = remove_range-Keeps n _ e

  delete_at-Keeps : (n : ℕ) (e : LineEditor) → Keeps e (delete_at trim_space n e)
  unfolding delete_at
  delete_at-Keeps zero e = Keeps-refl e
  delete_at-Keeps (suc n) e = delete_from-Keeps n (get_elem? e.lines n) e

  delete_entry-Keeps :
      (o : Option (Node × Node)) (e : LineEditor) → Keeps e (delete_entry trim_space o e)
  unfolding delete_entry
  delete_entry-Keeps none e = Keeps-refl e
  delete_entry-Keeps (some (k, v)) e = delete_at-Keeps (line_of k) e

  pub delete_child-Keeps :
      (m : Option Node) (key : Bytes) (e : LineEditor) → Keeps e (delete_child trim_space m key e)
  unfolding delete_child
  delete_child-Keeps m key e = delete_entry-Keeps (entry_of m key) e

  -- What a step that may panic returns keeps the lines.
  abbrev pub KeepsIn : LineEditor → Option LineEditor → Type 0
  KeepsIn e none = Unit
  KeepsIn e (some d) = Keeps e d

  insert_at-KeepsIn :
      (c : ℕ) (a : Option ℕ) (b : List Bytes) (e : LineEditor)
      → KeepsIn e (insert_at trim_space c a b e)
  unfolding insert_at queue
  insert_at-KeepsIn zero a b e = tt
  insert_at-KeepsIn (suc c) none b e = tt
  insert_at-KeepsIn (suc c) (some a) b e = (refl, λ i h. h)

  insert_in-KeepsIn :
      (t : Bool) (ns : Nodes) (m : Node) (b : List Bytes) (e : LineEditor)
      → KeepsIn e (insert_in trim_space t ns m b e)
  unfolding insert_in
  insert_in-KeepsIn t no_nodes m b e = Keeps-refl e
  insert_in-KeepsIn false (and_node k ns) m b e = Keeps-refl e
  insert_in-KeepsIn true (and_node k ns) m b e = insert_at-KeepsIn _ _ b e

  insert_block-KeepsIn :
      (m : Option Node) (b : List Bytes) (e : LineEditor)
      → KeepsIn e (insert_block trim_space m b e)
  unfolding insert_block
  insert_block-KeepsIn none b e = Keeps-refl e
  insert_block-KeepsIn (some m) b e = insert_in-KeepsIn _ _ m b e

  set_or_insert-KeepsIn :
      (o m : Option Node) (key v : Bytes) (e : LineEditor)
      → KeepsIn e (set_or_insert trim_space o m key v e)
  unfolding set_or_insert
  set_or_insert-KeepsIn none m key v e = insert_block-KeepsIn m _ e
  set_or_insert-KeepsIn (some n) m key v e = set_scalar_at-Keeps n v e

  delete_if-Keeps :
      (o m : Option Node) (key : Bytes) (e : LineEditor) → Keeps e (delete_if trim_space o m key e)
  unfolding delete_if
  delete_if-Keeps none m key e = Keeps-refl e
  delete_if-Keeps (some n) m key e = delete_child-Keeps m key e

  -- a step after one that keeps the lines
  pub KeepsIn-after :
      (e d : LineEditor) (o : Option LineEditor) → Keeps e d → KeepsIn d o → KeepsIn e o
  KeepsIn-after e d none k h = tt
  KeepsIn-after e d (some c) k h = Keeps-trans e d c k h

  apply_ref_in-KeepsIn :
      (s : Option Node) (key v : Bytes) (r : Option Node) (e : LineEditor)
      → KeepsIn e (apply_ref_in trim_space s key v r e)
  unfolding apply_ref_in
  apply_ref_in-KeepsIn s key v none e = insert_block-KeepsIn s _ e
  apply_ref_in-KeepsIn s key v (some ref) e =
      KeepsIn-after e (delete_if_there trim_space (some ref) (bytes "revisionName") e) _
        (delete_if-Keeps _ (some ref) _ e) (set_or_insert-KeepsIn _ _ _ _ _)

  apply_ref_to-KeepsIn :
      (s : Option Node) (key v : Bytes) (e : LineEditor)
      → KeepsIn e (apply_ref_to trim_space s key v e)
  unfolding apply_ref_to
  apply_ref_to-KeepsIn none key v e = Keeps-refl e
  apply_ref_to-KeepsIn (some s) key v e = apply_ref_in-KeepsIn (some s) key v _ e

  when_set-KeepsIn :
      (o : Option Bytes) (f : Bytes → LineEditor → Option LineEditor) (e : LineEditor)
      → ((v : Bytes) (d : LineEditor) → KeepsIn d (f v d))
      → KeepsIn e (when_set trim_space o f e)
  when_set-KeepsIn none f e h = Keeps-refl e
  when_set-KeepsIn (some v) f e h = h v e

  pub when_ref-KeepsIn :
      (vm : Node) (o : Option Bytes) (key : Bytes) (e : LineEditor)
      → KeepsIn e (when_set trim_space o (apply_ref trim_space vm key) e)
  unfolding apply_ref
  when_ref-KeepsIn vm o key e =
      when_set-KeepsIn o (apply_ref trim_space vm key) e (λ v d. apply_ref_to-KeepsIn _ key v d)

  collapse-KeepsIn :
      (cpu : Option Node) (v : Bytes) (e : LineEditor) → KeepsIn e (collapse trim_space cpu v e)
  unfolding collapse
  collapse-KeepsIn cpu v e =
      let a = delete_if_there trim_space cpu (bytes "cores") e in
      let b = delete_if_there trim_space cpu (bytes "threads") a in
      KeepsIn-after e b _
        (Keeps-trans e a b (delete_if-Keeps _ cpu _ e) (delete_if-Keeps _ cpu _ a))
        (set_or_insert-KeepsIn _ _ _ _ _)

  set_count-KeepsIn :
      (c cpu : Option Node) (v : Bytes) (e : LineEditor)
      → KeepsIn e (set_count trim_space c cpu v e)
  unfolding set_count
  set_count-KeepsIn none cpu v e = collapse-KeepsIn cpu v e
  set_count-KeepsIn (some c) cpu v e =
      elim (Bool-cases (
        is_some_node (child cpu (bytes "sockets")) || is_some_node (child cpu (bytes "threads")))) [
          | inl t ↦ rw t (collapse-KeepsIn cpu v e)
          | inr f ↦ rw f (set_scalar_at-Keeps c v e)
        ]

  cpu_in-KeepsIn :
      (c d : Option Node) (v : Bytes) (e : LineEditor) → KeepsIn e (cpu_in trim_space c d v e)
  unfolding cpu_in
  cpu_in-KeepsIn none d v e = insert_block-KeepsIn d _ e
  cpu_in-KeepsIn (some c) d v e = set_count-KeepsIn _ (some c) v e

  cpu_of_domain-KeepsIn :
      (d : Option Node) (v : Bytes) (e : LineEditor) → KeepsIn e (cpu_of_domain trim_space d v e)
  unfolding cpu_of_domain
  cpu_of_domain-KeepsIn none v e = Keeps-refl e
  cpu_of_domain-KeepsIn (some d) v e = cpu_in-KeepsIn _ (some d) v e

  memory_in-KeepsIn :
      (m r d : Option Node) (v : Bytes) (e : LineEditor)
      → KeepsIn e (memory_in trim_space m r d v e)
  unfolding memory_in
  memory_in-KeepsIn (some m) r d v e = set_or_insert-KeepsIn _ _ _ _ _
  memory_in-KeepsIn none (some r) d v e = set_scalar_at-Keeps r v e
  memory_in-KeepsIn none none d v e = insert_block-KeepsIn d _ e

  memory_of_domain-KeepsIn :
      (d : Option Node) (v : Bytes) (e : LineEditor) → KeepsIn e (memory_of_domain trim_space d v e)
  unfolding memory_of_domain
  memory_of_domain-KeepsIn none v e = Keeps-refl e
  memory_of_domain-KeepsIn (some d) v e = memory_in-KeepsIn _ _ (some d) v e

  pub KeepsIn-bind :
      (e : LineEditor) (o : Option LineEditor) (f : LineEditor → Option LineEditor)
      → KeepsIn e o
      → ((d : LineEditor) → KeepsIn d (f d))
      → KeepsIn e (o >>= f)
  KeepsIn-bind e none f h k = tt
  KeepsIn-bind e (some d) f h k = KeepsIn-after e d (f d) h (k d)

  pub apply_inline-KeepsIn :
      (vm : Node) (edit : SizingEdit) (e : LineEditor)
      → KeepsIn e (apply_inline trim_space vm edit e)
  unfolding apply_inline apply_cpu apply_memory
  apply_inline-KeepsIn vm edit e =
      KeepsIn-bind e (when_set trim_space edit.cpu_cores (apply_cpu trim_space vm) e)
        (when_set trim_space edit.memory (apply_memory trim_space vm))
        (when_set-KeepsIn edit.cpu_cores (apply_cpu trim_space vm) e
          (λ v d. cpu_of_domain-KeepsIn _ v d))
        (λ d.
          when_set-KeepsIn edit.memory (apply_memory trim_space vm) d
            (λ v c. memory_of_domain-KeepsIn _ v c))
