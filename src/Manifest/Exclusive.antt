-- ===== src/Manifest/Exclusive.antt =====
-- A sizing edit leaves at most one of the two representations in the text.
use dotvirt.Prelude.{
  Bool-cases, length, ℕ, suc, refl, ap, subst, inl, inr, true, Option, none, some, arith, Bytes,
  bytes, bytes_eq, get_elem?-in, ◌<◌, ◌≡◌, ◌⊎◌,
}
use dotvirt.Prelude.Chain.{◌>>=◌}
use dotvirt.Manifest.{Node, entry_of, child, line_of}
use dotvirt.Manifest.Editor.{LineEditor, delete_child}
use dotvirt.Manifest.Span.{delete_child_exact}
use dotvirt.Manifest.Sizing.{
  SizingEdit, spec_node, domain_node, mode_of, is_some_node, strip_ref, strip_sizes, strip_requests,
  requests_of, strip_domain, strip_inline_sizing, apply_sizing,
}
use dotvirt.Manifest.Keeps.{
  Keeps, Keeps-trans, Keeps-refl, KeepsIn, delete_child-Keeps, apply_inline-KeepsIn,
  when_ref-KeepsIn,
}

module _ (trim_space : Bytes → Bytes) where
  -- The key of an entry stands on line `i` of the text.
  abbrev pub StandsAt : Option Node → Bytes → ℕ → LineEditor → Type 0
  StandsAt m key i e =
      (k : Node) × (v : Node) × (entry_of m key ≡ some (k, v))
      × (line_of k ≡ suc i)
      × (i < length e.lines)

  delete_child-drops :
      (m : Option Node) (key : Bytes) (i : ℕ) (e : LineEditor)
      → StandsAt m key i e
      → (delete_child trim_space m key e).deleted i ≡ true
  delete_child-drops m key i e (k, v, a, b, c) =
      let (head, h) = get_elem?-in i e.lines c in
      (delete_child_exact trim_space m key e k v i i head a b h).1 (inr (inl refl))

  StandsAt-Keeps :
      (m : Option Node) (key : Bytes) (i : ℕ) (e d : LineEditor)
      → Keeps e d
      → StandsAt m key i e
      → StandsAt m key i d
  StandsAt-Keeps m key i e d n (k, v, a, b, c) = (k, v, a, b, omega (arith, n.0))

  -- an entry that an instancetype owns
  abbrev pub Owned : Bytes → Type 0
  Owned key = (key ≡ bytes "cpu") ⊎ (key ≡ bytes "memory")

  strip_sizes-Keeps : (m : Option Node) (e : LineEditor) → Keeps e (strip_sizes trim_space m e)
  unfolding strip_sizes
  strip_sizes-Keeps m e =
      let d = delete_child trim_space m (bytes "cpu") e in
      Keeps-trans e d (delete_child trim_space m (bytes "memory") d)
        (delete_child-Keeps trim_space m (bytes "cpu") e)
        (delete_child-Keeps trim_space m (bytes "memory") d)

  strip_sizes-drops :
      (m : Option Node) (key : Bytes) (i : ℕ) (e : LineEditor)
      → Owned key
      → StandsAt m key i e
      → (strip_sizes trim_space m e).deleted i ≡ true
  unfolding strip_sizes
  strip_sizes-drops m key i e o s =
      let d = delete_child trim_space m (bytes "cpu") e in
      let k : Keeps e d = delete_child-Keeps trim_space m (bytes "cpu") e in
      elim o [
        | inl q ↦
            (delete_child-Keeps trim_space m (bytes "memory") d).1 i
              (delete_child-drops m (bytes "cpu") i e (subst (λ (x : Bytes). StandsAt m x i e) q s))
        | inr q ↦
            delete_child-drops m (bytes "memory") i d
              (subst (λ (x : Bytes). StandsAt m x i d) q (StandsAt-Keeps m key i e d k s))
      ]

  strip_requests-Keeps :
      (m : Option Node) (e : LineEditor) → Keeps e (strip_requests trim_space m e)
  unfolding strip_requests
  strip_requests-Keeps none e = Keeps-refl e
  strip_requests-Keeps (some m) e = strip_sizes-Keeps (some m) e

  strip_domain-drops :
      (m : Option Node) (key : Bytes) (i : ℕ) (e : LineEditor)
      → Owned key
      → StandsAt m key i e
      → (strip_domain trim_space m e).deleted i ≡ true
  unfolding strip_domain entry_of
  strip_domain-drops none key i e o (k, v, a, b, c) = cc a
  strip_domain-drops (some m) key i e o s =
      (strip_requests-Keeps (requests_of trim_space (some m)) (strip_sizes trim_space (some m) e)).1
        i (strip_sizes-drops (some m) key i e o s)

  -- what a returned editor drops
  abbrev DropsIn : ℕ → Option LineEditor → Type 0
  DropsIn i none = Unit
  DropsIn i (some d) = d.deleted i ≡ true

  KeepsIn-drops :
      (i : ℕ) (e : LineEditor) (o : Option LineEditor)
      → e.deleted i ≡ true
      → KeepsIn trim_space e o
      → DropsIn i o
  KeepsIn-drops i e none h k = tt
  KeepsIn-drops i e (some d) h k = k.1 i h

  strips-drops :
      (vm : Node) (key : Bytes) (i : ℕ) (e : LineEditor) (o : Option LineEditor)
      → Owned key
      → StandsAt (domain_node vm) key i e
      → KeepsIn trim_space e o
      → DropsIn i (o >>= (λ d. some (strip_inline_sizing trim_space vm d)))
  unfolding strip_inline_sizing
  strips-drops vm key i e none w s k = tt
  strips-drops vm key i e (some d) w s k =
      strip_domain-drops (domain_node vm) key i d w (StandsAt-Keeps _ key i e d k s)

  -- what is there is found
  is_some_node-child :
      (m : Option Node) (key : Bytes) (i : ℕ) (e : LineEditor)
      → StandsAt m key i e
      → is_some_node (child m key) ≡ true
  unfolding child
  is_some_node-child m key i e (k, v, a, b, c) =
      ap
        (λ (o : Option (Node × Node)). is_some_node (elim o [ none ↦ none | some (x, y) ↦ some y ]))
        a

  sizing_drops :
      (vm : Node) (edit : SizingEdit) (e : LineEditor) (key : Bytes) (i j : ℕ)
      → StandsAt (spec_node vm) (bytes "instancetype") i e
      → StandsAt (domain_node vm) key j e
      → Owned key
      → DropsIn i (apply_sizing trim_space vm edit e)
        ⊎ DropsIn j (apply_sizing trim_space vm edit e)
  unfolding apply_sizing strip_ref
  sizing_drops vm edit e key i j s t o =
      let it = bytes "instancetype" in
      let r = when_ref-KeepsIn trim_space vm edit.instancetype it e in
      elim (Bool-cases (bytes_eq (mode_of edit) (bytes "custom"))) [
        | inl c ↦
            let e1 = delete_child trim_space (spec_node vm) it e in
            inl (
              rw c (
                KeepsIn-drops i e1 _ (delete_child-drops (spec_node vm) it i e s)
                  (apply_inline-KeepsIn trim_space vm edit e1)))
        | inr c ↦ elim (Bool-cases (bytes_eq (mode_of edit) it)) [
          | inl n ↦ inr (rw (c, n) (strips-drops vm key j e _ o t r))
          | inr n ↦ inr (
              rw (c, n, is_some_node-child (spec_node vm) it i e s)
                (strips-drops vm key j e _ o t r))
        ]
      ]

  -- Where the text has both an instancetype of the VM and its own CPU or memory, a sizing edit in any
  -- mode that returns drops the line of the one or the line of the other.
  pub sizing_never_both :
      (vm : Node) (edit : SizingEdit) (e d : LineEditor) (key : Bytes) (i j : ℕ)
      → StandsAt (spec_node vm) (bytes "instancetype") i e
      → StandsAt (domain_node vm) key j e
      → Owned key
      → apply_sizing trim_space vm edit e ≡ some d
      → (d.deleted i ≡ true) ⊎ (d.deleted j ≡ true)
  sizing_never_both vm edit e d key i j s t o h =
      subst (λ (x : Option LineEditor). DropsIn i x ⊎ DropsIn j x) h
        (sizing_drops vm edit e key i j s t o)
