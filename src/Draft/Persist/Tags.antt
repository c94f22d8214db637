-- ===== src/Draft/Persist/Tags.antt =====
-- What is read back of the entries of a file: every field under its tag.
use dotvirt.Prelude.Sort.{count_if}
use dotvirt.Draft.Entries.{Entry}
use dotvirt.Draft.Codec.{
  Value, text, Object, Json, omit_empty, omit_false, present, last_value, as_text, as_flag,
  omit_nil, decoded_edit, as_edit, tagged, encode, decode, and_then, decode_all, marshal,
  decode_parsed, unmarshal, valid_object, Lossless,
}
use dotvirt.Prelude.{
  Bool-cases, refl, sym, ap, subst, inl, inr, Bool, true, false, Option, none, some, List, [], map,
  arith, Elem, Bytes, bytes, bytes_eq, bytes_eq_iff, Elem-map_inv, if◌then◌else◌, ◌<◌, ◌≡◌, ◌∙◌,
  ◌∷◌,
}

-- the last value of a name among the fields, those that are omitted passed over
abbrev last_tagged : Bytes → Option Value → List (Bytes × Option Value) → Option Value
last_tagged k found [] = found
last_tagged k found ((j, none) ∷ fs) = last_tagged k found fs
last_tagged k found ((j, some v) ∷ fs) = last_tagged k (if bytes_eq j k then some v else found) fs

last_value-present :
    (k : Bytes) (found : Option Value) (fs : List (Bytes × Option Value))
    → last_value k found (present fs) ≡ last_tagged k found fs
unfolding last_value present
last_value-present k found [] = refl
last_value-present k found ((j, none) ∷ fs) = last_value-present k found fs
last_value-present k found ((j, some v) ∷ fs) =
    last_value-present k (if bytes_eq j k then some v else found) fs

abbrev has_tag : Bytes → Bytes × Option Value → Bool
has_tag k (j, o) = bytes_eq j k

last_other :
    (j k : Bytes) (found o : Option Value) (fs : List (Bytes × Option Value))
    → bytes_eq j k ≡ false
    → last_tagged k found ((j, o) ∷ fs) ≡ last_tagged k found fs
last_other j k found none fs n = refl
last_other j k found (some v) fs n = rw n refl

last_apart :
    (k : Bytes) (found : Option Value) (fs : List (Bytes × Option Value))
    → count_if (has_tag k) fs ≡ 0
    → last_tagged k found fs ≡ found
last_apart k found [] h = refl
last_apart k found ((j, o) ∷ fs) h = elim (Bool-cases (bytes_eq j k)) [
  | inl t ↦ absurd (omega (arith, rw t at h))
  | inr n ↦
      let rest : count_if (has_tag k) fs ≡ 0 = omega (arith, rw n at h) in
      last_other j k found o fs n ∙ last_apart k found fs rest
]

last_own :
    (k : Bytes) (o : Option Value) (fs : List (Bytes × Option Value))
    → count_if (has_tag k) fs ≡ 0
    → last_tagged k none ((k, o) ∷ fs) ≡ o
last_own k none fs h = last_apart k none fs h
last_own k (some v) fs h = rw ((bytes_eq_iff k k).1 refl) (last_apart k (some v) fs h)

tag-Elem :
    (k : Bytes) (o : Option Value) (fs : List (Bytes × Option Value))
    → Elem (k, o) fs
    → 0 < count_if (has_tag k) fs
tag-Elem k o [] m = absurd m
tag-Elem k o ((j, p) ∷ fs) (inl e) =
    let t = (bytes_eq_iff j k).1 (sym (ap (λ (f : Bytes × Option Value). f.0) e)) in
    rw t (omega arith)
tag-Elem k o ((j, p) ∷ fs) (inr m) = let rest = tag-Elem k o fs m in omega arith

-- the field of a tag that stands once
tag_found :
    (k : Bytes) (o : Option Value) (fs : List (Bytes × Option Value))
    → Elem (k, o) fs
    → count_if (has_tag k) fs ≡ 1
    → last_value k none (present fs) ≡ o
tag_found k o fs m h = last_value-present k none fs ∙ go k o fs m h
  where
    go :
        (k : Bytes) (o : Option Value) (fs : List (Bytes × Option Value))
        → Elem (k, o) fs
        → count_if (has_tag k) fs ≡ 1
        → last_tagged k none fs ≡ o
    go k o [] m h = absurd m
    go k o ((j, p) ∷ fs) m h = elim (Bool-cases (bytes_eq j k)) [
      | inl t ↦
          let rest : count_if (has_tag k) fs ≡ 0 = omega (arith, rw t at h) in
          elim m [
            | inl e ↦
                subst (λ (f : Bytes × Option Value). last_tagged k none (f ∷ fs) ≡ o) e
                  (last_own k o fs rest)
            | inr q ↦ let more = tag-Elem k o fs q in absurd (omega arith)
          ]
      | inr n ↦
          let rest : count_if (has_tag k) fs ≡ 1 = omega (arith, rw n at h) in
          last_other j k none p fs n ∙ elim m [
            | inl e ↦
                absurd
                  (cc (n, (bytes_eq_iff j k).1 (sym (ap (λ (f : Bytes × Option Value). f.0) e))))
            | inr q ↦ go k o fs q rest
          ]
    ]

as_text-omit : (b : Bytes) → as_text (omit_empty b) ≡ some b
unfolding as_text omit_empty
as_text-omit [] = refl
as_text-omit (c ∷ b) = refl

as_flag-omit : (b : Bool) → as_flag (omit_false b) ≡ some b
unfolding as_flag omit_false
as_flag-omit true = refl
as_flag-omit false = refl

module _ {Edit : Type 0} (json : Json Edit) where
  -- The conversion of the entry's edit loses nothing.
  abbrev pub EditKept : Option Edit → Type 0
  EditKept none = Unit
  EditKept (some x) = json.decode_edit (json.encode_edit x) ≡ some x

  as_edit-omit : (x : Option Edit) → EditKept x → as_edit json (omit_nil json x) ≡ some x
  unfolding as_edit omit_nil decoded_edit
  as_edit-omit none h = refl
  as_edit-omit (some x) h = rw h refl

  abbrev field : Entry Edit → Bytes → Option Value
  field e k = last_value k none (encode json e)

  field_found :
      (e : Entry Edit) (k : Bytes) (o : Option Value)
      → Elem (k, o) (tagged json e)
      → count_if (has_tag k) (tagged json e) ≡ 1
      → field e k ≡ o
  unfolding encode
  field_found e k o m h = tag_found k o (tagged json e) m h

  decode-encode : (e : Entry Edit) → EditKept e.edit → decode json (encode json e) ≡ some e
  unfolding decode tagged bytes_eq as_text
  decode-encode e h =
      let kind = field_found e (bytes "kind") (some (text e.kind)) (inl refl) refl in
      let resource =
        field_found e (bytes "resource") (omit_empty e.resource) (inr (inl refl)) refl in
      let namespace =
        field_found e (bytes "namespace") (some (text e.namespace)) (inr (inr (inl refl))) refl in
      let name =
        field_found e (bytes "name") (some (text e.name)) (inr (inr (inr (inl refl)))) refl in
      let source_file =
        field_found e (bytes "sourceFile") (omit_empty e.source_file)
          (inr (inr (inr (inr (inl refl))))) refl in
      let edit =
        field_found e (bytes "edit") (omit_nil json e.edit) (inr (inr (inr (inr (inr (inl refl))))))
          refl in
      let manifest =
        field_found e (bytes "manifest") (omit_empty e.manifest)
          (inr (inr (inr (inr (inr (inr (inl refl))))))) refl in
      let from_wizard =
        field_found e (bytes "fromWizard") (omit_false e.from_wizard)
          (inr (inr (inr (inr (inr (inr (inr (inl refl)))))))) refl in
      let from_template =
        field_found e (bytes "fromTemplate") (omit_empty e.from_template)
          (inr (inr (inr (inr (inr (inr (inr (inr (inl refl))))))))) refl in
      let from_version =
        field_found e (bytes "fromVersion") (omit_empty e.from_version)
          (inr (inr (inr (inr (inr (inr (inr (inr (inr (inl refl)))))))))) refl in
      rw
        (
          kind,
          resource,
          as_text-omit e.resource,
          namespace,
          name,
          source_file,
          as_text-omit e.source_file,
          edit,
          as_edit-omit e.edit h,
          manifest,
          as_text-omit e.manifest,
          from_wizard,
          as_flag-omit e.from_wizard,
          from_template,
          as_text-omit e.from_template,
          from_version,
          as_text-omit e.from_version,
        )
        refl

  decode_all-encode :
      (es : List (Entry Edit))
      → ((e : Entry Edit) → Elem e es → EditKept e.edit)
      → decode_all json (map (encode json) es) ≡ some es
  unfolding decode_all and_then
  decode_all-encode [] h = refl
  decode_all-encode (e ∷ es) h =
      rw (decode-encode e (h e (inl refl)), decode_all-encode es (λ d m. h d (inr m))) refl

  -- The texts of the entry are UTF-8, and the conversion of its edit loses nothing.
  abbrev pub EntryKept : Entry Edit → Type 0
  EntryKept e = (valid_object json (encode json e) ≡ true) × EditKept e.edit

  -- What is written of a list of such entries reads back as that list.
  pub unmarshal-marshal :
      Lossless json
      → (es : List (Entry Edit)) → ((e : Entry Edit) → Elem e es → EntryKept e)
      → unmarshal json (marshal json es) ≡ some es
  unfolding unmarshal marshal decode_parsed
  unmarshal-marshal law es kept =
      let same = law (map (encode json) es) λ o m.
        let (e, q, p) = Elem-map_inv (encode json) o es m in
        subst (λ (x : Object). valid_object json x ≡ true) (sym p) (kept e q).0 in
      rw same (decode_all-encode es (λ e m. (kept e m).1))
