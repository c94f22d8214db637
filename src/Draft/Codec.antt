-- ===== src/Draft/Codec.antt =====
-- internal/draft/draft.go, the field tags of `Entry`: what encoding/json makes of a list of entries and
-- what it makes of a file. The text of a file, with the escapes and what is done to bytes that are not
-- UTF-8, is the library's, and so is a parameter; the conversion of a VM's edit, which has tags of its
-- own, is another. A name that differs from a tag in its case only, and null, are left out.
use dotvirt.Prelude.Chain.{◌>>=◌}
use dotvirt.Draft.Entries.{Entry}
use dotvirt.Prelude.{
  all, Bool, true, false, Option, none, some, List, [], map, Elem, Bytes, bytes, bytes_eq,
  if◌then◌else◌, ◌≡◌, ◌&&◌, ◌∷◌,
}

-- A value of a field; that of an edit is its own text.
pub data Value : Type 0 where
  text : Bytes → Value
  flag : Bool → Value
  raw : Bytes → Value

abbrev pub Object : Type 0
Object = List (Bytes × Value)

-- utf8.Valid, json.MarshalIndent and json.Unmarshal between objects and the bytes of a file, and the
-- two conversions of an edit
pub record Json (Edit : Type 0) : Type 0 where
  pub valid : Bytes → Bool
  pub print : List Object → Bytes
  pub parse : Bytes → Option (List Object)
  pub encode_edit : Edit → Bytes
  pub decode_edit : Bytes → Option Edit

-- omitempty
unfoldable pub omit_empty : Bytes → Option Value
omit_empty [] = none
omit_empty (c ∷ b) = some (text (c ∷ b))

unfoldable pub omit_false : Bool → Option Value
omit_false false = none
omit_false true = some (flag true)

-- the fields that are not omitted
unfoldable pub present : List (Bytes × Option Value) → Object
present [] = []
present ((k, none) ∷ fs) = present fs
present ((k, some v) ∷ fs) = (k, v) ∷ present fs

-- the last value of a name
unfoldable pub last_value : Bytes → Option Value → Object → Option Value
last_value k found [] = found
last_value k found ((j, v) ∷ o) = last_value k (if bytes_eq j k then some v else found) o

-- A value as a text or a flag, the zero value where there is none; none where it is of another type.
unfoldable pub as_text : Option Value → Option Bytes
as_text none = some []
as_text (some (text b)) = some b
as_text (some (flag b)) = none
as_text (some (raw b)) = none

unfoldable pub as_flag : Option Value → Option Bool
as_flag none = some false
as_flag (some (text b)) = none
as_flag (some (flag b)) = some b
as_flag (some (raw b)) = none

module _ {Edit : Type 0} (json : Json Edit) where
  unfoldable pub omit_nil : Option Edit → Option Value
  omit_nil none = none
  omit_nil (some x) = some (raw (json.encode_edit x))

  unfoldable pub decoded_edit : Option Edit → Option (Option Edit)
  decoded_edit none = none
  decoded_edit (some x) = some (some x)

  unfoldable pub as_edit : Option Value → Option (Option Edit)
  as_edit none = some none
  as_edit (some (text b)) = none
  as_edit (some (flag b)) = none
  as_edit (some (raw b)) = decoded_edit (json.decode_edit b)

  -- the fields of an entry under their tags
  unfoldable pub tagged : Entry Edit → List (Bytes × Option Value)
  tagged e =
      (bytes "kind", some (text e.kind))
      ∷ (bytes "resource", omit_empty e.resource)
      ∷ (bytes "namespace", some (text e.namespace))
      ∷ (bytes "name", some (text e.name))
      ∷ (bytes "sourceFile", omit_empty e.source_file)
      ∷ (bytes "edit", omit_nil e.edit)
      ∷ (bytes "manifest", omit_empty e.manifest)
      ∷ (bytes "fromWizard", omit_false e.from_wizard)
      ∷ (bytes "fromTemplate", omit_empty e.from_template)
      ∷ (bytes "fromVersion", omit_empty e.from_version)
      ∷ []

  unfoldable pub encode : Entry Edit → Object
  encode e = present (tagged e)

  unfoldable pub decode : Object → Option (Entry Edit)
  decode o = as_text (last_value (bytes "kind") none o) >>= λ kind.
      as_text (last_value (bytes "resource") none o) >>= λ resource.
      as_text (last_value (bytes "namespace") none o) >>= λ namespace.
      as_text (last_value (bytes "name") none o) >>= λ name.
      as_text (last_value (bytes "sourceFile") none o) >>= λ source_file.
      as_edit (last_value (bytes "edit") none o) >>= λ edit.
      as_text (last_value (bytes "manifest") none o) >>= λ manifest.
      as_flag (last_value (bytes "fromWizard") none o) >>= λ from_wizard.
      as_text (last_value (bytes "fromTemplate") none o) >>= λ from_template.
      as_text (last_value (bytes "fromVersion") none o) >>= λ from_version. some (record {
        kind = kind;
        resource = resource;
        namespace = namespace;
        name = name;
        source_file = source_file;
        edit = edit;
        manifest = manifest;
        from_wizard = from_wizard;
        from_template = from_template;
        from_version = from_version;
      })

  unfoldable pub and_then :
      Option (Entry Edit) → Option (List (Entry Edit)) → Option (List (Entry Edit))
  and_then none es = none
  and_then (some e) none = none
  and_then (some e) (some es) = some (e ∷ es)

  unfoldable pub decode_all : List Object → Option (List (Entry Edit))
  decode_all [] = some []
  decode_all (o ∷ os) = and_then (decode o) (decode_all os)

  unfoldable pub marshal : List (Entry Edit) → Bytes
  marshal es = json.print (map encode es)

  unfoldable pub decode_parsed : Option (List Object) → Option (List (Entry Edit))
  decode_parsed none = none
  decode_parsed (some os) = decode_all os

  unfoldable pub unmarshal : Bytes → Option (List (Entry Edit))
  unmarshal b = decode_parsed (json.parse b)

  valid_value : Value → Bool
  valid_value (text b) = json.valid b
  valid_value (flag b) = true
  valid_value (raw b) = json.valid b

  unfoldable pub valid_object : Object → Bool
  unfolding valid_value
  valid_object o = all (λ (f : Bytes × Value). json.valid f.0 && valid_value f.1) o

  -- encoding/json keeps what is UTF-8: it parses what it prints of such objects as it was.
  abbrev pub Lossless : Type 0
  Lossless =
      (os : List Object)
      → ((o : Object) → Elem o os → valid_object o ≡ true)
      → json.parse (json.print os) ≡ some os
