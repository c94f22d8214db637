-- ===== src/Tests/Objects.antt =====
-- A text form for the objects of a file, which a parser reads from its end.
use dotvirt.Draft.Codec.{Value, text, flag, raw, Object, Json, Lossless}
use dotvirt.Prelude.{
  ℕ, zero, suc, refl, sym, ap, subst, true, false, some, List, [], arith, Bytes, append-nil, ◌+◌,
  ◌≡◌, ◌∙◌, ◌∷◌, ◌++◌,
}

-- what is read of the rest of the file: a text, the value after it, an object and the objects
record Reading : Type 0 where
  spelled : Bytes
  value : Value
  object : Object
  all_objects : List Object

nothing : Reading
nothing = record { spelled = []; value = flag false; object = []; all_objects = [] }

shifted : Bytes → Bytes → Bytes
shifted [] rest = rest
shifted (c ∷ b) rest = (c + 6) ∷ shifted b rest

take_mark : ℕ → Reading → Reading
take_mark zero r = record r { object = (r.spelled, r.value) ∷ r.object; spelled = [] }
take_mark (suc zero) r = record r { value = text r.spelled; spelled = [] }
take_mark (suc (suc zero)) r = record r { value = raw r.spelled; spelled = [] }
take_mark (suc (suc (suc zero))) r = record r { value = flag true }
take_mark (suc (suc (suc (suc zero)))) r = record r { value = flag false }
take_mark (suc (suc (suc (suc (suc zero))))) r = record r {
  all_objects = r.object ∷ r.all_objects;
  object = [];
}
take_mark (suc (suc (suc (suc (suc (suc c)))))) r = record r { spelled = c ∷ r.spelled }

read : Bytes → Reading
unfolding take_mark nothing
read [] = nothing
read (c ∷ b) = take_mark c (read b)

print_value : Value → Bytes → Bytes
unfolding shifted
print_value (text b) rest = 1 ∷ shifted b rest
print_value (raw b) rest = 2 ∷ shifted b rest
print_value (flag true) rest = 3 ∷ rest
print_value (flag false) rest = 4 ∷ rest

print_fields : Object → Bytes → Bytes
unfolding print_value shifted
print_fields [] rest = rest
print_fields ((k, v) ∷ o) rest = 0 ∷ shifted k (print_value v (print_fields o rest))

print_objects : List Object → Bytes
unfolding print_fields
print_objects [] = []
print_objects (o ∷ os) = 5 ∷ print_fields o (print_objects os)

read-shifted :
    (b rest : Bytes)
    → read (shifted b rest) ≡ record (read rest) { spelled = b ++ (read rest).spelled }
unfolding read shifted take_mark
read-shifted [] rest = refl
read-shifted (c ∷ b) rest =
    let e : c + 6 ≡ suc (suc (suc (suc (suc (suc c))))) = omega arith in
    subst
      (λ n.
        take_mark n (read (shifted b rest))
        ≡ record (read rest) { spelled = c ∷ (b ++ (read rest).spelled) })
      (sym e) (ap (λ (r : Reading). record r { spelled = c ∷ r.spelled }) (read-shifted b rest))

-- what is read of the rest, at the start of a field
Ends : Bytes → Object → List Object → Type 0
unfolding read
Ends rest o os =
    ((read rest).spelled ≡ []) × ((read rest).object ≡ o) × ((read rest).all_objects ≡ os)

read-print_value :
    (v : Value) (rest : Bytes)
    → (read rest).spelled ≡ []
    → read (print_value v rest) ≡ record (read rest) { value = v; spelled = [] }
unfolding read print_value take_mark
read-print_value (text b) rest h = rw (read-shifted b rest, h, append-nil b) refl
read-print_value (raw b) rest h = rw (read-shifted b rest, h, append-nil b) refl
read-print_value (flag true) rest h =
    ap (λ (b : Bytes). record (read rest) { value = flag true; spelled = b }) h
read-print_value (flag false) rest h =
    ap (λ (b : Bytes). record (read rest) { value = flag false; spelled = b }) h

print_fields-Ends :
    (o : Object) (rest : Bytes) (os : List Object)
    → Ends rest [] os
    → Ends (print_fields o rest) o os
unfolding Ends print_fields read take_mark
print_fields-Ends [] rest os h = h
print_fields-Ends ((k, v) ∷ o) rest os h =
    let (s, q, r) = print_fields-Ends o rest os h in
    rw
      (
        read-shifted k (print_value v (print_fields o rest)),
        read-print_value v (print_fields o rest) s,
        append-nil k,
      )
      (refl, ap (λ (f : Object). (k, v) ∷ f) q, r)

print_objects-Ends : (os : List Object) → Ends (print_objects os) [] os
unfolding Ends print_objects read take_mark nothing
print_objects-Ends [] = (refl, refl, refl)
print_objects-Ends (o ∷ os) =
    let (s, q, r) = print_fields-Ends o (print_objects os) os (print_objects-Ends os) in
    (
      s,
      refl,
      ap (λ (f : Object). f ∷ (read (print_fields o (print_objects os))).all_objects) q
          ∙ ap (λ (fs : List Object). o ∷ fs) r,
    )

-- with byte lists for edits
unfoldable pub toy_json : Json Bytes
unfolding read print_objects
toy_json = record {
  valid = λ b. true;
  print = print_objects;
  parse = λ b. some (read b).all_objects;
  encode_edit = λ x. x;
  decode_edit = λ b. some b;
}

pub toy_json-Lossless : Lossless toy_json
unfolding toy_json Ends
toy_json-Lossless os h = ap (λ (fs : List Object). some fs) (print_objects-Ends os).2
