-- ===== src/Manifest/Migration/Fresh.antt =====
-- The search for a name that is not taken comes to an end.
use dotvirt.Prelude.{
  ltb, Bool-cases, length, keep_if, any, ℕ, zero, suc, refl, sym, ap, inl, inr, true, false, not,
  Option, some, List, [], arith, Elem, Bytes, bytes_eq, bytes_eq_iff, drop, ◌+◌, ◌-◌, ◌*◌, ◌/◌, ◌≤◌,
  ◌<◌, ◌≡◌, ◌∙◌, ◌≢◌, ◌∷◌, ◌++◌,
}
use dotvirt.Manifest.{Node}
use dotvirt.Manifest.Migration.{
  decimal_from, decimal, mig, mig_name, base_name, first_free, taken_names, next_dv_name,
}

-- the number that digits write
unfoldable value : ℕ → Bytes → ℕ
value acc [] = acc
value acc (c ∷ s) = value (acc * 10 + (c - 48)) s

value-append : (acc : ℕ) (s t : Bytes) → value acc (s ++ t) ≡ value (value acc s) t
unfolding value
value-append acc [] t = refl
value-append acc (c ∷ s) t = value-append (acc * 10 + (c - 48)) s t

value-decimal_from : (fuel n : ℕ) → n < fuel → value 0 (decimal_from fuel n) ≡ n
unfolding value decimal_from
value-decimal_from zero n lt = absurd (omega arith)
value-decimal_from (suc fuel) n lt = elim (Bool-cases (ltb n 10)) [
  | inl t ↦ rw t (omega arith)
  | inr f ↦
      let g : 10 ≤ n = ground arith in
      let ih = value-decimal_from fuel (n / 10) (omega arith) in
      rw f (value-append 0 (decimal_from fuel (n / 10)) _ ∙ rw ih (omega arith))
]

drop-append : (p s : Bytes) → drop (length p) (p ++ s) ≡ s
drop-append [] s = refl
drop-append (c ∷ p) s = drop-append p s

mig_name_injective : (base : Bytes) (m n : ℕ) → mig_name base m ≡ mig_name base n → m ≡ n
unfolding mig_name decimal
mig_name_injective base m n h =
    let p = base ++ mig in
    let d : decimal m ≡ decimal n =
      sym (drop-append p (decimal m)) ∙ ap (drop (length p)) h ∙ drop-append p (decimal n) in
    sym (value-decimal_from (suc m) m (omega arith))
    ∙ ap (value 0) d
    ∙ value-decimal_from (suc n) n (omega arith)

rid : Bytes → List Bytes → List Bytes
rid x xs = keep_if (λ y. not (bytes_eq x y)) xs

rid-shorter : (x : Bytes) (xs : List Bytes) → length (rid x xs) ≤ length xs
unfolding rid
rid-shorter x [] = omega arith
rid-shorter x (y ∷ xs) = elim (Bool-cases (bytes_eq x y)) [
  | inl t ↦ rw t (omega (arith, rid-shorter x xs))
  | inr f ↦ rw f (omega (arith, rid-shorter x xs))
]

rid-drops : (x : Bytes) (xs : List Bytes) → Elem x xs → length (rid x xs) < length xs
unfolding rid
rid-drops x [] m = absurd m
rid-drops x (y ∷ xs) m = elim (Bool-cases (bytes_eq x y)) [
  | inl t ↦ rw t (omega (arith, rid-shorter x xs))
  | inr f ↦
      rw f (elim m [
        | inl e ↦ cc ((bytes_eq_iff x y).1 e, f)
        | inr k ↦ omega (arith, rid-drops x xs k)
      ])
]

rid-others : (x z : Bytes) (xs : List Bytes) → x ≢ z → Elem z xs → Elem z (rid x xs)
unfolding rid
rid-others x z [] n m = absurd m
rid-others x z (y ∷ xs) n m = elim (Bool-cases (bytes_eq x y)) [
  | inl t ↦ rw t (elim m [
    | inl e ↦ absurd (n ((bytes_eq_iff x y).0 t ∙ sym e))
    | inr k ↦ rid-others x z xs n k
  ])
  | inr f ↦ rw f (elim m [ inl e ↦ inl e | inr k ↦ inr (rid-others x z xs n k) ])
]

any-bytes_eq : (x : Bytes) (xs : List Bytes) → any (bytes_eq x) xs ≡ true → Elem x xs
any-bytes_eq x [] h = cc h
any-bytes_eq x (y ∷ xs) h = elim (Bool-cases (bytes_eq x y)) [
  | inl t ↦ inl ((bytes_eq_iff x y).0 t)
  | inr f ↦ inr (any-bytes_eq x xs (rw f at h))
]

module _ (base : Bytes) (taken : List Bytes) where
  -- a name of the series that is not taken
  abbrev pub Found : ℕ → Option Bytes → Type 0
  Found n o =
      (m : ℕ) × (n ≤ m)
      × (o ≡ some (mig_name base m))
      × (any (bytes_eq (mig_name base m)) taken ≡ false)

  -- While every taken name from `n` on is among `xs`, more steps than `xs` has names are enough.
  first_free-Found :
      (fuel n : ℕ) (xs : List Bytes)
      → length xs < fuel
      → ((m : ℕ) → n ≤ m → Elem (mig_name base m) taken → Elem (mig_name base m) xs)
      → Found n (first_free fuel n base taken)
  unfolding first_free
  first_free-Found zero n xs lt sub = absurd (omega arith)
  first_free-Found (suc fuel) n xs lt sub =
      let x = mig_name base n in
      elim (Bool-cases (any (bytes_eq x) taken)) [
        | inr f ↦ rw f (n, omega arith, refl, f)
        | inl t ↦
            let d = rid-drops x xs (sub n (omega arith) (any-bytes_eq x taken t)) in
            let (m, l, e, f) = first_free-Found fuel (suc n) (rid x xs) (omega arith) (λ m l i.
              rid-others x (mig_name base m) xs
                (λ q. absurd (let z = mig_name_injective base n m q in omega arith))
                (sub m (omega arith) i)) in
            rw t (m, omega arith, e, f)
      ]

-- The loop ends: a migrated volume gets a name of the series, from 1 on, that is neither the name of the
-- old one nor that of any template.
pub next_dv_name_fresh :
    (old : Bytes) (templates : Node)
    → Found (base_name old) (taken_names old templates) 1 (next_dv_name old templates)
unfolding next_dv_name
next_dv_name_fresh old templates =
    first_free-Found (base_name old) (taken_names old templates)
      (suc (length (taken_names old templates))) 1 (taken_names old templates) (omega arith)
      (λ m l i. i)
