-- ===== src/Prelude/Sort.antt =====
-- `sort.Slice`: the elements in the order of a Boolean `less`.
use mathlib.Core.Bool.{Bool, true, false}
use mathlib.Core.List.{List, [], ◌∷◌, ◌++◌}
use mathlib.Core.Path.{◌≡◌, refl, ◌∙◌}
use mathlib.Core.Bool.{◌||◌}
use native.Mathlib.Omega.{arith}
use Prim.Native.Nat.{ℕ, ◌+◌}
use mathlib.Core.Logic.{◌↔◌, inl, inr}
use dotvirt.Prelude.Lists.{any, Elem}
use dotvirt.Prelude.Tests.{if◌then◌else◌, Bool-cases}

module _ {ℓ} {A : Type ℓ} where
  unfoldable pub insert_by : (A → A → Bool) → A → List A → List A
  insert_by less a [] = a ∷ []
  insert_by less a (b ∷ bs) = if less b a then b ∷ insert_by less a bs else a ∷ b ∷ bs

  unfoldable pub sort_by : (A → A → Bool) → List A → List A
  unfolding insert_by
  sort_by less [] = []
  sort_by less (a ∷ as') = insert_by less a (sort_by less as')

  -- Sorting keeps what occurs.
  any-insert_by :
      (less : A → A → Bool) (p : A → Bool) (a : A) (bs : List A)
      → any p (insert_by less a bs) ≡ (p a || any p bs)
  unfolding insert_by
  any-insert_by less p a [] = refl
  any-insert_by less p a (b ∷ bs) = ground (arith, any-insert_by less p a bs)

  pub any-sort_by :
      (less : A → A → Bool) (p : A → Bool) (as' : List A) → any p (sort_by less as') ≡ any p as'
  unfolding sort_by
  any-sort_by less p [] = refl
  any-sort_by less p (a ∷ as') =
      any-insert_by less p a (sort_by less as') ∙ rw (any-sort_by less p as') refl

module _ {A : Type 0} (less : A → A → Bool) where
  Elem-insert_by : (a c : A) (bs : List A) → Elem c (insert_by less a bs) ↔ Elem c (a ∷ bs)
  unfolding insert_by
  Elem-insert_by a c [] = (λ h. h, λ h. h)
  Elem-insert_by a c (b ∷ bs) = elim (Bool-cases (less b a)) [
    | inl t ↦ rw t (
      λ h. elim h [
        | inl e ↦ inr (inl e)
        | inr m ↦ elim ((Elem-insert_by a c bs).0 m) [ inl e ↦ inl e | inr k ↦ inr (inr k) ]
      ],
      λ h. elim h [
        | inl e ↦ inr ((Elem-insert_by a c bs).1 (inl e))
        | inr (inl e) ↦ inl e
        | inr (inr k) ↦ inr ((Elem-insert_by a c bs).1 (inr k))
      ],
    )
    | inr f ↦ rw f (λ h. h, λ h. h)
  ]

  pub Elem-sort_by : (c : A) (as' : List A) → Elem c (sort_by less as') ↔ Elem c as'
  unfolding sort_by
  Elem-sort_by c [] = (λ h. h, λ h. h)
  Elem-sort_by c (a ∷ as') =
      let (to, from) = Elem-insert_by a c (sort_by less as') in
      let (down, up) = Elem-sort_by c as' in
      (
        λ h. elim (to h) [ inl e ↦ inl e | inr m ↦ inr (down m) ],
        λ h. from (elim h [ inl e ↦ inl e | inr m ↦ inr (up m) ]),
      )

module _ {A : Type 0} where
  -- how many elements pass a Boolean test
  abbrev pub count_if : (A → Bool) → List A → ℕ
  count_if p [] = 0
  count_if p (x ∷ xs) = (if p x then 1 else 0) + count_if p xs

  pub count_if-append :
      (p : A → Bool) (xs ys : List A) → count_if p (xs ++ ys) ≡ count_if p xs + count_if p ys
  count_if-append p [] ys = omega arith
  count_if-append p (x ∷ xs) ys = omega (arith, count_if-append p xs ys)

  count_if-insert_by :
      (less : A → A → Bool) (p : A → Bool) (a : A) (bs : List A)
      → count_if p (insert_by less a bs) ≡ count_if p (a ∷ bs)
  unfolding insert_by
  count_if-insert_by less p a [] = refl
  count_if-insert_by less p a (b ∷ bs) = ground (arith, count_if-insert_by less p a bs)

  -- Sorting keeps how often everything occurs.
  pub count_if-sort_by :
      (less : A → A → Bool) (p : A → Bool) (xs : List A)
      → count_if p (sort_by less xs) ≡ count_if p xs
  unfolding sort_by
  count_if-sort_by less p [] = refl
  count_if-sort_by less p (x ∷ xs) =
      count_if-insert_by less p x (sort_by less xs) ∙ omega (arith, count_if-sort_by less p xs)

  -- each element stands so to the one after it
  abbrev pub Ordered : (A → A → Type 0) → List A → Type 0
  Ordered R [] = Unit
  Ordered R (x ∷ []) = Unit
  Ordered R (x ∷ y ∷ xs) = R x y × Ordered R (y ∷ xs)

  module _ (less : A → A → Bool) (R : A → A → Type 0) (below : (a b : A) → less b a ≡ true → R b a)
      (above : (a b : A) → less b a ≡ false → R a b) where
    insert_after :
        (b a : A) (bs : List A) → R b a → Ordered R (b ∷ bs) → Ordered R (b ∷ insert_by less a bs)
    unfolding insert_by
    insert_after b a [] r o = (r, tt)
    insert_after b a (c ∷ bs) r (q, o) = elim (Bool-cases (less c a)) [
      | inl t ↦ rw t (q, insert_after c a bs (below a c t) o)
      | inr f ↦ let tail : R a c × Ordered R (c ∷ bs) = (above a c f, o) in rw f (r, tail)
    ]

    insert_by-Ordered : (a : A) (bs : List A) → Ordered R bs → Ordered R (insert_by less a bs)
    unfolding insert_by
    insert_by-Ordered a [] o = tt
    insert_by-Ordered a (b ∷ bs) o = elim (Bool-cases (less b a)) [
      | inl t ↦ rw t (insert_after b a bs (below a b t) o)
      | inr f ↦ rw f (above a b f, o)
    ]

    pub sort_by-Ordered : (xs : List A) → Ordered R (sort_by less xs)
    unfolding sort_by
    sort_by-Ordered [] = tt
    sort_by-Ordered (x ∷ xs) = insert_by-Ordered x (sort_by less xs) (sort_by-Ordered xs)
