-- ===== src/Prelude/Lists.antt =====
-- Lists measured and indexed by native numbers, under the library's names, and Boolean searches.
use Prim.Native.Nat.{ℕ, zero, suc, ◌+◌, ◌-◌, ◌<◌, min}
use mathlib.Core.Path.{◌≡◌, refl, ap, subst}
use mathlib.Core.Logic.{◌⊎◌, ◌↔◌, inl, inr}
use mathlib.Core.Bool.{Bool, true, false, ◌&&◌, ◌||◌}
use mathlib.Core.List.{List, [], ◌∷◌, ◌++◌, map}
use mathlib.Core.Option.{Option, none, some}
use native.Mathlib.Omega.{arith}
use dotvirt.Prelude.Tests.{if◌then◌else◌}

module _ {ℓ} {A : Type ℓ} where
  abbrev pub length : List A → ℕ
  length [] = 0
  length (x ∷ xs) = suc (length xs)

  abbrev pub get_elem? : List A → ℕ → Option A
  get_elem? [] i = none
  get_elem? (x ∷ xs) zero = some x
  get_elem? (x ∷ xs) (suc i) = get_elem? xs i

  abbrev pub take : ℕ → List A → List A
  take zero xs = []
  take (suc n) [] = []
  take (suc n) (x ∷ xs) = x ∷ take n xs

  abbrev pub drop : ℕ → List A → List A
  drop zero xs = xs
  drop (suc n) [] = []
  drop (suc n) (x ∷ xs) = drop n xs

  abbrev pub replicate : ℕ → A → List A
  replicate zero a = []
  replicate (suc n) a = a ∷ replicate n a

  pub take-drop : (n : ℕ) (xs : List A) → take n xs ++ drop n xs ≡ xs
  take-drop zero xs = refl
  take-drop (suc n) [] = refl
  take-drop (suc n) (x ∷ xs) = ap (x ∷◌) (take-drop n xs)

  pub get_elem?-drop : (n i : ℕ) (xs : List A) → get_elem? (drop n xs) i ≡ get_elem? xs (n + i)
  get_elem?-drop zero i xs = ap (get_elem? xs) (omega arith)
  get_elem?-drop (suc n) i [] = refl
  get_elem?-drop (suc n) i (x ∷ xs) =
      let e : suc (n + i) ≡ suc n + i = omega arith in
      subst (λ (k : ℕ). get_elem? (drop n xs) i ≡ get_elem? (x ∷ xs) k) e (get_elem?-drop n i xs)

  pub lt-length_of_get_elem? :
      (i : ℕ) (x : A) (xs : List A) → get_elem? xs i ≡ some x → i < length xs
  lt-length_of_get_elem? i x [] h = cc h
  lt-length_of_get_elem? zero x (y ∷ xs) h = omega arith
  lt-length_of_get_elem? (suc i) x (y ∷ xs) h = omega (arith, lt-length_of_get_elem? i x xs h)

  pub get_elem?-in : (i : ℕ) (xs : List A) → i < length xs → (x : A) × (get_elem? xs i ≡ some x)
  get_elem?-in i [] h = absurd (omega arith)
  get_elem?-in zero (x ∷ xs) h = (x, refl)
  get_elem?-in (suc i) (x ∷ xs) h = get_elem?-in i xs (omega arith)

  pub length-drop : (n : ℕ) (xs : List A) → length (drop n xs) ≡ length xs - n
  length-drop zero xs = omega arith
  length-drop (suc n) [] = omega arith
  length-drop (suc n) (x ∷ xs) = omega (arith, length-drop n xs)

  -- The elements that pass a Boolean test.
  abbrev pub keep_if : (A → Bool) → List A → List A
  keep_if p [] = []
  keep_if p (x ∷ xs) = let rest = keep_if p xs in if p x then x ∷ rest else rest

  abbrev pub any : (A → Bool) → List A → Bool
  any p [] = false
  any p (x ∷ xs) = p x || any p xs

  abbrev pub all : (A → Bool) → List A → Bool
  all p [] = true
  all p (x ∷ xs) = p x && all p xs

  pub length-append : (xs ys : List A) → length (xs ++ ys) ≡ length xs + length ys
  length-append [] ys = omega arith
  length-append (x ∷ xs) ys = omega (arith, length-append xs ys)

  pub length-take : (n : ℕ) (xs : List A) → length (take n xs) ≡ min n (length xs)
  length-take zero xs = omega arith
  length-take (suc n) [] = omega arith
  length-take (suc n) (x ∷ xs) = omega (arith, length-take n xs)

module _ {A : Type 0} where
  -- Membership that computes to a sum.
  abbrev pub Elem : A → List A → Type 0
  Elem a [] = ⊥
  Elem a (x ∷ xs) = (a ≡ x) ⊎ Elem a xs

  pub Elem-append_left : (a : A) (xs ys : List A) → Elem a xs → Elem a (xs ++ ys)
  Elem-append_left a (x ∷ xs) ys (inl e) = inl e
  Elem-append_left a (x ∷ xs) ys (inr e) = inr (Elem-append_left a xs ys e)
  Elem-append_left a [] ys e = absurd e

  pub Elem-append_right : (a : A) (xs ys : List A) → Elem a ys → Elem a (xs ++ ys)
  Elem-append_right a [] ys e = e
  Elem-append_right a (x ∷ xs) ys e = inr (Elem-append_right a xs ys e)

module _ {ℓ} {A : Type ℓ} where
  pub any-map {κ} :
      {B : Type κ} (f : B → A) (p : A → Bool) (xs : List B)
      → any p (map f xs) ≡ any (λ b. p (f b)) xs
  any-map f p [] = refl
  any-map f p (x ∷ xs) = rw (any-map f p xs) refl

  pub all-map {κ} :
      {B : Type κ} (f : B → A) (p : A → Bool) (xs : List B)
      → all p (map f xs) ≡ all (λ b. p (f b)) xs
  all-map f p [] = refl
  all-map f p (x ∷ xs) = rw (all-map f p xs) refl

  pub any-keep_if : (p q : A → Bool) (xs : List A) → any q (keep_if p xs) ≡ any (λ a. p a && q a) xs
  any-keep_if p q [] = refl
  any-keep_if p q (x ∷ xs) = ground (arith, any-keep_if p q xs)

  pub any-cong : (p q : A → Bool) (xs : List A) → ((a : A) → p a ≡ q a) → any p xs ≡ any q xs
  any-cong p q [] h = refl
  any-cong p q (x ∷ xs) h = rw (h x, any-cong p q xs h) refl

module _ {A B : Type 0} (f : A → B) where
  pub Elem-map : (a : A) (xs : List A) → Elem a xs → Elem (f a) (map f xs)
  Elem-map a [] h = absurd h
  Elem-map a (x ∷ xs) (inl e) = inl (ap f e)
  Elem-map a (x ∷ xs) (inr h) = inr (Elem-map a xs h)

  pub Elem-map_inv : (b : B) (xs : List A) → Elem b (map f xs) → (a : A) × Elem a xs × (b ≡ f a)
  Elem-map_inv b [] h = absurd h
  Elem-map_inv b (x ∷ xs) (inl e) = (x, inl refl, e)
  Elem-map_inv b (x ∷ xs) (inr h) = let (a, m, e) = Elem-map_inv b xs h in (a, inr m, e)

module _ {A : Type 0} where
  pub Elem-append_iff : (a : A) (xs ys : List A) → Elem a (xs ++ ys) ↔ (Elem a xs ⊎ Elem a ys)
  Elem-append_iff a [] ys = (λ h. inr h, λ h. elim h [ inl e ↦ absurd e | inr e ↦ e ])
  Elem-append_iff a (x ∷ xs) ys =
      let (to, from) = Elem-append_iff a xs ys in
      (
        λ h. elim h [
          | inl e ↦ inl (inl e)
          | inr m ↦ elim (to m) [ inl e ↦ inl (inr e) | inr e ↦ inr e ]
        ],
        λ h. elim h [
          | inl (inl e) ↦ inl e
          | inl (inr e) ↦ inr (from (inl e))
          | inr e ↦ inr (from (inr e))
        ],
      )
