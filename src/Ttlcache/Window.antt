-- ===== src/Ttlcache/Window.antt =====
-- What a reader of the cache sees, and what the cache holds.
use dotvirt.Prelude.{
  ltb, Bool-cases, ℕ, refl, sym, subst, inl, inr, false, none, some, List, [], arith, Bytes,
  bytes_eq, bytes_eq_iff, if◌then◌else◌, ◌-◌, ◌≤◌, ◌<◌, ◌≡◌, ◌∙◌, ◌∷◌,
}
use dotvirt.Prelude.Maps.{lookup, without, lookup-without, Single, Single-without}
use dotvirt.Ttlcache.{Stamped, Cache, unexpired, answer, get, evict, put_entry}

module _ {ℓ} {V : Type ℓ} where
  -- Every entry lives at the time `now`.
  abbrev pub Alive : ℕ → ℕ → List (Bytes × Stamped V) → Type 0
  Alive ttl now [] = Unit
  Alive ttl now ((k, e) ∷ m) = (now - e.stored_at < ttl) × Alive ttl now m

  lookup-evict-none :
      (ttl now : ℕ) (j : Bytes) (m : List (Bytes × Stamped V))
      → lookup j m ≡ none
      → lookup j (evict ttl now m) ≡ none
  unfolding lookup evict
  lookup-evict-none ttl now j [] h = refl
  lookup-evict-none ttl now j ((i, e) ∷ m) h = ground (arith, lookup-evict-none ttl now j m)

  Single-evict : (ttl now : ℕ) (m : List (Bytes × Stamped V)) → Single m → Single (evict ttl now m)
  unfolding evict
  Single-evict ttl now [] s = tt
  Single-evict ttl now ((i, e) ∷ m) s = elim (Bool-cases (unexpired ttl now e)) [
    | inl t ↦ rw t (lookup-evict-none ttl now i m s.0, Single-evict ttl now m s.1)
    | inr f ↦ rw f (Single-evict ttl now m s.1)
  ]

  stays_expired :
      (ttl now later : ℕ) (e : Stamped V)
      → now ≤ later
      → unexpired ttl now e ≡ false
      → answer ttl later (some e) ≡ none
  unfolding answer unexpired
  stays_expired ttl now later e l f = ground arith

  -- an expired entry stays expired, so its eviction is not seen
  answer-evict :
      (ttl now later : ℕ) (j : Bytes) (m : List (Bytes × Stamped V))
      → now ≤ later
      → Single m
      → answer ttl later (lookup j (evict ttl now m)) ≡ answer ttl later (lookup j m)
  unfolding lookup evict answer
  answer-evict ttl now later j [] l s = refl
  answer-evict ttl now later j ((i, e) ∷ m) l s = elim (Bool-cases (unexpired ttl now e)) [
    | inl t ↦ elim (Bool-cases (bytes_eq i j)) [
      | inl q ↦ rw (t, q) refl
      | inr n ↦ rw (t, n) (answer-evict ttl now later j m l s.1)
    ]
    | inr f ↦ elim (Bool-cases (bytes_eq i j)) [
      | inl q ↦
          let gone : lookup j m ≡ none =
            subst (λ (k : Bytes). lookup k m ≡ none) ((bytes_eq_iff i j).0 q) s.0 in
          rw (f, q, lookup-evict-none ttl now j m gone) (sym (stays_expired ttl now later e l f))
      | inr n ↦ rw (f, n) (answer-evict ttl now later j m l s.1)
    ]
  ]

  Alive-evict : (ttl now : ℕ) (m : List (Bytes × Stamped V)) → Alive ttl now (evict ttl now m)
  unfolding evict unexpired
  Alive-evict ttl now [] = tt
  Alive-evict ttl now ((i, e) ∷ m) = elim (Bool-cases (ltb (now - e.stored_at) ttl)) [
    | inl t ↦ rw t (ground arith, Alive-evict ttl now m)
    | inr f ↦ rw f (Alive-evict ttl now m)
  ]

  Alive-without :
      (ttl now : ℕ) (k : Bytes) (m : List (Bytes × Stamped V))
      → Alive ttl now m
      → Alive ttl now (without k m)
  unfolding without
  Alive-without ttl now k [] a = tt
  Alive-without ttl now k ((i, e) ∷ m) a = elim (Bool-cases (bytes_eq i k)) [
    | inl t ↦ rw t (Alive-without ttl now k m a.1)
    | inr f ↦ rw f (a.0, Alive-without ttl now k m a.1)
  ]

  -- After a write at `now`, a read at a later time finds the value under the written key until its
  -- time to live is over, and under every other key what it would have found without the write: the
  -- eviction is not seen. No key stands twice before the write.
  pub get-put_entry :
      (now later : ℕ) (k j : Bytes) (v : V) (c : Cache V)
      → Single c.entries
      → now ≤ later
      → get later j (put_entry now k v c) ≡ (
          if bytes_eq k j
          then (if ltb (later - now) c.ttl then some v else none)
          else get later j c)
  unfolding get put_entry lookup
  get-put_entry now later k j v c s l = elim (Bool-cases (bytes_eq k j)) [
    | inl t ↦ rw t (unfold answer unexpired in refl)
    | inr f ↦
        let h : lookup j (without k (evict c.ttl now c.entries))
            ≡ lookup j (evict c.ttl now c.entries) =
          lookup-without k j (evict c.ttl now c.entries) ∙ rw f refl in
        rw (f, h) (answer-evict c.ttl now later j c.entries l s)
  ]

  -- A write leaves no key twice and nothing that has outlived the window: where the time to live is
  -- not zero, every entry that is held lives at the time of the write.
  pub put_entry-Alive :
      (now : ℕ) (k : Bytes) (v : V) (c : Cache V)
      → Single c.entries
      → 0 < c.ttl
      → Single (put_entry now k v c).entries × Alive c.ttl now (put_entry now k v c).entries
  unfolding put_entry
  put_entry-Alive now k v c s h = (
    (
      lookup-without k k (evict c.ttl now c.entries) ∙ rw ((bytes_eq_iff k k).1 refl) refl,
      Single-without k _ (Single-evict c.ttl now c.entries s),
    ),
    (omega arith, Alive-without c.ttl now k _ (Alive-evict c.ttl now c.entries)),
  )
