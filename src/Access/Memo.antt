-- ===== src/Access/Memo.antt =====
-- What the caches of the authorization answers return.
use dotvirt.Prelude.{ℕ, List, [], Bytes, ◌+◌, ◌≤◌, ◌<◌, ◌≡◌, ◌⊎◌, ◌∷◌}
use dotvirt.Ttlcache.{Stamped, answer}
use dotvirt.Access.{Moments, Answer, ok, Versioned}

-- The version was read before the probe was made, and the answer stored after it.
abbrev pub InOrder : Moments → Type 0
InOrder m = (m.started ≤ m.looked) × (m.looked ≤ m.asked) × (m.asked ≤ m.stored)

-- A probe made at `asked` may still answer a read: it is the read's own, or its answer was stored less
-- than the time to live ago, and the version that was read before it is the one of the read.
abbrev pub Recent : (ℕ → ℕ) → ℕ → Moments → ℕ → Type 0
Recent ver_at ttl m asked =
    (asked ≡ m.asked)
    ⊎ ((began stored : ℕ) × (began ≤ asked)
        × (asked ≤ stored)
        × (m.looked < stored + ttl)
        × (ver_at began ≡ ver_at m.started))

module _ {V : Type 0} (ver_at : ℕ → ℕ) (truth : Bytes → ℕ → Answer V) where
  -- The entry holds what the probe of its key answered at some moment before it was stored, under the
  -- version that was read before that.
  abbrev pub Kept : Bytes → Stamped (Versioned V) → Type 0
  Kept k e =
      (began asked : ℕ) × (began ≤ asked)
      × (asked ≤ e.stored_at)
      × (ver_at began ≡ e.val.ver)
      × (truth k asked ≡ ok e.val.answer)

  abbrev pub Truthful : List (Bytes × Stamped (Versioned V)) → Type 0
  Truthful [] = Unit
  Truthful ((k, e) ∷ m) = Kept k e × Truthful m

  -- An answer that was a probe's at a moment that counts.
  abbrev pub Answers : ℕ → Moments → Bytes → Answer V → Type 0
  Answers ttl m k a = (asked : ℕ) × (a ≡ truth k asked) × Recent ver_at ttl m asked
