-- ===== src/Access/Drafting.antt =====
-- Who may draft in which scope, the platform's included.
use dotvirt.Prelude.{ℕ, Bool, true, List, Elem, Bytes, ◌≡◌, ◌∷◌, ◌++◌}
use dotvirt.Forge.{Net}
use dotvirt.Project.{ProjectInfo}
use dotvirt.Access.{Times, CreateRef, Answer, ok, Server, Caller, rbac_version, create_key}
use dotvirt.Access.Memo.{Recent}

module _ (net : Net) (token_key : Bytes → Bytes) where
  -- one of the projects that an answer holds
  abbrev pub Among : ProjectInfo → Answer (List ProjectInfo) → Type 0
  Among p a = (ps : List ProjectInfo) × (a ≡ ok ps) × Elem p ps

  -- The probe of a token's key answers what the token may create.
  abbrev pub CreatesOf : (Bytes → ℕ → Answer Bool) → Caller → Type 0
  CreatesOf truth c =
      (r : CreateRef)
      → truth (token_key c.token ++ 0 ∷ create_key net token_key r)
        ≡ (λ t. ok ((c.cluster t).creates r))

  -- The API server said, at a moment that still counts, that the caller may create one of `refs`.
  abbrev pub HasAuthority : Times → Caller → Server → List CreateRef → Type 0
  HasAuthority times c s refs =
      (r : CreateRef) × (asked : ℕ) × Elem r refs
      × ((c.cluster asked).creates r ≡ true)
      × Recent (rbac_version s) s.ssar.ttl (times.creates r) asked
