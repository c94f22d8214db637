-- ===== src/Prelude/Chain.antt =====
-- Steps that may fail, one after the other.
use mathlib.Core.Option.{Option, none, some}

infixl 20 ◌>>=◌
abbrev pub ◌>>=◌ : {A B : Type 0} → Option A → (A → Option B) → Option B
none >>= f = none
some a >>= f = f a
