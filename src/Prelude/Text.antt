-- ===== src/Prelude/Text.antt =====
-- Text building: `strings.Join`, `strconv.Itoa`, and a sort by a Boolean order.
use Prim.Native.Nat.{ℕ, zero, suc, ◌+◌, ◌/◌, ◌%◌}
use Prim.Native.String.{String, ◌++◌ as append_text}
use mathlib.Core.Bool.{true, false}
use mathlib.Core.List.{List, [], ◌∷◌}
use dotvirt.Prelude.Tests.{ltb}

unfoldable pub concat : List String → String
concat [] = ""
concat (s ∷ ss) = append_text s (concat ss)

-- strings.Join(parts, sep)
pub join : String → List String → String
unfolding concat
join sep [] = ""
join sep (s ∷ []) = s
join sep (s ∷ t ∷ ss) = append_text s (append_text sep (join sep (t ∷ ss)))

digit : ℕ → String
digit zero = "0"
digit (suc zero) = "1"
digit (suc (suc zero)) = "2"
digit (suc (suc (suc zero))) = "3"
digit (suc (suc (suc (suc zero)))) = "4"
digit (suc (suc (suc (suc (suc zero))))) = "5"
digit (suc (suc (suc (suc (suc (suc zero)))))) = "6"
digit (suc (suc (suc (suc (suc (suc (suc zero))))))) = "7"
digit (suc (suc (suc (suc (suc (suc (suc (suc zero)))))))) = "8"
digit n = "9"

-- a number below `fuel` has fewer than `fuel` digits
itoa_from : ℕ → ℕ → String
itoa_from zero n = ""
itoa_from (suc fuel) n = elim (ltb n 10) [
  | true ↦ digit n
  | false ↦ append_text (itoa_from fuel (n / 10)) (digit (n % 10))
]

-- strconv.Itoa on a number that is not negative
pub itoa : ℕ → String
unfolding itoa_from digit
itoa n = itoa_from (n + 1) n
