-- ===== src/Validate.antt =====
-- internal/validate/validate.go: the checks on names that become metadata and segments of a path, by
-- the bytes. `path.Clean` is a parameter; an error is the text of the field that it names.
pub mod Segments
use dotvirt.Prelude.{
  ltb, leb, length, any, ℕ, Bool, true, false, not, Option, none, some, [], Bytes, bytes, bytes_eq,
  ◌==◌, if◌then◌else◌, ◌&&◌, ◌||◌, ◌∷◌,
}
use dotvirt.Forge.{split_at, slash}

abbrev pub is_alnum : ℕ → Bool
is_alnum c = (leb 97 c && leb c 122) || (leb 48 c && leb c 57)

-- `([-a-z0-9]*[a-z0-9])?$`
unfoldable pub label_tail : Bytes → Bool
label_tail [] = true
label_tail (d ∷ []) = is_alnum d
label_tail (d ∷ e ∷ s) = let rest = label_tail (e ∷ s) in (is_alnum d || d == 45) && rest

unfoldable pub dns1123_label : Bytes → Bool
dns1123_label [] = false
dns1123_label (c ∷ s) = is_alnum c && label_tail s

unfoldable pub dns1123_name : Bytes → Bool
dns1123_name s = ltb 0 (length s) && (leb (length s) 63 && dns1123_label s)

-- `none` is no error
unfoldable pub require_dns1123 : Bytes → Bytes → Option Bytes
require_dns1123 field s = if not (dns1123_name s) then some field else none

abbrev pub backslash : ℕ
backslash = 92

abbrev pub starts_with_slash : Bytes → Bool
starts_with_slash [] = false
starts_with_slash (c ∷ s) = c == slash

abbrev pub is_bad_segment : Bytes → Bool
is_bad_segment s = bytes_eq s (bytes "..") || (bytes_eq s (bytes ".") || bytes_eq s [])

module _ (clean : Bytes → Bytes) where
  unfoldable pub repo_path : Bytes → Bool
  repo_path s =
      if bytes_eq s [] || (starts_with_slash s || any (λ c. c == backslash) s)
      then false
      else if not (bytes_eq (clean s) s)
      then false
      else not (any is_bad_segment (split_at slash s))

  unfoldable pub require_repo_path : Bytes → Bytes → Option Bytes
  require_repo_path field s = if not (repo_path s) then some field else none
