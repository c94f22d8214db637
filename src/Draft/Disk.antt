-- ===== src/Draft/Disk.antt =====
-- internal/draft/draft.go: the file of a draft, and the file system that it stands in. A failure of
-- the operating system is decided, for the time of one call, by `Faults`.
use dotvirt.Prelude.{
  ltb, leb, any, ℕ, Bool, Option, none, [], Bytes, bytes, bytes_eq, ◌==◌, if◌then◌else◌, ◌+◌, ◌/◌,
  ◌%◌, ◌&&◌, ◌||◌, ◌∷◌, ◌++◌,
}

pub record Disk : Type 0 where
  pub file : Bytes → Option Bytes

pub record Faults : Type 0 where
  pub read_fails : Bytes → Bool
  pub rename_fails : Bytes → Bool
  pub remove_fails : Bytes → Bool
  pub mkdir_fails : Bytes → Bool
  pub write_fails : Bytes → Bool

pub data Error : Type 0 where
  read_error quarantine_error remove_error mkdir_error write_error rename_error : Error

unfoldable pub put : Bytes → Option Bytes → Disk → Disk
put p c disk = record { file = λ q. if bytes_eq p q then c else disk.file q }

-- os.Rename over an existing file
unfoldable pub rename : Bytes → Bytes → Disk → Disk
rename from to disk = put from none (put to (disk.file from) disk)

-- url.PathEscape: in a path segment it keeps letters, digits and - _ . ~ $ & + = : @
unfoldable pub unreserved : ℕ → Bool
unreserved c =
    leb b'a' c && leb c b'z'
    || (leb b'A' c && leb c b'Z'
        || (leb b'0' c && leb c b'9' || any (λ d. d == c) (bytes "-_.~$&+=:@")))

unfoldable pub hex : ℕ → ℕ
hex d = if ltb d 10 then 48 + d else 55 + d

unfoldable pub path_escape : Bytes → Bytes
unfolding hex unreserved
path_escape [] = []
path_escape (c ∷ s) =
    let rest = path_escape s in
    if unreserved c then c ∷ rest else 37 ∷ hex (c / 16) ∷ hex (c % 16) ∷ rest

unfoldable pub safe_segment : Bytes → Bytes
safe_segment s =
    if bytes_eq s (bytes ".")
    then bytes "%2E"
    else if bytes_eq s (bytes "..")
    then bytes "%2E%2E"
    else path_escape s

-- filepath.Join drops an empty segment
unfoldable pub join_segment : Bytes → Bytes → Bytes
join_segment [] rest = rest
join_segment (c ∷ seg) rest = (c ∷ seg) ++ 47 ∷ rest

-- filepath.Join of a clean directory and two segments
unfoldable pub path : Bytes → Bytes → Bytes → Bytes
unfolding join_segment
path dir user project =
    join_segment dir (join_segment (safe_segment user) (safe_segment project ++ bytes ".json"))
