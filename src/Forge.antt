-- ===== src/Forge.antt =====
-- pkg/forge/url.go: the forms in which one repository is named. Texts are bytes; the parser of net/url,
-- strings.TrimSpace and strings.ToLower are parameters.
pub mod Spellings
use dotvirt.Prelude.{
  ℕ, not, Option, none, some, List, [], Bytes, bytes, bytes_eq, ◌==◌, if◌then◌else◌, ◌&&◌, ◌||◌,
  ◌∷◌, ◌++◌,
}

-- What net/url makes of a text: the user part is as String prints it.
pub record Url : Type 0 where
  pub scheme : Bytes
  pub user : Option Bytes
  pub host : Bytes
  pub path : Bytes

pub record Net : Type 0 where
  pub parse : Bytes → Option Url
  pub trim_space : Bytes → Bytes
  pub to_lower : Bytes → Bytes

pub record Parsed : Type 0 where
  pub origin : Bytes
  pub host : Bytes
  pub path : Bytes

abbrev pub path_only : Bytes → Parsed
path_only p = record { origin = []; host = []; path = p }

unfoldable pub trim_left : ℕ → Bytes → Bytes
trim_left c [] = []
trim_left c (d ∷ s) = let rest = trim_left c s in if d == c then rest else d ∷ s

-- the last bytes that are `c` go
unfoldable pub trim_right : ℕ → Bytes → Bytes
trim_right c [] = []
trim_right c (d ∷ s) =
    let rest = trim_right c s in
    elim rest [ [] ↦ if d == c then [] else d ∷ [] | e ∷ t ↦ d ∷ e ∷ t ]

unfoldable pub trim_suffix : Bytes → Bytes → Bytes
trim_suffix suffix [] = []
trim_suffix suffix (c ∷ s) =
    let rest = trim_suffix suffix s in if bytes_eq (c ∷ s) suffix then [] else c ∷ rest

-- strings.Split at a byte
unfoldable pub split_at : ℕ → Bytes → List Bytes
split_at c [] = [] ∷ []
split_at c (d ∷ s) =
    let rest = split_at c s in
    if d == c then [] ∷ rest else elim rest [ [] ↦ (d ∷ []) ∷ [] | p ∷ ps ↦ (d ∷ p) ∷ ps ]

-- the last two elements
unfoldable pub last_two : List Bytes → Option (Bytes × Bytes)
last_two [] = none
last_two (a ∷ []) = none
last_two (a ∷ b ∷ []) = some (a, b)
last_two (a ∷ b ∷ c ∷ ps) = last_two (b ∷ c ∷ ps)

-- what stands before the last slash
unfoldable pub before_last : ℕ → Bytes → Option Bytes
before_last c [] = none
before_last c (d ∷ s) = elim (before_last c s) [
  | some p ↦ some (d ∷ p)
  | none ↦ if d == c then some [] else none
]

abbrev pub slash : ℕ
slash = 47

-- the slashes at the end go, then one `.git`
unfoldable pub bare_repo : Bytes → Bytes
bare_repo u = trim_suffix (bytes ".git") (trim_right slash u)

module _ (net : Net) where
  user_prefix : Option Bytes → Bytes
  user_prefix none = []
  user_prefix (some u) = u ++ bytes "@"

  located : Url → Parsed
  unfolding user_prefix
  located u = if bytes_eq u.scheme [] then path_only u.path else record {
    origin = u.scheme ++ (bytes "://" ++ (user_prefix u.user ++ u.host));
    host = net.to_lower u.host;
    path = u.path;
  }

  unfoldable pub parse_url : Bytes → Parsed
  unfolding located
  parse_url raw = elim (net.parse (net.trim_space raw)) [
    | none ↦ path_only (net.trim_space raw)
    | some u ↦ located u
  ]

  both_named : Option (Bytes × Bytes) → Option (Bytes × Bytes)
  both_named none = none
  both_named (some (owner, repo)) =
      if bytes_eq owner [] || bytes_eq repo [] then none else some (owner, repo)

  unfoldable pub owner_repo : Bytes → Option (Bytes × Bytes)
  unfolding both_named
  owner_repo url =
      let p =
        trim_suffix (bytes ".git") (trim_left slash (trim_right slash (parse_url url).path)) in
      both_named (last_two (split_at slash p))

  unfoldable pub normalize_repo_url : Bytes → Bytes
  normalize_repo_url u =
      let t = net.trim_space u in if bytes_eq t [] then [] else bare_repo (net.to_lower t)

  unfoldable pub owner_prefix_url : Bytes → Bytes
  owner_prefix_url url = elim (before_last slash (bare_repo (parse_url url).path)) [
    | none ↦ url
    | some p ↦ (parse_url url).origin ++ p
  ]

  unfoldable pub url_path : Bytes → Bytes
  url_path raw = if bytes_eq (parse_url raw).path [] then raw else (parse_url raw).path

  unfoldable pub path_ref : Bytes → Bytes
  path_ref url =
      let u = parse_url url in
      if not (bytes_eq u.origin []) && bytes_eq u.path [] then url else trim_left slash u.path

  unfoldable pub resolve_ref : Bytes → Bytes → Bytes
  resolve_ref base ref =
      if not (bytes_eq (parse_url ref).origin [])
      then ref
      else if bytes_eq base []
      then []
      else trim_right slash base ++ slash ∷ trim_left slash ref
