-- ===== src/Forge/Spellings.antt =====
-- One repository, one key.
use dotvirt.Prelude.{
  Bool-cases, length, length-append, ℕ, refl, ap, inl, inr, false, List, [], arith, Elem, Bytes,
  bytes, bytes_eq, bytes_eq_iff, ◌≡◌, ◌≢◌, ◌∷◌, ◌++◌,
}
use dotvirt.Forge.{Net, slash, trim_right, trim_suffix, bare_repo, normalize_repo_url}

abbrev dot_git : Bytes
dot_git = bytes ".git"

not_own_tail : (c : ℕ) (s t : Bytes) → bytes_eq (c ∷ (s ++ t)) t ≡ false
not_own_tail c s t = elim (Bool-cases (bytes_eq (c ∷ (s ++ t)) t)) [
  | inl e ↦
      let l : length (c ∷ (s ++ t)) ≡ length t =
        ap (λ (u : Bytes). length u) ((bytes_eq_iff (c ∷ (s ++ t)) t).0 e) in
      absurd (omega (arith, length-append s t))
  | inr f ↦ f
]

trim_suffix-append : (s t : Bytes) → t ≢ [] → trim_suffix t (s ++ t) ≡ s
unfolding trim_suffix
trim_suffix-append [] [] n = refl
trim_suffix-append [] (d ∷ t) n = rw ((bytes_eq_iff (d ∷ t) (d ∷ t)).1 refl) refl
trim_suffix-append (c ∷ s) t n =
    rw (not_own_tail c s t) (ap (λ (u : Bytes). c ∷ u) (trim_suffix-append s t n))

trim_right-append_one : (c : ℕ) (s : Bytes) → trim_right c (s ++ c ∷ []) ≡ trim_right c s
unfolding trim_right
trim_right-append_one c [] = ground arith
trim_right-append_one c (d ∷ s) = rw (trim_right-append_one c s) refl

trim_right-append_kept :
    (c d : ℕ) (s t : Bytes) → trim_right c (d ∷ t) ≡ d ∷ t → trim_right c (s ++ d ∷ t) ≡ s ++ d ∷ t
unfolding trim_right
trim_right-append_kept c d [] t h = h
trim_right-append_kept c d (e ∷ []) t h = rw (h, trim_right) refl
trim_right-append_kept c d (e ∷ f ∷ s) t h = rw (trim_right-append_kept c d (f ∷ s) t h) refl

git_kept : (s : Bytes) → trim_right slash (s ++ dot_git) ≡ s ++ dot_git
unfolding trim_right
git_kept s = trim_right-append_kept slash 46 s (bytes "git") refl

-- the address of a repository, with and without `.git` and a slash at the end
abbrev pub spellings : Bytes → List Bytes
spellings u = u ∷ (u ++ dot_git) ∷ (u ++ bytes "/") ∷ ((u ++ dot_git) ++ bytes "/") ∷ []

bare_spelling :
    (u v : Bytes)
    → trim_right slash u ≡ u
    → trim_suffix dot_git u ≡ u
    → Elem v (spellings u)
    → bare_repo v ≡ u
unfolding bare_repo
bare_spelling u v r g (inl e) = rw (e, r) g
bare_spelling u v r g (inr (inl e)) =
    rw (e, git_kept u) (trim_suffix-append u dot_git (λ (z : dot_git ≡ []). cc z))
bare_spelling u v r g (inr (inr (inl e))) = rw (e, trim_right-append_one slash u, r) g
bare_spelling u v r g (inr (inr (inr (inl e)))) =
    rw (e, trim_right-append_one slash (u ++ dot_git), git_kept u)
      (trim_suffix-append u dot_git (λ (z : dot_git ≡ []). cc z))
bare_spelling u v r g (inr (inr (inr (inr z)))) = absurd z

-- An address that ends neither in a slash nor in `.git`, the same with `.git`, with a slash, and with
-- both, have one key: the address. The spelling has no space around it and no capital, as the trimming
-- and the lowering of the parameters leave it, and is not empty.
pub normalize_spellings :
    (net : Net) (u v : Bytes)
    → trim_right slash u ≡ u
    → trim_suffix dot_git u ≡ u
    → Elem v (spellings u)
    → net.trim_space v ≡ v
    → net.to_lower v ≡ v
    → v ≢ []
    → normalize_repo_url net v ≡ u
unfolding normalize_repo_url
normalize_spellings net u v r g m t l n =
    let f : bytes_eq v [] ≡ false = ground (arith, bytes_eq_iff v []) in
    rw (t, f, l) (bare_spelling u v r g m)
