-- ===== src/Tasks/Author.antt =====
-- Whose a merged proposal is.
use dotvirt.Prelude.{
  ==_iff, Bool-cases, Option-cases, refl, sym, subst, inl, inr, false, none, some, [], arith, Bytes,
  bytes, bytes_eq, bytes_eq_iff, Lacks, append_assoc, ◌==◌, ◌≡◌, ◌∙◌, ◌≢◌, ◌∷◌, ◌++◌,
}
use dotvirt.Tasks.{cut_prefix, or_whole, head_segment, named_user, user_of, merge_author}

cut_prefix-append : (p s : Bytes) → cut_prefix p (p ++ s) ≡ some s
unfolding cut_prefix
cut_prefix-append [] s = refl
cut_prefix-append (c ∷ p) s = ground (arith, cut_prefix-append p s)

-- a first segment that is cut off is the whole first segment
cut_prefix-segment :
    (w u r t : Bytes)
    → Lacks 47 w
    → Lacks 47 u
    → cut_prefix (w ++ 47 ∷ []) (u ++ 47 ∷ r) ≡ some t
    → w ≡ u
unfolding cut_prefix
cut_prefix-segment [] [] r t a b h = refl
cut_prefix-segment [] (d ∷ u) r t a b h = ground arith
cut_prefix-segment (c ∷ w) [] r t a b h = ground arith
cut_prefix-segment (c ∷ w) (d ∷ u) r t a b h = elim (Bool-cases (c == d)) [
  | inl q ↦
      let e = (==_iff c d).0 q in
      let i = cut_prefix-segment w u r t a.1 b.1 (rw q at h) in ground arith
  | inr n ↦ cc (rw n at h)
]

head_segment-append : (u r : Bytes) → Lacks 47 u → head_segment (u ++ 47 ∷ r) ≡ some u
unfolding head_segment
head_segment-append [] r l = refl
head_segment-append (c ∷ u) r l =
    rw (head_segment-append u r l.1) (let n : c ≢ 47 = l.0 in ground arith)

named_own : (user poster : Bytes) → user ≢ [] → named_user (some user) poster ≡ user
unfolding named_user
named_own user poster n = ground (arith, bytes_eq_iff user [])

under_prefix :
    (p s poster : Bytes) → p ≢ [] → merge_author (p ++ 47 ∷ s) p poster ≡ user_of (some s) poster
unfolding merge_author
under_prefix p s poster n =
    let z : bytes_eq p [] ≡ false = ground (arith, bytes_eq_iff p []) in
    let c : cut_prefix (p ++ 47 ∷ []) (p ++ 47 ∷ s) ≡ some s =
      subst (λ h. cut_prefix (p ++ 47 ∷ []) h ≡ some s) (append_assoc p (47 ∷ []) s)
        (cut_prefix-append (p ++ 47 ∷ []) s) in
    rw (z, c) refl

revert-Lacks : Lacks 47 (bytes "revert")
revert-Lacks = omega arith

not_revert :
    (user rest : Bytes)
    → Lacks 47 user
    → user ≢ bytes "revert"
    → cut_prefix (bytes "revert/") (user ++ 47 ∷ rest) ≡ none
not_revert user rest l v = elim (Option-cases (cut_prefix (bytes "revert/") (user ++ 47 ∷ rest))) [
  | inl e ↦ e
  | inr (t, e) ↦ absurd (v (sym (cut_prefix-segment (bytes "revert") user rest t revert-Lacks l e)))
]

user_of_trimmed :
    (s user rest poster : Bytes)
    → or_whole (cut_prefix (bytes "revert/") s) s ≡ user ++ 47 ∷ rest
    → user ≢ []
    → Lacks 47 user
    → user_of (some s) poster ≡ user
unfolding user_of
user_of_trimmed s user rest poster e n l =
    rw (e, head_segment-append user rest l) (named_own user poster n)

-- Behind a prefix that is not empty, a proposal's branch `<prefix>/<user>/<rest>` is the user's, and so
-- is a revert's, `<prefix>/revert/<user>/<rest>`: for a user that is not empty, has no slash and is
-- not called revert.
pub merge_author_proposer :
    (proposed_prefix user rest poster : Bytes)
    → proposed_prefix ≢ []
    → user ≢ []
    → Lacks 47 user
    → user ≢ bytes "revert"
    → (merge_author (proposed_prefix ++ 47 ∷ (user ++ 47 ∷ rest)) proposed_prefix poster ≡ user)
      × (merge_author
            (proposed_prefix ++ 47 ∷ (bytes "revert/" ++ (user ++ 47 ∷ rest)))
            proposed_prefix
            poster
          ≡ user)
merge_author_proposer proposed_prefix user rest poster p n l v = (
  under_prefix proposed_prefix (user ++ 47 ∷ rest) poster p
      ∙ user_of_trimmed (user ++ 47 ∷ rest) user rest poster
          (rw (not_revert user rest l v) (unfold or_whole in refl)) n l,
  under_prefix proposed_prefix (bytes "revert/" ++ (user ++ 47 ∷ rest)) poster p
      ∙ user_of_trimmed (bytes "revert/" ++ (user ++ 47 ∷ rest)) user rest poster
          (rw (cut_prefix-append (bytes "revert/") (user ++ 47 ∷ rest)) (unfold or_whole in refl)) n
          l,
)
