-- ===== src/Tasks/Merges.antt =====
-- What the merged lane keeps, and when it wakes the subscribers.
use dotvirt.Prelude.{
  ltb, Bool-cases, length, ℕ, refl, ap, inl, inr, true, false, Option, none, some, List, [], arith,
  Bytes, bytes_eq, bytes_eq_iff, ◌==◌, ◌-◌, ◌≤◌, ◌≡◌, ◌∙◌, ◌∷◌,
}
use dotvirt.Tasks.{
  Merge, Numbered, Feed, merge_retention, same_merge, find_number, set_number, find_repo, set_repo,
  recent, prune_locked, is_changed, record_merge,
}

find_number-set : (n : ℕ) (m : Merge) (ns : Numbered) → find_number n (set_number n m ns) ≡ some m
unfolding find_number set_number
find_number-set n m [] = ground arith
find_number-set n m ((i, p) ∷ ns) = ground (arith, find_number-set n m ns)

find_repo-set :
    (r : Bytes) (ns : Numbered) (m : List (Bytes × Numbered)) → find_repo r (set_repo r ns m) ≡ ns
unfolding find_repo set_repo
find_repo-set r ns [] = rw ((bytes_eq_iff r r).1 refl) refl
find_repo-set r ns ((q, os) ∷ m) = elim (Bool-cases (bytes_eq q r)) [
  | inl t ↦ rw t (rw ((bytes_eq_iff r r).1 refl) refl)
  | inr f ↦ rw f (rw f (find_repo-set r ns m))
]

find_number-recent :
    (cutoff n : ℕ) (m : Merge) (ns : Numbered)
    → cutoff ≤ m.merged_at
    → find_number n ns ≡ some m
    → find_number n (recent cutoff ns) ≡ some m
unfolding find_number recent
find_number-recent cutoff n m [] l h = h
find_number-recent cutoff n m ((i, p) ∷ ns) l h = elim (Bool-cases (i == n)) [
  | inl t ↦
      let e : some p ≡ some m = rw t at h in
      let w : p.merged_at ≡ m.merged_at =
        ap (λ (o : Option Merge). elim o [ none ↦ 0 | some x ↦ x.merged_at ]) e in
      let q : ltb p.merged_at cutoff ≡ false = ground arith in rw (q, t) e
  | inr f ↦
      let k : find_number n ns ≡ some m = rw f at h in
      elim (Bool-cases (ltb p.merged_at cutoff)) [
        | inl z ↦ rw z (find_number-recent cutoff n m ns l k)
        | inr z ↦ rw (z, f) (find_number-recent cutoff n m ns l k)
      ]
]

same_merge_refl : (m : Merge) → same_merge m m ≡ true
unfolding same_merge
same_merge_refl m = ground (
  arith,
  bytes_eq_iff m.repo_url m.repo_url,
  bytes_eq_iff m.url m.url,
  bytes_eq_iff m.title m.title,
  bytes_eq_iff m.by m.by,
)

not_empty :
    (n : ℕ) (m : Merge) (ns : Numbered) → find_number n ns ≡ some m → (length ns == 0) ≡ false
unfolding find_number
not_empty n m [] h = cc h
not_empty n m (p ∷ ns) h = ground arith

find-prune :
    (cutoff n : ℕ) (r : Bytes) (m : Merge) (ms : List (Bytes × Numbered))
    → cutoff ≤ m.merged_at
    → find_number n (find_repo r ms) ≡ some m
    → find_number n (find_repo r (prune_locked cutoff ms)) ≡ some m
unfolding find_repo prune_locked
find-prune cutoff n r m [] l h = h
find-prune cutoff n r m ((q, ns) ∷ ms) l h = elim (Bool-cases (bytes_eq q r)) [
  | inl t ↦
      let k : find_number n ns ≡ some m = rw t at h in
      let x = find_number-recent cutoff n m ns l k in rw (not_empty n m (recent cutoff ns) x, t) x
  | inr f ↦
      let k : find_number n (find_repo r ms) ≡ some m = rw f at h in
      elim (Bool-cases (length (recent cutoff ns) == 0)) [
        | inl z ↦ rw z (find-prune cutoff n r m ms l k)
        | inr z ↦ rw (z, f) (find-prune cutoff n r m ms l k)
      ]
]

quiet :
    (later : ℕ) (m : Merge) (g : Feed)
    → find_number m.number (find_repo m.repo_url g.merges) ≡ some m
    → (record_merge later m g).bus ≡ g.bus
unfolding record_merge is_changed
quiet later m g h = rw (h, same_merge_refl m) refl

held :
    (now : ℕ) (m : Merge) (f : Feed)
    → now - merge_retention ≤ m.merged_at
    → find_number m.number (find_repo m.repo_url (record_merge now m f).merges) ≡ some m
unfolding record_merge
held now m f l =
    find-prune (now - merge_retention) m.number m.repo_url m _ l (
      ap (find_number m.number) (find_repo-set m.repo_url _ f.merges)
      ∙ find_number-set m.number m _)

-- A merge that is within the retention when it is recorded is in the feed afterwards, and to record it
-- once more, at any time, wakes no one.
pub record_merge_repeat :
    (now later : ℕ) (m : Merge) (f : Feed)
    → now - merge_retention ≤ m.merged_at
    → (find_number m.number (find_repo m.repo_url (record_merge now m f).merges) ≡ some m)
      × ((record_merge later m (record_merge now m f)).bus ≡ (record_merge now m f).bus)
record_merge_repeat now later m f l =
    (held now m f l, quiet later m (record_merge now m f) (held now m f l))
