-- ===== src/Tasks.antt =====
-- internal/tasks/tasks.go: the feed of recent tasks, a ring of operations and the merged proposals of
-- each repository. Each method is one step, its lock held, and then a publish on the bus. A time is
-- counted in nanoseconds, and the clock is an argument.
pub mod Ring
pub mod Merges
pub mod Author
use dotvirt.Prelude.{
  ltb, length, take, keep_if, ℕ, Bool, true, not, Option, none, some, List, [], Bytes, bytes,
  bytes_eq, ◌==◌, if◌then◌else◌, ◌-◌, ◌&&◌, ◌∷◌, ◌++◌,
}
use dotvirt.Prelude.Sort.{sort_by}
use dotvirt.Eventbus.{Bus, publish, task_changed}

abbrev pub ops_cap : ℕ
ops_cap = 100

abbrev pub merge_retention : ℕ
merge_retention = 3600000000000

pub record Op : Type 0 where
  pub verb : Bytes
  pub namespace : Bytes
  pub name : Bytes
  pub by : Bytes
  pub ok : Bool
  pub done_at : ℕ

pub record Merge : Type 0 where
  pub repo_url : Bytes
  pub number : ℕ
  pub url : Bytes
  pub title : Bytes
  pub by : Bytes
  pub merged_at : ℕ

-- `byNum`, and the map of them
abbrev pub Numbered : Type 0
Numbered = List (ℕ × Merge)

pub record Feed : Type 0 where
  pub bus : Option Bus
  pub ops : List Op
  pub merges : List (Bytes × Numbered)

unfoldable pub new_feed : Option Bus → Feed
new_feed bus = record { bus = bus; ops = []; merges = [] }

unfoldable pub record_op : Op → Feed → Feed
record_op op f =
    let ops = op ∷ f.ops in
    record f {
      ops = if ltb ops_cap (length ops) then take ops_cap ops else ops;
      bus = publish task_changed f.bus;
    }

-- Go's `==` on the struct
unfoldable pub same_merge : Merge → Merge → Bool
same_merge a b =
    bytes_eq a.repo_url b.repo_url
    && (a.number == b.number
        && (bytes_eq a.url b.url
            && (bytes_eq a.title b.title && (bytes_eq a.by b.by && a.merged_at == b.merged_at))))

unfoldable pub find_number : ℕ → Numbered → Option Merge
find_number n [] = none
find_number n ((i, m) ∷ ms) = if i == n then some m else find_number n ms

unfoldable pub set_number : ℕ → Merge → Numbered → Numbered
set_number n m [] = (n, m) ∷ []
set_number n m ((i, p) ∷ ms) =
    let rest = set_number n m ms in if i == n then (n, m) ∷ ms else (i, p) ∷ rest

-- a nil map reads as an empty one
unfoldable pub find_repo : Bytes → List (Bytes × Numbered) → Numbered
find_repo r [] = []
find_repo r ((q, ns) ∷ m) = if bytes_eq q r then ns else find_repo r m

unfoldable pub set_repo : Bytes → Numbered → List (Bytes × Numbered) → List (Bytes × Numbered)
set_repo r ns [] = (r, ns) ∷ []
set_repo r ns ((q, os) ∷ m) =
    let rest = set_repo r ns m in if bytes_eq q r then (r, ns) ∷ m else (q, os) ∷ rest

unfoldable pub recent : ℕ → Numbered → Numbered
recent cutoff ns = keep_if (λ (p : ℕ × Merge). not (ltb p.1.merged_at cutoff)) ns

unfoldable pub prune_locked : ℕ → List (Bytes × Numbered) → List (Bytes × Numbered)
unfolding recent
prune_locked cutoff [] = []
prune_locked cutoff ((r, ns) ∷ m) =
    let rest = prune_locked cutoff m in
    if length (recent cutoff ns) == 0 then rest else (r, recent cutoff ns) ∷ rest

-- `!seen || prev != m`
unfoldable pub is_changed : Option Merge → Merge → Bool
is_changed none m = true
is_changed (some prev) m = not (same_merge prev m)

unfoldable pub record_merge : ℕ → Merge → Feed → Feed
record_merge now m f =
    let by_num = find_repo m.repo_url f.merges in
    record f {
      merges =
          prune_locked (now - merge_retention)
            (set_repo m.repo_url (set_number m.number m by_num) f.merges);
      bus =
          if is_changed (find_number m.number by_num) m then publish task_changed f.bus else f.bus;
    }

-- `Ops`, a copy
unfoldable pub list_ops : Feed → List Op
list_ops f = f.ops

merges_of : Numbered → List Merge
merges_of [] = []
merges_of ((n, m) ∷ ns) = m ∷ merges_of ns

every_merge : List (Bytes × Numbered) → List Merge
unfolding merges_of
every_merge [] = []
every_merge ((r, ns) ∷ m) = merges_of ns ++ every_merge m

-- `Merges`, newest first; among merges of one time the order is open in the source
unfoldable pub list_merges : Feed → List Merge
unfolding every_merge
list_merges f = sort_by (λ (a b : Merge). ltb b.merged_at a.merged_at) (every_merge f.merges)

-- strings.CutPrefix, strings.TrimPrefix and strings.Cut at a slash
unfoldable pub cut_prefix : Bytes → Bytes → Option Bytes
cut_prefix [] s = some s
cut_prefix (c ∷ p) [] = none
cut_prefix (c ∷ p) (d ∷ s) = let rest = cut_prefix p s in if c == d then rest else none

unfoldable pub or_whole : Option Bytes → Bytes → Bytes
or_whole none s = s
or_whole (some t) s = t

unfoldable pub head_segment : Bytes → Option Bytes
head_segment [] = none
head_segment (c ∷ s) =
    let rest = head_segment s in
    if c == 47 then some [] else elim rest [ none ↦ none | some t ↦ some (c ∷ t) ]

unfoldable pub named_user : Option Bytes → Bytes → Bytes
named_user none poster = poster
named_user (some user) poster = if bytes_eq user [] then poster else user

unfoldable pub user_of : Option Bytes → Bytes → Bytes
user_of none poster = poster
user_of (some rest) poster =
    named_user (head_segment (or_whole (cut_prefix (bytes "revert/") rest) rest)) poster

unfoldable pub merge_author : Bytes → Bytes → Bytes → Bytes
merge_author head_ref proposed_prefix poster =
    if bytes_eq proposed_prefix []
    then poster
    else user_of (cut_prefix (proposed_prefix ++ 47 ∷ []) head_ref) poster
