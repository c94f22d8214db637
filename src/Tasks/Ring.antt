-- ===== src/Tasks/Ring.antt =====
-- What the ring of operations holds.
use dotvirt.Prelude.{
  ltb, Bool-cases, length, take, ℕ, zero, suc, refl, sym, ap, inl, inr, Option, some, List, [],
  arith, if◌then◌else◌, ◌+◌, ◌≤◌, ◌<◌, ◌≡◌, ◌∙◌, ◌∷◌,
}
use dotvirt.Eventbus.{Bus, task_changed, version, publish, u64, same_kind, index}
use dotvirt.Eventbus.Levels.{version-publish, sum-bounded, count}
use dotvirt.Tasks.{Op, Feed, ops_cap, record_op, new_feed}

-- the operations of a list, recorded one after the other
unfoldable pub record_ops : List Op → Feed → Feed
record_ops [] f = f
record_ops (op ∷ ops) f = record_ops ops (record_op op f)

-- the last of the list first
unfoldable pub newest_first : List Op → List Op → List Op
newest_first [] acc = acc
newest_first (op ∷ ops) acc = newest_first ops (op ∷ acc)

take-short : (n : ℕ) (xs : List Op) → length xs ≤ n → take n xs ≡ xs
take-short zero [] h = refl
take-short zero (x ∷ xs) h = absurd (omega arith)
take-short (suc n) [] h = refl
take-short (suc n) (x ∷ xs) h = ap (λ (ys : List Op). x ∷ ys) (take-short n xs (omega arith))

take-take : (n : ℕ) (xs : List Op) → take n (take (suc n) xs) ≡ take n xs
take-take zero xs = refl
take-take (suc n) [] = refl
take-take (suc n) (x ∷ xs) = ap (λ (ys : List Op). x ∷ ys) (take-take n xs)

take-cons_take : (n : ℕ) (op : Op) (xs : List Op) → take n (op ∷ take n xs) ≡ take n (op ∷ xs)
take-cons_take zero op xs = refl
take-cons_take (suc n) op xs = ap (λ (ys : List Op). op ∷ ys) (take-take n xs)

capped : (n : ℕ) (ops : List Op) → (if ltb n (length ops) then take n ops else ops) ≡ take n ops
capped n ops = elim (Bool-cases (ltb n (length ops))) [
  | inl t ↦ rw t refl
  | inr f ↦ rw f (sym (take-short n ops (ground arith)))
]

record_op-ops : (op : Op) (f : Feed) → (record_op op f).ops ≡ take ops_cap (op ∷ f.ops)
unfolding record_op
record_op-ops op f = capped ops_cap (op ∷ f.ops)

latest :
    (ops acc : List Op) (f : Feed)
    → f.ops ≡ take ops_cap acc
    → (record_ops ops f).ops ≡ take ops_cap (newest_first ops acc)
unfolding record_ops newest_first
latest [] acc f h = h
latest (op ∷ ops) acc f h = latest ops (op ∷ acc) (record_op op f) (
    record_op-ops op f
    ∙ ap (λ (xs : List Op). take ops_cap (op ∷ xs)) h
    ∙ take-cons_take ops_cap op acc)

abbrev task_level : Option Bus → ℕ
task_level b = version b (task_changed ∷ [])

record_op-bus : (op : Op) (f : Feed) → (record_op op f).bus ≡ publish task_changed f.bus
unfolding record_op
record_op-bus op f = refl

publish-some : (b : Bus) → (c : Bus) × (publish task_changed (some b) ≡ some c)
unfolding publish
publish-some b = (_, refl)

level-publish :
    (b : Bus) → task_level (publish task_changed (some b)) ≡ u64 (task_level (some b) + 1)
unfolding count same_kind index
level-publish b = version-publish b task_changed (task_changed ∷ [])

level_bounded : (b : Bus) → task_level (some b) < 18446744073709551616
unfolding version
level_bounded b = sum-bounded b.versions (task_changed ∷ []) 0 (omega arith)

counted :
    (ops : List Op) (f : Feed) (b : Bus)
    → f.bus ≡ some b
    → task_level (record_ops ops f).bus ≡ u64 (task_level (some b) + length ops)
unfolding record_ops
counted [] f b h = ap task_level h ∙ omega (arith, level_bounded b)
counted (op ∷ ops) f b h =
    let (c, e) = publish-some b in
    let step : task_level (some c) ≡ u64 (task_level (some b) + 1) =
      ap task_level (sym e) ∙ level-publish b in
    counted ops (record_op op f) c (record_op-bus op f ∙ ap (publish task_changed) h ∙ e)
    ∙ omega (arith, step)

-- However many operations are recorded on a new feed, it holds the last 100 of them, newest first,
-- and each of them has moved the version of the tasks by one.
pub record_ops_latest :
    (bus : Bus) (ops : List Op)
    → ((record_ops ops (new_feed (some bus))).ops ≡ take ops_cap (newest_first ops []))
      × (version (record_ops ops (new_feed (some bus))).bus (task_changed ∷ [])
          ≡ u64 (version (some bus) (task_changed ∷ []) + length ops))
record_ops_latest bus ops = (
  latest ops [] (new_feed (some bus)) (unfold new_feed in refl),
  counted ops (new_feed (some bus)) bus (unfold new_feed in refl),
)
