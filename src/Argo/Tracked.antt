-- ===== src/Argo/Tracked.antt =====
-- Which objects have a drift, and when it carries a message.
use dotvirt.Argo.{as_string, SyncStatus, synced, is_synced, Drift, Fields, Reader, nested_objects}
use dotvirt.Argo.Keys.{ResKey, same_key, same_key_iff, key_of, find_key, set_key, find_key-set_key}
use dotvirt.Argo.Reading.{
  is_named, status_resources, is_refusal, live_drift, add_resources, with_message, merge_result,
  merge_results, merge_sync_messages, drift_from, resource_drift_from_apps,
}
use dotvirt.Prelude.{
  Bool-cases, any, refl, subst, inl, inr, Bool, true, false, Option, none, some, List, [], arith,
  bytes, ◌≡◌, ◌∙◌, ◌↔◌, ◌&&◌, ◌||◌, ◌∷◌,
}

abbrev pub is_some_drift : Option Drift → Bool
is_some_drift none = false
is_some_drift (some d) = true

abbrev has_key : ResKey → List (ResKey × Drift) → Bool
has_key k out = is_some_drift (find_key k out)

-- an entry names the object
abbrev pub is_entry_of : ResKey → Fields → Bool
is_entry_of k res = is_named res && same_key (key_of res) k

-- A message is of an object that is not synced.
abbrev pub Explained : Option Drift → Type 0
Explained none = Unit
Explained (some d) = (d.sync ≡ synced) → d.message ≡ []

-- what a fold keeps of the entry of a key
abbrev Known : ResKey → Bool → List (ResKey × Drift) → Type 0
Known k b out = (has_key k out ≡ b) × Explained (find_key k out)

has_key-set_key :
    (k j : ResKey) (d : Drift) (out : List (ResKey × Drift))
    → has_key k (set_key j d out) ≡ (same_key j k || has_key k out)
has_key-set_key k j d out = rw (find_key-set_key j k d out) (ground arith)

set_key-Known :
    (k j : ResKey) (d : Drift) (b : Bool) (out : List (ResKey × Drift))
    → Explained (some d)
    → Known k b out
    → Known k (same_key j k || b) (set_key j d out)
set_key-Known k j d b out e (p, x) = elim (Bool-cases (same_key j k)) [
  | inl t ↦ rw (find_key-set_key j k d out, t) (refl, e)
  | inr n ↦ rw (find_key-set_key j k d out, n) (p, x)
]

is_synced_iff : (s : SyncStatus) → (is_synced s ≡ true) ↔ (s ≡ synced)
is_synced_iff s = ground arith

module _ (rd : Reader) (k : ResKey) where
  add_resources-Known :
      (rs : List Fields) (b : Bool) (out : List (ResKey × Drift))
      → Known k b out
      → Known k (any (is_entry_of k) rs || b) (add_resources rd rs out)
  unfolding add_resources live_drift
  add_resources-Known [] b out h = h
  add_resources-Known (r ∷ rs) b out h = elim (Bool-cases (is_named r)) [
    | inl t ↦
        let next = set_key-Known k (key_of r) (live_drift rd r) b out (λ s. refl) h in
        let rest = add_resources-Known rs _ _ next in
        rw t (
          subst
            (λ (c : Bool).
              Known k c (add_resources rd rs (set_key (key_of r) (live_drift rd r) out)))
            (ground arith) rest)
    | inr n ↦ rw n (add_resources-Known rs b out h)
  ]

  with_message-Known :
      (res : Fields) (b : Bool) (o : Option Drift) (out : List (ResKey × Drift))
      → find_key (key_of res) out ≡ o
      → Known k b out
      → Known k b (with_message rd res o out)
  unfolding with_message
  with_message-Known res b none out e h = h
  with_message-Known res b (some d) out e h = elim (Bool-cases (is_synced d.sync)) [
    | inl t ↦ rw t h
    | inr n ↦ rw n (
        subst (λ (c : Bool). Known k c (set_key (key_of res) explained out)) stays
          (set_key-Known k (key_of res) explained b out
            (λ q. absurd (cc (n, (is_synced_iff d.sync).1 q))) h))
  ]
    where
      explained : Drift
      explained = record d { message = rd.scrub (as_string res (bytes "message")) }

      -- the key was there
      stays : (same_key (key_of res) k || b) ≡ b
      stays = elim (Bool-cases (same_key (key_of res) k)) [
        | inl u ↦
            let f : find_key k out ≡ some d =
              subst (λ (j : ResKey). find_key j out ≡ some d) ((same_key_iff (key_of res) k).0 u)
                e in
            rw u (rw f at h.0)
        | inr u ↦ rw u refl
      ]

  merge_results-Known :
      (rs : List Fields) (b : Bool) (out : List (ResKey × Drift))
      → Known k b out
      → Known k b (merge_results rd rs out)
  unfolding merge_results merge_result
  merge_results-Known [] b out h = h
  merge_results-Known (r ∷ rs) b out h = elim (Bool-cases (is_refusal r)) [
    | inl t ↦ rw t (merge_results-Known rs b _ (with_message-Known r b _ out refl h))
    | inr n ↦ rw n (merge_results-Known rs b out h)
  ]

  -- some Application lists the object in its live tree
  unfoldable pub is_listed : List Fields → Bool
  is_listed [] = false
  is_listed (app ∷ apps) =
      any (is_entry_of k) (nested_objects rd app status_resources) || is_listed apps

  drift_from-Known :
      (apps : List Fields) (b : Bool) (out : List (ResKey × Drift))
      → Known k b out
      → Known k (is_listed apps || b) (drift_from rd apps out)
  unfolding drift_from merge_sync_messages is_listed
  drift_from-Known [] b out h = h
  drift_from-Known (app ∷ apps) b out h =
      let listed = any (is_entry_of k) (nested_objects rd app status_resources) in
      let next = add_resources-Known (nested_objects rd app status_resources) b out h in
      let merged = merge_results-Known _ _ _ next in
      let rest = drift_from-Known apps _ _ merged in
      subst (λ (c : Bool). Known k c (drift_from rd (app ∷ apps) out)) (ground arith) rest

  -- An object has a drift exactly when some Application lists it in its live tree, so an apply error
  -- alone makes none; and a drift that says Synced carries no message, whatever the applies reported.
  pub resource_drift-exact :
      (apps : List Fields)
      → (is_some_drift (find_key k (resource_drift_from_apps rd apps)) ≡ is_listed apps)
        × ((d : Drift)
            → find_key k (resource_drift_from_apps rd apps) ≡ some d
            → d.sync ≡ synced
            → d.message ≡ [])
  unfolding resource_drift_from_apps find_key
  resource_drift-exact apps =
      let (p, e) = drift_from-Known apps false [] (refl, tt) in
      (p ∙ ground arith, λ d f. subst Explained f e)
