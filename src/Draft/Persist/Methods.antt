-- ===== src/Draft/Persist/Methods.antt =====
-- Each method of the store keeps its invariant.
use dotvirt.Prelude.{Bool-cases, sym, inl, inr, false, Bytes, bytes_eq, ◌≡◌, ◌∙◌}
use dotvirt.Prelude.Maps.{without, lookup-without}
use dotvirt.Draft.Entries.{Entry, is_stale, Draft, Resource, entry_key}
use dotvirt.Draft.Codec.{Json}
use dotvirt.Draft.Disk.{Faults}
use dotvirt.Draft.Store.{
  Store, Result, ok, err, pair_key, stage, unstage, clear, list, change, after_load, listed,
}
use dotvirt.Draft.Persist.{WellKeyed, WellKeyed-insert, WellKeyed-without}
use dotvirt.Draft.Persist.Restart.{IsValid, Loads, remember-IsValid, load-Loads}

module _ {Edit : Type 0} (json : Json Edit) where
  change-IsValid :
      (f : Faults) (user project : Bytes) (d : Draft Edit) (s : Store Edit)
      → WellKeyed d
      → IsValid s
      → IsValid (change json f user project d s).1
  unfolding change
  change-IsValid f user project d s w v = remember-IsValid (pair_key user project) d s w v

  after_load-IsValid :
      (f : Faults) (user project : Bytes) (edit : Draft Edit → Draft Edit) (s : Store Edit)
      (r : Result (Draft Edit) × Store Edit)
      → ((d : Draft Edit) → WellKeyed d → WellKeyed (edit d))
      → Loads json s r
      → IsValid (after_load json edit f user project r).1
  unfolding after_load
  after_load-IsValid f user project edit s (err x, t) keep l = l
  after_load-IsValid f user project edit s (ok d, t) keep l =
      change-IsValid f user project (edit d) t (keep d l.0) l.1

  forget-IsValid :
      (k : Bytes) (s : Store Edit) → IsValid s → IsValid (record s { drafts = without k s.drafts })
  forget-IsValid k s v j c h = elim (Bool-cases (bytes_eq k j)) [
    | inl t ↦ cc (h, rw t at (lookup-without k j s.drafts))
    | inr f ↦ v j c (sym (rw f at (lookup-without k j s.drafts)) ∙ h)
  ]

  listed-IsValid :
      (s : Store Edit) (r : Result (Draft Edit) × Store Edit)
      → Loads json s r
      → IsValid (listed json r).1
  unfolding listed
  listed-IsValid s (err x, t) l = l
  listed-IsValid s (ok d, t) l = l.1

  -- From a store whose drafts in memory are well keyed, every method (staging a create with an empty
  -- manifest aside) keeps them so, whether or not it fails: each entry stands under its own key,
  -- once, and none is a create with an empty manifest.
  pub methods-IsValid :
      (f : Faults) (user project namespace name : Bytes) (r : Resource) (e : Entry Edit)
      (s : Store Edit)
      → IsValid s
      → is_stale e ≡ false
      → IsValid (stage json f user project e s).1
        × IsValid (unstage json f user project r namespace name s).1
        × IsValid (clear json f user project s).1
        × IsValid (list json f user project s).1
  unfolding stage unstage clear list
  methods-IsValid f user project namespace name r e s v n = (
    after_load-IsValid f user project _ s _ (λ d w. WellKeyed-insert e d n w)
        (load-Loads json f user project s v),
    after_load-IsValid f user project _ s _
        (λ d w. WellKeyed-without (entry_key r namespace name) d w)
        (load-Loads json f user project s v),
    forget-IsValid (pair_key user project) s v,
    listed-IsValid s _ (load-Loads json f user project s v),
  )
