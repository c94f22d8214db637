-- ===== src/Draft/Persist/Restart.antt =====
-- A staged change survives a restart: the draft is read back from the file as it was in memory.
use dotvirt.Prelude.{
  Bool-cases, Option-cases, sym, inl, inr, false, Option, none, some, List, [], Elem, Bytes,
  bytes_eq, ◌≡◌, ◌∙◌, ◌∷◌,
}
use dotvirt.Prelude.Maps.{lookup, insert, lookup-insert}
use dotvirt.Draft.Entries.{values, Entry, key, Draft, sorted_entries}
use dotvirt.Draft.Codec.{Json, Lossless, marshal, unmarshal}
use dotvirt.Draft.Persist.Tags.{EntryKept}
use dotvirt.Draft.Disk.{Disk, Faults, path}
use dotvirt.Draft.Store.{
  load_parsed, Store, Result, ok, err, pair_key, open_store, remember, quarantine, load_contents,
  load_locked, loaded, load_file,
}
use dotvirt.Draft.Persist.{WellKeyed, WellKeyed-index_entries}

-- no call of the operating system fails
abbrev pub no_faults : Faults
no_faults = record {
  read_fails = λ p. false;
  rename_fails = λ p. false;
  remove_fails = λ p. false;
  mkdir_fails = λ p. false;
  write_fails = λ p. false;
}

module _ {Edit : Type 0} where
  -- Every draft in memory is well keyed.
  abbrev pub IsValid : Store Edit → Type 0
  IsValid s = (k : Bytes) (d : Draft Edit) → lookup k s.drafts ≡ some d → WellKeyed d

  pub remember-IsValid :
      (k : Bytes) (d : Draft Edit) (s : Store Edit)
      → WellKeyed d
      → IsValid s
      → IsValid (record s { drafts = insert k d s.drafts })
  remember-IsValid k d s w v j c h = elim (Bool-cases (bytes_eq k j)) [
    | inl t ↦ let e : d ≡ c = cc (h, rw t at (lookup-insert k j d s.drafts)) in rw (← e) w
    | inr f ↦ v j c (sym (rw f at (lookup-insert k j d s.drafts)) ∙ h)
  ]

module _ {Edit : Type 0} (json : Json Edit) where
  -- the file of a draft: none for an empty one
  abbrev file_of : Draft Edit → Option Bytes
  file_of [] = none
  file_of (kv ∷ d) = some (marshal json (sorted_entries (kv ∷ d)))

  -- A load that succeeds: the draft is well keyed, and the store keeps its invariant.
  abbrev pub Loads : Store Edit → Result (Draft Edit) × Store Edit → Type 0
  Loads s (err e, s') = IsValid s'
  Loads s (ok d, s') = WellKeyed d × IsValid s'

  parsed-Loads :
      (f : Faults) (k p : Bytes) (o : Option (List (Entry Edit))) (s : Store Edit)
      → IsValid s
      → Loads s (load_parsed json f k p o s)
  unfolding load_parsed quarantine remember
  parsed-Loads f k p none s v = elim (Bool-cases (f.rename_fails p)) [
    | inl t ↦ rw t v
    | inr e ↦ rw e (tt, remember-IsValid k [] s tt v)
  ]
  parsed-Loads f k p (some es) s v =
      let w = WellKeyed-index_entries es [] tt in (w, remember-IsValid k _ s w v)

  contents-Loads :
      (f : Faults) (k p : Bytes) (c : Option Bytes) (s : Store Edit)
      → IsValid s
      → Loads s (load_contents json f k p c s)
  unfolding load_contents remember
  contents-Loads f k p none s v = (tt, remember-IsValid k [] s tt v)
  contents-Loads f k p (some b) s v = parsed-Loads f k p (unmarshal json b) s v

  pub load-Loads :
      (f : Faults) (user project : Bytes) (s : Store Edit)
      → IsValid s
      → Loads s (load_locked json f user project s)
  unfolding load_locked loaded load_file
  load-Loads f user project s v = elim (Option-cases (lookup (pair_key user project) s.drafts)) [
    | inl e ↦ rw e (elim (Bool-cases (f.read_fails (path s.dir user project))) [
      | inl t ↦ rw t v
      | inr n ↦ rw n (contents-Loads f (pair_key user project) (path s.dir user project) _ s v)
    ])
    | inr (d, e) ↦ rw e (v (pair_key user project) d e, v)
  ]

  -- Every entry of the draft is one that a file keeps.
  abbrev pub Kept : Draft Edit → Type 0
  Kept d = (e : Entry Edit) → Elem e (values d) → EntryKept json e

  module _ (law : Lossless json) where
    -- The draft in memory, the draft that a fresh store reads, and that they hold the same entries.
    abbrev pub SurvivesRestart : Bytes → Bytes → Entry Edit → Store Edit → Type 0
    SurvivesRestart user project e s =
        (d d' : Draft Edit) × (lookup (pair_key user project) s.drafts ≡ some d)
        × ((load_locked json no_faults user project (open_store s.dir s.disk)).0 ≡ ok d')
        × ((k : Bytes) → lookup k d' ≡ lookup k d)
        × (lookup (key e) d' ≡ some e)
