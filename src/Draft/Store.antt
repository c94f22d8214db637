-- ===== src/Draft/Store.antt =====
-- internal/draft/draft.go, `Store`: each method holds the store's lock, so it is one step on the
-- drafts in memory and the files. An error leaves what was done before it.
use dotvirt.Prelude.{
  Bool, true, false, not, Option, none, some, List, [], Bytes, bytes, if◌then◌else◌, ◌∷◌, ◌++◌,
}
use dotvirt.Prelude.Maps.{lookup, insert, without}
use dotvirt.Draft.Entries.{Entry, Resource, entry_key, key, Draft, sorted_entries, index_entries}
use dotvirt.Draft.Codec.{Json, marshal, unmarshal}
use dotvirt.Draft.Disk.{
  Disk, Faults, Error, read_error, quarantine_error, remove_error, mkdir_error, write_error,
  rename_error, put, rename, path,
}

-- the byte between the user and the project
unfoldable pub pair_key : Bytes → Bytes → Bytes
pair_key user project = user ++ 0 ∷ project

pub record Store (Edit : Type 0) : Type 0 where
  pub dir : Bytes
  pub drafts : List (Bytes × Draft Edit)
  pub disk : Disk

pub data Result (A : Type 0) : Type 0 where
  ok : A → Result A
  err : Error → Result A

module _ {Edit : Type 0} where
  unfoldable pub open_store : Bytes → Disk → Store Edit
  open_store dir disk = record { dir = dir; drafts = []; disk = disk }

  -- `s.drafts[pk] = d`
  unfoldable pub remember : Bytes → Draft Edit → Store Edit → Result (Draft Edit) × Store Edit
  remember pk d s = (ok d, record s { drafts = insert pk d s.drafts })

  -- A file that does not parse is moved out of the way.
  unfoldable pub quarantine : Faults → Bytes → Bytes → Store Edit → Result (Draft Edit) × Store Edit
  quarantine f pk p s =
      if f.rename_fails p
      then (err quarantine_error, s)
      else remember pk [] (record s { disk = rename p (p ++ bytes ".corrupt") s.disk })

module _ {Edit : Type 0} (json : Json Edit) where
  -- what json.Unmarshal makes of the file
  unfoldable pub load_parsed :
      Faults
      → Bytes
      → Bytes
      → Option (List (Entry Edit))
      → Store Edit
      → Result (Draft Edit) × Store Edit
  load_parsed f pk p none s = quarantine f pk p s
  load_parsed f pk p (some es) s = remember pk (index_entries es []) s

  unfoldable pub load_contents :
      Faults → Bytes → Bytes → Option Bytes → Store Edit → Result (Draft Edit) × Store Edit
  load_contents f pk p none s = remember pk [] s
  load_contents f pk p (some b) s = load_parsed f pk p (unmarshal json b) s

  unfoldable pub load_file : Faults → Bytes → Bytes → Store Edit → Result (Draft Edit) × Store Edit
  load_file f pk p s =
      if f.read_fails p then (err read_error, s) else load_contents f pk p (s.disk.file p) s

  unfoldable pub loaded :
      Option (Draft Edit) → Faults → Bytes → Bytes → Store Edit → Result (Draft Edit) × Store Edit
  loaded (some d) f pk p s = (ok d, s)
  loaded none f pk p s = load_file f pk p s

  unfoldable pub load_locked :
      Faults → Bytes → Bytes → Store Edit → Result (Draft Edit) × Store Edit
  load_locked f user project s =
      loaded (lookup (pair_key user project) s.drafts) f (pair_key user project)
        (path s.dir user project) s

  unfoldable pub exists : Option Bytes → Bool
  exists none = false
  exists (some c) = true

  -- An empty draft has no file; another is written beside the file and renamed over it.
  unfoldable pub persist : Faults → Bytes → Draft Edit → Disk → Option Error × Disk
  persist f p [] disk =
      if not (exists (disk.file p))
      then (none, disk)
      else if f.remove_fails p
      then (some remove_error, disk)
      else (none, put p none disk)
  persist f p (kv ∷ d) disk =
      if f.mkdir_fails p
      then (some mkdir_error, disk)
      else if f.write_fails (p ++ bytes ".tmp")
      then (some write_error, disk)
      else (let written =
            put (p ++ bytes ".tmp") (some (marshal json (sorted_entries (kv ∷ d)))) disk in
          if f.rename_fails (p ++ bytes ".tmp")
          then (some rename_error, written)
          else (none, rename (p ++ bytes ".tmp") p written))

  -- the map is shared, so a change is in memory before it is on disk
  unfoldable pub change :
      Faults → Bytes → Bytes → Draft Edit → Store Edit → Option Error × Store Edit
  change f user project d s =
      let written = persist f (path s.dir user project) d s.disk in
      (written.0, record s { drafts = insert (pair_key user project) d s.drafts; disk = written.1 })

  unfoldable pub after_load :
      (Draft Edit → Draft Edit)
      → Faults
      → Bytes
      → Bytes
      → Result (Draft Edit) × Store Edit
      → Option Error × Store Edit
  after_load edit f user project (err e, s) = (some e, s)
  after_load edit f user project (ok d, s) = change f user project (edit d) s

  unfoldable pub stage :
      Faults → Bytes → Bytes → Entry Edit → Store Edit → Option Error × Store Edit
  stage f user project e s =
      after_load (insert (key e) e) f user project (load_locked f user project s)

  unfoldable pub unstage :
      Faults → Bytes → Bytes → Resource → Bytes → Bytes → Store Edit → Option Error × Store Edit
  unstage f user project resource namespace name s =
      after_load (without (entry_key resource namespace name)) f user project
        (load_locked f user project s)

  unfoldable pub clear : Faults → Bytes → Bytes → Store Edit → Option Error × Store Edit
  clear f user project s =
      let written = persist f (path s.dir user project) [] s.disk in
      (written.0, record s { drafts = without (pair_key user project) s.drafts; disk = written.1 })

  unfoldable pub listed : Result (Draft Edit) × Store Edit → Result (List (Entry Edit)) × Store Edit
  listed (err e, s) = (err e, s)
  listed (ok d, s) = (ok (sorted_entries d), s)

  unfoldable pub list :
      Faults → Bytes → Bytes → Store Edit → Result (List (Entry Edit)) × Store Edit
  list f user project s = listed (load_locked f user project s)
