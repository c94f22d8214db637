-- ===== src/Tests/Drafts.antt =====
-- Runs of the draft store.
use dotvirt.Prelude.{
  refl, true, false, none, [], arith, Bytes, bytes, bytes_eq, Lacks, ◌≡◌, ◌≢◌, ◌⊎◌, ◌∷◌,
}
use dotvirt.Prelude.Maps.{lookup}
use dotvirt.Draft.Entries.{Draft, create_change, Entry, resource_vm, entry_key, is_stale, slash}
use dotvirt.Tests.Objects.{toy_json}
use dotvirt.Draft.Disk.{Disk, safe_segment}
use dotvirt.Draft.Store.{Store, open_store, stage, unstage, clear, list}
use dotvirt.Draft.Keys.{is_vm, Plain, entry_key_injective, safe_segment_stays}
use dotvirt.Draft.Persist.Restart.{IsValid, no_faults}
use dotvirt.Draft.Persist.Methods.{methods-IsValid}

abbrev empty_disk : Disk
empty_disk = record { file = λ p. none }

abbrev fresh : Store Bytes
fresh = open_store (bytes "/data") empty_disk

abbrev vm_create : Entry Bytes
vm_create = record {
  kind = create_change;
  resource = resource_vm;
  namespace = bytes "shop";
  name = bytes "web";
  source_file = bytes "";
  edit = none;
  manifest = bytes "kind: VirtualMachine";
  from_wizard = false;
  from_template = bytes "";
  from_version = bytes "";
}

fresh-IsValid : IsValid fresh
unfolding open_store lookup
fresh-IsValid k d h = cc h

abbrev user : Bytes
user = bytes "ann"

abbrev project : Bytes
project = bytes "shop/web"

abbrev staged : Store Bytes
staged = (stage toy_json no_faults user project vm_create fresh).1

kept : is_stale vm_create ≡ false
unfolding is_stale bytes_eq
kept = refl

abbrev draft : Draft Bytes
draft = (entry_key resource_vm (bytes "shop") (bytes "web"), vm_create) ∷ []

methods-IsValid_example :
    IsValid (stage toy_json no_faults user project vm_create fresh).1
    × IsValid
        (unstage toy_json no_faults user project resource_vm (bytes "shop") (bytes "web") fresh).1
    × IsValid (clear toy_json no_faults user project fresh).1
    × IsValid (list toy_json no_faults user project fresh).1
methods-IsValid_example =
    methods-IsValid toy_json no_faults user project (bytes "shop") (bytes "web") resource_vm
      vm_create fresh fresh-IsValid kept

vm-Plain : Plain (bytes "vm")
vm-Plain = omega arith

shop-Plain : Plain (bytes "shop")
shop-Plain = omega arith

one_key :
    entry_key (bytes "") (bytes "shop") (bytes "web")
    ≡ entry_key resource_vm (bytes "shop") (bytes "web")
unfolding entry_key bytes_eq
one_key = refl

entry_key_injective_example :
    (bytes "shop" ≡ bytes "shop")
    × (bytes "web" ≡ bytes "web")
    × ((bytes "" ≡ resource_vm) ⊎ ((is_vm (bytes "") ≡ true) × (is_vm resource_vm ≡ true)))
entry_key_injective_example =
    entry_key_injective (bytes "") resource_vm (bytes "shop") (bytes "shop") (bytes "web")
      (bytes "web") (tt, tt) vm-Plain shop-Plain shop-Plain one_key

safe_segment_stays_example :
    Lacks slash (safe_segment (bytes ".."))
    × (safe_segment (bytes "..") ≢ bytes ".")
    × (safe_segment (bytes "..") ≢ bytes "..")
safe_segment_stays_example = safe_segment_stays (bytes "..")
