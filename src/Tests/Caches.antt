-- ===== src/Tests/Caches.antt =====
-- Runs of the cache.
use dotvirt.Prelude.{ltb, ℕ, none, some, arith, bytes, bytes_eq, if◌then◌else◌, ◌-◌, ◌≡◌}
use dotvirt.Prelude.Maps.{Single}
use dotvirt.Ttlcache.{Cache, new_cache, put_entry, get}
use dotvirt.Ttlcache.Window.{get-put_entry, put_entry-Alive}

abbrev one_minute : Cache ℕ
one_minute = new_cache 60

abbrev held : Cache ℕ
held = put_entry 5 (bytes "ann") 1 one_minute

held-Single : Single held.entries
unfolding new_cache
held-Single = (put_entry-Alive 5 (bytes "ann") 1 one_minute tt (omega arith)).0

get-put_entry_example : get 40 (bytes "ann") (put_entry 30 (bytes "bob") 2 held) ≡ (
    if bytes_eq (bytes "bob") (bytes "ann")
    then (if ltb (40 - 30) held.ttl then some 2 else none)
    else get 40 (bytes "ann") held)
get-put_entry_example =
    get-put_entry 30 40 (bytes "bob") (bytes "ann") 2 held held-Single (omega arith)
