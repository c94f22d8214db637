-- ===== src/Tests/Frames.antt =====
-- Runs of the live stream: one identity that sees one repository.
use dotvirt.Prelude.Maps.{lookup, insert, without}
use dotvirt.Stream.World.{
  Part, unscoped, repo, World, raise, Reach, here, and_then, writes, counts, stamps, Ordered, Quiet,
}
use dotvirt.Stream.Counters.{counter_stamp, counter_levels}
use dotvirt.Stream.Fresh.{DepsNamed, RunsFrom}
use dotvirt.Stream.Settle.{built_now}
use dotvirt.Stream.Live.{Runs, starts, joins, moves, passes, current-IsInventory}
use dotvirt.Stream.Repos.{repo_levels, total, stamp, stamp-publish_key}
use dotvirt.Stream.{
  Hub, add, new_conn, new_hub, keys_eq, kept, with_bytes, marshalled, built, build, store_frame,
  rebuild, current, serve, reconcile_one, reconcile_keys, connected, pruned, reconcile,
}
use dotvirt.Eventbus.{Kind, git_changed, live_changed, new, publish_key, listens}
use dotvirt.Prelude.{
  any, ℕ, refl, false, Option, some, List, [], arith, Bytes, bytes, bytes_eq, ◌≡◌, ◌↔◌, ◌∷◌,
}

abbrev shop : Bytes
shop = bytes "git/shop"

-- an inventory names what was written, and the identity
abbrev deps_shop : Bytes → List Bytes
deps_shop inv = shop ∷ []

abbrev marshal_all : Bytes → Option Bytes
marshal_all inv = some inv

abbrev view_shop : Bytes → (Part → ℕ) → Bytes
view_shop key f = f unscoped ∷ f (repo shop) ∷ key

deps_shop-DepsNamed : DepsNamed deps_shop marshal_all view_shop
deps_shop-DepsNamed key f g (a, b) = cc (a, b)

abbrev origin : World
origin = record { written = λ p. 0; counted = λ p. 0; stamped = λ p. 0; total = 0 }

-- a push to the repository, published
abbrev pushed : World
pushed = record {
  written = raise (repo shop) origin.written;
  counted = raise (repo shop) origin.counted;
  stamped = raise (repo shop) origin.stamped;
  total = 1;
}

origin-Ordered : Ordered origin
origin-Ordered p = (omega arith, omega arith)

origin-pushed : Reach origin pushed
unfolding raise bytes_eq
origin-pushed =
    and_then
      (and_then (and_then here (writes origin (repo shop))) (
        counts (record origin { written = raise (repo shop) origin.written }) (repo shop)
          (omega arith)))
      (stamps (record pushed { stamped = origin.stamped }) (repo shop) (omega arith))

pushed-Quiet : Quiet pushed
pushed-Quiet p = refl

-- one tab
abbrev one_conn : Hub
one_conn = add (new_conn (bytes "ann")) new_hub

one_conn-Runs : Runs deps_shop marshal_all view_shop origin origin one_conn
one_conn-Runs = joins starts (bytes "ann")

pushed-RunsFrom :
    RunsFrom deps_shop marshal_all view_shop pushed pushed
      (built_now deps_shop marshal_all view_shop pushed)
pushed-RunsFrom key =
    ((here, here, here, here), (pushed.written, λ p. (omega arith, omega arith), λ inv e. cc e))

abbrev once : Hub
once =
    reconcile (counter_levels deps_shop) marshal_all (λ k. pushed)
      (built_now deps_shop marshal_all view_shop pushed) one_conn

once-Runs : Runs deps_shop marshal_all view_shop origin pushed once
once-Runs = passes (moves one_conn-Runs origin-pushed) (λ k. pushed) _ here pushed-RunsFrom

current-IsInventory_example :
    marshal_all (view_shop (bytes "ann") pushed.written) ≡ some (0 ∷ 1 ∷ bytes "ann")
unfolding add new_conn raise bytes_eq current reconcile connected pruned reconcile_keys
    reconcile_one serve rebuild build built marshalled with_bytes kept keys_eq counter_stamp
    store_frame lookup insert without
current-IsInventory_example =
    current-IsInventory deps_shop marshal_all view_shop deps_shop-DepsNamed origin-Ordered once-Runs
      pushed-Quiet (bytes "ann") (0 ∷ 1 ∷ bytes "ann") refl

abbrev both_kinds : List Kind
both_kinds = git_changed ∷ live_changed ∷ []

stamp-publish_key_example :
    ((stamp
          (repo_levels (publish_key git_changed shop (some new)) git_changed both_kinds)
          (shop ∷ [])
        ≡ stamp (repo_levels (some new) git_changed both_kinds) (shop ∷ []))
      ↔ (any (bytes_eq shop) (shop ∷ []) ≡ false))
    × ((total (repo_levels (publish_key git_changed shop (some new)) git_changed both_kinds)
          ≡ total (repo_levels (some new) git_changed both_kinds))
        ↔ (listens git_changed both_kinds ≡ false))
stamp-publish_key_example =
    stamp-publish_key new git_changed both_kinds shop (shop ∷ []) (omega arith) (omega arith)
