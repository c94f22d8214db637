-- ===== src/Tests/Feeds.antt =====
-- Runs of the feed of recent tasks.
use dotvirt.Prelude.{length, take, true, some, List, [], bytes, ◌+◌, ◌≡◌, ◌∷◌}
use dotvirt.Eventbus.{new, task_changed, version, u64}
use dotvirt.Tasks.{Op, Merge, Feed, new_feed, ops_cap}
use dotvirt.Tasks.Ring.{record_ops, newest_first, record_ops_latest}

abbrev restart : Op
restart = record {
  verb = (bytes "restart");
  namespace = (bytes "shop");
  name = (bytes "web");
  by = (bytes "ann");
  ok = true;
  done_at = 7;
}

abbrev ran : List Op
ran = restart ∷ record restart { verb = (bytes "migrate") } ∷ []

record_ops_latest_example :
    ((record_ops ran (new_feed (some new))).ops ≡ take ops_cap (newest_first ran []))
    × (version (record_ops ran (new_feed (some new))).bus (task_changed ∷ [])
        ≡ u64 (version (some new) (task_changed ∷ []) + length ran))
record_ops_latest_example = record_ops_latest new ran

abbrev merged : Merge
merged = record {
  repo_url = (bytes "https://git/shop");
  number = 3;
  url = (bytes "https://git/shop/3");
  title = (bytes "more memory");
  by = (bytes "ann");
  merged_at = 5;
}

abbrev empty_feed : Feed
empty_feed = new_feed (some new)
