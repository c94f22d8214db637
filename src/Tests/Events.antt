-- ===== src/Tests/Events.antt =====
-- Runs of the event bus.
use dotvirt.Prelude.{refl, true, false, List, [], ◌≡◌, ◌∷◌}
use dotvirt.Eventbus.{
  Kind, vm_spec_changed, task_changed, listens, same_kind, bump, notify, sum_versions,
}
use dotvirt.Eventbus.Wakeup.{
  System, bumps, wakes, takes, reads, Reach, here, and_then, level, Announced, no_lost_wakeup,
}

abbrev watched : List Kind
watched = vm_spec_changed ∷ task_changed ∷ []

abbrev idle : System
idle = record {
  versions = λ k. 0;
  waking = [];
  consumer = record {
    sub = record { id = 0; kinds = watched; pending = false };
    awake = false;
    seen = 0;
  };
}

up_to_date : level idle ≡ idle.consumer.seen
unfolding sum_versions
up_to_date = refl

abbrev bumped : System
bumped = record idle { versions = bump idle.versions task_changed; waking = task_changed ∷ [] }

no_lost_wakeup_example : Announced bumped
no_lost_wakeup_example = no_lost_wakeup up_to_date (and_then here (bumps idle task_changed))

-- a publish, seen by the consumer
abbrev woken : System
woken = record bumped {
  waking = [];
  consumer = record bumped.consumer { sub = notify task_changed bumped.consumer.sub };
}

abbrev running : System
running = record woken {
  consumer = record woken.consumer {
    sub = record woken.consumer.sub { pending = false };
    awake = true;
  };
}

abbrev done : System
done = record running { consumer = record running.consumer { awake = false; seen = level running } }

woken_pending : woken.consumer.sub.pending ≡ true
unfolding notify listens same_kind
woken_pending = refl

run : Reach idle done
run =
    and_then
      (and_then
        (and_then (and_then here (bumps idle task_changed)) (wakes bumped task_changed [] [] refl))
        (takes woken woken_pending))
      (reads running refl)
