-- ===== src/Bus/Tests.antt =====
-- The bus with one subscriber of two types of events.
use wosm.Base.{List, true, [], ◌∷◌, none, some, ◌≡◌, refl, inl, string_eq}
use wosm.Base.Platform.{by_length}
use wosm.Contracts.Events.{observer_started, project_updated, worktree_removed}
use wosm.Bus.{EventFilter, Subscriber, BusStep, publish, ask, resumed, bus_run}
use wosm.Bus.Received.{Follows, published, nth}
use wosm.Bus.Run.{bus_run-Follows}

abbrev of_rows : EventFilter
of_rows = record {
  types = some ("worktree.removed" ∷ "project.updated" ∷ []);
  command_id = none;
  trace_id = none;
  since = none;
}

abbrev listener : Subscriber
listener = record {
  filter = some of_rows;
  queue = [];
  waiting = 0;
  taken = [];
  answers = [];
  active = true;
}

abbrev steps : List BusStep
steps =
    ask 0
    ∷ publish (observer_started "t")
    ∷ publish (project_updated "p")
    ∷ publish (worktree_removed "w")
    ∷ resumed 0
    ∷ []

-- The first event that matches answers what was asked, and the second one waits.
listener_answered :
    bus_run by_length (listener ∷ []) steps
    ≡ record listener {
      queue = worktree_removed "w" ∷ [];
      answers = some (project_updated "p") ∷ [];
    }
      ∷ []
unfolding bus_run
listener_answered = refl

bus_run-Follows_example :
    (t : Subscriber) × (nth 0 (bus_run by_length (listener ∷ []) steps) ≡ some t)
    × Follows by_length listener (published steps) t
bus_run-Follows_example = bus_run-Follows by_length steps (listener ∷ []) 0 listener refl (inl refl)
