-- ===== src/Bus.antt =====
-- apps/observer/src/runtime/eventBus.ts: the observer's events, and the queues of those that subscribed.
-- A subscriber stays in the model when it has returned, with `active` false, where the code takes it out
-- of its set. A take of its queue that has an event is in `taken` until its code goes on.
pub mod Received
pub mod Run
mod Tests
use wosm.Base.{
  ℕ, zero, suc, ◌+◌, ◌-◌, String, Bool, true, false, not, ◌&&◌, ◌||◌, List, [], ◌∷◌, ◌++◌, map,
  Option, none, some, contains, ◌==◌, string_eq, if◌then◌else◌, leb,
}
use wosm.Base.Platform.{Platform}
use wosm.Contracts.Events

pub record WosmEventMetadata : Type 0 where
  pub command_id : Option String
  pub trace_id : Option String
  pub timestamp : Option String

-- `filter.type`, of which a single one is a list too.
pub record EventFilter : Type 0 where
  pub types : Option (List String)
  pub command_id : Option String
  pub trace_id : Option String
  pub since : Option String

abbrev pub no_metadata : WosmEventMetadata
no_metadata = record { command_id = none; trace_id = none; timestamp = none }

abbrev pub of_command : String → Option String → WosmEventMetadata
of_command id trace = record { command_id = some id; trace_id = trace; timestamp = none }

abbrev pub at_time : String → Option String → WosmEventMetadata
at_time at trace = record { command_id = none; trace_id = trace; timestamp = some at }

unfoldable pub wosm_event_metadata : Events.WosmEvent → WosmEventMetadata
wosm_event_metadata (Events.command_accepted id command d) = of_command id d.trace_id
wosm_event_metadata (Events.command_started id command d) = of_command id d.trace_id
wosm_event_metadata (Events.command_succeeded id d) = of_command id d.trace_id
wosm_event_metadata (Events.command_failed id error d) = of_command id d.trace_id
wosm_event_metadata (Events.observer_reconciled at changed d) = at_time at d.trace_id
wosm_event_metadata (Events.observer_started at) = at_time at none
wosm_event_metadata (Events.provider_hook_ingested at id provider event) = at_time at none
wosm_event_metadata (Events.harness_event_reported at id provider event) = at_time at none
wosm_event_metadata (Events.provider_hook_spool_drained at drained failed) = at_time at none
wosm_event_metadata _ = no_metadata

abbrev pub event_type : Events.WosmEvent → String
event_type (Events.observer_started at) = "observer.started"
event_type (Events.observer_reconciled at changed d) = "observer.reconciled"
event_type (Events.project_updated id) = "project.updated"
event_type (Events.worktree_added row) = "worktree.added"
event_type (Events.worktree_updated id patch) = "worktree.updated"
event_type (Events.worktree_removed id) = "worktree.removed"
event_type (Events.worktree_agent_state_changed change) = "worktree.agentStateChanged"
event_type (Events.session_created session) = "session.created"
event_type (Events.session_updated id patch) = "session.updated"
event_type (Events.session_removed id) = "session.removed"
event_type (Events.command_accepted id command d) = "command.accepted"
event_type (Events.command_started id command d) = "command.started"
event_type (Events.command_succeeded id d) = "command.succeeded"
event_type (Events.command_failed id error d) = "command.failed"
event_type (Events.provider_health_changed provider health) = "provider.healthChanged"
event_type (Events.provider_hook_ingested at id provider event) = "providerHook.ingested"
event_type (Events.harness_event_reported at id provider event) = "harness.eventReported"
event_type (Events.provider_hook_spool_drained at drained failed) = "providerHook.spoolDrained"

-- `filter.commandId !== undefined && metadata.commandId !== filter.commandId`, negated.
abbrev pub is_wanted : Option String → Option String → Bool
is_wanted none actual = true
is_wanted (some wanted) none = false
is_wanted (some wanted) (some actual) = actual == wanted

abbrev pub is_type : Option (List String) → String → Bool
is_type none actual = true
is_type (some types) actual = contains types actual

abbrev pub is_since : Platform → Option String → Option String → Bool
is_since p none timestamp = true
is_since p (some since) none = true
is_since p (some since) (some timestamp) = leb (p.date_parse since) (p.date_parse timestamp)

unfoldable pub event_matches_filter : Platform → Events.WosmEvent → Option EventFilter → Bool
unfolding wosm_event_metadata
event_matches_filter p event none = true
event_matches_filter p event (some filter) =
    let metadata = wosm_event_metadata event in
    if not (is_type filter.types (event_type event))
    then false
    else if not (is_wanted filter.command_id metadata.command_id)
    then false
    else if not (is_wanted filter.trace_id metadata.trace_id)
    then false
    else is_since p filter.since metadata.timestamp

pub record Subscriber : Type 0 where
  pub filter : Option EventFilter
  pub queue : List Events.WosmEvent
  pub waiting : ℕ
  pub taken : List Events.WosmEvent
  pub answers : List (Option Events.WosmEvent)
  pub active : Bool

unfoldable pub new_subscriber : Option EventFilter → Subscriber
new_subscriber filter = record {
  filter = filter;
  queue = [];
  waiting = 0;
  taken = [];
  answers = [];
  active = true;
}

-- `Queue.offer`: a take that waits has the event at once.
abbrev pub offer_to : ℕ → Subscriber → Events.WosmEvent → Subscriber
offer_to zero s event = record s { queue = s.queue ++ event ∷ [] }
offer_to (suc waiting) s event = record s { waiting = waiting; taken = s.taken ++ event ∷ [] }

unfoldable pub offer : Platform → Events.WosmEvent → Subscriber → Subscriber
unfolding event_matches_filter
offer p event s =
    if s.active && event_matches_filter p event s.filter then offer_to s.waiting s event else s

-- `Queue.take` of a queue with these entries.
abbrev pub take_from : List Events.WosmEvent → Subscriber → Subscriber
take_from [] s = record s { waiting = s.waiting + 1 }
take_from (event ∷ queue) s = record s { queue = queue; taken = s.taken ++ event ∷ [] }

unfoldable pub next : Subscriber → Subscriber
next s = if s.active then take_from s.queue s else record s { answers = s.answers ++ none ∷ [] }

-- A take goes on with the first event that is taken.
abbrev pub answer_first : List Events.WosmEvent → Subscriber → Subscriber
answer_first [] s = s
answer_first (event ∷ taken) s = record s {
  taken = taken;
  answers = s.answers ++ (if s.active then some event else none) ∷ [];
}

unfoldable pub resume : Subscriber → Subscriber
resume s = answer_first s.taken s

abbrev pub done_answers : ℕ → List (Option Events.WosmEvent)
done_answers zero = []
done_answers (suc n) = none ∷ done_answers n

-- The queue is shut down: what waits ends.
unfoldable pub return_from : Subscriber → Subscriber
return_from s = record s {
  active = false;
  queue = [];
  waiting = 0;
  answers = s.answers ++ done_answers s.waiting;
}

pub data BusStep : Type 0 where
  publish : Events.WosmEvent → BusStep
  subscribe : Option EventFilter → BusStep
  ask resumed returned : (subscriber : ℕ) → BusStep

-- The change of the subscriber at a place.
abbrev pub at_place : ℕ → (Subscriber → Subscriber) → List Subscriber → List Subscriber
at_place n f [] = []
at_place zero f (s ∷ bus) = f s ∷ bus
at_place (suc n) f (s ∷ bus) = s ∷ at_place n f bus

unfoldable pub bus_step : Platform → List Subscriber → BusStep → List Subscriber
unfolding offer new_subscriber next resume return_from
bus_step p bus (publish event) = map (offer p event) bus
bus_step p bus (subscribe filter) = bus ++ new_subscriber filter ∷ []
bus_step p bus (ask n) = at_place n next bus
bus_step p bus (resumed n) = at_place n resume bus
bus_step p bus (returned n) = at_place n return_from bus

unfoldable pub bus_run : Platform → List Subscriber → List BusStep → List Subscriber
unfolding bus_step
bus_run p bus [] = bus
bus_run p bus (step ∷ steps) = bus_run p (bus_step p bus step) steps
