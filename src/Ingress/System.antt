-- ===== src/Ingress/System.antt =====
-- harnessIngressQueue.ts, `createHarnessIngressQueue`: the `Ref`, the unbounded work queue of ready
-- keys, and the one worker fiber, as a step function over what may happen next. The outcome of
-- `processReport` is an argument; the logger, which changes no state, is left out.
use wosm.Base.{ℕ, ◌+◌, String, true, List, [], ◌∷◌, ◌++◌, Option, none, some, if◌then◌else◌}
use wosm.Base.Dict.{size}
use wosm.Contracts.Status.{SafeError}
use wosm.Contracts.Hooks.{HarnessEventReport}
use wosm.Ingress.{
  State, QueueMetrics, QueuedHarnessReport, LastDrain, HarnessIngressProcessResult, initial_state,
  is_idle, enqueue_in_state, take_queued_report, record_processed, record_failed,
  record_spool_drain_in_state, decrement_active,
}

-- `processReport` returned, or it threw what `safeErrorFromUnknown` made a `SafeError`.
pub data Outcome : Type 0 where
  returned : HarnessIngressProcessResult → Outcome
  threw : SafeError → Outcome

-- Where the worker stands: it waits for a key, it waits for `processReport`, or it has recorded the
-- outcome and is about to decrement `active`.
pub data Worker : Type 0 where
  waiting : Worker
  processing : QueuedHarnessReport → Worker
  recorded : Option String → Worker

pub record System : Type 0 where
  pub state : State
  pub work : List String
  pub worker : Worker
  pub released : List ℕ
  pub reconciles : List String

pub data Event : Type 0 where
  enqueue : HarnessEventReport → String → Event
  take : Event
  finish : Outcome → String → Event
  settle : Event
  drain : ℕ → Event
  shutdown : Event
  spool_drain : ℕ → ℕ → ℕ → String → Event

unfoldable pub new_system : System
unfolding initial_state
new_system = record {
  state = initial_state;
  work = [];
  worker = waiting;
  released = [];
  reconciles = [];
}

-- `updateState`: an update that leaves the queue idle releases every waiter.
update_state : System → State → System
update_state s next =
    if is_idle next
    then record s { state = record next { waiters = [] }; released = s.released ++ next.waiters }
    else record s { state = next }

abbrev offer : List String → Option String → List String
offer work none = work
offer work (some key) = work ++ key ∷ []

abbrev started : Option QueuedHarnessReport → Worker
started none = waiting
started (some queued) = processing queued

-- `Queue.take` blocks while no key is there.
take_key : Worker → List String → System → System
unfolding update_state
take_key waiting (key ∷ work) s =
    let (queued, next) = take_queued_report s.state key in
    update_state (record s { work = work; worker = started queued }) next
take_key _ _ s = s

finish_report : Worker → Outcome → String → System → System
unfolding update_state
finish_report (processing queued) (returned result) now s =
    update_state (record s { worker = recorded result.reconcile_reason })
      (record_processed s.state result now)
finish_report (processing queued) (threw error) now s =
    update_state (record s { worker = recorded none }) (record_failed s.state error now)
finish_report _ _ _ s = s

abbrev requested : Option String → List String
requested none = []
requested (some reason) = reason ∷ []

settle_report : Worker → System → System
unfolding update_state
settle_report (recorded reason) s =
    update_state (record s { worker = waiting; reconciles = s.reconciles ++ requested reason })
      (decrement_active s.state)
settle_report _ s = s

-- `drainEffect`: an idle queue needs no waiter.
drain_queue : System → ℕ → System
drain_queue s waiter =
    if is_idle s.state
    then record s { released = s.released ++ waiter ∷ [] }
    else record s { state = record (s.state) { waiters = s.state.waiters ++ waiter ∷ [] } }

unfoldable pub step : ℕ → System → Event → System
unfolding take_key finish_report settle_report drain_queue update_state
step limit s (enqueue report received_at) =
    let (result, next) = enqueue_in_state s.state report received_at limit in
    record s { state = next; work = offer s.work result.ready_key }
step limit s take = take_key s.worker s.work s
step limit s (finish outcome now) = finish_report s.worker outcome now s
step limit s settle = settle_report s.worker s
step limit s (drain waiter) = drain_queue s waiter
step limit s shutdown = update_state s (record (s.state) { shutting_down = true })
step limit s (spool_drain scanned drained failed now) = record s {
  state = record_spool_drain_in_state s.state scanned drained failed now;
}

unfoldable pub run : ℕ → System → List Event → System
run limit s [] = s
run limit s (e ∷ es) = run limit (step limit s e) es

pub record Health : Type 0 where
  pub depth : ℕ
  pub enqueued : ℕ
  pub processed : ℕ
  pub coalesced : ℕ
  pub dropped : ℕ
  pub failed : ℕ
  pub last_processed_at : Option String
  pub last_error : Option SafeError
  pub last_drain : Option LastDrain

unfoldable pub health : State → Health
health current = record {
  depth = size current.pending + current.active;
  enqueued = m.enqueued;
  processed = m.processed;
  coalesced = m.coalesced;
  dropped = m.dropped;
  failed = m.failed;
  last_processed_at = m.last_processed_at;
  last_error = m.last_error;
  last_drain = m.last_drain;
}
  where
    m : QueueMetrics
    m = current.metrics
