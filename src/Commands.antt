-- ===== src/Commands.antt =====
-- apps/observer/src/commands/queue.ts: the observer runs commands of one scope one after another, and
-- commands of other scopes beside them. An execution's promise is a number, `next` the number of the
-- next; `entry` says what is known of each. `dispatch` awaits the database between its check of
-- `shuttingDown` and its place in the chain, so it is two steps here, `accept` and `chain`.
-- The database's calls are taken to succeed, and those between an execution's start and its first look
-- at the signal to be no step of their own. What the handler comes to is an argument of the end of an
-- execution, with what it threw where it noticed an abort; the queue does not await a handler that has
-- timed out.
pub mod Chains
pub mod CleanUp
pub mod Order
pub mod Progress
mod Tests
use Prim.Native.String.{◌++◌ as append}
use wosm.Base.{
  ℕ, suc, ◌+◌, String, Bool, true, false, ◌&&◌, not, List, [], ◌∷◌, ◌++◌, Option, none, some, ltb,
  nat_beq, ◌==◌, string_eq, nat_eq, option_eq, if◌then◌else◌,
}
use wosm.Base.Dict.{Dict, get, set, delete}
use wosm.Contracts.Status.{SafeError, safe_error}
use wosm.Contracts.Commands
use wosm.Contracts.Commands.{WosmCommand}

terminal_command_scope : Option String → Option String → String
terminal_command_scope (some session) worktree = append "session:" session
terminal_command_scope none (some worktree) = append "worktree:" worktree
terminal_command_scope none none = "global"

-- `commandScope`: the narrowest identity that a command names.
unfoldable pub command_scope : WosmCommand → String
unfolding terminal_command_scope
command_scope (Commands.terminal_focus p) = terminal_command_scope p.session_id p.worktree_id
command_scope (Commands.terminal_close p) = terminal_command_scope p.session_id p.worktree_id
command_scope (Commands.session_close p) = append "session:" p.session_id
command_scope (Commands.session_remove p) = append "session:" p.session_id
command_scope (Commands.session_send_prompt p) = append "session:" p.session_id
command_scope (Commands.session_rename p) = append "session:" p.session_id
command_scope (Commands.worktree_remove p) = append "worktree:" p.worktree_id
command_scope (Commands.session_start_agent p) = append "worktree:" p.worktree_id
command_scope (Commands.session_resume_agent p) = append "worktree:" p.worktree_id
command_scope (Commands.worktree_create p) = append "project:" p.project_id
command_scope (Commands.session_create p) = append "project:" p.project_id
command_scope (Commands.observer_reconcile reason) = "global"
command_scope (Commands.project_add p) = "global"
command_scope (Commands.project_remove project) = "global"
command_scope (Commands.hooks_install provider) = "global"

pub data Phase : Type 0 where
  queued running settled : Phase

-- An execution in its scope's chain: `previous` is the promise that it waits for, `aborted` its
-- controller's signal, `aborted_at_start` what that was when the body began, `cleaned` whether the
-- `finally` behind it has run.
pub record Entry : Type 0 where
  pub command_id : String
  pub command : WosmCommand
  pub scope : String
  pub previous : Option ℕ
  pub phase : Phase
  pub aborted_at_start : Bool
  pub aborted : Bool
  pub cleaned : Bool

-- What is persisted, published or, for a rejection, returned of a command. The ids of traces, which
-- the errors carry, are left out.
pub data Record : Type 0 where
  accepted : String → Record
  rejected : String → SafeError → Record
  started : String → Record
  succeeded : String → Record
  failed : String → SafeError → Record

pub record Queue : Type 0 where
  pub entry : ℕ → Entry
  pub next : ℕ
  pub scope_chains : Dict String ℕ
  pub awaiting : Dict String WosmCommand
  pub shutting_down : Bool
  pub records : List Record

-- What the handler came to.
pub data Outcome : Type 0 where
  returned : Outcome
  threw : SafeError → Outcome
  timed_out : Outcome

pub data Event : Type 0 where
  accept : String → WosmCommand → Event
  chain : String → Event
  start : ℕ → Event
  finish : ℕ → Outcome → Event
  clean_up : ℕ → Event
  shutdown : Event

abbrev pub shutting_down_error : SafeError
shutting_down_error =
    safe_error "CancellationError" "COMMAND_QUEUE_SHUTTING_DOWN"
      "Observer command queue is shutting down." none

-- cancellation.ts, `commandCancellationError`.
abbrev pub cancellation_error : SafeError
cancellation_error =
    safe_error "CancellationError" "COMMAND_CANCELLED" "Observer command was cancelled." none

abbrev pub missing_handler_error : SafeError
missing_handler_error =
    record (safe_error "CommandRoutingError" "COMMAND_HANDLER_MISSING"
      "Observer does not have a handler for this command." none) {
        hint = some "Upgrade wosm or avoid this command until the command is implemented.";
      }

abbrev pub timeout_error : SafeError
timeout_error =
    safe_error "TimeoutError" "COMMAND_TIMEOUT" "Observer command execution timed out." none

-- The body that the runtime boundary runs: `none` is success. The signal is checked before the
-- handler is looked up, and again behind a handler that returns.
unfoldable pub execution_error : Bool → Bool → Bool → Outcome → Option SafeError
execution_error aborted_at_start aborted has_handler outcome =
    if aborted_at_start
    then some cancellation_error
    else if not has_handler
    then some missing_handler_error
    else elim outcome [
      | returned ↦ if aborted then some cancellation_error else none
      | threw error ↦ some error
      | timed_out ↦ some timeout_error
    ]

abbrev finished : String → Option SafeError → Record
finished id none = succeeded id
finished id (some error) = failed id error

abbrev pub update : (ℕ → Entry) → ℕ → Entry → ℕ → Entry
update entry k e i = if nat_beq i k then e else entry i

abbrev pub is_queued : Phase → Bool
is_queued queued = true
is_queued _ = false

abbrev pub is_running : Phase → Bool
is_running running = true
is_running _ = false

abbrev pub is_settled : Phase → Bool
is_settled settled = true
is_settled _ = false

-- `previous.then(…)` runs once the promise before is settled, at once where there is none.
abbrev pub may_start : Queue → ℕ → Bool
may_start q i = elim ((q.entry i).previous) [ none ↦ true | some k ↦ is_settled (q.entry k).phase ]

-- `createCommandQueue`. No entry is read before it is chained.
unfoldable pub new_queue : Entry → Queue
new_queue blank = record {
  entry = λ i. blank;
  next = 0;
  scope_chains = [];
  awaiting = [];
  shutting_down = false;
  records = [];
}

unfoldable pub accept_command : Queue → String → WosmCommand → Queue
accept_command q id command =
    if q.shutting_down
    then record q { records = q.records ++ rejected id shutting_down_error ∷ [] }
    else record q { awaiting = set q.awaiting id command; records = q.records ++ accepted id ∷ [] }

abbrev pub chained_entry : Queue → String → WosmCommand → Entry
chained_entry q id command = record {
  command_id = id;
  command = command;
  scope = command_scope command;
  previous = get q.scope_chains (command_scope command);
  phase = queued;
  aborted_at_start = false;
  aborted = false;
  cleaned = false;
}

unfoldable pub chain_command : Queue → String → Queue
chain_command q id = elim (get q.awaiting id) [
  | none ↦ q
  | some command ↦ record q {
    entry = update q.entry q.next (chained_entry q id command);
    next = suc q.next;
    scope_chains = set q.scope_chains (command_scope command) q.next;
    awaiting = delete q.awaiting id;
  }
]

unfoldable pub start_command : Queue → ℕ → Queue
start_command q i =
    if ltb i q.next && (is_queued (q.entry i).phase && may_start q i)
    then record q {
      entry =
          update q.entry i
            (record (q.entry i) { phase = running; aborted_at_start = (q.entry i).aborted });
      records = q.records ++ started (q.entry i).command_id ∷ [];
    }
    else q

unfoldable pub finish_command : (WosmCommand → Bool) → Queue → ℕ → Outcome → Queue
finish_command has_handler q i outcome =
    let e = q.entry i in
    if ltb i q.next && is_running e.phase
    then record q {
      entry = update q.entry i (record e { phase = settled });
      records =
          q.records
          ++ finished e.command_id
              (execution_error e.aborted_at_start e.aborted (has_handler e.command) outcome)
            ∷ [];
    }
    else q

-- `settled.finally`: the scope's chain is forgotten if this execution is still its last.
unfoldable pub clean_up_command : Queue → ℕ → Queue
clean_up_command q i =
    let e = q.entry i in
    if ltb i q.next && is_settled e.phase
    then record q {
      entry = update q.entry i (record e { cleaned = true });
      scope_chains =
          if get q.scope_chains e.scope == some i
          then delete q.scope_chains e.scope
          else q.scope_chains;
    }
    else q

-- `controller.abort` for every controller that is still in the set.
abbrev pub abort_entry : Queue → ℕ → Entry
abort_entry q i =
    if ltb i q.next && not (q.entry i).cleaned
    then record (q.entry i) { aborted = true }
    else q.entry i

unfoldable pub shutdown_queue : Queue → Queue
shutdown_queue q = record q { shutting_down = true; entry = abort_entry q }

-- The handlers that are registered are an argument.
unfoldable pub step : (WosmCommand → Bool) → Queue → Event → Queue
unfolding accept_command chain_command start_command finish_command clean_up_command shutdown_queue
step has_handler q (accept id command) = accept_command q id command
step has_handler q (chain id) = chain_command q id
step has_handler q (start i) = start_command q i
step has_handler q (finish i outcome) = finish_command has_handler q i outcome
step has_handler q (clean_up i) = clean_up_command q i
step has_handler q shutdown = shutdown_queue q

unfoldable pub run : (WosmCommand → Bool) → Queue → List Event → Queue
run has_handler q [] = q
run has_handler q (e ∷ es) = run has_handler (step has_handler q e) es
