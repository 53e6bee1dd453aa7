-- ===== src/Commands/Order.antt =====
-- queue.ts: the order of the commands of one scope.
use wosm.Base.{
  ℕ, ◌<◌, ◌≡◌, String, Bool, true, false, List, [], ◌∷◌, Option, none, some, arith, string_eq,
  nat_eq, option_eq,
}
use wosm.Contracts.Commands.{WosmCommand}
use wosm.Commands.{
  new_queue, Queue, Entry, Outcome, Event, accept, chain, start, finish, clean_up, shutdown, step,
  run, accept_command, start_command, finish_command, shutdown_queue, may_start,
}
use wosm.Commands.Chains.{
  scope_of, settled_at, queued_at, Behind, Inv, Keeps, advance-Inv, chain-Inv,
}
use wosm.Commands.CleanUp.{clean_up-Inv}

start-Keeps : (q : Queue) (i : ℕ) → Keeps q (start_command q i)
unfolding start_command
start-Keeps q i = record {
  same_next = ground arith;
  same_scope = λ j. ground arith;
  same_previous = λ j. ground arith;
  settles = λ j. ground arith;
}

finish-Keeps :
    (has_handler : WosmCommand → Bool) (q : Queue) (i : ℕ) (o : Outcome)
    → Keeps q (finish_command has_handler q i o)
unfolding finish_command
finish-Keeps has_handler q i o = record {
  same_next = ground arith;
  same_scope = λ j. ground arith;
  same_previous = λ j. ground arith;
  settles = λ j. ground arith;
}

shutdown-Keeps : (q : Queue) → Keeps q (shutdown_queue q)
unfolding shutdown_queue
shutdown-Keeps q = record {
  same_next = ground arith;
  same_scope = λ j. ground arith;
  same_previous = λ j. ground arith;
  settles = λ j. ground arith;
}

accept-Keeps :
    (q : Queue) (id : String) (command : WosmCommand) → Keeps q (accept_command q id command)
unfolding accept_command
accept-Keeps q id command = record {
  same_next = ground arith;
  same_scope = λ j. ground arith;
  same_previous = λ j. ground arith;
  settles = λ j. ground arith;
}

Behind-turn :
    (q : Queue) (i j : ℕ)
    → Inv q
    → i < j
    → j < q.next
    → scope_of q i ≡ scope_of q j
    → (o : Option ℕ) → Behind q (scope_of q j) j o
    → elim o [ none ↦ true | some k ↦ settled_at q k ] ≡ true
    → settled_at q i ≡ true
Behind-turn q i j v less below same none b may = b i (omega arith) less same
Behind-turn q i j v less below same (some k) (under, alike, rest) may =
    ground (arith, v.ordered i k, rest i)

-- What `start` waits for: every earlier execution of the scope.
turn_of :
    (q : Queue) (i j : ℕ)
    → Inv q
    → i < j
    → j < q.next
    → scope_of q i ≡ scope_of q j
    → may_start q j ≡ true
    → settled_at q i ≡ true
turn_of q i j v less below same may =
    Behind-turn q i j v less below same (q.entry j).previous (v.linked j below) may

start-Inv : (q : Queue) (j : ℕ) → Inv q → Inv (start_command q j)
unfolding start_command
start-Inv q j v =
    advance-Inv q (start_command q j) (start-Keeps q j) v (ground arith) (λ i. ground arith)
      (λ i k less below same begun.
        ground (arith, v.ordered i k less below same, turn_of q i k v less below same))

finish-Inv :
    (has_handler : WosmCommand → Bool) (q : Queue) (j : ℕ) (o : Outcome)
    → Inv q
    → Inv (finish_command has_handler q j o)
unfolding finish_command
finish-Inv has_handler q j o v =
    advance-Inv q (finish_command has_handler q j o) (finish-Keeps has_handler q j o) v
      (ground arith) (λ i. ground arith)
      (λ i k less below same begun. ground (arith, v.ordered i k less below same))

shutdown-Inv : (q : Queue) → Inv q → Inv (shutdown_queue q)
unfolding shutdown_queue
shutdown-Inv q v =
    advance-Inv q (shutdown_queue q) (shutdown-Keeps q) v (ground arith) (λ i. ground arith)
      (λ i k less below same begun. ground (arith, v.ordered i k less below same))

accept-Inv :
    (q : Queue) (id : String) (command : WosmCommand) → Inv q → Inv (accept_command q id command)
unfolding accept_command
accept-Inv q id command v =
    advance-Inv q (accept_command q id command) (accept-Keeps q id command) v (ground arith)
      (λ i. ground arith)
      (λ i k less below same begun. ground (arith, v.ordered i k less below same))

-- Every event keeps the chains in order: the promise that an execution waits for, and the one that the
-- next of its scope will wait for, is the last of the scope that may be unsettled, so that an
-- execution which has begun has only settled ones before it in its scope.
pub each_step-Inv :
    (has_handler : WosmCommand → Bool) (q : Queue) (e : Event) → Inv q → Inv (step has_handler q e)
unfolding step
each_step-Inv has_handler q (accept id command) v = accept-Inv q id command v
each_step-Inv has_handler q (chain id) v = chain-Inv q id v
each_step-Inv has_handler q (start i) v = start-Inv q i v
each_step-Inv has_handler q (finish i o) v = finish-Inv has_handler q i o v
each_step-Inv has_handler q (clean_up i) v = clean_up-Inv q i v
each_step-Inv has_handler q shutdown v = shutdown-Inv q v

pub run-Inv :
    (has_handler : WosmCommand → Bool) (q : Queue) (es : List Event)
    → Inv q
    → Inv (run has_handler q es)
unfolding run
run-Inv has_handler q [] v = v
run-Inv has_handler q (e ∷ es) v =
    run-Inv has_handler (step has_handler q e) es (each_step-Inv has_handler q e v)

pub new_queue-Inv : (blank : Entry) → Inv (new_queue blank)
unfolding new_queue
new_queue-Inv blank = record {
  distinct = tt;
  linked = λ j below. ground arith;
  chained = λ s i low below same. ground arith;
  uncleaned = λ s k h. ground arith;
  ordered = λ i j less below same begun. ground arith;
}

-- In any history of a queue, an execution that has begun finds every earlier one of its scope settled:
-- a scope never starts a command before its turn, nor before the one ahead has settled. An execution
-- whose handler timed out has settled, though the handler may still be running.
pub one_at_a_time :
    (has_handler : WosmCommand → Bool) (blank : Entry) (es : List Event) (i j : ℕ)
    → let q = run has_handler (new_queue blank) es in
      i < j
      → j < q.next
      → scope_of q i ≡ scope_of q j
      → queued_at q j ≡ false
      → settled_at q i ≡ true
one_at_a_time has_handler blank es i j =
    (run-Inv has_handler (new_queue blank) es (new_queue-Inv blank)).ordered i j
