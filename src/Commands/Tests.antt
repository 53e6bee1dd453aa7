-- ===== src/Commands/Tests.antt =====
-- The command queue run on two sessions.
use wosm.Base.{
  ◌≤◌, ◌<◌, ◌≡◌, refl, arith, ℕ, zero, suc, Bool, true, false, List, [], ◌∷◌, ◌++◌, none,
}
use wosm.Contracts.Commands
use wosm.Contracts.Commands.{WosmCommand}
use wosm.Commands.{
  Queue, Entry, queued, accepted, started, succeeded, Event, accept, chain, start, finish, clean_up,
  shutdown, returned, threw, timed_out, new_queue, step, run, shutting_down_error, command_scope,
  accept_command, chain_command, start_command, finish_command, clean_up_command,
}
use wosm.Commands.Chains.{Inv, scope_of, settled_at, queued_at}
use wosm.Commands.Order.{each_step-Inv, run-Inv, new_queue-Inv, one_at_a_time}
use wosm.Commands.Progress.{CanGo, turn_comes, late_command_runs}

abbrev prompt : WosmCommand
prompt =
    Commands.session_send_prompt (record { session_id = "s1"; prompt = "hello"; delivery = none })

abbrev rename : WosmCommand
rename = Commands.session_rename (record { session_id = "s1"; title = "title" })

abbrev other : WosmCommand
other =
    Commands.session_close (record { session_id = "s2"; mode = Commands.close_all; force = none })

abbrev blank : Entry
blank = record {
  command_id = "";
  command = other;
  scope = "";
  previous = none;
  phase = queued;
  aborted_at_start = false;
  aborted = false;
  cleaned = false;
}

abbrev every : WosmCommand → Bool
every command = true

-- Two commands of one session and one of another; the second of the first session waits.
abbrev three : List Event
three =
    accept "c1" prompt
    ∷ chain "c1"
    ∷ accept "c2" rename
    ∷ chain "c2"
    ∷ accept "c3" other
    ∷ chain "c3"
    ∷ start 0
    ∷ start 1
    ∷ start 2
    ∷ []

abbrev running_two : Queue
running_two = run every (new_queue blank) three

records_three :
    running_two.records
    ≡ accepted "c1" ∷ accepted "c2" ∷ accepted "c3" ∷ started "c1" ∷ started "c3" ∷ []
unfolding run step new_queue accept_command chain_command start_command command_scope
records_three = refl

each_step-Inv_example : Inv (step every running_two (finish 0 returned))
each_step-Inv_example =
    each_step-Inv every running_two (finish 0 returned)
      (run-Inv every (new_queue blank) three (new_queue-Inv blank))

abbrev next_turn : List Event
next_turn = three ++ finish 0 (threw shutting_down_error) ∷ start 1 ∷ []

same_session :
    scope_of (run every (new_queue blank) next_turn) 0
    ≡ scope_of (run every (new_queue blank) next_turn) 1
unfolding run step new_queue accept_command chain_command start_command finish_command command_scope
same_session = refl

two_chained : 1 < (run every (new_queue blank) next_turn).next
unfolding run step new_queue accept_command chain_command start_command finish_command command_scope
two_chained = omega arith

second_begun : queued_at (run every (new_queue blank) next_turn) 1 ≡ false
unfolding run step new_queue accept_command chain_command start_command finish_command command_scope
second_begun = refl

one_at_a_time_example : settled_at (run every (new_queue blank) next_turn) 0 ≡ true
one_at_a_time_example =
    one_at_a_time every blank next_turn 0 1 (omega arith) two_chained same_session second_begun

three_chained : (1 < running_two.next) × (settled_at running_two 1 ≡ false)
unfolding run step new_queue accept_command chain_command start_command command_scope
three_chained = (omega arith, refl)

turn_comes_example :
    (j : ℕ) × (j ≤ 1)
    × (scope_of running_two j ≡ scope_of running_two 1)
    × (settled_at running_two j ≡ false)
    × CanGo running_two j
turn_comes_example = turn_comes every blank three 1 three_chained.0 three_chained.1

abbrev served : List Event
served = accept "c1" prompt ∷ chain "c1" ∷ start 0 ∷ finish 0 timed_out ∷ clean_up 0 ∷ []

all_cleaned :
    (i : ℕ)
    → i < (run every (new_queue blank) served).next
    → ((run every (new_queue blank) served).entry i).cleaned ≡ true
unfolding run step new_queue accept_command chain_command start_command finish_command
    clean_up_command command_scope
all_cleaned zero below = refl
all_cleaned (suc i) below = absurd (omega arith)

abbrev one_queued : Queue
one_queued = run every (new_queue blank) (accept "c1" prompt ∷ chain "c1" ∷ [])

one_below : 0 < one_queued.next
unfolding run step new_queue accept_command chain_command
one_below = omega arith

abbrev one_accepted : Queue
one_accepted = run every (new_queue blank) (accept "c1" prompt ∷ [])

late_command_runs_example :
    (run every one_accepted (
      shutdown
      ∷ chain "c1"
      ∷ start one_accepted.next
      ∷ finish one_accepted.next returned
      ∷ [])).records
    ≡ (one_accepted.records ++ started "c1" ∷ []) ++ succeeded "c1" ∷ []
unfolding run step new_queue accept_command
late_command_runs_example = late_command_runs every one_accepted "c1" prompt refl refl refl
