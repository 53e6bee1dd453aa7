-- ===== src/Commands/Progress.antt =====
-- queue.ts: the turns of commands, the chains that are left, and shutdown.
use wosm.Base.{
  ℕ, zero, suc, ◌≤◌, ◌<◌, ◌≡◌, refl, sym, ap, ◌∙◌, String, Bool, true, false, List, [], ◌∷◌, ◌++◌,
  none, some, arith, string_eq, ==-refl, Bool-cases, Option-cases, inl, inr, ◌⊎◌,
}
use wosm.Base.Dict.{Dict, get}
use wosm.Contracts.Commands.{WosmCommand}
use wosm.Commands.{
  Queue, Entry, Outcome, returned, Event, chain, start, finish, shutdown, step, run, command_scope,
  may_start, is_running, chain_command, start_command, finish_command, shutdown_queue,
  execution_error, cancellation_error, new_queue, started, failed, succeeded,
}
use wosm.Commands.Chains.{scope_of, settled_at, queued_at, Inv}
use wosm.Commands.CleanUp.{last_of}
use wosm.Commands.Order.{run-Inv, new_queue-Inv}

-- An execution that runs, or whose start nothing delays.
abbrev pub CanGo : Queue → ℕ → Type 0
CanGo q j = (is_running (q.entry j).phase ≡ true) ⊎ (queued_at q j ≡ true) × (may_start q j ≡ true)

phase_cases :
    (q : Queue) (i : ℕ)
    → settled_at q i ≡ false
    → queued_at q i ≡ false
    → is_running (q.entry i).phase ≡ true
phase_cases q i unsettled begun = ground arith

previous_of :
    (q : Queue) (i k : ℕ)
    → Inv q
    → i < q.next
    → (q.entry i).previous ≡ some k
    → (k < i) × (scope_of q k ≡ scope_of q i)
previous_of q i k v below link = ground (arith, link, v.linked i)

find_turn :
    (q : Queue)
    → Inv q
    → (n i : ℕ) → i < n
    → i < q.next
    → settled_at q i ≡ false
    → (j : ℕ) × (j ≤ i) × (scope_of q j ≡ scope_of q i) × (settled_at q j ≡ false) × CanGo q j
find_turn q v zero i less below h = ground arith
find_turn q v (suc n) i less below h = elim (Bool-cases (queued_at q i)) [
  | inr begun ↦ (i, omega arith, refl, h, inl (phase_cases q i h begun))
  | inl waits ↦ elim (Option-cases (q.entry i).previous) [
    | inl alone ↦ (i, omega arith, refl, h, inr (waits, ground (arith, alone)))
    | inr (k, link) ↦ elim (Bool-cases (settled_at q k)) [
      | inl done ↦ (i, omega arith, refl, h, inr (waits, ground (arith, link)))
      | inr pending ↦
          let back = previous_of q i k v below link in
          let (j, under, same, unsettled, go) =
            find_turn q v n k (omega (arith, back.0)) (omega (arith, back.0)) pending in
          (j, omega (arith, back.0), same ∙ back.1, unsettled, go)
    ]
  ]
]

-- No scope is stuck: in any history of a queue, an unsettled execution is running or free to start,
-- or an earlier one of its scope is.
pub turn_comes :
    (has_handler : WosmCommand → Bool) (blank : Entry) (es : List Event) (i : ℕ)
    → let q = run has_handler (new_queue blank) es in
      i < q.next
      → settled_at q i ≡ false
      → (j : ℕ) × (j ≤ i) × (scope_of q j ≡ scope_of q i) × (settled_at q j ≡ false) × CanGo q j
turn_comes has_handler blank es i below h =
    find_turn (run has_handler (new_queue blank) es)
      (run-Inv has_handler (new_queue blank) es (new_queue-Inv blank)) (suc i) i (omega arith) below
      h

first_chain :
    (q : Queue) (s : String) (k : ℕ) (m : Dict String ℕ)
    → (s, k) ∷ m ≡ q.scope_chains
    → get q.scope_chains s ≡ some k
first_chain q s k m h = ap (λ m. get m s) (sym h) ∙ ground (arith, ==-refl s)

no_chain :
    (q : Queue)
    → Inv q
    → ((i : ℕ) → i < q.next → (q.entry i).cleaned ≡ true)
    → (m : Dict String ℕ) → m ≡ q.scope_chains
    → m ≡ []
no_chain q v all [] h = refl
no_chain q v all ((s, k) ∷ m) h =
    let h' = first_chain q s k m h in
    ground (arith, h', last_of q s k v h', v.uncleaned s k h', all k)

-- No chain is kept for ever: in any history of a queue, once the `finally` of every execution has run,
-- the map of the chains is empty.
pub chains_forgotten :
    (has_handler : WosmCommand → Bool) (blank : Entry) (es : List Event)
    → let q = run has_handler (new_queue blank) es in
      ((i : ℕ) → i < q.next → (q.entry i).cleaned ≡ true) → q.scope_chains ≡ []
chains_forgotten has_handler blank es all =
    let q = run has_handler (new_queue blank) es in
    no_chain q (run-Inv has_handler (new_queue blank) es (new_queue-Inv blank)) all q.scope_chains
      refl

may_start-shutdown : (q : Queue) (j : ℕ) → may_start (shutdown_queue q) j ≡ may_start q j
unfolding shutdown_queue
may_start-shutdown q j = ground arith

-- An execution that is queued at shutdown, its turn come, fails as cancelled, whatever its handler is
-- or would come to.
pub shutdown_cancels :
    (has_handler : WosmCommand → Bool) (q : Queue) (j : ℕ) (o : Outcome)
    → j < q.next
    → queued_at q j ≡ true
    → may_start q j ≡ true
    → (q.entry j).cleaned ≡ false
    → let id = (q.entry j).command_id in
      (run has_handler q (shutdown ∷ start j ∷ finish j o ∷ [])).records
      ≡ (q.records ++ started id ∷ []) ++ failed id cancellation_error ∷ []
unfolding run step shutdown_queue start_command finish_command execution_error
shutdown_cancels has_handler q j o below waits may uncleaned =
    ground (arith, may_start-shutdown q j)

-- A command whose `dispatch` still awaits the database at shutdown escapes it: it takes its place
-- afterwards, is not aborted, and runs to success.
pub late_command_runs :
    (has_handler : WosmCommand → Bool) (q : Queue) (id : String) (command : WosmCommand)
    → get q.awaiting id ≡ some command
    → get q.scope_chains (command_scope command) ≡ none
    → has_handler command ≡ true
    → (run has_handler q (shutdown ∷ chain id ∷ start q.next ∷ finish q.next returned ∷ [])).records
      ≡ (q.records ++ started id ∷ []) ++ succeeded id ∷ []
unfolding run step shutdown_queue chain_command start_command finish_command execution_error
late_command_runs has_handler q id command h free handled = ground arith
