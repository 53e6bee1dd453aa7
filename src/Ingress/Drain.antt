-- ===== src/Ingress/Drain.antt =====
-- harnessIngressQueue.ts, `drain` and `shutdown`.
use wosm.Base.{
  Option, ℕ, ◌≤◌, ◌≡◌, String, true, List, [], ◌∷◌, ◌++◌, arith, length, string_eq, ==-refl,
  append-nil, append_assoc, ◌≢◌, refl,
}
use wosm.Base.Dict.{Dict, size, size-delete-le}
use wosm.Ingress.{
  QueuedHarnessReport, is_idle, enqueue_in_state, take_queued_report, record_processed,
  record_failed, decrement_active, record_spool_drain_in_state,
}
use wosm.Ingress.System.{
  System, Outcome, Worker, processing, recorded, Event, waiting, take, finish, settle, drain,
  shutdown, enqueue, spool_drain, step, run,
}
use wosm.Ingress.Invariant.{Inv, step-Inv}

-- The worker's three updates for one key.
abbrev pub round : Outcome × String → List Event → List Event
round (o, now) es = take ∷ finish o now ∷ settle ∷ es

abbrev pub rounds : List (Outcome × String) → List Event
rounds [] = []
rounds (o ∷ os) = round o (rounds os)

-- One round takes the oldest key, and releases the waiters if it was the last.
record Round (s t : System) (rest : Dict String QueuedHarnessReport) : Type 0 where
  again : t.worker ≡ waiting
  left : t.state.pending ≡ rest
  kept : rest ≢ [] → (t.state.waiters ≡ s.state.waiters) × (t.released ≡ s.released)
  done : rest ≡ [] → t.released ≡ s.released ++ s.state.waiters

round_lem :
    (limit : ℕ) (s : System) (o : Outcome) (now : String) (k : String) (q : QueuedHarnessReport)
    (rest : Dict String QueuedHarnessReport)
    → Inv limit s
    → s.worker ≡ waiting
    → s.state.pending ≡ (k, q) ∷ rest
    → Round s (step limit (step limit (step limit s take) (finish o now)) settle) rest
unfolding step take_queued_report record_processed record_failed decrement_active is_idle
round_lem limit s o now k q rest v w p = ground (arith, ==-refl k)

record Drained (s t : System) : Type 0 where
  pub idle : is_idle t.state ≡ true
  pub no_work : t.work ≡ []
  pub no_waiters : t.state.waiters ≡ []
  pub released : t.released ≡ s.released ++ s.state.waiters

nothing_pending-Drained :
    (limit : ℕ) (s : System) → Inv limit s → s.worker ≡ waiting → s.state.pending ≡ [] → Drained s s
unfolding is_idle
nothing_pending-Drained limit s v w p = ground (arith, append-nil s.released)

idle_waiters :
    {limit : ℕ} (t : System)
    → Inv limit t
    → t.state.pending ≡ []
    → t.worker ≡ waiting
    → t.state.waiters ≡ []
unfolding is_idle
idle_waiters t v p w = ground arith

-- What a round released and what is released behind it.
round-Drained :
    (limit : ℕ) (s t u : System) (rest : Dict String QueuedHarnessReport)
    → Round s t rest
    → Inv limit t
    → Drained t u
    → Drained s u
round-Drained limit s t u [] one v d =
    ground (arith, append-nil (s.released ++ s.state.waiters), idle_waiters t v one.left one.again)
round-Drained limit s t u (e ∷ m) one v d = ground arith

rounds-Drained :
    (limit : ℕ) (s : System) (os : List (Outcome × String)) (m : Dict String QueuedHarnessReport)
    → Inv limit s
    → s.worker ≡ waiting
    → s.state.pending ≡ m
    → length os ≡ size m
    → Drained s (run limit s (rounds os))
unfolding run
rounds-Drained limit s [] [] v w p n = nothing_pending-Drained limit s v w p
rounds-Drained limit s [] (e ∷ m) v w p n = absurd (omega arith)
rounds-Drained limit s (o ∷ os) [] v w p n = absurd (omega arith)
rounds-Drained limit s ((o, now) ∷ os) ((k, q) ∷ rest) v w p n =
    let one = round_lem limit s o now k q rest v w p in
    let v' : Inv limit t =
      step-Inv limit _ settle (step-Inv limit _ (finish o now) (step-Inv limit s take v)) in
    round-Drained limit s t (run limit t (rounds os)) rest one v'
      (rounds-Drained limit t os rest v' one.again one.left (omega arith))
  where
    t : System
    t = step limit (step limit (step limit s take) (finish o now)) settle

-- What is left of the worker's report, and then a round for each pending key.
abbrev pub to_the_end : Worker → Outcome → String → List (Outcome × String) → List Event
to_the_end waiting o now os = rounds os
to_the_end (processing queued) o now os = finish o now ∷ settle ∷ rounds os
to_the_end (recorded reason) o now os = settle ∷ rounds os

finish-Round :
    (limit : ℕ) (s : System) (q : QueuedHarnessReport) (o : Outcome) (now : String)
    → Inv limit s
    → s.worker ≡ processing q
    → Round s (step limit (step limit s (finish o now)) settle) s.state.pending
unfolding step record_processed record_failed decrement_active is_idle
finish-Round limit s q o now v w = ground arith

settle-Round :
    (limit : ℕ) (s : System) (reason : Option String)
    → Inv limit s
    → s.worker ≡ recorded reason
    → Round s (step limit s settle) s.state.pending
unfolding step decrement_active is_idle
settle-Round limit s reason v w = ground arith

end-Drained :
    (limit : ℕ) (s : System) (w : Worker) (o : Outcome) (now : String)
    (os : List (Outcome × String))
    → Inv limit s
    → s.worker ≡ w
    → length os ≡ size s.state.pending
    → Drained s (run limit s (to_the_end w o now os))
unfolding run
end-Drained limit s waiting o now os v w n = rounds-Drained limit s os s.state.pending v w refl n
end-Drained limit s (processing q) o now os v w n =
    let t = step limit (step limit s (finish o now)) settle in
    let one = finish-Round limit s q o now v w in
    let later = step-Inv limit _ settle (step-Inv limit s (finish o now) v) in
    round-Drained limit s t (run limit t (rounds os)) s.state.pending one later
      (rounds-Drained limit t os s.state.pending later one.again one.left n)
end-Drained limit s (recorded reason) o now os v w n =
    let t = step limit s settle in
    let one = settle-Round limit s reason v w in
    let later = step-Inv limit s settle v in
    round-Drained limit s t (run limit t (rounds os)) s.state.pending one later
      (rounds-Drained limit t os s.state.pending later one.again one.left n)

-- In a well-formed queue, whatever its worker is at, a client asks to be told when the queue is
-- drained, and then the worker alone goes on: with its report, if it has one, and with each pending
-- key. Whatever becomes of the reports, the queue is then idle with no work left, and the client is
-- released, after everyone who waited before.
pub drain_releases :
    (limit : ℕ) (s : System) (waiter : ℕ) (o : Outcome) (now : String)
    (os : List (Outcome × String))
    → Inv limit s
    → length os ≡ size s.state.pending
    → let t = run limit (step limit s (drain waiter)) (to_the_end s.worker o now os) in
      (is_idle t.state ≡ true)
      × (t.work ≡ [])
      × (t.state.waiters ≡ [])
      × (t.released ≡ (s.released ++ s.state.waiters) ++ waiter ∷ [])
unfolding step is_idle
drain_releases limit s waiter o now os v n =
    let s' = step limit s (drain waiter) in
    let v' : Inv limit s' = step-Inv limit s (drain waiter) v in
    let d = end-Drained limit s' s.worker o now os v' (ground arith) (ground (arith, n)) in
    ground (
      arith,
      d.idle,
      d.no_work,
      d.no_waiters,
      d.released,
      v.released_when_idle,
      append_assoc s.released s.state.waiters (waiter ∷ []),
      append-nil (s.released ++ waiter ∷ []),
      append-nil s.released,
    )

record Closed (s t : System) : Type 0 where
  stays : t.state.shutting_down ≡ true
  no_more : t.state.metrics.enqueued ≡ s.state.metrics.enqueued
  shrinks : size t.state.pending ≤ size s.state.pending

step-Closed :
    (limit : ℕ) (s : System) (e : Event) → s.state.shutting_down ≡ true → Closed s (step limit s e)
unfolding step enqueue_in_state take_queued_report record_processed record_failed decrement_active
    record_spool_drain_in_state is_idle
step-Closed limit s (enqueue r now) h = ground arith
step-Closed limit s take h = grind (arith, size-delete-le)
step-Closed limit s (finish o now) h = ground arith
step-Closed limit s settle h = ground arith
step-Closed limit s (drain w) h = ground arith
step-Closed limit s shutdown h = ground arith
step-Closed limit s (spool_drain a b c now) h = ground arith

run-Closed :
    (limit : ℕ) (s : System) (es : List Event)
    → s.state.shutting_down ≡ true
    → Closed s (run limit s es)
unfolding run
run-Closed limit s [] h = ground arith
run-Closed limit s (e ∷ es) h =
    let one = step-Closed limit s e h in
    let rest = run-Closed limit (step limit s e) es one.stays in ground (arith, one, rest)

-- After `shutdown` no event lets another report in: the flag stays, the count of enqueued reports
-- stands still and the pending reports never grow in number.
pub shutdown_closes :
    (limit : ℕ) (s : System) (es : List Event)
    → let t = run limit (step limit s shutdown) es in
      (t.state.shutting_down ≡ true)
      × (t.state.metrics.enqueued ≡ s.state.metrics.enqueued)
      × (size t.state.pending ≤ size s.state.pending)
unfolding step
shutdown_closes limit s es =
    let c = run-Closed limit (step limit s shutdown) es (ground arith) in
    ground (arith, c.stays, c.no_more, c.shrinks)
