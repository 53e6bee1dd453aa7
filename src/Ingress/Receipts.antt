-- ===== src/Ingress/Receipts.antt =====
-- harnessIngressQueue.ts, `enqueueInState`: what a report's receipt says, and what it means.
use wosm.Base.{
  ℕ, ◌+◌, ◌≡◌, String, true, false, ◌&&◌, ◌||◌, not, arith, none, some, ltb, contains, string_eq,
  if◌then◌else◌, ◌==◌,
}
use wosm.Base.Dict.{has, get, size, get-set}
use wosm.Contracts.Hooks.{HarnessEventReport}
use wosm.Ingress.{State, QueuedHarnessReport, coalesce_key, enqueue_in_state}
use wosm.Ingress.System.{System}
use wosm.Ingress.Remembered.{remember_lem, contains-recent}
use wosm.Ingress.Invariant.{Inv}

abbrev queued : HarnessEventReport → String → QueuedHarnessReport
queued r now = record { report = r; received_at = now }

-- A report is accepted exactly when the queue is not shutting down and the report is a repeat, joins
-- a pending report of its key, or finds room; a refused report leaves the pending reports and the
-- remembered ids as they were, wakes nobody, and is counted as dropped.
pub enqueue_decision :
    (s : State) (r : HarnessEventReport) (now : String) (limit : ℕ)
    → let (result, next) = enqueue_in_state s r now limit in
      (result.receipt.is_accepted ≡ (
        not s.shutting_down
        && (contains s.seen_report_ids r.report_id
            || (has s.pending (coalesce_key r) || ltb (size s.pending + s.active) limit))))
      × (result.receipt.is_accepted ≡ false
          → (next.pending ≡ s.pending)
            × (next.seen_report_ids ≡ s.seen_report_ids)
            × (result.ready_key ≡ none)
            × (next.metrics.dropped ≡ s.metrics.dropped + 1))
unfolding enqueue_in_state
enqueue_decision s r now limit = ground arith

-- A report that was let in is the pending one of its key, also where another was pending; the other
-- keys keep theirs, and the worker is told of the key only if it is new.
pub enqueue_latest :
    (s : State) (r : HarnessEventReport) (now : String) (limit : ℕ) (key : String)
    → let (result, next) = enqueue_in_state s r now limit in
      result.receipt.deduped ≡ some false
      → (get next.pending key
          ≡ (if coalesce_key r == key then some (queued r now) else get s.pending key))
        × (result.ready_key
            ≡ (if has s.pending (coalesce_key r) then none else some (coalesce_key r)))
unfolding enqueue_in_state
enqueue_latest s r now limit key h =
    ground (arith, get-set s.pending (coalesce_key r) key (queued r now))

-- Once a report is accepted, sending it again, at any time, is accepted as a repeat and changes
-- nothing, so a sender may retry.
pub enqueue_twice :
    (limit : ℕ) (s : System) (r : HarnessEventReport) (now later : String)
    → Inv limit s
    → (enqueue_in_state s.state r now limit).0.receipt.is_accepted ≡ true
    → let next = (enqueue_in_state s.state r now limit).1 in
      let again = enqueue_in_state next r later limit in
      (again.1 ≡ next) × (again.0.receipt.deduped ≡ some true) × (again.0.ready_key ≡ none)
unfolding enqueue_in_state
enqueue_twice limit s r now later v ok = ground (
  arith,
  remember_lem s.state r.report_id,
  contains-recent s.state.seen_report_id_order r.report_id,
)
