-- ===== src/Scheduler/Service.antt =====
-- reconcileScheduler.ts: the requests, and the reconciles that serve them.
use wosm.Base.{ℕ, String, false, ◌&&◌, List, [], ◌∷◌, ◌++◌, append-nil, append_assoc, ◌≡◌, arith}
use wosm.Base.Platform.{TextMethods}
use wosm.Scheduler.{
  Scheduler, Event, request, timer_fires, reconcile_settles, new_scheduler, request_reconcile,
  start_flush, fire, finish_flush, step, run, is_running, has_timer,
}

-- Nothing that was asked for is lost or out of order, a timer runs only while no reconcile does, and
-- what is queued has one or the other ahead.
pub record Inv (s : Scheduler) : Type 0 where
  pub kept : s.requested ≡ s.served ++ s.queued_reasons
  pub apart : (is_running s && has_timer s) ≡ false
  pub awaited : is_running s ≡ false → has_timer s ≡ false → s.queued_reasons ≡ []

-- Every event keeps this: a request, the timer, and the end of a reconcile, which may fail.
pub schedule-Inv :
    (t : TextMethods) (show : ℕ → String) (s : Scheduler) (e : Event)
    → Inv s
    → Inv (step t show s e)
unfolding step request_reconcile fire start_flush finish_flush
schedule-Inv t show s (request reason now) v =
    ground (arith, append_assoc s.served s.queued_reasons (reason ∷ []))
schedule-Inv t show s (timer_fires now) v =
    ground (arith, append-nil (s.served ++ s.queued_reasons))
schedule-Inv t show s (reconcile_settles now) v = ground arith

pub new_scheduler-Inv : Inv new_scheduler
unfolding new_scheduler
new_scheduler-Inv = ground arith

run-Inv :
    (t : TextMethods) (show : ℕ → String) (s : Scheduler) (es : List Event)
    → Inv s
    → Inv (run t show s es)
unfolding run
run-Inv t show s [] v = v
run-Inv t show s (e ∷ es) v = run-Inv t show (step t show s e) es (schedule-Inv t show s e v)

drained :
    (t : TextMethods) (show : ℕ → String) (s : Scheduler) (a b c : ℕ)
    → Inv s
    → let after = run t show s (reconcile_settles a ∷ timer_fires b ∷ reconcile_settles c ∷ []) in
      (after.served ≡ s.requested) × (after.queued_reasons ≡ []) × (is_running after ≡ false)
unfolding run step fire start_flush finish_flush
drained t show s a b c v = ground (arith, append-nil s.served)

-- In any history, once the reconcile that runs has settled, the timer has fired and the next reconcile
-- has settled, every request has been handed to a reconcile, in order and once, and none is left.
pub requests_served :
    (t : TextMethods) (show : ℕ → String) (es : List Event) (a b c : ℕ)
    → let s = run t show new_scheduler es in
      let after = run t show s (reconcile_settles a ∷ timer_fires b ∷ reconcile_settles c ∷ []) in
      (after.served ≡ s.requested) × (after.queued_reasons ≡ []) × (is_running after ≡ false)
requests_served t show es a b c =
    drained t show (run t show new_scheduler es) a b c
      (run-Inv t show new_scheduler es new_scheduler-Inv)
