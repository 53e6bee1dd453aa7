-- ===== src/Ingress/Invariant.antt =====
-- harnessIngressQueue.ts: what holds of the queue between any two of its updates.
use wosm.Base.{
  ℕ, ◌+◌, ◌≤◌, ◌≡◌, refl, String, true, List, [], ◌∷◌, ◌++◌, arith, length, length-append,
  IsDistinct, append-IsDistinct, string_eq, some, ◌≢◌, ==-refl,
}
use wosm.Base.Dict.{Dict, keys, size, get, delete, keys-set, size-set}
use wosm.Contracts.Hooks.{HarnessEventReport}
use wosm.Ingress.{
  max_remembered_report_ids, is_idle, coalesce_key, enqueue_in_state, take_queued_report,
  record_processed, record_failed, record_spool_drain_in_state, decrement_active,
  QueuedHarnessReport,
}
use wosm.Ingress.System.{
  System, Event, Worker, waiting, processing, recorded, enqueue, take, finish, settle, drain,
  shutdown, spool_drain, new_system, step, run, Outcome, health,
}
use wosm.Ingress.Remembered.{remember_lem, length-recent, recent-IsDistinct}

-- The reports that the worker has taken: those counted by `active`, and those not yet recorded.
abbrev pub taken : Worker → ℕ
taken waiting = 0
taken (processing _) = 1
taken (recorded _) = 1

abbrev pub unrecorded : Worker → ℕ
unrecorded (processing _) = 1
unrecorded _ = 0

worker_counts : (w : Worker) → (taken w ≤ 1) × (unrecorded w ≤ taken w)
worker_counts waiting = omega arith
worker_counts (processing _) = omega arith
worker_counts (recorded _) = omega arith

pub record Inv (limit : ℕ) (s : System) : Type 0 where
  pub tracked : s.work ≡ keys s.state.pending
  pub distinct : IsDistinct (keys s.state.pending)
  pub same_ids : s.state.seen_report_ids ≡ s.state.seen_report_id_order
  pub distinct_ids : IsDistinct s.state.seen_report_id_order
  pub bounded_ids : length s.state.seen_report_id_order ≤ max_remembered_report_ids
  pub within : size s.state.pending + s.state.active ≤ limit
  pub one_active : s.state.active ≡ taken s.worker
  pub released_when_idle : is_idle s.state ≡ true → s.state.waiters ≡ []
  pub accounted_above :
      s.state.metrics.enqueued
      ≤ s.state.metrics.coalesced
        + size s.state.pending
        + unrecorded s.worker
        + s.state.metrics.processed
        + s.state.metrics.failed
  pub accounted_below :
      s.state.metrics.coalesced
        + size s.state.pending
        + unrecorded s.worker
        + s.state.metrics.processed
      ≤ s.state.metrics.enqueued

pub new_system-Inv : (limit : ℕ) → Inv limit new_system
unfolding new_system is_idle
new_system-Inv limit = ground arith

enqueue-Inv :
    (limit : ℕ) (s : System) (r : HarnessEventReport) (now : String)
    → Inv limit s
    → Inv limit (step limit s (enqueue r now))
unfolding step enqueue_in_state is_idle
enqueue-Inv limit s r now v =
    let m = s.state.pending in
    ground (
      arith,
      keys-set m (coalesce_key r) (record { report = r; received_at = now }),
      size-set m (coalesce_key r) (record { report = r; received_at = now }),
      remember_lem s.state r.report_id,
      append-IsDistinct (keys m) (coalesce_key r),
      append-IsDistinct s.state.seen_report_id_order r.report_id,
      length-append s.state.seen_report_id_order (r.report_id ∷ []),
      length-recent (s.state.seen_report_id_order ++ r.report_id ∷ []),
      recent-IsDistinct (s.state.seen_report_id_order ++ r.report_id ∷ []),
    )

spool_drain-Inv :
    (limit : ℕ) (s : System) (a b c : ℕ) (now : String)
    → Inv limit s
    → Inv limit (step limit s (spool_drain a b c now))
unfolding step record_spool_drain_in_state is_idle
spool_drain-Inv limit s a b c now v = ground arith

-- The first key is pending, and deleting it leaves the rest in place.
pub take_head :
    (work : List String) (m : Dict String QueuedHarnessReport)
    → work ≡ keys m
    → work ≢ []
    → (k : String) × (q : QueuedHarnessReport) × (rest : Dict String QueuedHarnessReport) × (work
        ≡ k ∷ keys rest)
      × (m ≡ (k, q) ∷ rest)
      × (get m k ≡ some q)
      × (delete m k ≡ rest)
take_head work [] h ne = absurd (ne h)
take_head work ((k, q) ∷ rest) h ne =
    (k, q, rest, h, refl, ground (arith, ==-refl k), ground (arith, ==-refl k))

take-Inv : (limit : ℕ) (s : System) → Inv limit s → Inv limit (step limit s take)
unfolding step take_queued_report is_idle
take-Inv limit s v = ground (arith, take_head s.work s.state.pending)

finish-Inv :
    (limit : ℕ) (s : System) (o : Outcome) (now : String)
    → Inv limit s
    → Inv limit (step limit s (finish o now))
unfolding step record_processed record_failed is_idle
finish-Inv limit s o now v = ground arith

settle-Inv : (limit : ℕ) (s : System) → Inv limit s → Inv limit (step limit s settle)
unfolding step decrement_active is_idle
settle-Inv limit s v = ground arith

drain-Inv : (limit : ℕ) (s : System) (w : ℕ) → Inv limit s → Inv limit (step limit s (drain w))
unfolding step is_idle
drain-Inv limit s w v = ground arith

shutdown-Inv : (limit : ℕ) (s : System) → Inv limit s → Inv limit (step limit s shutdown)
unfolding step is_idle
shutdown-Inv limit s v = ground arith

-- Every update, by a client, by the worker or by the spool, keeps the invariant: the work queue holds
-- exactly the keys that are pending, the depth stays within the limit, the remembered ids stay within
-- theirs, no waiter is left behind on an idle queue, and the counters account for every report.
pub step-Inv : (limit : ℕ) (s : System) (e : Event) → Inv limit s → Inv limit (step limit s e)
step-Inv limit s (enqueue r now) v = enqueue-Inv limit s r now v
step-Inv limit s take v = take-Inv limit s v
step-Inv limit s (finish o now) v = finish-Inv limit s o now v
step-Inv limit s settle v = settle-Inv limit s v
step-Inv limit s (drain w) v = drain-Inv limit s w v
step-Inv limit s shutdown v = shutdown-Inv limit s v
step-Inv limit s (spool_drain a b c now) v = spool_drain-Inv limit s a b c now v

pub run-Inv : (limit : ℕ) (s : System) (es : List Event) → Inv limit s → Inv limit (run limit s es)
unfolding run
run-Inv limit s [] v = v
run-Inv limit s (e ∷ es) v = run-Inv limit (step limit s e) es (step-Inv limit s e v)

-- After any history of a queue that started empty, the depth that `health` reports is within the
-- limit, the worker has at most one report, and every report that was let in is coalesced, pending
-- with the worker, processed or failed.
pub health_bounded :
    (limit : ℕ) (es : List Event)
    → let s = run limit new_system es in
      let h = health s.state in
      (h.depth ≤ limit)
      × (s.state.active ≤ 1)
      × (h.enqueued ≤ h.coalesced + h.depth + h.processed + h.failed)
      × (h.coalesced + size s.state.pending + h.processed ≤ h.enqueued)
unfolding health
health_bounded limit es =
    let v = run-Inv limit new_system es (new_system-Inv limit) in
    ground (arith, worker_counts (run limit new_system es).worker, v)
