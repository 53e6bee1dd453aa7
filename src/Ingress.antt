-- ===== src/Ingress.antt =====
-- apps/observer/src/hooks/harnessIngressQueue.ts: the bounded queue through which harness event
-- reports reach the observer. `State` is the value in the queue's `Ref`, and the functions here are
-- its updates; Ingress/System.antt joins them with the work queue and the worker. The clock's time
-- is an argument.
pub mod System
pub mod Remembered
pub mod Invariant
pub mod Receipts
pub mod Drain
mod Tests
use Prim.Native.String.{◌++◌ as append}
use wosm.Base.{
  ℕ, suc, ◌+◌, ◌-◌, String, Bool, true, false, ◌&&◌, not, List, [], ◌∷◌, ◌++◌, Option, none, some,
  length, leb, ltb, nat_beq, ◌==◌, if◌then◌else◌, contains, add, erase, string_eq,
}
use wosm.Base.Dict.{Dict, get, has, set, delete, size}
use wosm.Contracts.Status.{SafeError, safe_error}
use wosm.Contracts.Hooks.{
  HarnessEventReportCorrelation, HarnessEventReport, ReceiptStatus, accepted, rejected,
  HarnessEventReportReceipt,
}

pub record QueuedHarnessReport : Type 0 where
  pub report : HarnessEventReport
  pub received_at : String

pub record LastDrain : Type 0 where
  pub scanned : ℕ
  pub drained : ℕ
  pub failed : ℕ
  pub finished_at : String

pub record QueueMetrics : Type 0 where
  pub enqueued : ℕ
  pub processed : ℕ
  pub coalesced : ℕ
  pub dropped : ℕ
  pub failed : ℕ
  pub last_processed_at : Option String
  pub last_error : Option SafeError
  pub last_drain : Option LastDrain

-- A waiter is a `Deferred`, named by a number.
pub record State : Type 0 where
  pub pending : Dict String QueuedHarnessReport
  pub seen_report_ids : List String
  pub seen_report_id_order : List String
  pub metrics : QueueMetrics
  pub active : ℕ
  pub shutting_down : Bool
  pub waiters : List ℕ

pub record HarnessIngressProcessResult : Type 0 where
  pub receipt : HarnessEventReportReceipt
  pub reconcile_reason : Option String

abbrev pub max_remembered_report_ids : ℕ
max_remembered_report_ids = 10_000

unfoldable pub initial_state : State
initial_state = record {
  pending = [];
  seen_report_ids = [];
  seen_report_id_order = [];
  metrics = record {
    enqueued = 0;
    processed = 0;
    coalesced = 0;
    dropped = 0;
    failed = 0;
    last_processed_at = none;
    last_error = none;
    last_drain = none;
  };
  active = 0;
  shutting_down = false;
  waiters = [];
}

unfoldable pub is_idle : State → Bool
is_idle current = nat_beq (size current.pending) 0 && nat_beq current.active 0

accepted_receipt : HarnessEventReport → String → Bool → HarnessEventReportReceipt
accepted_receipt report received_at deduped = record {
  report_id = report.report_id;
  provider = report.provider;
  event_type = report.event_type;
  is_accepted = true;
  status = accepted;
  received_at = received_at;
  projected = some false;
  scheduled_reconcile = some (not deduped);
  deduped = some deduped;
  error = none;
}

rejected_receipt : HarnessEventReport → String → SafeError → HarnessEventReportReceipt
rejected_receipt report received_at error = record {
  report_id = report.report_id;
  provider = report.provider;
  event_type = report.event_type;
  is_accepted = false;
  status = rejected;
  received_at = received_at;
  projected = some false;
  scheduled_reconcile = some false;
  deduped = none;
  error = some error;
}

abbrev or_else : Option String → String → String
or_else none d = d
or_else (some s) d = s

-- `correlation?.harnessRunId ?? … ?? report.reportId`.
stable_agent_key : Option HarnessEventReportCorrelation → String → String
stable_agent_key none report_id = report_id
stable_agent_key (some c) report_id = or_else c.harness_run_id (
    or_else c.session_id
      (or_else c.worktree_id (or_else c.terminal_target_id (or_else c.cwd report_id))))

-- `parts.join(":")`.
join_colon : List String → String
join_colon [] = ""
join_colon (s ∷ []) = s
join_colon (s ∷ t ∷ parts) = append s (append ":" (join_colon (t ∷ parts)))

unfoldable pub coalesce_key : HarnessEventReport → String
unfolding stable_agent_key join_colon
coalesce_key report = join_colon (
    report.provider
    ∷ stable_agent_key report.correlation report.report_id
    ∷ report.event_type
    ∷ or_else report.coalesce_key "-"
    ∷ [])

-- `while (order.length > max) ids.delete(order.shift())`.
trim_seen : List String → List String → List String × List String
trim_seen [] seen = ([], seen)
trim_seen (old ∷ order) seen =
    let rest = trim_seen order (erase seen old) in
    if ltb max_remembered_report_ids (suc (length order)) then rest else (old ∷ order, seen)

pub remember_report_id : State → String → List String × List String
remember_report_id current report_id =
    trim_seen (current.seen_report_id_order ++ report_id ∷ [])
      (add current.seen_report_ids report_id)

record_dropped : State → SafeError → State
record_dropped current error = record current {
  metrics = record (current.metrics) {
    dropped = current.metrics.dropped + 1;
    last_error = some error;
  };
}

abbrev pub shutting_down_error : HarnessEventReport → SafeError
shutting_down_error report =
    safe_error "CancellationError" "HARNESS_INGRESS_QUEUE_SHUTTING_DOWN"
      "Observer harness ingress queue is shutting down." (some report.provider)

abbrev pub queue_full_error : HarnessEventReport → SafeError
queue_full_error report =
    safe_error "BackpressureError" "HARNESS_INGRESS_QUEUE_FULL"
      "Observer harness ingress queue is full." (some report.provider)

pub record EnqueueResult : Type 0 where
  pub receipt : HarnessEventReportReceipt
  pub ready_key : Option String

-- The part of `enqueueInState` past its early returns.
admit : State → HarnessEventReport → String → Bool → EnqueueResult × State
admit current report received_at already_pending =
    let (order, seen) = remember_report_id current report.report_id in
    (
      record {
        receipt = accepted_receipt report received_at false;
        ready_key = if already_pending then none else some (coalesce_key report);
      },
      record current {
        pending =
            set current.pending (coalesce_key report)
              (record { report = report; received_at = received_at });
        seen_report_ids = seen;
        seen_report_id_order = order;
        metrics = record (current.metrics) {
          enqueued = current.metrics.enqueued + 1;
          coalesced =
              if already_pending then current.metrics.coalesced + 1 else current.metrics.coalesced;
        };
      },
    )

reject : State → HarnessEventReport → String → SafeError → EnqueueResult × State
reject current report received_at error = (
  record { receipt = rejected_receipt report received_at error; ready_key = none },
  record_dropped current error,
)

unfoldable pub enqueue_in_state : State → HarnessEventReport → String → ℕ → EnqueueResult × State
unfolding admit reject record_dropped accepted_receipt rejected_receipt
enqueue_in_state current report received_at max_pending_reports =
    let already_pending = has current.pending (coalesce_key report) in
    if current.shutting_down
    then reject current report received_at (shutting_down_error report)
    else if contains current.seen_report_ids report.report_id
    then (record { receipt = accepted_receipt report received_at true; ready_key = none }, current)
    else if not already_pending && leb max_pending_reports (size current.pending + current.active)
    then reject current report received_at (queue_full_error report)
    else admit current report received_at already_pending

unfoldable pub take_queued_report : State → String → Option QueuedHarnessReport × State
take_queued_report current key = elim (get current.pending key) [
  | none ↦ (none, current)
  | some queued ↦ (
    some queued,
    record current { pending = delete current.pending key; active = current.active + 1 },
  )
]

abbrev is_rejected : ReceiptStatus → Bool
is_rejected rejected = true
is_rejected _ = false

abbrev or_last {ℓ} : {A : Type ℓ} → Option A → Option A → Option A
or_last none old = old
or_last (some new) old = some new

unfoldable pub record_processed : State → HarnessIngressProcessResult → String → State
record_processed current result now = record current {
  metrics = record (current.metrics) {
    processed = current.metrics.processed + 1;
    last_processed_at = some now;
    failed =
        if is_rejected result.receipt.status
        then current.metrics.failed + 1
        else current.metrics.failed;
    last_error =
        if is_rejected result.receipt.status
        then or_last result.receipt.error current.metrics.last_error
        else current.metrics.last_error;
  };
}

unfoldable pub record_failed : State → SafeError → String → State
record_failed current error now = record current {
  metrics = record (current.metrics) {
    failed = current.metrics.failed + 1;
    last_processed_at = some now;
    last_error = some error;
  };
}

unfoldable pub record_spool_drain_in_state : State → ℕ → ℕ → ℕ → String → State
record_spool_drain_in_state current scanned drained failed now = record current {
  metrics = record (current.metrics) {
    last_drain =
        some (record { scanned = scanned; drained = drained; failed = failed; finished_at = now });
  };
}

-- `Math.max(0, active - 1)`: subtraction on ℕ stops at 0.
unfoldable pub decrement_active : State → State
decrement_active current = record current { active = current.active - 1 }
