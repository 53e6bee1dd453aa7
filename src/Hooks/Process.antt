-- ===== src/Hooks/Process.antt =====
-- apps/observer/src/runtime/api.ts, `processHarnessIngressReportInner` and what the spool drain hands its
-- records to: a report that is new is ingested and then projected on the statuses. What the core's
-- `projectHarnessEventStatus` answers, inside its boundary, is a parameter.
use Prim.Native.String.{◌++◌ as append}
use wosm.Base.{
  String, Bool, true, false, not, ◌||◌, List, [], ◌∷◌, ◌++◌, Option, none, some, if◌then◌else◌,
  arith, ◌≡◌, refl,
}
use wosm.Contracts.Events.{WosmEvent}
use wosm.Contracts.Hooks.{ProviderHookEvent, HarnessEventReport, HarnessEventReportReceipt}
use wosm.Hooks.{Store, Attempt, done, threw}
use wosm.Hooks.Ingestion.{HookCall, ingest_hook}
use wosm.Hooks.Reports.{ReportCall, ingest_report}
use wosm.Hooks.Spool.{SpoolIngress}
use wosm.Ingress.{HarnessIngressProcessResult}

pub record Projection : Type 0 where
  pub projected : Bool
  pub events : List WosmEvent

abbrev pub is_repeat : Option Bool → Bool
is_repeat none = false
is_repeat (some b) = b

abbrev pub reason_of : HarnessEventReport → String
reason_of r = append "harness-report:" (append r.provider (append ":" r.event_type))

abbrev pub project_report :
    HarnessEventReport
    → Store
    → HarnessEventReportReceipt
    → Attempt Projection
    → Store × HarnessIngressProcessResult
project_report r s receipt (threw error) = (
  s,
  record {
    receipt = record receipt {
      projected = some false;
      scheduled_reconcile = some true;
      error = some error;
    };
    reconcile_reason = some (reason_of r);
  },
)
project_report r s receipt (done p) = (
  record s { published = s.published ++ p.events },
  record {
    receipt = record receipt { projected = some p.projected; scheduled_reconcile = some true };
    reconcile_reason = some (reason_of r);
  },
)

abbrev pub without_reconcile : ReportCall → ReportCall
without_reconcile call = record call { trigger_reconcile = some false }

unfoldable pub process_harness_ingress_report :
    ReportCall
    → (Store → HarnessEventReport → Attempt Projection)
    → Store
    → HarnessEventReport
    → Store × HarnessIngressProcessResult
unfolding ingest_report
process_harness_ingress_report call project s r =
    let answer = ingest_report (without_reconcile call) s r in
    let receipt = answer.1 in
    if not receipt.is_accepted || is_repeat receipt.deduped
    then (answer.0, record { receipt = receipt; reconcile_reason = none })
    else project_report r (answer.0) receipt (project (answer.0) r)

-- `reconcileScheduler.request(reason)` of the drain.
abbrev pub request_reason : Store → Option String → Store
request_reason s none = s
request_reason s (some reason) = record s { reconciles = s.reconciles ++ reason ∷ [] }

-- What the observer hands the records of its spool to; each meets a call of its own.
unfoldable pub observer_ingress :
    (Store → ProviderHookEvent → HookCall)
    → (Store → HarnessEventReport → ReportCall)
    → (Store → HarnessEventReport → Attempt Projection)
    → SpoolIngress Store
unfolding ingest_hook process_harness_ingress_report
observer_ingress hook_call report_call project = record {
  ingest = λ s e. ingest_hook (record (hook_call s e) { trigger_reconcile = some false }) s e;
  report = some (λ s r.
      let answer = process_harness_ingress_report (report_call s r) project s r in
      (request_reason (answer.0) (answer.1.reconcile_reason), done (answer.1.receipt)));
}

project-dedupe :
    (r : HarnessEventReport) (s : Store) (receipt : HarnessEventReportReceipt)
    (a : Attempt Projection)
    → (project_report r s receipt a).0.dedupe ≡ s.dedupe
project-dedupe r s receipt (threw e) = refl
project-dedupe r s receipt (done p) = refl

-- The projection claims nothing.
pub process-dedupe :
    (call : ReportCall) (project : Store → HarnessEventReport → Attempt Projection) (s : Store)
    (r : HarnessEventReport)
    → (process_harness_ingress_report call project s r).0.dedupe
      ≡ (ingest_report (without_reconcile call) s r).0.dedupe
unfolding process_harness_ingress_report
process-dedupe call project s r =
    let answer = ingest_report (without_reconcile call) s r in
    ground (arith, project-dedupe r (answer.0) (answer.1) (project (answer.0) r))
