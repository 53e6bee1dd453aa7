-- ===== src/Hooks/Reports.antt =====
-- apps/observer/src/hooks/ingestion.ts, `createHarnessEventReportIngestion`, and the upsert of
-- persistence/sessionRecoveryHandles.ts: a report is recorded once, as an event and an observation, and
-- may leave a handle by which its session is resumed. The handle's id is a digest of its provider and
-- target, and a parameter.
use Prim.Native.String.{◌++◌ as append}
use wosm.Base.{
  String, Bool, true, false, ◌&&◌, List, [], ◌∷◌, ◌++◌, Option, none, some, ◌==◌, string_eq,
  if◌then◌else◌,
}
use wosm.Contracts.Status.{SafeError}
use wosm.Contracts.Events.{WosmEvent, harness_event_reported}
use wosm.Contracts.Hooks.{
  HarnessEventReport, HarnessEventReportCorrelation, HarnessEventReportReceipt, accepted, rejected,
}
use wosm.Contracts.Runtime.{HarnessEventObservation, SessionRecoveryHandle}
use wosm.Hooks.{
  Store, IngressDedupeKey, harness_report, claim_ingress_dedupe_key, ObservationRecord,
  harness_payload, publish, call_on_reconcile,
}
use wosm.Hooks.Routing.{first_of}
use wosm.Hooks.Ingestion.{or_true}

-- `report.correlation?.field`.
abbrev pub from_correlation {ℓ} :
    {A : Type ℓ} → HarnessEventReport → (HarnessEventReportCorrelation → Option A) → Option A
from_correlation r field = elim (r.correlation) [ none ↦ none | some c ↦ field c ]

-- The raw event type of the diagnostics, which are a text here, is a function.
unfoldable pub harness_event_observation_from_report :
    (String → Option String) → HarnessEventReport → HarnessEventObservation
harness_event_observation_from_report raw_type r = record {
  provider = r.provider;
  report_id = some r.report_id;
  event_type = some r.event_type;
  project_id = from_correlation r (λ c. c.project_id);
  session_id = from_correlation r (λ c. c.session_id);
  worktree_id = from_correlation r (λ c. c.worktree_id);
  terminal_target_id = from_correlation r (λ c. c.terminal_target_id);
  harness_run_id = from_correlation r (λ c. c.harness_run_id);
  native_session_id = from_correlation r (λ c. c.native_session_id);
  native_session_file = from_correlation r (λ c. c.native_session_file);
  cwd = from_correlation r (λ c. c.cwd);
  pid = from_correlation r (λ c. c.pid);
  status = r.status;
  raw_event_type = elim (r.diagnostics) [ none ↦ none | some d ↦ raw_type d ];
  diagnostics = r.diagnostics;
  provider_data = r.provider_data;
  observed_at = r.observed_at;
}

-- The target: a session's file, or else its native id.
abbrev pub resume_target : HarnessEventReportCorrelation → Option (String × String)
resume_target c = elim (c.native_session_file) [
  | some path ↦ some ("session-file", path)
  | none ↦ elim (c.native_session_id) [ none ↦ none | some id ↦ some ("native-session", id) ]
]

abbrev pub handle_of :
    HarnessEventReport
    → HarnessEventReportCorrelation
    → String
    → String
    → String × String
    → SessionRecoveryHandle
handle_of r c project_id worktree_id target = record {
  id = r.report_id;
  provider = r.provider;
  project_id = project_id;
  worktree_id = worktree_id;
  session_id = c.session_id;
  target_kind = target.0;
  target_value = target.1;
  cwd = c.cwd;
  terminal_target_id = c.terminal_target_id;
  harness_run_id = c.harness_run_id;
  observed_at = r.observed_at;
  last_seen_at = r.observed_at;
}

unfoldable pub session_recovery_handle_from_report :
    HarnessEventReport → Option SessionRecoveryHandle
session_recovery_handle_from_report r = elim (r.correlation) [
  | none ↦ none
  | some c ↦ elim (c.project_id) [
    | none ↦ none
    | some project_id ↦ elim (c.worktree_id) [
      | none ↦ none
      | some worktree_id ↦ elim (resume_target c) [
        | none ↦ none
        | some target ↦ some (handle_of r c project_id worktree_id target)
      ]
    ]
  ]
]

unfoldable pub harness_event_report_entity_key : HarnessEventReport → String
harness_event_report_entity_key r =
    first_of
      (from_correlation r (λ c. c.harness_run_id)
        ∷ from_correlation r (λ c. c.session_id)
        ∷ from_correlation r (λ c. c.worktree_id)
        ∷ [])
      r.report_id

-- `ON CONFLICT(provider, target_kind, target_value)`.
abbrev pub same_target : SessionRecoveryHandle → SessionRecoveryHandle → Bool
same_target a b =
    (a.provider == b.provider)
    && ((a.target_kind == b.target_kind) && (a.target_value == b.target_value))

abbrev pub coalesce {ℓ} : {A : Type ℓ} → Option A → Option A → Option A
coalesce none old = old
coalesce (some a) old = some a

-- `DO UPDATE SET`, with the order of timestamps in the database.
abbrev pub refreshed_handle :
    (String → String → Bool) → SessionRecoveryHandle → SessionRecoveryHandle → SessionRecoveryHandle
refreshed_handle not_after old new = record new {
  session_id = coalesce new.session_id old.session_id;
  cwd = coalesce new.cwd old.cwd;
  terminal_target_id = coalesce new.terminal_target_id old.terminal_target_id;
  harness_run_id = coalesce new.harness_run_id old.harness_run_id;
  observed_at =
      if not_after old.observed_at new.observed_at then old.observed_at else new.observed_at;
}

unfoldable pub upsert_session_recovery_handle :
    (String → String → Bool)
    → List SessionRecoveryHandle
    → SessionRecoveryHandle
    → List SessionRecoveryHandle
upsert_session_recovery_handle not_after [] new = new ∷ []
upsert_session_recovery_handle not_after (old ∷ handles) new =
    let rest = old ∷ upsert_session_recovery_handle not_after handles new in
    if same_target old new then refreshed_handle not_after old new ∷ handles else rest

-- What a call meets: the errors of the transaction and of the upsert, and the parameters above.
pub record ReportCall : Type 0 where
  pub received_at : String
  pub transaction : Option SafeError
  pub upsert : Option SafeError
  pub handle_id : SessionRecoveryHandle → String
  pub not_after : String → String → Bool
  pub raw_type : String → Option String
  pub trigger_reconcile : Option Bool
  pub has_callback : Bool

abbrev pub report_key : HarnessEventReport → IngressDedupeKey
report_key r = record { kind = harness_report; id = r.report_id }

abbrev pub reported_event : HarnessEventReport → WosmEvent
reported_event r = harness_event_reported r.observed_at r.report_id r.provider r.event_type

abbrev pub report_observation : ReportCall → HarnessEventReport → ObservationRecord
report_observation call r = record {
  provider = r.provider;
  provider_type = "harness";
  entity_kind = "harness_event";
  entity_key = harness_event_report_entity_key r;
  payload = harness_payload (harness_event_observation_from_report call.raw_type r);
  observed_at = r.observed_at;
}

abbrev pub report_receipt : ReportCall → HarnessEventReport → Bool → HarnessEventReportReceipt
report_receipt call r scheduled = record {
  report_id = r.report_id;
  provider = r.provider;
  event_type = r.event_type;
  is_accepted = true;
  status = accepted;
  received_at = call.received_at;
  projected = some false;
  scheduled_reconcile = some scheduled;
  deduped = none;
  error = none;
}

abbrev pub rejected_report_receipt :
    ReportCall → HarnessEventReport → SafeError → HarnessEventReportReceipt
rejected_report_receipt call r error = record (report_receipt call r false) {
  is_accepted = false;
  status = rejected;
  error = some error;
}

-- `recordEventAndProviderObservationWithIngressDedupe`.
unfoldable pub record_report : ReportCall → Store → HarnessEventReport → Store × Bool
unfolding claim_ingress_dedupe_key
record_report call s r =
    let claim = claim_ingress_dedupe_key s (report_key r) in
    if claim.1
    then (
      record (claim.0) {
        events = s.events ++ reported_event r ∷ [];
        observations = s.observations ++ report_observation call r ∷ [];
      },
      true,
    )
    else (s, false)

-- The handle is stored after the transaction, in the same boundary.
abbrev pub keep_handle : ReportCall → Store → HarnessEventReport → Store × Option SafeError
keep_handle call s r = elim (session_recovery_handle_from_report r) [
  | none ↦ (s, none)
  | some h ↦ elim (call.upsert) [
    | some e ↦ (s, some e)
    | none ↦ (
      record s {
        handles =
            upsert_session_recovery_handle call.not_after s.handles
              (record h { id = call.handle_id h });
      },
      none,
    )
  ]
]

abbrev pub finish_report_ingest :
    ReportCall → HarnessEventReport → Store × Option SafeError → Store × HarnessEventReportReceipt
finish_report_ingest call r (s, some error) = (s, rejected_report_receipt call r error)
finish_report_ingest call r (s, none) =
    let wanted = or_true call.trigger_reconcile && call.has_callback in
    (
      call_on_reconcile wanted (publish s (reported_event r))
          (append "harness-report:" (append r.provider (append ":" r.event_type))),
      record (report_receipt call r wanted) { deduped = some false },
    )

unfoldable pub ingest_report :
    ReportCall → Store → HarnessEventReport → Store × HarnessEventReportReceipt
unfolding record_report session_recovery_handle_from_report upsert_session_recovery_handle
ingest_report call s r =
    let result = record_report call s r in
    let rest = finish_report_ingest call r (keep_handle call (result.0) r) in
    elim (call.transaction) [
      | some error ↦ (s, rejected_report_receipt call r error)
      | none ↦
          if result.1
          then rest
          else (s, record (report_receipt call r false) { deduped = some true })
    ]
