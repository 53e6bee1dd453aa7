-- ===== src/Hooks/Tests.antt =====
-- Hooks and reports of the observer at concrete inputs.
use wosm.Base.{
  String, Bool, true, false, List, [], ◌∷◌, none, some, ◌≡◌, refl, ◌==◌, string_eq, length,
}
use wosm.Base.Dict.{get}
use wosm.Base.Sort.{sort}
use wosm.Contracts.Status.{SafeError, safe_error}
use wosm.Contracts.Hooks.{
  ProviderHookEvent, harness_hook_kind, HarnessEventReport, HarnessEventReportCorrelation,
  ProviderHookSpoolRecord,
}
use wosm.Hooks.{Store, Attempt, done, threw}
use wosm.Hooks.Ingestion.{HookCall, ingest_hook, ingested_hook_receipt}
use wosm.Hooks.Reports.{
  ReportCall, report_receipt, rejected_report_receipt, ingest_report,
  session_recovery_handle_from_report, handle_of,
}
use wosm.Hooks.Spool.{written, SpoolDisk, hook_file, SpoolDir, drain_provider_ingress_spool}
use wosm.Hooks.Once.{Arrival, hook_arrival, report_arrival, take_all, Recorded, take_all-Recorded}
use wosm.Hooks.Repeats.{ingest_hook-repeat, ingest_report-lost}
use wosm.Hooks.Process.{Projection, observer_ingress}
use wosm.Hooks.Kept.{Kept}
use wosm.Hooks.Unlost.{drain-Kept}

abbrev empty_store : Store
empty_store = record {
  dedupe = [];
  events = [];
  observations = [];
  handles = [];
  published = [];
  reconciles = [];
}

abbrev disk_full : SafeError
disk_full = safe_error "PersistenceError" "PERSISTENCE_FAILED" "The disk is full." none

abbrev works : HookCall
works = record {
  fresh_id = "hook_9";
  transaction = none;
  providers = none;
  current = λ os. os;
  timeout = none;
  failure = disk_full;
  write = λ o. none;
  trigger_reconcile = none;
  has_callback = true;
}

abbrev fails : HookCall
fails = record works { transaction = some disk_full }

abbrev stop : ProviderHookEvent
stop = record {
  hook_id = some "hook_1";
  provider = "claude";
  kind = harness_hook_kind;
  event = "Stop";
  received_at = "2026-01-01T00:00:00.000Z";
  project_id = none;
  worktree_id = none;
  session_id = none;
  payload = none;
}

abbrev located : HarnessEventReportCorrelation
located = record {
  project_id = some "p";
  worktree_id = some "w";
  session_id = none;
  terminal_target_id = none;
  harness_run_id = none;
  native_session_id = some "native";
  native_session_file = none;
  cwd = none;
  pid = none;
}

abbrev started : HarnessEventReport
started = record {
  report_id = "report_1";
  provider = "claude";
  event_type = "SessionStart";
  observed_at = "2026-01-01T00:00:00.000Z";
  coalesce_key = none;
  status = none;
  correlation = some located;
  diagnostics = none;
  provider_data = none;
}

abbrev report_works : ReportCall
report_works = record {
  received_at = "2026-01-01T00:00:01.000Z";
  transaction = none;
  upsert = none;
  handle_id = λ h. h.target_value;
  not_after = λ a b. true;
  raw_type = λ d. none;
  trigger_reconcile = none;
  has_callback = true;
}

abbrev handle_throws : ReportCall
handle_throws = record report_works { upsert = some disk_full }

abbrev arrivals : List Arrival
arrivals =
    hook_arrival fails stop
    ∷ hook_arrival works stop
    ∷ report_arrival report_works started
    ∷ hook_arrival works stop
    ∷ []

-- The failed transaction leaves nothing, and the second delivery adds nothing.
arrivals-recorded : length (take_all empty_store arrivals).events ≡ 2
unfolding take_all
arrivals-recorded = refl

arrivals-reconciles : length (take_all empty_store arrivals).reconciles ≡ 2
unfolding take_all
arrivals-reconciles = refl

-- A report that names a file or a native id leaves a handle.
started-handle :
    session_recovery_handle_from_report started
    ≡ some (handle_of started located "p" "w" ("native-session", "native"))
unfolding session_recovery_handle_from_report
started-handle = refl

abbrev waiting : ProviderHookSpoolRecord
waiting = record {
  spool_id = "spool_1";
  created_at = "2026-01-01T00:00:00.000Z";
  event = stop;
  attempts = 0;
  last_error = none;
}

abbrev spool : SpoolDir
spool = ("b.json", hook_file waiting) ∷ ("note.txt", hook_file waiting) ∷ []

abbrev json : String → Bool
json name = name == "b.json"

abbrev nothing_projected : Store → HarnessEventReport → Attempt Projection
nothing_projected s r = threw disk_full

abbrev works_well : SpoolDisk
works_well = record {
  unlink = λ name. none;
  write_file = λ name. written;
  write_file_again = λ name. written;
}

-- What fails waits with one more attempt.
waits_again :
    get
      (drain_provider_ingress_spool
        (observer_ingress (λ s e. fails) (λ s r. report_works) nothing_projected)
        works_well
        json
        "now"
        spool
        empty_store).state.files
      "b.json"
    ≡ some (hook_file (record waiting { attempts = 1; last_error = some disk_full }))
unfolding drain_provider_ingress_spool observer_ingress sort
waits_again = refl

take_all-Recorded_example : Recorded (take_all empty_store arrivals)
take_all-Recorded_example =
    take_all-Recorded arrivals empty_store
      (record { known = tt; events = refl; published = tt; only_known = tt })

ingest_hook-repeat_example :
    let now = take_all (ingest_hook works empty_store stop).0 arrivals in
    ingest_hook works now stop ≡ (now, done (ingested_hook_receipt "hook_1" stop true))
ingest_hook-repeat_example = ingest_hook-repeat works works empty_store stop arrivals refl refl

ingest_report-lost_example :
    let a = ingest_report handle_throws empty_store started in
    let now = take_all (a.0) arrivals in
    (a.1 ≡ rejected_report_receipt handle_throws started disk_full)
    × ((a.0).published ≡ [])
    × ((a.0).handles ≡ [])
    × (ingest_report report_works now started
        ≡ (now, record (report_receipt report_works started false) { deduped = some true }))
ingest_report-lost_example =
    ingest_report-lost handle_throws report_works empty_store started
      (handle_of started located "p" "w" ("native-session", "native")) disk_full arrivals refl refl
      refl started-handle refl

drain-Kept_example :
    Kept works_well
      (drain_provider_ingress_spool
        (observer_ingress (λ s e. works) (λ s r. report_works) nothing_projected)
        works_well
        json
        "now"
        spool
        empty_store).state
      "b.json"
      stop
      "hook_1"
drain-Kept_example =
    drain-Kept (λ s e. works) (λ s r. report_works) nothing_projected works_well json "now" spool
      empty_store "b.json" stop "hook_1" refl (refl, (refl, tt)) (waiting, refl, refl)
