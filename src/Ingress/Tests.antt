-- ===== src/Ingress/Tests.antt =====
-- Runs of the ingress queue on concrete reports.
use wosm.Base.{
  ◌+◌, ◌≡◌, refl, String, [], ◌∷◌, ◌++◌, Option, none, some, ◌||◌, ◌&&◌, not, contains, ltb,
  string_eq,
}
use wosm.Base.Dict.{size, has}
use wosm.Contracts.Hooks.{HarnessEventReport, HarnessEventReportCorrelation}
use wosm.Contracts.Status.{safe_error}
use wosm.Ingress.{coalesce_key, enqueue_in_state, initial_state, remember_report_id, trim_seen}
use wosm.Ingress.System.{System, threw, enqueue, take, drain, new_system, step, run}
use wosm.Ingress.Invariant.{Inv, new_system-Inv, step-Inv, run-Inv}
use wosm.Ingress.Receipts.{enqueue_decision}
use wosm.Ingress.Drain.{to_the_end, drain_releases}

abbrev run_7 : HarnessEventReportCorrelation
run_7 = record {
  harness_run_id = some "run_7";
  session_id = none;
  worktree_id = some "wt_1";
  terminal_target_id = none;
  project_id = none;
  native_session_id = none;
  native_session_file = none;
  cwd = none;
  pid = none;
}

abbrev report : String → Option HarnessEventReportCorrelation → HarnessEventReport
report id correlation = record {
  report_id = id;
  provider = "codex";
  event_type = "Stop";
  observed_at = "2026-01-01T00:00:00.000Z";
  coalesce_key = none;
  status = none;
  correlation = correlation;
  diagnostics = none;
  provider_data = none;
}

key_of_run : coalesce_key (report "r1" (some run_7)) ≡ "codex:run_7:Stop:-"
unfolding coalesce_key
key_of_run = refl

key_of_bare_report : coalesce_key (report "r1" none) ≡ "codex:r1:Stop:-"
unfolding coalesce_key
key_of_bare_report = refl

-- Two reports of one run coalesce; a third, of its own, does not fit a queue of one.
abbrev busy : System
busy = run 1 new_system (
    enqueue (report "r1" (some run_7)) "t1"
    ∷ enqueue (report "r2" (some run_7)) "t2"
    ∷ enqueue (report "r3" none) "t3"
    ∷ [])

busy_counts :
    (busy.work ≡ "codex:run_7:Stop:-" ∷ [])
    × (busy.state.metrics.enqueued ≡ 2)
    × (busy.state.metrics.coalesced ≡ 1)
    × (busy.state.metrics.dropped ≡ 1)
unfolding run step new_system initial_state enqueue_in_state remember_report_id trim_seen
    coalesce_key
busy_counts = (refl, refl, refl, refl)

busy-Inv : Inv 1 busy
busy-Inv = run-Inv 1 new_system _ (new_system-Inv 1)

step-Inv_example : Inv 1 (step 1 busy take)
step-Inv_example = step-Inv 1 busy take busy-Inv

enqueue_decision_example :
    (enqueue_in_state busy.state (report "r4" none) "t4" 1).0.receipt.is_accepted ≡ (
      not busy.state.shutting_down
      && (contains busy.state.seen_report_ids "r4"
          || (has busy.state.pending (coalesce_key (report "r4" none))
              || ltb (size busy.state.pending + busy.state.active) 1)))
enqueue_decision_example = (enqueue_decision busy.state (report "r4" none) "t4" 1).0

drain_releases_example :
    (run 1 (step 1 busy (drain 9)) (
      to_the_end busy.worker
        (threw (safe_error "T" "C" "m" none))
        "t6"
        ((threw (safe_error "T" "C" "m" none), "t7") ∷ []))).released
    ≡ (busy.released ++ busy.state.waiters) ++ 9 ∷ []
unfolding run step new_system initial_state enqueue_in_state remember_report_id trim_seen
    coalesce_key
drain_releases_example =
    (drain_releases 1 busy 9 (threw (safe_error "T" "C" "m" none)) "t6"
      ((threw (safe_error "T" "C" "m" none), "t7") ∷ []) busy-Inv refl).3
