-- ===== src/Overlays/Tests.antt =====
-- Two runs of one provider, of which the second has exited, and events for both.
use wosm.Base.{◌≤◌, String, false, List, [], ◌∷◌, none, some, get_elem?, ◌⊎◌, ◌≡◌, refl, arith}
use wosm.Base.Platform.{by_length, by_length-IsConsistent}
use wosm.Contracts.Status.{AgentState, working, idle, exited, high}
use wosm.Contracts.Runtime.{ObserverHarnessRun}
use wosm.Samples
use wosm.Overlays.{
  PersistedProviderObservation, StatusOverlay, apply_status_overlay,
  apply_harness_event_status_overlays,
}
use wosm.Overlays.Latest.{IsOrder, LatestOf, given, latest_overlay}
use wosm.Overlays.Exits.{exit_kept}

lengths-IsOrder : IsOrder by_length
lengths-IsOrder = record {
  consistent = by_length-IsConsistent;
  transitive = λ a b c h k. ground arith;
}

abbrev run : String → AgentState → ObserverHarnessRun
run id state = record {
  run = record {
    id = id;
    provider = "codex";
    project_id = none;
    worktree_id = none;
    session_id = none;
    pid = none;
    cwd = none;
    state = state;
    confidence = high;
    reason = "seen";
    observed_at = "t1";
    provider_data = none;
  };
  status = Samples.status state "time";
}

abbrev event : String → String → String → PersistedProviderObservation
event id run_id at = record {
  id = id;
  provider = "codex";
  entity_kind = "harness_event";
  payload = some (record {
    provider = "codex";
    report_id = none;
    event_type = none;
    project_id = none;
    session_id = none;
    worktree_id = none;
    terminal_target_id = none;
    harness_run_id = some run_id;
    native_session_id = none;
    native_session_file = none;
    cwd = none;
    pid = none;
    status = some (Samples.status idle at);
    raw_event_type = none;
    diagnostics = none;
    provider_data = none;
    observed_at = at;
  });
  observed_at = at;
  expired = false;
}

abbrev runs : List ObserverHarnessRun
runs = run "run_1" working ∷ run "run_2" exited ∷ []

abbrev events : List PersistedProviderObservation
events = event "o1" "run_1" "later" ∷ event "o2" "run_1" "t1" ∷ event "o3" "run_2" "t1" ∷ []

latest_overlay_example :
    let xs = given by_length runs "run_1" events in
    let after = get_elem? (apply_harness_event_status_overlays by_length runs events) 0 in
    (xs ≡ []) × (after ≡ some (run "run_1" working))
    ⊎ ((c : StatusOverlay) × LatestOf by_length c xs
        × (after ≡ some (apply_status_overlay (run "run_1" working) c)))
latest_overlay_example =
    latest_overlay by_length runs events 0 (run "run_1" working) lengths-IsOrder refl

exit_kept_example :
    (after : ObserverHarnessRun) × (get_elem?
        (apply_harness_event_status_overlays by_length runs events)
        1
      ≡ some after)
    × (after.run.id ≡ "run_2")
    × (by_length.date_parse "time" ≤ by_length.date_parse after.status.updated_at)
exit_kept_example =
    exit_kept by_length runs events 1 (run "run_2" exited) lengths-IsOrder (refl, (refl, tt)) refl
      refl refl
