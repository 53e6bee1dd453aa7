-- ===== src/Overlays.antt =====
-- apps/observer/src/reconcile/harnessEventStatus.ts: the statuses that harness events report, laid over
-- the runs that were observed. An observation's payload is what HarnessEventObservationSchema.safeParse
-- makes of it, `none` where it fails.
pub mod Latest
pub mod Exits
mod Tests
use Prim.Native.Nat.{compare, Ordering}
use wosm.Base.{
  ℕ, String, Bool, true, false, not, ◌&&◌, ◌||◌, List, [], ◌∷◌, map, Option, none, some, filter,
  ltb, ◌==◌, string_eq, option_eq, if◌then◌else◌,
}
use wosm.Base.Dict.{Dict, get, set}
use wosm.Base.Sort.{or_compare}
use wosm.Base.Platform.{Platform}
use wosm.Contracts.Status.{ObservedStatus, high, exited, unknown, confidence_eq, agent_state_eq}
use wosm.Contracts.Runtime.{HarnessEventObservation, HarnessRunObservation, ObserverHarnessRun}

pub record PersistedProviderObservation : Type 0 where
  pub id : String
  pub provider : String
  pub entity_kind : String
  pub payload : Option HarnessEventObservation
  pub observed_at : String
  pub expired : Bool

pub data CorrelatedBy : Type 0 where
  by_harness_run_id by_session_id by_worktree_id : CorrelatedBy

pub record StatusOverlay : Type 0 where
  pub status : ObservedStatus
  pub raw_event_type : Option String
  pub correlated_by : CorrelatedBy
  pub observed_at : String
  pub observation_id : String

unfoldable pub single_correlation :
    List ObserverHarnessRun → CorrelatedBy → Option (ObserverHarnessRun × CorrelatedBy)
single_correlation (run ∷ []) correlated_by = some (run, correlated_by)
single_correlation _ correlated_by = none

unfoldable pub correlate_harness_event :
    HarnessEventObservation → List ObserverHarnessRun → Option (ObserverHarnessRun × CorrelatedBy)
unfolding single_correlation
correlate_harness_event event runs =
    let provider_runs = filter (λ run. run.run.provider == event.provider) runs in
    elim (event.harness_run_id) [
      | some id ↦
          single_correlation (filter (λ run. run.run.id == id) provider_runs) by_harness_run_id
      | none ↦ elim (event.session_id) [
        | some id ↦
            single_correlation (filter (λ run. run.run.session_id == some id) provider_runs)
              by_session_id
        | none ↦ elim (event.worktree_id) [
          | some id ↦
              single_correlation (filter (λ run. run.run.worktree_id == some id) provider_runs)
                by_worktree_id
          | none ↦ none
        ]
      ]
    ]

unfoldable pub should_preserve_live_status : Platform → ObserverHarnessRun → ObservedStatus → Bool
should_preserve_live_status p run status =
    if not (run.status.value == exited) || not (run.status.confidence == high)
    then false
    else ltb (p.date_parse status.updated_at) (p.date_parse run.status.updated_at)

-- The status that an event reports, if it is a known one.
abbrev pub known_status : HarnessEventObservation → Option ObservedStatus
known_status event = elim (event.status) [
  | none ↦ none
  | some status ↦ if status.value == unknown then none else some status
]

abbrev pub overlay_for :
    Platform
    → PersistedProviderObservation
    → HarnessEventObservation
    → ObservedStatus
    → ObserverHarnessRun × CorrelatedBy
    → Option (String × StatusOverlay)
overlay_for p observation event status (run, correlated_by) =
    if should_preserve_live_status p run status
    then none
    else some (
      run.run.id,
      record {
        status = status;
        raw_event_type = event.raw_event_type;
        correlated_by = correlated_by;
        observed_at = observation.observed_at;
        observation_id = observation.id;
      },
    )

abbrev pub event_overlay :
    Platform
    → List ObserverHarnessRun
    → PersistedProviderObservation
    → HarnessEventObservation
    → Option (String × StatusOverlay)
event_overlay p runs observation event =
    if not (event.provider == observation.provider) then none else elim (known_status event) [
      | none ↦ none
      | some status ↦ elim (correlate_harness_event event runs) [
        | none ↦ none
        | some match ↦ overlay_for p observation event status match
      ]
    ]

-- The loop's body up to the overlay, with the id of the run that it is for.
unfoldable pub candidate :
    Platform
    → List ObserverHarnessRun
    → PersistedProviderObservation
    → Option (String × StatusOverlay)
unfolding correlate_harness_event should_preserve_live_status
candidate p runs observation =
    if observation.expired || not (observation.entity_kind == "harness_event")
    then none
    else elim (observation.payload) [
      | none ↦ none
      | some event ↦ event_overlay p runs observation event
    ]

unfoldable pub compare_overlays : Platform → StatusOverlay → StatusOverlay → Ordering
compare_overlays p left right =
    or_compare
      (compare (p.date_parse left.status.updated_at) (p.date_parse right.status.updated_at))
      (or_compare (compare (p.date_parse left.observed_at) (p.date_parse right.observed_at))
        (p.locale_compare left.observation_id right.observation_id))

abbrev pub is_lt : Ordering → Bool
is_lt Ordering.lt = true
is_lt _ = false

abbrev pub keep_latest :
    Platform → Dict String StatusOverlay → String × StatusOverlay → Dict String StatusOverlay
keep_latest p latest (id, overlay) = elim (get latest id) [
  | none ↦ set latest id overlay
  | some previous ↦
      if is_lt (compare_overlays p overlay previous) then latest else set latest id overlay
]

unfoldable pub latest_by_run_id :
    Platform
    → List ObserverHarnessRun
    → Dict String StatusOverlay
    → List PersistedProviderObservation
    → Dict String StatusOverlay
unfolding candidate compare_overlays
latest_by_run_id p runs latest [] = latest
latest_by_run_id p runs latest (observation ∷ observations) = elim (candidate p runs observation) [
  | none ↦ latest_by_run_id p runs latest observations
  | some entry ↦ latest_by_run_id p runs (keep_latest p latest entry) observations
]

unfoldable pub run_observation_with_status :
    HarnessRunObservation → ObservedStatus → HarnessRunObservation
run_observation_with_status run status = record {
  id = run.id;
  provider = run.provider;
  project_id = run.project_id;
  worktree_id = run.worktree_id;
  session_id = run.session_id;
  pid = run.pid;
  cwd = run.cwd;
  state = status.value;
  confidence = status.confidence;
  reason = status.reason;
  observed_at = run.observed_at;
  provider_data = run.provider_data;
}

unfoldable pub apply_status_overlay : ObserverHarnessRun → StatusOverlay → ObserverHarnessRun
unfolding run_observation_with_status
apply_status_overlay run overlay = record {
  run = run_observation_with_status run.run overlay.status;
  status = overlay.status;
}

abbrev pub overlaid : Dict String StatusOverlay → ObserverHarnessRun → ObserverHarnessRun
overlaid latest run = elim (get latest run.run.id) [
  | none ↦ run
  | some overlay ↦ apply_status_overlay run overlay
]

unfoldable pub apply_harness_event_status_overlays :
    Platform → List ObserverHarnessRun → List PersistedProviderObservation → List ObserverHarnessRun
unfolding latest_by_run_id apply_status_overlay
apply_harness_event_status_overlays p runs observations =
    map (overlaid (latest_by_run_id p runs [] observations)) runs
