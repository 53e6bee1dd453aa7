-- ===== src/Graph/Build.antt =====
-- graph.ts, `buildWosmSnapshot`.
use wosm.Base.{
  ℕ, String, Bool, true, false, not, ◌&&◌, List, [], ◌∷◌, ◌++◌, map, Option, none, some, filter,
  any, length, ◌==◌, string_eq,
}
use wosm.Base.Dict.{Dict, get}
use wosm.Base.Sort.{sort}
use wosm.Base.Platform.{Platform, TextMethods}
use wosm.Contracts.Snapshot.{
  SnapshotHarness, WosmAlert, AlertSeverity, error_alert, ProviderHealth, ProviderHealthStatus,
  unavailable, unknown_health, ProjectView, WorktreeRow, SessionView, HarnessCapabilities,
  ClientFeatureFlags, WosmSnapshot,
}
use wosm.Contracts.Runtime.{
  ProviderProjectConfig, WorktreeObservation, TerminalTargetObservation, ObserverHarnessRun,
  SessionRecoveryHandle,
}
use wosm.Status.{counts_for_rows}
use wosm.Graph.{choose_terminal, choose_harness_run, compare_project_rows}
use wosm.Graph.Rows.{build_worktree_row, recovery_action_for_row}
use wosm.Graph.Sessions.{build_session}
use wosm.Graph.Orphans.{all_orphans, alerts_from_provider_health}

pub record ObserverInput : Type 0 where
  pub pid : ℕ
  pub started_at : String
  pub version : String
  pub is_healthy : Option Bool

pub record ObserverGraphInput : Type 0 where
  pub generated_at : String
  pub observer : ObserverInput
  pub projects : List ProviderProjectConfig
  pub worktree_provider_id : String
  pub provider_health : Dict String ProviderHealth
  pub harnesses : Option (List SnapshotHarness)
  pub harness_capabilities : Dict String HarnessCapabilities
  pub worktrees : List WorktreeObservation
  pub terminal_targets : List TerminalTargetObservation
  pub harness_runs : List ObserverHarnessRun
  pub session_metadata : Dict String (Option String)
  pub recovery_handles : List SessionRecoveryHandle
  pub alerts : List WosmAlert
  pub feature_flags : Option ClientFeatureFlags

unfoldable pub configured_worktrees : ObserverGraphInput → List WorktreeObservation
configured_worktrees input =
    filter (λ worktree. any (λ project. project.id == worktree.project_id) input.projects)
      input.worktrees

unfoldable pub build_row :
    Platform
    → TextMethods
    → ObserverGraphInput
    → ProviderProjectConfig
    → WorktreeObservation
    → WorktreeRow
unfolding choose_terminal choose_harness_run build_worktree_row recovery_action_for_row
build_row p t input project worktree =
    let terminal = choose_terminal p t worktree input.terminal_targets in
    let run = choose_harness_run p worktree terminal input.harness_runs in
    let row = build_worktree_row t project worktree terminal run in
    record row {
      recovery =
          recovery_action_for_row input.recovery_handles input.harness_capabilities
            input.feature_flags row;
    }

unfoldable pub build_session_of :
    Platform
    → TextMethods
    → ObserverGraphInput
    → ProviderProjectConfig
    → WorktreeObservation
    → Option SessionView
unfolding choose_terminal choose_harness_run build_session
build_session_of p t input project worktree =
    let terminal = choose_terminal p t worktree input.terminal_targets in
    let run = choose_harness_run p worktree terminal input.harness_runs in
    build_session project worktree terminal run input.harness_capabilities input.session_metadata

unfoldable pub project_worktrees :
    ObserverGraphInput → ProviderProjectConfig → List WorktreeObservation
unfolding configured_worktrees
project_worktrees input project =
    filter (λ worktree. worktree.project_id == project.id) (configured_worktrees input)

unfoldable pub rows_for_project :
    Platform → TextMethods → ObserverGraphInput → ProviderProjectConfig → List WorktreeRow
unfolding project_worktrees build_row compare_project_rows
rows_for_project p t input project =
    sort (compare_project_rows p)
      (map (build_row p t input project) (project_worktrees input project))

abbrev pub cons_some : {A : Type 0} → Option A → List A → List A
cons_some none xs = xs
cons_some (some x) xs = x ∷ xs

unfoldable pub sessions_of_worktrees :
    Platform
    → TextMethods
    → ObserverGraphInput
    → ProviderProjectConfig
    → List WorktreeObservation
    → List SessionView
unfolding build_session_of
sessions_of_worktrees p t input project [] = []
sessions_of_worktrees p t input project (worktree ∷ worktrees) =
    cons_some (build_session_of p t input project worktree)
      (sessions_of_worktrees p t input project worktrees)

unfoldable pub all_rows :
    Platform → TextMethods → ObserverGraphInput → List ProviderProjectConfig → List WorktreeRow
unfolding rows_for_project
all_rows p t input [] = []
all_rows p t input (project ∷ projects) =
    rows_for_project p t input project ++ all_rows p t input projects

unfoldable pub all_sessions :
    Platform → TextMethods → ObserverGraphInput → List ProviderProjectConfig → List SessionView
unfolding project_worktrees sessions_of_worktrees
all_sessions p t input [] = []
all_sessions p t input (project ∷ projects) =
    sessions_of_worktrees p t input project (project_worktrees input project)
    ++ all_sessions p t input projects

unfoldable pub unknown_provider_health : ObserverGraphInput → ProviderHealth
unknown_provider_health input = record {
  provider_id = input.worktree_provider_id;
  provider_type = "worktree";
  status = unknown_health;
  last_checked_at = input.generated_at;
  last_error = none;
  latency_ms = none;
  capabilities = none;
  diagnostics = none;
}

abbrev worktree_health : ObserverGraphInput → ProviderHealth
worktree_health input = elim (get input.provider_health input.worktree_provider_id) [
  | some health ↦ health
  | none ↦ unknown_provider_health input
]

abbrev pub project_view :
    ObserverGraphInput → List WorktreeRow → ProviderProjectConfig → ProjectView
project_view input rows project = record {
  id = project.id;
  label = project.label;
  root = project.root;
  defaults = project.defaults;
  health = worktree_health input;
  counts = counts_for_rows (filter (λ row. row.project_id == project.id) rows);
}

abbrev is_error : AlertSeverity → Bool
is_error error_alert = true
is_error _ = false

abbrev is_unavailable : ProviderHealthStatus → Bool
is_unavailable unavailable = true
is_unavailable _ = false

unfoldable pub observer_healthy : ObserverGraphInput → List WosmAlert → Bool
observer_healthy input alerts = elim (input.observer.is_healthy) [
  | some known ↦ known
  | none ↦
      not (any (λ alert. is_error alert.severity) alerts)
      && not (any (λ entry. is_unavailable entry.1.status) input.provider_health)
]

unfoldable pub build_wosm_snapshot : Platform → TextMethods → ObserverGraphInput → WosmSnapshot
unfolding configured_worktrees all_rows all_sessions unknown_provider_health observer_healthy
    all_orphans alerts_from_provider_health
build_wosm_snapshot p t input =
    let rows = all_rows p t input input.projects in
    let alerts =
      alerts_from_provider_health input.provider_health input.generated_at ++ input.alerts in
    record {
      generated_at = input.generated_at;
      observer = record {
        pid = input.observer.pid;
        started_at = input.observer.started_at;
        version = input.observer.version;
        is_healthy = observer_healthy input alerts;
      };
      provider_health = input.provider_health;
      harnesses = input.harnesses;
      projects = map (project_view input rows) input.projects;
      rows = rows;
      sessions = all_sessions p t input input.projects;
      counts = record { projects = length input.projects; rows = counts_for_rows rows };
      alerts = alerts;
      feature_flags = input.feature_flags;
      orphans =
          all_orphans t input.projects (configured_worktrees input) input.harness_runs
            input.terminal_targets;
    }
