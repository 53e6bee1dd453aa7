-- ===== src/Graph/Orphans.antt =====
-- graph.ts: runtime state without a configured worktree, and the alerts of the providers' health.
use Prim.Native.String.{◌++◌ as append}
use wosm.Base.{
  String, Bool, true, false, not, ◌||◌, List, [], ◌∷◌, ◌++◌, Option, none, some, any, ◌==◌,
  string_eq, if◌then◌else◌,
}
use wosm.Base.Dict.{Dict}
use wosm.Base.Platform.{TextMethods}
use wosm.Contracts.Status.{SafeError}
use wosm.Contracts.Snapshot.{
  WosmAlert, AlertSeverity, error_alert, warn_alert, OrphanedRuntimeState, terminal_target,
  harness_run, ProviderHealth, ProviderHealthStatus, healthy, degraded, unavailable, unknown_health,
}
use wosm.Contracts.Runtime.{
  ProviderProjectConfig, WorktreeObservation, TerminalTargetObservation, HarnessRunObservation,
  ObserverHarnessRun,
}
use wosm.Graph.{terminal_target_matches_worktree}

-- `worktreesById.get`: of worktrees with one id, the last.
abbrev pub worktree_by_id : List WorktreeObservation → String → Option WorktreeObservation
worktree_by_id [] id = none
worktree_by_id (w ∷ ws) id =
    let later = worktree_by_id ws id in
    elim later [ some v ↦ some v | none ↦ if w.id == id then some w else none ]

abbrev pub has_project : List ProviderProjectConfig → Option String → Bool
has_project projects none = true
has_project projects (some id) = any (λ project. project.id == id) projects

abbrev pub worktree_of : List WorktreeObservation → Option String → Option WorktreeObservation
worktree_of worktrees none = none
worktree_of worktrees (some id) = worktree_by_id worktrees id

abbrev pub has_harness : List ObserverHarnessRun → Option String → Bool
has_harness runs none = true
has_harness runs (some id) = any (λ run. run.run.id == id) runs

abbrev pub path_mismatch :
    TextMethods → TerminalTargetObservation → Option WorktreeObservation → Bool
path_mismatch t terminal none = false
path_mismatch t terminal (some worktree) =
    not (terminal_target_matches_worktree t terminal worktree)

abbrev pub found : Option WorktreeObservation → Bool
found none = false
found (some w) = true

abbrev pub terminal_orphan : TerminalTargetObservation → Bool → OrphanedRuntimeState
terminal_orphan terminal mismatch = record {
  id = append "orphan_" terminal.id;
  kind = terminal_target;
  provider = terminal.provider;
  project_id = terminal.project_id;
  worktree_id = terminal.worktree_id;
  session_id = terminal.session_id;
  terminal_target_id = some terminal.id;
  harness_run_id = none;
  reason =
      if mismatch
      then "Terminal target path does not match the configured worktree."
      else "Terminal target has no matching configured project or worktree.";
  observed_at = terminal.observed_at;
}

abbrev pub is_orphaned_terminal :
    TextMethods
    → List ProviderProjectConfig
    → List WorktreeObservation
    → List ObserverHarnessRun
    → TerminalTargetObservation
    → Bool
is_orphaned_terminal t projects worktrees runs terminal =
    let worktree = worktree_of worktrees terminal.worktree_id in
    not (has_project projects terminal.project_id)
    || (not (found worktree)
        || (not (has_harness runs terminal.harness_run_id) || path_mismatch t terminal worktree))

unfoldable pub terminal_orphans :
    TextMethods
    → List ProviderProjectConfig
    → List WorktreeObservation
    → List ObserverHarnessRun
    → List TerminalTargetObservation
    → List OrphanedRuntimeState
terminal_orphans t projects worktrees runs [] = []
terminal_orphans t projects worktrees runs (terminal ∷ terminals) =
    let rest = terminal_orphans t projects worktrees runs terminals in
    if is_orphaned_terminal t projects worktrees runs terminal
    then terminal_orphan terminal
        (path_mismatch t terminal (worktree_of worktrees terminal.worktree_id))
      ∷ rest
    else rest

abbrev pub run_orphan : HarnessRunObservation → OrphanedRuntimeState
run_orphan run = record {
  id = append "orphan_" run.id;
  kind = harness_run;
  provider = run.provider;
  project_id = run.project_id;
  worktree_id = run.worktree_id;
  session_id = run.session_id;
  terminal_target_id = none;
  harness_run_id = some run.id;
  reason = "Harness run has no matching configured project or worktree.";
  observed_at = run.observed_at;
}

abbrev pub is_orphaned_run :
    List ProviderProjectConfig → List WorktreeObservation → HarnessRunObservation → Bool
is_orphaned_run projects worktrees run =
    not (has_project projects run.project_id) || not (found (worktree_of worktrees run.worktree_id))

unfoldable pub run_orphans :
    List ProviderProjectConfig
    → List WorktreeObservation
    → List ObserverHarnessRun
    → List OrphanedRuntimeState
run_orphans projects worktrees [] = []
run_orphans projects worktrees (r ∷ runs) =
    let rest = run_orphans projects worktrees runs in
    if is_orphaned_run projects worktrees r.run then run_orphan r.run ∷ rest else rest

abbrev pub none_if_empty : List OrphanedRuntimeState → Option (List OrphanedRuntimeState)
none_if_empty [] = none
none_if_empty (orphan ∷ orphans) = some (orphan ∷ orphans)

unfoldable pub all_orphans :
    TextMethods
    → List ProviderProjectConfig
    → List WorktreeObservation
    → List ObserverHarnessRun
    → List TerminalTargetObservation
    → Option (List OrphanedRuntimeState)
unfolding terminal_orphans run_orphans
all_orphans t projects worktrees runs terminals =
    none_if_empty
      (terminal_orphans t projects worktrees runs terminals ++ run_orphans projects worktrees runs)

abbrev status_word : ProviderHealthStatus → String
status_word healthy = "healthy"
status_word degraded = "degraded"
status_word unavailable = "unavailable"
status_word unknown_health = "unknown"

abbrev health_message : ProviderHealth → String
health_message health = elim (health.last_error) [
  | some error ↦ error.message
  | none ↦ append "The " (
      append health.provider_type (
        append " provider "
          (append health.provider_id (append " is " (append (status_word health.status) ".")))))
]

abbrev error_code : Option SafeError → Option String
error_code none = none
error_code (some error) = some error.code

abbrev pub health_alert : ProviderHealth → AlertSeverity → String → WosmAlert
health_alert health severity generated_at = record {
  id = append "alert_" (append health.provider_id (append "_" (status_word health.status)));
  severity = severity;
  message = health_message health;
  code = error_code health.last_error;
  project_id = none;
  worktree_id = none;
  session_id = none;
  provider = some health.provider_id;
  created_at = generated_at;
}

unfoldable pub alerts_from_provider_health : Dict String ProviderHealth → String → List WosmAlert
alerts_from_provider_health [] generated_at = []
alerts_from_provider_health ((provider, health) ∷ rest) generated_at =
    let alerts = alerts_from_provider_health rest generated_at in
    elim (health.status) [
      | unavailable ↦ health_alert health error_alert generated_at ∷ alerts
      | degraded ↦ health_alert health warn_alert generated_at ∷ alerts
      | healthy ↦ alerts
      | unknown_health ↦ alerts
    ]
