-- ===== src/Graph/Rows.antt =====
-- graph.ts: the row of a worktree.
use Prim.Native.String.{◌++◌ as append}
use wosm.Base.{
  String, Bool, true, false, not, ◌&&◌, ◌||◌, List, [], ◌∷◌, Option, none, some, filter, ◌==◌,
  string_eq, if◌then◌else◌,
}
use wosm.Base.Dict.{Dict, get}
use wosm.Base.Platform.{TextMethods}
use wosm.Contracts.Status.{
  AgentState, no_run, exited, unknown, needs_attention, stuck, agent_state_eq,
}
use wosm.Contracts.Snapshot.{
  TerminalState, no_terminal, open_terminal, detached, stale, unknown_terminal, TerminalAttachment,
  WorktreeAgent, WorktreeRecoveryAction, WorktreeRow, HarnessCapabilities, ClientFeatureFlags,
}
use wosm.Contracts.Runtime.{
  ProviderProjectConfig, WorktreeObservation, TerminalTargetObservation, ObserverHarnessRun,
  SessionRecoveryHandle,
}
use wosm.Status.{status_policy}

abbrev pub run_state : Option ObserverHarnessRun → Option AgentState
run_state none = none
run_state (some run) = some run.status.value

abbrev terminal_reason : Option TerminalTargetObservation → String
terminal_reason none = ""
terminal_reason (some terminal) = terminal.reason

unfoldable pub warning_for :
    TextMethods → Option ObserverHarnessRun → Option TerminalTargetObservation → Bool → Bool
warning_for t run terminal default_warning = if default_warning then true else elim run [
  | none ↦ false
  | some r ↦
      if not (r.status.value == unknown)
      then false
      else (let reason =
            t.to_lower_case (append r.status.reason (append " " (terminal_reason terminal))) in
          t.includes reason "conflict"
          || (t.includes reason "stale"
              || (t.includes reason "failed" || t.includes reason "invalid")))
]

unfoldable pub display_reason : Option ObserverHarnessRun → Bool → Option String
display_reason none warning = some "No harness run is associated with this worktree."
display_reason (some run) warning =
    if (run.status.value == needs_attention) || ((run.status.value == stuck) || warning)
    then some run.status.reason
    else none

abbrev pub flag : Bool → Option Bool
flag true = some true
flag false = none

unfoldable pub is_focusable_terminal_state : TerminalState → Bool
is_focusable_terminal_state open_terminal = true
is_focusable_terminal_state detached = true
is_focusable_terminal_state unknown_terminal = true
is_focusable_terminal_state _ = false

unfoldable pub is_closeable_terminal_state : TerminalState → Bool
is_closeable_terminal_state open_terminal = true
is_closeable_terminal_state detached = true
is_closeable_terminal_state unknown_terminal = true
is_closeable_terminal_state stale = true
is_closeable_terminal_state no_terminal = false

abbrev pub is_some : {A : Type 0} → Option A → Bool
is_some none = false
is_some (some a) = true

abbrev pub is_main_agent : Option String → Bool
is_main_agent none = false
is_main_agent (some role) = role == "main-agent"

unfoldable pub has_primary_agent_endpoint :
    TerminalTargetObservation → Option ObserverHarnessRun → Bool
has_primary_agent_endpoint terminal run =
    is_main_agent terminal.harness_binding
    || (is_some terminal.harness_run_id || (is_some terminal.session_id || is_some run))

unfoldable pub terminal_attachment :
    TerminalTargetObservation → Option ObserverHarnessRun → TerminalAttachment
unfolding is_focusable_terminal_state is_closeable_terminal_state has_primary_agent_endpoint
terminal_attachment terminal run = record {
  provider = terminal.provider;
  state = terminal.state;
  focusable = flag (is_focusable_terminal_state terminal.state);
  closeable = flag (is_closeable_terminal_state terminal.state);
  has_workspace = flag (is_some terminal.worktree_id);
  has_primary_agent_endpoint = flag (has_primary_agent_endpoint terminal run);
  confidence = some terminal.confidence;
  reason = some terminal.reason;
  observed_at = some terminal.observed_at;
}

unfoldable pub row_agent : ObserverHarnessRun → WorktreeAgent
row_agent r = record {
  harness = r.run.provider;
  state = r.status.value;
  pid = r.run.pid;
  run_id = some r.run.id;
  session_id = r.run.session_id;
  confidence = r.status.confidence;
  reason = r.status.reason;
  updated_at = r.status.updated_at;
}

abbrev attachment_of :
    Option TerminalTargetObservation → Option ObserverHarnessRun → Option TerminalAttachment
attachment_of none run = none
attachment_of (some terminal) run = some (terminal_attachment terminal run)

abbrev pub agent_of : Option ObserverHarnessRun → Option WorktreeAgent
agent_of none = none
agent_of (some run) = some (row_agent run)

unfoldable pub build_worktree_row :
    TextMethods
    → ProviderProjectConfig
    → WorktreeObservation
    → Option TerminalTargetObservation
    → Option ObserverHarnessRun
    → WorktreeRow
unfolding status_policy warning_for display_reason terminal_attachment row_agent
build_worktree_row t project worktree terminal run =
    let policy = status_policy (run_state run) in
    let warning = warning_for t run terminal policy.warning in
    record {
      id = worktree.id;
      project_id = project.id;
      project_label = project.label;
      branch = worktree.branch;
      path = worktree.path;
      worktree = record {
        state = worktree.state;
        source = worktree.source;
        dirty = worktree.dirty;
        ahead = worktree.ahead;
        behind = worktree.behind;
        pr = worktree.pr;
        change_summary = worktree.change_summary;
        checks = worktree.checks;
      };
      terminal = attachment_of terminal run;
      agent = agent_of run;
      recovery = none;
      display = record {
        status_label = policy.label;
        sort_priority = policy.priority;
        alert = policy.alert;
        warning = flag warning;
        reason = display_reason run warning;
      };
    }

abbrev is_attached : TerminalState → Bool
is_attached stale = false
is_attached no_terminal = false
is_attached _ = true

unfoldable pub has_live_agent : WorktreeRow → Bool
has_live_agent row = elim (row.agent) [
  | none ↦ false
  | some agent ↦
      if (agent.state == no_run) || (agent.state == exited)
      then false
      else if agent.state == unknown
      then elim (row.terminal) [ none ↦ false | some terminal ↦ is_attached terminal.state ]
      else true
]

abbrev pub can_resume : Dict String HarnessCapabilities → String → Bool
can_resume capabilities provider = elim (get capabilities provider) [
  | none ↦ false
  | some c ↦ c.can_resume
]

abbrev pub resume_enabled : Option ClientFeatureFlags → Bool
resume_enabled none = false
resume_enabled (some flags) = flags.session_resume_agent

abbrev pub resumes : Dict String HarnessCapabilities → WorktreeRow → SessionRecoveryHandle → Bool
resumes capabilities row handle =
    (handle.project_id == row.project_id)
    && ((handle.worktree_id == row.id) && can_resume capabilities handle.provider)

abbrev pub recovery_action : SessionRecoveryHandle → WorktreeRecoveryAction
recovery_action handle = record {
  handle_id = handle.id;
  provider = handle.provider;
  target_kind = handle.target_kind;
  session_id = handle.session_id;
  last_seen_at = handle.last_seen_at;
}

abbrev pub only_handle : List SessionRecoveryHandle → Option WorktreeRecoveryAction
only_handle (handle ∷ []) = some (recovery_action handle)
only_handle _ = none

unfoldable pub recovery_action_for_row :
    List SessionRecoveryHandle
    → Dict String HarnessCapabilities
    → Option ClientFeatureFlags
    → WorktreeRow
    → Option WorktreeRecoveryAction
unfolding has_live_agent
recovery_action_for_row handles capabilities flags row =
    if not (resume_enabled flags) || has_live_agent row
    then none
    else only_handle (filter (resumes capabilities row) handles)
