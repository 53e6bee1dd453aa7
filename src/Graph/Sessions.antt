-- ===== src/Graph/Sessions.antt =====
-- graph.ts: the session of a worktree.

use wosm.Base.{String, false, [], Option, none, some, string_eq}
use wosm.Base.Dict.{Dict, get}
use wosm.Contracts.Status.{agent_state_eq}
use wosm.Contracts.Snapshot.{HarnessCapabilities, SessionView}
use wosm.Contracts.Runtime.{
  ProviderProjectConfig, WorktreeObservation, TerminalTargetObservation, ObserverHarnessRun,
}
use wosm.Graph.Rows.{terminal_attachment}

abbrev pub or_else : {A : Type 0} → Option A → Option A → Option A
or_else (some a) other = some a
or_else none other = other

abbrev pub no_capabilities : HarnessCapabilities
no_capabilities = record {
  can_launch = false;
  can_discover_runs = false;
  can_emit_events = false;
  can_classify_status = false;
  can_receive_prompt = false;
  can_resume = false;
  can_stop = false;
  can_run_non_interactive = false;
  can_expose_approval_state = false;
}

abbrev with_default : {A : Type 0} → Option A → A → A
with_default none default = default
with_default (some a) default = a

-- `metadata` gives the title that is kept for a session, if any.
abbrev pub session_view :
    ProviderProjectConfig
    → WorktreeObservation
    → TerminalTargetObservation
    → ObserverHarnessRun
    → Dict String HarnessCapabilities
    → Dict String (Option String)
    → String
    → SessionView
session_view project worktree terminal r capabilities metadata session_id = record {
  id = session_id;
  project_id = project.id;
  worktree_id = worktree.id;
  created_at = r.run.observed_at;
  updated_at = r.status.updated_at;
  harness = record {
    provider = r.run.provider;
    mode = "unknown";
    pid = r.run.pid;
    run_id = some r.run.id;
    capabilities = with_default (get capabilities r.run.provider) no_capabilities;
  };
  terminal = terminal_attachment terminal (some r);
  status = r.status;
  title = with_default (with_default (get metadata session_id) none) worktree.branch;
  tags = [];
}

unfoldable pub build_session :
    ProviderProjectConfig
    → WorktreeObservation
    → Option TerminalTargetObservation
    → Option ObserverHarnessRun
    → Dict String HarnessCapabilities
    → Dict String (Option String)
    → Option SessionView
unfolding terminal_attachment
build_session project worktree none run capabilities metadata = none
build_session project worktree (some terminal) none capabilities metadata = none
build_session project worktree (some terminal) (some r) capabilities metadata =
    elim (or_else r.run.session_id terminal.session_id) [
      | none ↦ none
      | some session_id ↦
          some (session_view project worktree terminal r capabilities metadata session_id)
    ]
