-- ===== src/Samples.antt =====
-- A small snapshot that the tests share: one project, two worktrees, and an agent in the first.
use wosm.Base.{ℕ, String, true, false, [], ◌∷◌, Option, none, some}
use wosm.Contracts.Status.{AgentState, idle, high, harness_hook, ObservedStatus}
use wosm.Contracts.Hooks.{HarnessEventReport}
use wosm.Contracts.Snapshot.{
  healthy, ProviderHealth, Counts, ProjectView, open_terminal, WorktreeAgent, WorktreeDisplay,
  DisplayStatusLabel, idle_label, no_agent_label, WorktreeRow, SessionView, WosmSnapshot,
}

abbrev pub health : ProviderHealth
health = record {
  provider_id = "worktrunk";
  provider_type = "worktree";
  status = healthy;
  last_checked_at = "t0";
  last_error = none;
  latency_ms = none;
  capabilities = none;
  diagnostics = none;
}

abbrev pub zero_counts : Counts
zero_counts = record {
  worktrees = 0;
  agents = 0;
  working = 0;
  idle = 0;
  attention = 0;
  unknown = 0;
}

abbrev pub project : ProjectView
project = record {
  id = "p";
  label = "P";
  root = "/p";
  defaults = record { harness = "codex"; terminal = "tmux"; layout = "default" };
  health = health;
  counts = zero_counts;
}

abbrev pub status : AgentState → String → ObservedStatus
status value at = record {
  value = value;
  confidence = high;
  reason = "seen";
  source = harness_hook;
  updated_at = at;
}

abbrev pub agent : AgentState → WorktreeAgent
agent state = record {
  harness = "codex";
  state = state;
  pid = none;
  run_id = some "run_1";
  session_id = some "s1";
  confidence = high;
  reason = "seen";
  updated_at = "t1";
}

abbrev pub display : DisplayStatusLabel → ℕ → WorktreeDisplay
display label priority = record {
  status_label = label;
  sort_priority = priority;
  alert = false;
  warning = none;
  reason = none;
}

abbrev pub row : String → Option WorktreeAgent → WorktreeDisplay → WorktreeRow
row id agent display = record {
  id = id;
  project_id = "p";
  project_label = "P";
  branch = id;
  path = "/p";
  worktree = record {
    state = "exists";
    source = "worktrunk";
    dirty = none;
    ahead = none;
    behind = none;
    pr = none;
    change_summary = none;
    checks = none;
  };
  terminal = none;
  agent = agent;
  recovery = none;
  display = display;
}

abbrev pub session : String → String → SessionView
session id worktree = record {
  id = id;
  project_id = "p";
  worktree_id = worktree;
  created_at = "t0";
  updated_at = "t1";
  harness = record {
    provider = "codex";
    mode = "unknown";
    pid = none;
    run_id = some "run_1";
    capabilities = record {
      can_launch = true;
      can_discover_runs = true;
      can_emit_events = true;
      can_classify_status = true;
      can_receive_prompt = true;
      can_resume = false;
      can_stop = true;
      can_run_non_interactive = false;
      can_expose_approval_state = true;
    };
  };
  terminal = record {
    provider = "tmux";
    state = open_terminal;
    focusable = some true;
    closeable = some true;
    has_workspace = none;
    has_primary_agent_endpoint = none;
    confidence = none;
    reason = none;
    observed_at = none;
  };
  status = status idle "t1";
  title = "fix";
  tags = [];
}

abbrev pub snapshot : AgentState → WosmSnapshot
snapshot state = record {
  generated_at = "t1";
  observer = record { pid = 1; started_at = "t0"; version = "1"; is_healthy = true };
  provider_health = [];
  harnesses = none;
  projects = project ∷ [];
  rows =
      row "wt2" none (display no_agent_label 70)
      ∷ row "wt1" (some (agent state)) (display idle_label 40)
      ∷ [];
  sessions = session "s1" "wt1" ∷ [];
  counts = record { projects = 1; rows = zero_counts };
  alerts = [];
  feature_flags = none;
  orphans = none;
}

abbrev pub report : AgentState → String → HarnessEventReport
report state at = record {
  report_id = "r1";
  provider = "codex";
  event_type = "Stop";
  observed_at = "t2";
  coalesce_key = none;
  status = some (status state at);
  correlation = some (record {
    harness_run_id = some "run_1";
    session_id = none;
    worktree_id = none;
    terminal_target_id = none;
    project_id = none;
    native_session_id = none;
    native_session_file = none;
    cwd = none;
    pid = none;
  });
  diagnostics = none;
  provider_data = none;
}
