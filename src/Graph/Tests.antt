-- ===== src/Graph/Tests.antt =====
-- A snapshot of one worktree with a terminal and a run, and a terminal that names no worktree.
use wosm.Base.{String, false, [], ◌∷◌, Option, none, some, length, ◌==◌, string_eq, ◌⊎◌, ◌≡◌, refl}
use wosm.Base.Platform.{TextMethods, by_length}
use wosm.Contracts.Status.{high, working}
use wosm.Contracts.Snapshot.{open_terminal}
use wosm.Contracts.Runtime.{
  ProviderProjectConfig, WorktreeObservation, TerminalTargetObservation, ObserverHarnessRun,
}
use wosm.Samples
use wosm.Base.Sort.{sort}
use wosm.Graph.{
  choose_terminal, choose_harness_run, terminal_target_matches_worktree, path_is_same_or_inside,
  normalize_local_path,
}
use wosm.Graph.Sessions.{build_session}
use wosm.Graph.Build.{
  all_sessions, sessions_of_worktrees, project_worktrees, build_session_of, ObserverGraphInput,
  build_wosm_snapshot, configured_worktrees,
}
use wosm.Graph.Chosen.{Shown}
use wosm.Graph.Visible.{Listed, orphan_list, terminal_accounted}
use wosm.Graph.Agreement.{AllShown, sessions_shown}

abbrev plain : TextMethods
plain = record {
  trim = λ s. s;
  without_trailing_slashes = λ s. s;
  slice = λ s n. s;
  starts_with = λ s prefix. s == prefix;
  includes = λ s part. false;
  to_lower_case = λ s. s;
}

abbrev config : ProviderProjectConfig
config = record { id = "p"; label = "P"; root = "/p"; defaults = Samples.project.defaults }

abbrev worktree : WorktreeObservation
worktree = record {
  id = "wt1";
  provider = "worktrunk";
  project_id = "p";
  branch = "main";
  path = "/p/main";
  state = "exists";
  source = "worktrunk";
  dirty = none;
  ahead = none;
  behind = none;
  pr = none;
  change_summary = none;
  checks = none;
  observed_at = "t1";
}

abbrev terminal : String → Option String → TerminalTargetObservation
terminal id worktree_id = record {
  id = id;
  provider = "tmux";
  project_id = some "p";
  worktree_id = worktree_id;
  session_id = some "s1";
  harness_run_id = none;
  state = open_terminal;
  cwd = some "/p/main";
  confidence = high;
  reason = "seen";
  observed_at = "t1";
  harness_binding = none;
}

abbrev agent_run : ObserverHarnessRun
agent_run = record {
  run = record {
    id = "run_1";
    provider = "codex";
    project_id = some "p";
    worktree_id = some "wt1";
    session_id = some "s1";
    pid = none;
    cwd = none;
    state = working;
    confidence = high;
    reason = "seen";
    observed_at = "t1";
    provider_data = none;
  };
  status = Samples.status working "t1";
}

abbrev observed : ObserverGraphInput
observed = record {
  generated_at = "t2";
  observer = record { pid = 1; started_at = "t0"; version = "1"; is_healthy = none };
  projects = config ∷ [];
  worktree_provider_id = "worktrunk";
  provider_health = [];
  harnesses = none;
  harness_capabilities = [];
  worktrees = worktree ∷ [];
  terminal_targets = terminal "t1" (some "wt1") ∷ terminal "t2" none ∷ [];
  harness_runs = agent_run ∷ [];
  session_metadata = [];
  recovery_handles = [];
  alerts = [];
  feature_flags = none;
}

terminal_accounted_example :
    Listed "t2" (orphan_list (build_wosm_snapshot by_length plain observed).orphans)
    ⊎ Shown by_length plain observed (terminal "t2" none)
terminal_accounted_example = terminal_accounted by_length plain observed 1 (terminal "t2" none) refl

sessions_shown_example :
    let snapshot = build_wosm_snapshot by_length plain observed in
    AllShown snapshot.sessions snapshot.rows
sessions_shown_example = sessions_shown by_length plain observed

-- The session is there, so that the property says something of it.
one_session : length (build_wosm_snapshot by_length plain observed).sessions ≡ 1
unfolding build_wosm_snapshot all_sessions sessions_of_worktrees project_worktrees
    configured_worktrees build_session_of build_session choose_terminal choose_harness_run
    terminal_target_matches_worktree path_is_same_or_inside normalize_local_path sort
one_session = refl
