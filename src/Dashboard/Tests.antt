-- ===== src/Dashboard/Tests.antt =====
-- The dashboard on the shared snapshot.
use wosm.Base.{String, true, false, [], ◌∷◌, none, some, string_eq, ◌≡◌, refl, find, ◌==◌}
use wosm.Contracts.Snapshot.{WosmSnapshot, WorktreeRow, SessionView, working_label}
use wosm.Contracts.Commands.{WosmCommand, session_send_prompt, harness_native}
use wosm.Contracts.Status.{working, SafeError, safe_error}
use wosm.Client.Notices.{ClientNotice, info}
use wosm.Samples
use wosm.Dashboard.{
  PendingCreateSessionRow, PendingRemoveWorktreeRow, PendingRenameSessionTitle, TuiLocalRows,
  TuiState, connected,
}
use wosm.Dashboard.Builders.{
  built, failed, close_all_action, remove_worktree_action, row_session, cleanup_force_required,
  build_cleanup_command, build_primary_command_for_row, build_send_prompt_command,
}
use wosm.Dashboard.Targets.{Serves, primary-Serves, prompt-taken}
use wosm.Dashboard.LocalRows.{create_empty_tui_local_rows}
use wosm.Dashboard.Operations.{operate, IsSingle, operate-IsSingle, add_removal}

abbrev loaded : WosmSnapshot
loaded = Samples.snapshot working

abbrev title : PendingRenameSessionTitle
title = record { session_id = "s1"; title = "new"; created_at = "t1"; command_id = none }

abbrev new_branch : PendingCreateSessionRow
new_branch = record {
  local_id = "l1";
  project_id = "p";
  branch = "feature";
  harness_provider = "codex";
  created_at = "t1";
  command_id = none;
}

abbrev removal : String → PendingRemoveWorktreeRow
removal local_id = record {
  local_id = local_id;
  project_id = "p";
  worktree_id = "w1";
  branch = "main";
  created_at = "t1";
  command_id = none;
}

abbrev start : TuiState
start = record {
  search_query = "";
  collapsed_project_ids = [];
  scroll_offset = 0;
  terminal_rows = 24;
  local_rows = create_empty_tui_local_rows;
  snapshot = some loaded;
  loading = false;
  screen = "dashboard";
  toasts = [];
  connection = connected;
  runtime = "";
}

abbrev busy : TuiLocalRows
busy = record {
  pending_create = new_branch ∷ [];
  failed_create = [];
  pending_remove = removal "l2" ∷ [];
  pending_start = [];
  pending_rename_titles = some (("s1", title) ∷ []);
}

start-IsSingle : IsSingle (operate start (add_removal (removal "l2")))
unfolding create_empty_tui_local_rows
start-IsSingle =
    operate-IsSingle start (add_removal (removal "l2")) (record { removals = tt; starts = tt })

operate-IsSingle_example :
    IsSingle (operate (operate start (add_removal (removal "l2"))) (add_removal (removal "l3")))
operate-IsSingle_example =
    operate-IsSingle (operate start (add_removal (removal "l2"))) (add_removal (removal "l3"))
      start-IsSingle

abbrev refused : SafeError
refused = safe_error "WorktreeError" "WORKTREE_EXISTS" "The branch is checked out." none

abbrev notice : String → ClientNotice
notice message = record {
  kind = info;
  message = message;
  hint = none;
  command_id = none;
  trace_id = none;
  diagnostic_id = none;
}

abbrev agent_row : WorktreeRow
agent_row = Samples.row "w1" (some (Samples.agent working)) (Samples.display working_label 0)

-- A row without a session cannot be closed.
no_session_to_close :
    build_cleanup_command (record agent_row { agent = none }) close_all_action false
    ≡ failed "The target row has no session."
unfolding build_cleanup_command
no_session_to_close = refl

-- A worktree with a running agent is removed by force only.
removal_forced : cleanup_force_required agent_row remove_worktree_action ≡ true
unfolding cleanup_force_required
removal_forced = refl

primary-Serves_example :
    (c : WosmCommand) × (build_primary_command_for_row
        (record agent_row { agent = none })
        loaded
        none
      ≡ built c)
    × Serves (record agent_row { agent = none }) Samples.project c
primary-Serves_example =
    primary-Serves (record agent_row { agent = none }) loaded none Samples.project refl

prompt_sent :
    build_send_prompt_command agent_row (Samples.session "s1" "w1" ∷ []) "go on"
    ≡ built (
        session_send_prompt
          (record { session_id = "s1"; prompt = "go on"; delivery = some harness_native }))
unfolding build_send_prompt_command
prompt_sent = refl

prompt-taken_example :
    (id : String) × (session : SessionView) × (row_session agent_row ≡ some id)
    × (find (λ candidate. candidate.id == id) (Samples.session "s1" "w1" ∷ []) ≡ some session)
    × (session.harness.capabilities.can_receive_prompt ≡ true)
    × (session_send_prompt
          (record { session_id = "s1"; prompt = "go on"; delivery = some harness_native })
        ≡ session_send_prompt
            (record { session_id = id; prompt = "go on"; delivery = some harness_native }))
prompt-taken_example =
    prompt-taken agent_row (Samples.session "s1" "w1" ∷ []) "go on"
      (session_send_prompt
        (record { session_id = "s1"; prompt = "go on"; delivery = some harness_native }))
      prompt_sent
