-- ===== src/Dashboard/Builders.antt =====
-- packages/dashboard-core/src/state/commandBuilders.ts: the commands that the dashboard sends for a row.
-- A builder that can throw gives a `Built`, with the error's message.
use Prim.Native.String.{◌++◌ as append}
use wosm.Base.{
  String, Bool, true, false, ◌||◌, List, Option, none, some, find, ◌==◌, string_eq, if◌then◌else◌,
}
use wosm.Contracts.Status.{AgentState, no_run, exited}
use wosm.Contracts.Snapshot.{
  ProjectView, WorktreeRow, SessionView, WosmSnapshot, WorktreeRecoveryAction,
}
use wosm.Contracts.Commands.{
  WosmCommand, worktree_remove, session_create, session_start_agent, session_resume_agent,
  terminal_focus, terminal_close, session_close, session_send_prompt, session_rename,
  observer_reconcile, TerminalFocusOrigin, TerminalLayout, default_layout, agent_only,
  agent_build_shell, PartialTerminalCommandOptions, interactive, CloseMode, close_harness,
  close_all, harness_native,
}

pub data CleanupActionKind : Type 0 where
  close_harness_action close_terminal_action close_all_action remove_worktree_action :
      CleanupActionKind

pub data Built : Type 0 where
  built : WosmCommand → Built
  failed : String → Built

-- `row.agent?.sessionId`.
abbrev pub row_session : WorktreeRow → Option String
row_session row = elim (row.agent) [ none ↦ none | some agent ↦ agent.session_id ]

unfoldable pub build_focus_command : WorktreeRow → Option TerminalFocusOrigin → WosmCommand
build_focus_command row origin = elim (row_session row) [
  | some id ↦ terminal_focus (record { session_id = some id; worktree_id = none; origin = origin })
  | none ↦ terminal_focus (record { session_id = none; worktree_id = some row.id; origin = origin })
]

unfoldable pub command_layout : String → TerminalLayout
command_layout layout =
    if layout == "agent-only"
    then agent_only
    else if layout == "agent-build-shell"
    then agent_build_shell
    else default_layout

abbrev pub terminal_of : ProjectView → PartialTerminalCommandOptions
terminal_of project = record {
  provider = some project.defaults.terminal;
  layout = some (command_layout project.defaults.layout);
  focus = some false;
  origin = none;
}

unfoldable pub build_start_agent_command : WorktreeRow → ProjectView → WosmCommand
unfolding command_layout
build_start_agent_command row project = session_start_agent (record {
  project_id = project.id;
  worktree_id = row.id;
  harness = none;
  terminal = some (terminal_of project);
  initial_prompt = none;
})

abbrev pub resume_of : WorktreeRow → ProjectView → WorktreeRecoveryAction → WosmCommand
resume_of row project recovery = session_resume_agent (record {
  project_id = project.id;
  worktree_id = row.id;
  recovery_handle_id = some recovery.handle_id;
  terminal = some (terminal_of project);
  initial_prompt = none;
})

unfoldable pub build_resume_agent_command : WorktreeRow → ProjectView → Built
unfolding command_layout
build_resume_agent_command row project = elim (row.recovery) [
  | none ↦ failed (append "No recovery handle is available for worktree " (append row.id "."))
  | some recovery ↦ built (resume_of row project recovery)
]

unfoldable pub is_running_agent_state : Option AgentState → Bool
is_running_agent_state none = false
is_running_agent_state (some no_run) = false
is_running_agent_state (some exited) = false
is_running_agent_state (some _) = true

abbrev pub row_state : WorktreeRow → Option AgentState
row_state row = elim (row.agent) [ none ↦ none | some agent ↦ some agent.state ]

abbrev pub is_true : Option Bool → Bool
is_true none = false
is_true (some b) = b

unfoldable pub cleanup_force_required : WorktreeRow → CleanupActionKind → Bool
unfolding is_running_agent_state
cleanup_force_required row remove_worktree_action =
    is_true row.worktree.dirty || is_running_agent_state (row_state row)
cleanup_force_required row _ = is_running_agent_state (row_state row)

-- `if (force) payload.force = true`.
abbrev pub force_field : Bool → Option Bool
force_field false = none
force_field true = some true

unfoldable pub build_remove_worktree_command : WorktreeRow → Bool → WosmCommand
build_remove_worktree_command row force =
    worktree_remove
      (record { worktree_id = row.id; project_id = some row.project_id; force = force_field force })

unfoldable pub build_session_close_command : WorktreeRow → CloseMode → Bool → Built
build_session_close_command row mode force = elim (row_session row) [
  | none ↦ failed "The target row has no session."
  | some id ↦
      built (session_close (record { session_id = id; mode = mode; force = force_field force }))
]

unfoldable pub build_terminal_close_command : WorktreeRow → Bool → WosmCommand
build_terminal_close_command row force = elim (row_session row) [
  | some id ↦
      terminal_close
        (record { session_id = some id; worktree_id = none; force = force_field force })
  | none ↦
      terminal_close
        (record { session_id = none; worktree_id = some row.id; force = force_field force })
]

unfoldable pub build_cleanup_command : WorktreeRow → CleanupActionKind → Bool → Built
unfolding build_session_close_command build_terminal_close_command build_remove_worktree_command
build_cleanup_command row close_harness_action force =
    build_session_close_command row close_harness force
build_cleanup_command row close_terminal_action force =
    built (build_terminal_close_command row force)
build_cleanup_command row close_all_action force = build_session_close_command row close_all force
build_cleanup_command row remove_worktree_action force =
    built (build_remove_worktree_command row force)

-- A prompt that is empty is none.
abbrev pub given_prompt : Option String → Option String
given_prompt none = none
given_prompt (some prompt) = if prompt == "" then none else some prompt

unfoldable pub build_create_session_command :
    ProjectView → String → String → Option String → WosmCommand
unfolding command_layout
build_create_session_command project branch harness_provider initial_prompt =
    session_create (record {
      project_id = project.id;
      branch = branch;
      base = none;
      source = none;
      harness = record {
        provider = harness_provider;
        mode = some interactive;
        profile = none;
        approval_policy = none;
        sandbox_mode = none;
      };
      terminal = record {
        provider = project.defaults.terminal;
        layout = some (command_layout project.defaults.layout);
        focus = some false;
        origin = none;
      };
      initial_prompt = given_prompt initial_prompt;
    })

unfoldable pub build_rename_session_command : String → String → WosmCommand
build_rename_session_command session_id title =
    session_rename (record { session_id = session_id; title = title })

unfoldable pub build_reconcile_command : Option String → WosmCommand
build_reconcile_command reason = observer_reconcile reason

unfoldable pub build_primary_command_for_row :
    WorktreeRow → WosmSnapshot → Option TerminalFocusOrigin → Built
unfolding build_resume_agent_command build_start_agent_command build_focus_command
build_primary_command_for_row row snapshot origin =
    let owned : Built =
      elim (find (λ candidate. candidate.id == row.project_id) snapshot.projects) [
        | none ↦ failed (append "Project not found for worktree " (append row.id "."))
        | some project ↦ elim (row.recovery) [
          | some recovery ↦ build_resume_agent_command row project
          | none ↦ built (build_start_agent_command row project)
        ]
      ] in
    elim (row.recovery) [
      | some recovery ↦ owned
      | none ↦ elim (row.agent) [
        | none ↦ owned
        | some agent ↦ built (build_focus_command row origin)
      ]
    ]

-- Whether the session of a row takes prompts.
unfoldable pub can_send_prompt_to_row : WorktreeRow → List SessionView → Bool
can_send_prompt_to_row row sessions = elim (row_session row) [
  | none ↦ false
  | some id ↦ elim (find (λ candidate. candidate.id == id) sessions) [
    | none ↦ false
    | some session ↦ session.harness.capabilities.can_receive_prompt
  ]
]

unfoldable pub build_send_prompt_command : WorktreeRow → List SessionView → String → Built
unfolding can_send_prompt_to_row
build_send_prompt_command row sessions prompt =
    let sent : Built = elim (row_session row) [
      | none ↦ failed "The target row has no session."
      | some id ↦ built (
          session_send_prompt
            (record { session_id = id; prompt = prompt; delivery = some harness_native }))
    ] in
    if can_send_prompt_to_row row sessions
    then sent
    else failed "The target harness cannot receive prompts safely."
