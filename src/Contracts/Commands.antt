-- ===== src/Contracts/Commands.antt =====
-- packages/contracts/src/commands.ts: the commands that clients dispatch, with their payloads.
use wosm.Base.{String, Bool, Option}

pub data CommandSourceKind : Type 0 where
  branch_source pr_source manual_source : CommandSourceKind

pub record CommandSource : Type 0 where
  pub kind : CommandSourceKind
  pub value : String

pub record CreateWorktreePayload : Type 0 where
  pub project_id : String
  pub branch : String
  pub base : Option String
  pub path : Option String
  pub source : Option CommandSource

pub record RemoveWorktreePayload : Type 0 where
  pub worktree_id : String
  pub project_id : Option String
  pub force : Option Bool

pub data HarnessMode : Type 0 where
  interactive exec : HarnessMode

pub record HarnessCommandOptions : Type 0 where
  pub provider : String
  pub mode : Option HarnessMode
  pub profile : Option String
  pub approval_policy : Option String
  pub sandbox_mode : Option String

pub record StartAgentHarnessCommandOptions : Type 0 where
  pub provider : Option String
  pub mode : Option HarnessMode
  pub profile : Option String

pub record TerminalFocusOrigin : Type 0 where
  pub provider : String
  pub client_id : Option String

pub data TerminalLayout : Type 0 where
  default_layout agent_only agent_build_shell : TerminalLayout

pub record TerminalCommandOptions : Type 0 where
  pub provider : String
  pub layout : Option TerminalLayout
  pub focus : Option Bool
  pub origin : Option TerminalFocusOrigin

-- `TerminalCommandOptionsSchema.partial()`.
pub record PartialTerminalCommandOptions : Type 0 where
  pub provider : Option String
  pub layout : Option TerminalLayout
  pub focus : Option Bool
  pub origin : Option TerminalFocusOrigin

pub record CreateSessionPayload : Type 0 where
  pub project_id : String
  pub branch : String
  pub base : Option String
  pub source : Option CommandSource
  pub harness : HarnessCommandOptions
  pub terminal : TerminalCommandOptions
  pub initial_prompt : Option String

pub record StartAgentPayload : Type 0 where
  pub project_id : String
  pub worktree_id : String
  pub harness : Option StartAgentHarnessCommandOptions
  pub terminal : Option PartialTerminalCommandOptions
  pub initial_prompt : Option String

pub record ResumeAgentPayload : Type 0 where
  pub project_id : String
  pub worktree_id : String
  pub recovery_handle_id : Option String
  pub terminal : Option PartialTerminalCommandOptions
  pub initial_prompt : Option String

pub record TerminalFocusPayload : Type 0 where
  pub session_id : Option String
  pub worktree_id : Option String
  pub origin : Option TerminalFocusOrigin

pub record TerminalClosePayload : Type 0 where
  pub session_id : Option String
  pub worktree_id : Option String
  pub force : Option Bool

pub data CloseMode : Type 0 where
  close_harness close_terminal close_all : CloseMode

pub record CloseSessionPayload : Type 0 where
  pub session_id : String
  pub mode : CloseMode
  pub force : Option Bool

pub record RemoveSessionPayload : Type 0 where
  pub session_id : String
  pub remove_worktree : Bool
  pub force : Option Bool

pub data PromptDelivery : Type 0 where
  harness_native paste_and_focus : PromptDelivery

pub record SendPromptPayload : Type 0 where
  pub session_id : String
  pub prompt : String
  pub delivery : Option PromptDelivery

pub record RenameSessionPayload : Type 0 where
  pub session_id : String
  pub title : String

pub record AddProjectPayload : Type 0 where
  pub path : String
  pub id : Option String
  pub label : Option String
  pub allow_non_git : Option Bool

pub data WosmCommand : Type 0 where
  worktree_create : CreateWorktreePayload → WosmCommand
  worktree_remove : RemoveWorktreePayload → WosmCommand
  session_create : CreateSessionPayload → WosmCommand
  session_start_agent : StartAgentPayload → WosmCommand
  session_resume_agent : ResumeAgentPayload → WosmCommand
  terminal_focus : TerminalFocusPayload → WosmCommand
  terminal_close : TerminalClosePayload → WosmCommand
  session_close : CloseSessionPayload → WosmCommand
  session_remove : RemoveSessionPayload → WosmCommand
  session_send_prompt : SendPromptPayload → WosmCommand
  session_rename : RenameSessionPayload → WosmCommand
  observer_reconcile : (reason : Option String) → WosmCommand
  project_add : AddProjectPayload → WosmCommand
  project_remove : (project_id : String) → WosmCommand
  hooks_install : (provider : String) → WosmCommand
