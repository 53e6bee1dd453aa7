-- ===== src/Contracts/Events.antt =====
-- packages/contracts/src/events.ts: what the observer publishes. A field of a patch is `none` where
-- the patch has no such field; where the code tells a field that is there with `undefined` from one
-- that is not there, the field is an `Option` of an `Option`.
use wosm.Base.{ℕ, String, List, Option}
use wosm.Contracts.Status.{ObservedStatus, SafeError}
use wosm.Contracts.Snapshot.{
  ProviderHealth, WorktreeRuntime, TerminalAttachment, WorktreeAgent, WorktreeDisplay,
  WorktreeRecoveryAction, WorktreeRow, SessionHarness, SessionView,
}
use wosm.Contracts.Commands.{WosmCommand}

pub data WorktreeAgentStateChangeSource : Type 0 where
  harness_event_report reconcile : WorktreeAgentStateChangeSource

pub record RowPatch : Type 0 where
  pub id : Option String
  pub project_id : Option String
  pub project_label : Option String
  pub branch : Option String
  pub path : Option String
  pub worktree : Option WorktreeRuntime
  pub terminal : Option (Option TerminalAttachment)
  pub agent : Option (Option WorktreeAgent)
  pub recovery : Option WorktreeRecoveryAction
  pub display : Option WorktreeDisplay

pub record SessionPatch : Type 0 where
  pub id : Option String
  pub project_id : Option String
  pub worktree_id : Option String
  pub created_at : Option String
  pub updated_at : Option String
  pub harness : Option SessionHarness
  pub terminal : Option TerminalAttachment
  pub status : Option ObservedStatus
  pub title : Option String
  pub tags : Option (List String)

pub record AgentStateChange : Type 0 where
  pub worktree_id : String
  pub agent : Option WorktreeAgent
  pub session_title : Option String
  pub change_source : Option WorktreeAgentStateChangeSource
  pub harness_event_type : Option String
  pub report_id : Option String

-- The trace and span ids of a diagnostic event.
pub record Diagnostic : Type 0 where
  pub trace_id : Option String
  pub span_id : Option String

pub data WosmEvent : Type 0 where
  observer_started : (at : String) → WosmEvent
  observer_reconciled : (at : String) (changed : ℕ) → Diagnostic → WosmEvent
  project_updated : (project_id : String) → WosmEvent
  worktree_added : WorktreeRow → WosmEvent
  worktree_updated : (worktree_id : String) → RowPatch → WosmEvent
  worktree_removed : (worktree_id : String) → WosmEvent
  worktree_agent_state_changed : AgentStateChange → WosmEvent
  session_created : SessionView → WosmEvent
  session_updated : (session_id : String) → SessionPatch → WosmEvent
  session_removed : (session_id : String) → WosmEvent
  command_accepted : (command_id : String) → WosmCommand → Diagnostic → WosmEvent
  command_started : (command_id : String) → WosmCommand → Diagnostic → WosmEvent
  command_succeeded : (command_id : String) → Diagnostic → WosmEvent
  command_failed : (command_id : String) → SafeError → Diagnostic → WosmEvent
  provider_health_changed : (provider : String) → ProviderHealth → WosmEvent
  provider_hook_ingested : (at hook_id provider event : String) → WosmEvent
  harness_event_reported : (at report_id provider event_type : String) → WosmEvent
  provider_hook_spool_drained : (at : String) (drained failed : ℕ) → WosmEvent
