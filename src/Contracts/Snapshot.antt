-- ===== src/Contracts/Snapshot.antt =====
-- packages/contracts/src/snapshot.ts: the snapshot that the observer serves. The pull request, change
-- and check summaries, which nothing here reads, are texts, and so are the enumerations of which no
-- case is told apart here (a worktree's state and source, a provider's type, a session's mode). A
-- display's sort priority, any whole number in the schema, is a natural one, as all that the code
-- makes are.
use wosm.Base.{ℕ, String, Bool, List, Option, Equality, dec_beq, dec_beq_iff}
use wosm.Base.Dict.{Dict}
use wosm.Contracts.Status.{Confidence, AgentState, ObservedStatus, SafeError}

pub data TerminalState : Type 0 where
  no_terminal open_terminal detached stale unknown_terminal : TerminalState

pub data ProviderHealthStatus : Type 0 where
  healthy degraded unavailable unknown_health : ProviderHealthStatus

pub record ProviderHealth : Type 0 where
  pub provider_id : String
  pub provider_type : String
  pub status : ProviderHealthStatus
  pub last_checked_at : String
  pub last_error : Option SafeError
  pub latency_ms : Option ℕ
  pub capabilities : Option String
  pub diagnostics : Option String

pub record Counts : Type 0 where
  pub worktrees : ℕ
  pub agents : ℕ
  pub working : ℕ
  pub idle : ℕ
  pub attention : ℕ
  pub unknown : ℕ

pub record ProjectDefaults : Type 0 where
  pub harness : String
  pub terminal : String
  pub layout : String

pub record ProjectView : Type 0 where
  pub id : String
  pub label : String
  pub root : String
  pub defaults : ProjectDefaults
  pub health : ProviderHealth
  pub counts : Counts

pub record WorktreeRuntime : Type 0 where
  pub state : String
  pub source : String
  pub dirty : Option Bool
  pub ahead : Option ℕ
  pub behind : Option ℕ
  pub pr : Option String
  pub change_summary : Option String
  pub checks : Option String

pub record TerminalAttachment : Type 0 where
  pub provider : String
  pub state : TerminalState
  pub focusable : Option Bool
  pub closeable : Option Bool
  pub has_workspace : Option Bool
  pub has_primary_agent_endpoint : Option Bool
  pub confidence : Option Confidence
  pub reason : Option String
  pub observed_at : Option String

pub record WorktreeAgent : Type 0 where
  pub harness : String
  pub state : AgentState
  pub pid : Option ℕ
  pub run_id : Option String
  pub session_id : Option String
  pub confidence : Confidence
  pub reason : String
  pub updated_at : String

pub data DisplayStatusLabel : Type 0 where
  no_agent_label starting_label idle_label working_label needs_attention_label stuck_label
        exited_label unknown_label :
      DisplayStatusLabel

abbrev pub DisplayStatusLabel-discrete : Discrete DisplayStatusLabel
DisplayStatusLabel-discrete = hlevel

instance abbrev pub label_eq : Equality DisplayStatusLabel
label_eq = record {
  same = dec_beq DisplayStatusLabel-discrete;
  same_iff = dec_beq_iff DisplayStatusLabel-discrete;
}

pub record WorktreeDisplay : Type 0 where
  pub status_label : DisplayStatusLabel
  pub sort_priority : ℕ
  pub alert : Bool
  pub warning : Option Bool
  pub reason : Option String

pub record WorktreeRecoveryAction : Type 0 where
  pub handle_id : String
  pub provider : String
  pub target_kind : String
  pub session_id : Option String
  pub last_seen_at : String

pub record WorktreeRow : Type 0 where
  pub id : String
  pub project_id : String
  pub project_label : String
  pub branch : String
  pub path : String
  pub worktree : WorktreeRuntime
  pub terminal : Option TerminalAttachment
  pub agent : Option WorktreeAgent
  pub recovery : Option WorktreeRecoveryAction
  pub display : WorktreeDisplay

pub record HarnessCapabilities : Type 0 where
  pub can_launch : Bool
  pub can_discover_runs : Bool
  pub can_emit_events : Bool
  pub can_classify_status : Bool
  pub can_receive_prompt : Bool
  pub can_resume : Bool
  pub can_stop : Bool
  pub can_run_non_interactive : Bool
  pub can_expose_approval_state : Bool

pub record SessionHarness : Type 0 where
  pub provider : String
  pub mode : String
  pub pid : Option ℕ
  pub run_id : Option String
  pub capabilities : HarnessCapabilities

pub record SessionView : Type 0 where
  pub id : String
  pub project_id : String
  pub worktree_id : String
  pub created_at : String
  pub updated_at : String
  pub harness : SessionHarness
  pub terminal : TerminalAttachment
  pub status : ObservedStatus
  pub title : String
  pub tags : List String

pub record ObserverInfo : Type 0 where
  pub pid : ℕ
  pub started_at : String
  pub version : String
  pub is_healthy : Bool

pub record SnapshotCounts : Type 0 where
  pub projects : ℕ
  pub rows : Counts

pub data AlertSeverity : Type 0 where
  info_alert warn_alert error_alert : AlertSeverity

pub record WosmAlert : Type 0 where
  pub id : String
  pub severity : AlertSeverity
  pub message : String
  pub code : Option String
  pub project_id : Option String
  pub worktree_id : Option String
  pub session_id : Option String
  pub provider : Option String
  pub created_at : String

pub data OrphanKind : Type 0 where
  terminal_target harness_run orphan_session : OrphanKind

pub record OrphanedRuntimeState : Type 0 where
  pub id : String
  pub kind : OrphanKind
  pub provider : String
  pub project_id : Option String
  pub worktree_id : Option String
  pub session_id : Option String
  pub terminal_target_id : Option String
  pub harness_run_id : Option String
  pub reason : String
  pub observed_at : String

-- The one flag that is read here.
pub record ClientFeatureFlags : Type 0 where
  pub session_resume_agent : Bool

pub record SnapshotHarness : Type 0 where
  pub id : String
  pub label : String

pub record WosmSnapshot : Type 0 where
  pub generated_at : String
  pub observer : ObserverInfo
  pub provider_health : Dict String ProviderHealth
  pub harnesses : Option (List SnapshotHarness)
  pub projects : List ProjectView
  pub rows : List WorktreeRow
  pub sessions : List SessionView
  pub counts : SnapshotCounts
  pub alerts : List WosmAlert
  pub feature_flags : Option ClientFeatureFlags
  pub orphans : Option (List OrphanedRuntimeState)
