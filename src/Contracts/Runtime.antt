-- ===== src/Contracts/Runtime.antt =====
-- packages/contracts/src/observations.ts, recovery.ts and providers.ts: what the providers observe, from
-- which the observer builds its snapshot. Provider data only passes through.
use wosm.Base.{ℕ, String, Bool, Option}
use wosm.Contracts.Status.{AgentState, Confidence, ObservedStatus}
use wosm.Contracts.Snapshot.{TerminalState, ProjectDefaults}

pub record ProviderProjectConfig : Type 0 where
  pub id : String
  pub label : String
  pub root : String
  pub defaults : ProjectDefaults

pub record WorktreeObservation : Type 0 where
  pub id : String
  pub provider : String
  pub project_id : String
  pub branch : String
  pub path : String
  pub state : String
  pub source : String
  pub dirty : Option Bool
  pub ahead : Option ℕ
  pub behind : Option ℕ
  pub pr : Option String
  pub change_summary : Option String
  pub checks : Option String
  pub observed_at : String

-- Of the harness binding its role.
pub record TerminalTargetObservation : Type 0 where
  pub id : String
  pub provider : String
  pub project_id : Option String
  pub worktree_id : Option String
  pub session_id : Option String
  pub harness_run_id : Option String
  pub state : TerminalState
  pub cwd : Option String
  pub confidence : Confidence
  pub reason : String
  pub observed_at : String
  pub harness_binding : Option String

pub record HarnessRunObservation : Type 0 where
  pub id : String
  pub provider : String
  pub project_id : Option String
  pub worktree_id : Option String
  pub session_id : Option String
  pub pid : Option ℕ
  pub cwd : Option String
  pub state : AgentState
  pub confidence : Confidence
  pub reason : String
  pub observed_at : String
  pub provider_data : Option String

pub record ObserverHarnessRun : Type 0 where
  pub run : HarnessRunObservation
  pub status : ObservedStatus

-- Diagnostics and provider data are texts.
pub record HarnessEventObservation : Type 0 where
  pub provider : String
  pub report_id : Option String
  pub event_type : Option String
  pub project_id : Option String
  pub session_id : Option String
  pub worktree_id : Option String
  pub terminal_target_id : Option String
  pub harness_run_id : Option String
  pub native_session_id : Option String
  pub native_session_file : Option String
  pub cwd : Option String
  pub pid : Option ℕ
  pub status : Option ObservedStatus
  pub raw_event_type : Option String
  pub diagnostics : Option String
  pub provider_data : Option String
  pub observed_at : String

-- The target is told by its kind, and its id or path.
pub record SessionRecoveryHandle : Type 0 where
  pub id : String
  pub provider : String
  pub project_id : String
  pub worktree_id : String
  pub session_id : Option String
  pub target_kind : String
  pub target_value : String
  pub cwd : Option String
  pub terminal_target_id : Option String
  pub harness_run_id : Option String
  pub observed_at : String
  pub last_seen_at : String
