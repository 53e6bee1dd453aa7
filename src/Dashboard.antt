-- ===== src/Dashboard.antt =====
-- packages/dashboard-core/src/state: the state of the terminal dashboard (types.ts) and the rows that
-- it shows ahead of the observer (localRows.ts). The screen's own state is a text here, and the
-- runtime's flags too.
pub mod Builders
pub mod Targets
pub mod LocalRows
pub mod Pruning
pub mod Operations
mod Tests
pub mod Toasts
pub mod Connection
pub mod Notices
pub mod Selectors
pub mod Items
pub mod Viewport
use wosm.Base.{ℕ, String, Bool, List, Option}
use wosm.Base.Dict.{Dict}
use wosm.Contracts.Status.{SafeError}
use wosm.Contracts.Snapshot.{WosmSnapshot}
use wosm.Client.Notices.{ClientNotice}

pub record PendingCreateSessionRow : Type 0 where
  pub local_id : String
  pub project_id : String
  pub branch : String
  pub harness_provider : String
  pub created_at : String
  pub command_id : Option String

pub record FailedCreateSessionRow : Type 0 where
  pub local_id : String
  pub project_id : String
  pub branch : String
  pub error : SafeError
  pub expires_at : ℕ

pub record PendingRemoveWorktreeRow : Type 0 where
  pub local_id : String
  pub project_id : String
  pub worktree_id : String
  pub branch : String
  pub created_at : String
  pub command_id : Option String

pub data StartOperation : Type 0 where
  start_agent resume_agent : StartOperation

pub record PendingStartAgentRow : Type 0 where
  pub local_id : String
  pub operation : Option StartOperation
  pub project_id : String
  pub worktree_id : String
  pub branch : String
  pub created_at : String
  pub command_id : Option String

pub record PendingRenameSessionTitle : Type 0 where
  pub session_id : String
  pub title : String
  pub created_at : String
  pub command_id : Option String

pub record TuiLocalRows : Type 0 where
  pub pending_create : List PendingCreateSessionRow
  pub failed_create : List FailedCreateSessionRow
  pub pending_remove : List PendingRemoveWorktreeRow
  pub pending_start : List PendingStartAgentRow
  pub pending_rename_titles : Option (Dict String PendingRenameSessionTitle)

-- `id` is the text of the creation time and of the toast's key, which is all of the toast.
pub record TuiToastEntry : Type 0 where
  pub id : ℕ × ClientNotice
  pub toast : ClientNotice
  pub created_at : ℕ
  pub updated_at : ℕ
  pub expires_at : Option ℕ

pub data TuiObserverConnectionStatus : Type 0 where
  connected : TuiObserverConnectionStatus
  reconnecting : (since : ℕ) → (last_error : Option SafeError) → TuiObserverConnectionStatus
  display_only : (since : ℕ) → (last_error : Option SafeError) → TuiObserverConnectionStatus

pub record TuiState : Type 0 where
  pub search_query : String
  pub collapsed_project_ids : List String
  pub scroll_offset : ℕ
  pub terminal_rows : ℕ
  pub local_rows : TuiLocalRows
  pub snapshot : Option WosmSnapshot
  pub loading : Bool
  pub screen : String
  pub toasts : List TuiToastEntry
  pub connection : TuiObserverConnectionStatus
  pub runtime : String
