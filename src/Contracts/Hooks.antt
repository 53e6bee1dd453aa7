-- ===== src/Contracts/Hooks.antt =====
-- packages/contracts/src/hooks.ts: what a harness hook reports, and the receipt it gets.
-- Provider data and diagnostics, which the observer only carries along, are texts.
use wosm.Base.{ℕ, String, Bool, Option}
use wosm.Contracts.Status.{ObservedStatus, SafeError}

pub record HarnessEventReportCorrelation : Type 0 where
  pub harness_run_id : Option String
  pub session_id : Option String
  pub worktree_id : Option String
  pub terminal_target_id : Option String
  pub project_id : Option String
  pub native_session_id : Option String
  pub native_session_file : Option String
  pub cwd : Option String
  pub pid : Option ℕ

pub record HarnessEventReport : Type 0 where
  pub report_id : String
  pub provider : String
  pub event_type : String
  pub observed_at : String
  pub coalesce_key : Option String
  pub status : Option ObservedStatus
  pub correlation : Option HarnessEventReportCorrelation
  pub diagnostics : Option String
  pub provider_data : Option String

pub data ReceiptStatus : Type 0 where
  accepted spooled rejected : ReceiptStatus

pub record HarnessEventReportReceipt : Type 0 where
  pub report_id : String
  pub provider : String
  pub event_type : String
  pub is_accepted : Bool
  pub status : ReceiptStatus
  pub received_at : String
  pub projected : Option Bool
  pub scheduled_reconcile : Option Bool
  pub deduped : Option Bool
  pub error : Option SafeError

pub data ProviderHookKind : Type 0 where
  worktree_hook terminal_hook harness_hook_kind provider_hook : ProviderHookKind

pub record ProviderHookEvent : Type 0 where
  pub hook_id : Option String
  pub provider : String
  pub kind : ProviderHookKind
  pub event : String
  pub received_at : String
  pub project_id : Option String
  pub worktree_id : Option String
  pub session_id : Option String
  pub payload : Option String

pub data HookReceiptStatus : Type 0 where
  hook_ingested hook_spooled hook_rejected hook_ignored : HookReceiptStatus

pub record ProviderHookReceipt : Type 0 where
  pub hook_id : String
  pub provider : String
  pub event : String
  pub is_accepted : Bool
  pub status : HookReceiptStatus
  pub received_at : String
  pub reconciled : Option Bool
  pub spooled : Option Bool
  pub deduped : Option Bool
  pub error : Option SafeError

pub record ProviderHookSpoolRecord : Type 0 where
  pub spool_id : String
  pub created_at : String
  pub event : ProviderHookEvent
  pub attempts : ℕ
  pub last_error : Option SafeError

pub record HarnessEventReportSpoolRecord : Type 0 where
  pub spool_id : String
  pub created_at : String
  pub report : HarnessEventReport
  pub attempts : ℕ
  pub last_error : Option SafeError
