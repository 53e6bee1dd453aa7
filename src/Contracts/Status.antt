-- ===== src/Contracts/Status.antt =====
-- packages/contracts/src/observations.ts and errors.ts: statuses and reported errors.
use wosm.Base.{String, Option, none, Equality, dec_beq, dec_beq_iff}

pub data Confidence : Type 0 where
  high medium low : Confidence

pub data AgentState : Type 0 where
  no_run starting idle working needs_attention stuck exited unknown : AgentState

pub data ObservedStatusSource : Type 0 where
  harness_hook harness_event harness_process terminal_capture worktree_provider observer_command
        reconcile unknown_source :
      ObservedStatusSource

abbrev pub Confidence-discrete : Discrete Confidence
Confidence-discrete = hlevel

abbrev pub AgentState-discrete : Discrete AgentState
AgentState-discrete = hlevel

abbrev pub ObservedStatusSource-discrete : Discrete ObservedStatusSource
ObservedStatusSource-discrete = hlevel

instance abbrev pub confidence_eq : Equality Confidence
confidence_eq = record {
  same = dec_beq Confidence-discrete;
  same_iff = dec_beq_iff Confidence-discrete;
}

instance abbrev pub agent_state_eq : Equality AgentState
agent_state_eq = record {
  same = dec_beq AgentState-discrete;
  same_iff = dec_beq_iff AgentState-discrete;
}

instance abbrev pub source_eq : Equality ObservedStatusSource
source_eq = record {
  same = dec_beq ObservedStatusSource-discrete;
  same_iff = dec_beq_iff ObservedStatusSource-discrete;
}

pub record ObservedStatus : Type 0 where
  pub value : AgentState
  pub confidence : Confidence
  pub reason : String
  pub source : ObservedStatusSource
  pub updated_at : String

pub record SafeError : Type 0 where
  pub tag : String
  pub code : String
  pub message : String
  pub hint : Option String
  pub command_id : Option String
  pub project_id : Option String
  pub worktree_id : Option String
  pub session_id : Option String
  pub provider : Option String
  pub trace_id : Option String
  pub diagnostic_id : Option String

-- An error literal with only these fields.
unfoldable pub safe_error : String → String → String → Option String → SafeError
safe_error tag code message provider = record {
  tag = tag;
  code = code;
  message = message;
  hint = none;
  command_id = none;
  project_id = none;
  worktree_id = none;
  session_id = none;
  provider = provider;
  trace_id = none;
  diagnostic_id = none;
}
