-- ===== src/Status.antt =====
-- apps/observer/src/reconcile/statusPolicy.ts: how a status is shown and counted. The children model
-- the projection of a harness report onto the snapshot.
pub mod Projection
pub mod Result
pub mod Target
pub mod Exits
pub mod Consistency
pub mod Replica
mod Tests
use wosm.Base.{
  ℕ, ◌+◌, String, Bool, true, false, List, [], ◌∷◌, Option, none, some, if◌then◌else◌, ◌||◌, ◌==◌,
}
use wosm.Contracts.Status.{
  AgentState, no_run, starting, idle, working, needs_attention, stuck, exited, unknown,
  ObservedStatus, agent_state_eq,
}
use wosm.Contracts.Snapshot.{
  DisplayStatusLabel, no_agent_label, starting_label, idle_label, working_label,
  needs_attention_label, stuck_label, exited_label, unknown_label, WorktreeAgent, WorktreeDisplay,
  WorktreeRow, Counts,
}

pub record Policy : Type 0 where
  pub label : DisplayStatusLabel
  pub priority : ℕ
  pub alert : Bool
  pub warning : Bool

abbrev policy : DisplayStatusLabel → ℕ → Bool → Bool → Policy
policy label priority alert warning = record {
  label = label;
  priority = priority;
  alert = alert;
  warning = warning;
}

-- `no_agent` of the table is `none`.
unfoldable pub status_policy : Option AgentState → Policy
status_policy (some needs_attention) = policy needs_attention_label 10 true false
status_policy (some stuck) = policy stuck_label 20 true true
status_policy (some working) = policy working_label 30 false false
status_policy (some starting) = policy starting_label 35 false false
status_policy (some idle) = policy idle_label 40 false false
status_policy (some unknown) = policy unknown_label 50 false false
status_policy (some exited) = policy exited_label 60 false false
status_policy (some no_run) = policy no_agent_label 70 false false
status_policy none = policy no_agent_label 70 false false

abbrev pub no_counts : Counts
no_counts = record { worktrees = 0; agents = 0; working = 0; idle = 0; attention = 0; unknown = 0 }

abbrev pub bump : AgentState → AgentState → ℕ → ℕ
bump wanted state n = if state == wanted then n + 1 else n

unfoldable pub count_row : Counts → Option WorktreeAgent → Counts
count_row c none = record c { worktrees = c.worktrees + 1 }
count_row c (some agent) = record {
  worktrees = c.worktrees + 1;
  agents = c.agents + 1;
  working = bump working agent.state c.working;
  idle = bump idle agent.state c.idle;
  attention = bump needs_attention agent.state c.attention;
  unknown = bump unknown agent.state c.unknown;
}

unfoldable pub counts_from : Counts → List WorktreeRow → Counts
unfolding count_row
counts_from c [] = c
counts_from c (row ∷ rows) = counts_from (count_row c row.agent) rows

unfoldable pub counts_for_rows : List WorktreeRow → Counts
unfolding counts_from
counts_for_rows rows = counts_from no_counts rows

abbrev warned : Bool → Option Bool
warned true = some true
warned false = none

-- statusProjection.ts, `displayForStatus`.
unfoldable pub display_for_status : ObservedStatus → WorktreeDisplay
unfolding status_policy
display_for_status status = record {
  status_label = p.label;
  sort_priority = p.priority;
  alert = p.alert;
  warning = warned p.warning;
  reason =
      if (status.value == needs_attention) || ((status.value == stuck) || p.warning)
      then some status.reason
      else none;
}
  where
    p : Policy
    p = status_policy (some status.value)
