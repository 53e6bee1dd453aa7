-- ===== src/Status/Projection.antt =====
-- apps/observer/src/reconcile/statusProjection.ts: a harness event report is projected onto the
-- snapshot at once, without a reconciliation.

use wosm.Base.{
  ℕ, suc, String, Bool, true, false, List, [], ◌∷◌, map, Option, none, some, filter, not, ◌&&◌,
  ◌||◌, ◌==◌, ltb, if◌then◌else◌, string_eq, nat_eq, bool_eq, option_eq,
}
use wosm.Base.Platform.{Platform}
use wosm.Contracts.Status.{high, exited, ObservedStatus, confidence_eq, agent_state_eq, source_eq}
use wosm.Contracts.Hooks.{HarnessEventReport}
use wosm.Contracts.Snapshot.{WorktreeAgent, WorktreeRow, SessionView, WosmSnapshot, label_eq}
use wosm.Contracts.Events.{WosmEvent, session_updated, SessionPatch}
use wosm.Status.{display_for_status}

pub data CorrelatedBy : Type 0 where
  by_run by_session by_worktree : CorrelatedBy

pub record StatusProjectionResult : Type 0 where
  pub projected : Bool
  pub snapshot : WosmSnapshot
  pub events : List WosmEvent
  pub worktree_id : Option String
  pub session_id : Option String
  pub correlated_by : Option CorrelatedBy

unfoldable pub unprojected : WosmSnapshot → StatusProjectionResult
unprojected snapshot = record {
  projected = false;
  snapshot = snapshot;
  events = [];
  worktree_id = none;
  session_id = none;
  correlated_by = none;
}

-- `rows.map((row, index) => ({ row, index }))`.
unfoldable pub indexed : ℕ → List WorktreeRow → List (WorktreeRow × ℕ)
indexed i [] = []
indexed i (row ∷ rows) = (row, i) ∷ indexed (suc i) rows

-- A test on `row.agent?`, which fails where the row has no agent.
abbrev pub on_agent : (WorktreeAgent → Bool) → WorktreeRow × ℕ → Bool
on_agent test entry = elim (entry.0.agent) [ none ↦ false | some agent ↦ test agent ]

unfoldable pub single_target : List (WorktreeRow × ℕ) → CorrelatedBy → Option (ℕ × CorrelatedBy)
single_target ((row, index) ∷ []) by = some (index, by)
single_target _ by = none

unfoldable pub correlate :
    List (WorktreeRow × ℕ)
    → Option String
    → Option String
    → Option String
    → Option (ℕ × CorrelatedBy)
correlate rows (some run) session worktree =
    single_target (filter (on_agent (λ a. a.run_id == some run)) rows) by_run
correlate rows none (some session) worktree =
    single_target (filter (on_agent (λ a. a.session_id == some session)) rows) by_session
correlate rows none none (some worktree) =
    single_target (filter (λ entry. (entry.0.id == worktree) && on_agent (λ _. true) entry) rows)
      by_worktree
correlate rows none none none = none

unfoldable pub find_projection_target :
    WosmSnapshot → HarnessEventReport → Option (ℕ × CorrelatedBy)
unfolding indexed single_target correlate
find_projection_target snapshot report =
    let rows = filter (on_agent (λ a. a.harness == report.provider)) (indexed 0 snapshot.rows) in
    elim (report.correlation) [
      | none ↦ none
      | some c ↦ correlate rows c.harness_run_id c.session_id c.worktree_id
    ]

unfoldable pub should_preserve_current_agent : Platform → WorktreeAgent → ObservedStatus → Bool
should_preserve_current_agent p agent status =
    if not (agent.state == exited) || not (agent.confidence == high)
    then false
    else ltb (p.date_parse status.updated_at) (p.date_parse agent.updated_at)

unfoldable pub project_agent : WorktreeAgent → ObservedStatus → WorktreeAgent
project_agent agent status = record {
  harness = agent.harness;
  state = status.value;
  pid = agent.pid;
  run_id = agent.run_id;
  session_id = agent.session_id;
  confidence = status.confidence;
  reason = status.reason;
  updated_at = status.updated_at;
}

unfoldable pub project_row : WorktreeRow → WorktreeAgent → ObservedStatus → WorktreeRow
project_row row agent status = record {
  id = row.id;
  project_id = row.project_id;
  project_label = row.project_label;
  branch = row.branch;
  path = row.path;
  worktree = row.worktree;
  terminal = row.terminal;
  agent = some agent;
  recovery = none;
  display = display_for_status status;
}

session_status_equal : SessionView → SessionView → Bool
session_status_equal left right =
    (left.updated_at == right.updated_at)
    && ((left.status.value == right.status.value)
        && ((left.status.confidence == right.status.confidence)
            && ((left.status.reason == right.status.reason)
                && ((left.status.source == right.status.source)
                    && (left.status.updated_at == right.status.updated_at)))))

unfoldable pub project_session_view : SessionView → ObservedStatus → SessionView
project_session_view session status = record session {
  updated_at = status.updated_at;
  status = status;
}

abbrev pub session_patch : ObservedStatus → SessionPatch
session_patch status = record {
  id = none;
  project_id = none;
  worktree_id = none;
  created_at = none;
  updated_at = some status.updated_at;
  harness = none;
  terminal = none;
  status = some status;
  title = none;
  tags = none;
}

-- `changed` and `event`, which the callback of `sessions.map` assigns.
pub record Noted : Type 0 where
  pub changed : Bool
  pub event : Option WosmEvent

unfoldable pub note_session : Noted → String → ObservedStatus → SessionView → Noted
unfolding session_status_equal
note_session noted session_id status session =
    let same = session_status_equal session (project_session_view session status) in
    if not (session.id == session_id) then noted else record {
      changed = not same;
      event =
          if same then noted.event else some (session_updated session_id (session_patch status));
    }

unfoldable pub note_sessions : Noted → String → ObservedStatus → List SessionView → Noted
note_sessions noted session_id status [] = noted
note_sessions noted session_id status (session ∷ sessions) =
    note_sessions (note_session noted session_id status session) session_id status sessions

pub record SessionProjection : Type 0 where
  pub sessions : List SessionView
  pub changed : Bool
  pub event : Option WosmEvent
  pub session_id : Option String

unfoldable pub project_session :
    List SessionView → WorktreeAgent → ObservedStatus → SessionProjection
unfolding note_sessions note_session project_session_view
project_session sessions agent status = elim (agent.session_id) [
  | none ↦ record { sessions = sessions; changed = false; event = none; session_id = none }
  | some id ↦
      let noted = note_sessions (record { changed = false; event = none }) id status sessions in
      record {
        sessions =
            map
              (λ session. if session.id == id then project_session_view session status else session)
              sessions;
        changed = noted.changed;
        event = noted.event;
        session_id = some id;
      }
]
