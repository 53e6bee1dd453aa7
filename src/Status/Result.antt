-- ===== src/Status/Result.antt =====
-- statusProjection.ts, `projectHarnessEventReportOntoSnapshot` and what it builds the new snapshot by.
use Prim.Native.Nat.{Ordering, compare}
use wosm.Base.{
  ℕ, zero, suc, String, Bool, true, List, [], ◌∷◌, ◌++◌, map, Option, none, some, filter, find, not,
  ◌&&◌, ◌||◌, ◌==◌, if◌then◌else◌, length, get_elem?, string_eq, nat_eq, bool_eq, option_eq,
}
use wosm.Base.Sort.{sort, or_compare}
use wosm.Base.Platform.{Platform}
use wosm.Contracts.Status.{unknown, ObservedStatus, confidence_eq, agent_state_eq}
use wosm.Contracts.Hooks.{HarnessEventReport}
use wosm.Contracts.Snapshot.{
  WorktreeAgent, WorktreeRow, SessionView, ProjectView, WosmSnapshot, label_eq,
}
use wosm.Contracts.Events.{WosmEvent, worktree_agent_state_changed, harness_event_report}
use wosm.Status.{counts_for_rows}
use wosm.Status.Projection.{
  CorrelatedBy, StatusProjectionResult, unprojected, find_projection_target,
  should_preserve_current_agent, project_agent, project_row, project_session,
}

agents_equal : WorktreeAgent → WorktreeAgent → Bool
agents_equal left right =
    (left.harness == right.harness)
    && ((left.state == right.state)
        && ((left.pid == right.pid)
            && ((left.run_id == right.run_id)
                && ((left.session_id == right.session_id)
                    && ((left.confidence == right.confidence)
                        && ((left.reason == right.reason)
                            && (left.updated_at == right.updated_at)))))))

display_equal : WorktreeRow → WorktreeRow → Bool
display_equal left right =
    (left.display.status_label == right.display.status_label)
    && ((left.display.sort_priority == right.display.sort_priority)
        && ((left.display.alert == right.display.alert)
            && ((left.display.warning == right.display.warning)
                && (left.display.reason == right.display.reason))))

-- `projectOrder.get(id)`: the last project of that id. `none`, which the code reads as the greatest
-- safe integer, is greater than every position.
unfoldable pub project_position : ℕ → List ProjectView → String → Option ℕ
project_position i [] id = none
project_position i (project ∷ projects) id = elim (project_position (suc i) projects id) [
  | none ↦ if project.id == id then some i else none
  | some j ↦ some j
]

abbrev pub compare_position : Option ℕ → Option ℕ → Ordering
compare_position none none = Ordering.eq
compare_position none (some _) = Ordering.gt
compare_position (some _) none = Ordering.lt
compare_position (some i) (some j) = compare i j

unfoldable pub compare_rows : Platform → List ProjectView → WorktreeRow → WorktreeRow → Ordering
compare_rows p projects left right =
    or_compare
      (compare_position (project_position 0 projects left.project_id)
        (project_position 0 projects right.project_id))
      (or_compare (compare left.display.sort_priority right.display.sort_priority) (
        or_compare (p.locale_compare left.branch right.branch) (p.locale_compare left.id right.id)))

unfoldable pub sort_rows : Platform → List WorktreeRow → List ProjectView → List WorktreeRow
sort_rows p rows projects = sort (compare_rows p projects) rows

abbrev pub recount : List WorktreeRow → ProjectView → ProjectView
recount rows project = record project {
  counts = counts_for_rows (filter (λ row. row.project_id == project.id) rows);
}

unfoldable pub rebuild_snapshot :
    WosmSnapshot → List WorktreeRow → List SessionView → String → WosmSnapshot
rebuild_snapshot snapshot rows sessions generated_at =
    let projects = map (recount rows) snapshot.projects in
    record snapshot {
      generated_at = generated_at;
      projects = projects;
      rows = rows;
      sessions = sessions;
      counts = record { projects = length projects; rows = counts_for_rows rows };
    }

unfoldable pub session_title_for_agent : List SessionView → WorktreeAgent → Option String
session_title_for_agent sessions agent = elim (agent.session_id) [
  | none ↦ none
  | some id ↦ elim (find (λ session. session.id == id) sessions) [
    | none ↦ none
    | some session ↦ some session.title
  ]
]

-- `rows.map((row, index) => (index === target ? next : row))`.
unfoldable pub replace_at : List WorktreeRow → ℕ → WorktreeRow → List WorktreeRow
replace_at [] i next = []
replace_at (row ∷ rows) zero next = next ∷ rows
replace_at (row ∷ rows) (suc i) next = row ∷ replace_at rows i next

abbrev pub listed {ℓ} : {A : Type ℓ} → Option A → List A
listed none = []
listed (some a) = a ∷ []

abbrev pub agent_event :
    HarnessEventReport → WorktreeRow → WorktreeAgent → List SessionView → WosmEvent
agent_event report row agent sessions = worktree_agent_state_changed (record {
  worktree_id = row.id;
  agent = some agent;
  session_title = session_title_for_agent sessions agent;
  change_source = some harness_event_report;
  harness_event_type = some report.event_type;
  report_id = some report.report_id;
})

-- The part behind the early returns for a target row with an agent.
unfoldable pub project_target :
    Platform
    → WosmSnapshot
    → HarnessEventReport
    → String
    → ObservedStatus
    → ℕ
    → CorrelatedBy
    → WorktreeRow
    → WorktreeAgent
    → StatusProjectionResult
unfolding agents_equal display_equal unprojected
project_target p snapshot report projected_at status index by row agent =
    let next_agent = project_agent agent status in
    let next_row = project_row row next_agent status in
    let row_changed = not (agents_equal agent next_agent) || not (display_equal row next_row) in
    let sessions = project_session snapshot.sessions next_agent status in
    let moved =
      if agent.state == next_agent.state
      then []
      else agent_event report next_row next_agent sessions.sessions ∷ [] in
    if should_preserve_current_agent p agent status
    then unprojected snapshot
    else if not (row_changed || sessions.changed)
    then unprojected snapshot
    else record {
      projected = true;
      snapshot =
          rebuild_snapshot snapshot
            (sort_rows p (replace_at snapshot.rows index next_row) snapshot.projects)
            sessions.sessions projected_at;
      events = moved ++ listed sessions.event;
      worktree_id = some next_row.id;
      session_id = sessions.session_id;
      correlated_by = some by;
    }

-- `currentRow?.agent`, where both are there.
abbrev row_with_agent : Option WorktreeRow → Option (WorktreeRow × WorktreeAgent)
row_with_agent none = none
row_with_agent (some row) = elim (row.agent) [ none ↦ none | some agent ↦ some (row, agent) ]

project_status :
    Platform → WosmSnapshot → HarnessEventReport → String → ObservedStatus → StatusProjectionResult
unfolding unprojected
project_status p snapshot report projected_at status =
    elim (find_projection_target snapshot report) [
      | none ↦ unprojected snapshot
      | some (index, by) ↦ elim (row_with_agent (get_elem? snapshot.rows index)) [
        | none ↦ unprojected snapshot
        | some (row, agent) ↦
            project_target p snapshot report projected_at status index by row agent
      ]
    ]

unfoldable pub project_harness_event_report :
    Platform → WosmSnapshot → HarnessEventReport → String → StatusProjectionResult
unfolding project_status unprojected
project_harness_event_report p snapshot report projected_at = elim (report.status) [
  | none ↦ unprojected snapshot
  | some status ↦
      if status.value == unknown
      then unprojected snapshot
      else project_status p snapshot report projected_at status
]
