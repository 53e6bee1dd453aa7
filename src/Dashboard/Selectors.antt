-- ===== src/Dashboard/Selectors.antt =====
-- packages/dashboard-core/src/selectors/selectors.ts, second part: the groups of the projects with the
-- rows that match the search.
use Prim.Native.Nat.{Ordering}
use wosm.Base.{
  String, Bool, ◌||◌, List, [], ◌∷◌, map, Option, none, some, filter, find, any, flatten, contains,
  ◌==◌, string_eq, if◌then◌else◌,
}
use wosm.Base.Sort.{or_compare, sort}
use wosm.Base.Dict.{get}
use wosm.Base.Platform.{Platform, TextMethods}
use wosm.Contracts.Snapshot.{
  ProjectView, WorktreeRow, SessionView, WosmSnapshot, DisplayStatusLabel, no_agent_label,
  starting_label, idle_label, working_label, needs_attention_label, stuck_label, exited_label,
  unknown_label,
}
use wosm.Dashboard.{TuiLocalRows, TuiState}
use wosm.Dashboard.LocalRows.{pending_rename_titles}
use wosm.Forms.Choices.{KeyedChoice, key_choices}

pub record ProjectGroup : Type 0 where
  pub project : ProjectView
  pub rows : List WorktreeRow
  pub collapsed : Bool

unfoldable pub session_for_worktree_row : WorktreeRow → List SessionView → Option SessionView
session_for_worktree_row row sessions =
    let by_worktree = find (λ session. session.worktree_id == row.id) sessions in
    elim (row.agent) [
      | none ↦ by_worktree
      | some agent ↦ elim (agent.session_id) [
        | none ↦ by_worktree
        | some session_id ↦ elim (find (λ session. session.id == session_id) sessions) [
          | some direct ↦ some direct
          | none ↦ by_worktree
        ]
      ]
    ]

unfoldable pub worktree_row_display_title : WorktreeRow → List SessionView → TuiLocalRows → String
unfolding session_for_worktree_row pending_rename_titles
worktree_row_display_title row sessions local_rows = elim (session_for_worktree_row row sessions) [
  | none ↦ row.branch
  | some session ↦ elim (get (pending_rename_titles local_rows) session.id) [
    | none ↦ session.title
    | some pending ↦ pending.title
  ]
]

unfoldable pub normalize_search : TextMethods → String → String
normalize_search t value = t.to_lower_case (t.trim value)

abbrev pub status_label_text : DisplayStatusLabel → String
status_label_text no_agent_label = "no agent"
status_label_text starting_label = "starting"
status_label_text idle_label = "idle"
status_label_text working_label = "working"
status_label_text needs_attention_label = "needs attention"
status_label_text stuck_label = "stuck"
status_label_text exited_label = "exited"
status_label_text unknown_label = "unknown"

abbrev pub or_empty : Option String → String
or_empty none = ""
or_empty (some value) = value

unfoldable pub row_matches_search : TextMethods → WorktreeRow → ProjectView → String → String → Bool
unfolding normalize_search
row_matches_search t row project query display_title =
    (query == "")
    || any (λ value. t.includes (normalize_search t value) query)
        (display_title
          ∷ row.branch
          ∷ status_label_text row.display.status_label
          ∷ or_empty row.display.reason
          ∷ or_empty (elim (row.agent) [ none ↦ none | some agent ↦ some agent.harness ])
          ∷ or_empty (elim (row.terminal) [ none ↦ none | some terminal ↦ some terminal.provider ])
          ∷ project.label
          ∷ [])

unfoldable pub compare_rows :
    Platform → List SessionView → TuiLocalRows → WorktreeRow → WorktreeRow → Ordering
unfolding worktree_row_display_title
compare_rows p sessions local_rows left right =
    or_compare
      (p.locale_compare (worktree_row_display_title left sessions local_rows)
        (worktree_row_display_title right sessions local_rows))
      (or_compare (p.locale_compare left.branch right.branch)
        (or_compare (p.locale_compare left.path right.path) (p.locale_compare left.id right.id)))

unfoldable pub matching_rows :
    Platform → TextMethods → WosmSnapshot → TuiState → ProjectView → List WorktreeRow
unfolding normalize_search row_matches_search compare_rows worktree_row_display_title sort
matching_rows p t snapshot s project = sort (compare_rows p snapshot.sessions s.local_rows) (
    filter
      (λ row.
        row_matches_search t row project (normalize_search t s.search_query)
          (worktree_row_display_title row snapshot.sessions s.local_rows))
      (filter (λ row. row.project_id == project.id) snapshot.rows))

unfoldable pub project_group :
    Platform → TextMethods → WosmSnapshot → TuiState → ProjectView → ProjectGroup
unfolding matching_rows
project_group p t snapshot s project =
    let collapsed = contains s.collapsed_project_ids project.id in
    record {
      project = project;
      rows = if collapsed then [] else matching_rows p t snapshot s project;
      collapsed = collapsed;
    }

unfoldable pub select_project_groups :
    Platform → TextMethods → WosmSnapshot → TuiState → List ProjectGroup
unfolding project_group
select_project_groups p t snapshot s = map (project_group p t snapshot s) snapshot.projects

unfoldable pub select_visible_rows :
    Platform → TextMethods → WosmSnapshot → TuiState → List WorktreeRow
unfolding select_project_groups
select_visible_rows p t snapshot s =
    flatten (map (λ group. group.rows) (select_project_groups p t snapshot s))

unfoldable pub select_project_choices :
    Platform → TextMethods → WosmSnapshot → TuiState → List (KeyedChoice ProjectView)
unfolding select_project_groups key_choices
select_project_choices p t snapshot s =
    key_choices (map (λ group. group.project) (select_project_groups p t snapshot s))
