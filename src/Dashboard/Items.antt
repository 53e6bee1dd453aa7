-- ===== src/Dashboard/Items.antt =====
-- packages/dashboard-core/src/selectors/dashboardViewport.ts: the lines of the dashboard, which are the
-- groups of the projects with the rows that are still to come. The identifier of a line, which tells
-- the drawing what it keeps, is left out.
use Prim.Native.Nat.{Ordering, lt, gt}
use wosm.Base.{
  String, Bool, not, ◌||◌, List, [], ◌∷◌, ◌++◌, map, Option, filter, find, any, contains, ◌==◌,
  string_eq, if◌then◌else◌,
}
use wosm.Base.Sort.{or_compare, sort}
use wosm.Base.Platform.{Platform, TextMethods}
use wosm.Contracts.Snapshot.{ProjectView, WorktreeRow, WosmSnapshot}
use wosm.Dashboard.{
  PendingCreateSessionRow, FailedCreateSessionRow, PendingRemoveWorktreeRow, PendingStartAgentRow,
  TuiState,
}
use wosm.Dashboard.LocalRows.{branch_key}
use wosm.Dashboard.Selectors.{
  ProjectGroup, select_project_groups, worktree_row_display_title, normalize_search,
}

pub data DashboardCreateSessionLocalRow : Type 0 where
  pending_create_row : PendingCreateSessionRow → DashboardCreateSessionLocalRow
  failed_create_row : FailedCreateSessionRow → DashboardCreateSessionLocalRow

pub record WorktreeItem : Type 0 where
  pub row : WorktreeRow
  pub display_title : String
  pub pending_remove : Option PendingRemoveWorktreeRow
  pub pending_start : Option PendingStartAgentRow

pub data DashboardViewportItem : Type 0 where
  project_gap : (project_id : String) → DashboardViewportItem
  project_header : ProjectView → (collapsed : Bool) → DashboardViewportItem
  empty_project : ProjectView → DashboardViewportItem
  worktree_item : WorktreeItem → DashboardViewportItem
  create_local_item : DashboardCreateSessionLocalRow → DashboardViewportItem

pub data GroupDashboardRow : Type 0 where
  real : WorktreeRow → GroupDashboardRow
  local : DashboardCreateSessionLocalRow → GroupDashboardRow

abbrev pub local_branch : DashboardCreateSessionLocalRow → String
local_branch (pending_create_row row) = row.branch
local_branch (failed_create_row row) = row.branch

abbrev pub local_project_id : DashboardCreateSessionLocalRow → String
local_project_id (pending_create_row row) = row.project_id
local_project_id (failed_create_row row) = row.project_id

abbrev pub local_row_id : DashboardCreateSessionLocalRow → String
local_row_id (pending_create_row row) = row.local_id
local_row_id (failed_create_row row) = row.local_id

abbrev pub local_harness : DashboardCreateSessionLocalRow → String
local_harness (pending_create_row row) = row.harness_provider
local_harness (failed_create_row row) = ""

unfoldable pub visible_create_session_local_rows :
    WosmSnapshot → TuiState → List DashboardCreateSessionLocalRow
visible_create_session_local_rows snapshot s =
    let real_rows = map (λ row. branch_key row.project_id row.branch) snapshot.rows in
    map pending_create_row (
      filter (λ row. not (contains real_rows (branch_key row.project_id row.branch)))
        s.local_rows.pending_create)
    ++ map failed_create_row s.local_rows.failed_create

unfoldable pub row_title : WosmSnapshot → TuiState → GroupDashboardRow → String
unfolding worktree_row_display_title
row_title snapshot s (local row) = local_branch row
row_title snapshot s (real row) = worktree_row_display_title row snapshot.sessions s.local_rows

abbrev pub row_branch : GroupDashboardRow → String
row_branch (real row) = row.branch
row_branch (local row) = local_branch row

abbrev pub row_id : GroupDashboardRow → String
row_id (real row) = row.id
row_id (local row) = local_row_id row

-- The type of the rows, and the order of their ids where the types agree.
abbrev pub compare_types : Ordering → GroupDashboardRow → GroupDashboardRow → Ordering
compare_types id_order (real left) (local right) = lt
compare_types id_order (local left) (real right) = gt
compare_types id_order _ _ = id_order

unfoldable pub compare_dashboard_rows :
    Platform → WosmSnapshot → TuiState → GroupDashboardRow → GroupDashboardRow → Ordering
unfolding row_title
compare_dashboard_rows p snapshot s left right =
    or_compare (p.locale_compare (row_title snapshot s left) (row_title snapshot s right)) (
      or_compare (p.locale_compare (row_branch left) (row_branch right))
        (compare_types (p.locale_compare (row_id left) (row_id right)) left right))

unfoldable pub merge_rows_and_create_session_local_rows :
    Platform
    → WosmSnapshot
    → TuiState
    → List WorktreeRow
    → List DashboardCreateSessionLocalRow
    → List GroupDashboardRow
unfolding compare_dashboard_rows sort
merge_rows_and_create_session_local_rows p snapshot s rows local_rows =
    sort (compare_dashboard_rows p snapshot s) (map real rows ++ map local local_rows)

unfoldable pub local_row_matches_search :
    TextMethods → DashboardCreateSessionLocalRow → ProjectView → String → Bool
unfolding normalize_search
local_row_matches_search t row project search_query =
    let query = normalize_search t search_query in
    (query == "")
    || any (λ value. t.includes (t.to_lower_case value) query)
        (local_branch row ∷ project.label ∷ local_harness row ∷ [])

unfoldable pub row_item : WosmSnapshot → TuiState → GroupDashboardRow → DashboardViewportItem
unfolding worktree_row_display_title
row_item snapshot s (real row) = worktree_item (record {
  row = row;
  display_title = worktree_row_display_title row snapshot.sessions s.local_rows;
  pending_remove = find (λ local_row. local_row.worktree_id == row.id) s.local_rows.pending_remove;
  pending_start = find (λ local_row. local_row.worktree_id == row.id) s.local_rows.pending_start;
})
row_item snapshot s (local row) = create_local_item row

-- `rows.length === 0`.
abbrev pub rows_or_empty : ProjectView → List DashboardViewportItem → List DashboardViewportItem
rows_or_empty project [] = empty_project project ∷ []
rows_or_empty project (item ∷ items) = item ∷ items

unfoldable pub group_items :
    Platform → TextMethods → WosmSnapshot → TuiState → ProjectGroup → List DashboardViewportItem
unfolding merge_rows_and_create_session_local_rows local_row_matches_search row_item
    visible_create_session_local_rows
group_items p t snapshot s group =
    let project_local_rows =
      filter (λ row. local_row_matches_search t row group.project s.search_query)
        (filter (λ row. local_project_id row == group.project.id)
          (visible_create_session_local_rows snapshot s)) in
    let rows =
      merge_rows_and_create_session_local_rows p snapshot s group.rows project_local_rows in
    project_header group.project group.collapsed
    ∷ (if group.collapsed then [] else rows_or_empty group.project (map (row_item snapshot s) rows))

-- A gap stands before every group but the first.
abbrev pub further_groups :
    (ProjectGroup → List DashboardViewportItem) → List ProjectGroup → List DashboardViewportItem
further_groups f [] = []
further_groups f (group ∷ groups) =
    project_gap group.project.id ∷ f group ++ further_groups f groups

abbrev pub all_groups :
    (ProjectGroup → List DashboardViewportItem) → List ProjectGroup → List DashboardViewportItem
all_groups f [] = []
all_groups f (group ∷ groups) = f group ++ further_groups f groups

unfoldable pub select_dashboard_items :
    Platform → TextMethods → WosmSnapshot → TuiState → List DashboardViewportItem
unfolding group_items select_project_groups
select_dashboard_items p t snapshot s =
    all_groups (group_items p t snapshot s) (select_project_groups p t snapshot s)
