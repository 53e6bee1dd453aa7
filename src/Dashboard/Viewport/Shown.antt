-- ===== src/Dashboard/Viewport/Shown.antt =====
-- The lines of the dashboard against its visible rows.
use mathlib.Core.List.{Perm, filter_map}
use mathlib.Core.List.Perm
use wosm.Base.{
  true, ◌≡◌, refl, Option, none, some, List, [], ◌∷◌, ◌++◌, map, flatten, Bool-cases, inl, inr, ap,
  sym, subst, ◌∙◌, filter, ◌==◌, string_eq,
}
use wosm.Base.All.{All}
use wosm.Base.Sort.{sort, sort-perm}
use wosm.Base.Platform.{Platform, TextMethods}
use wosm.Contracts.Snapshot.{ProjectView, WorktreeRow, WosmSnapshot}
use wosm.Dashboard.{TuiState}
use wosm.Dashboard.Selectors.{
  ProjectGroup, project_group, select_project_groups, select_visible_rows,
}
use wosm.Dashboard.Items.{
  DashboardViewportItem, project_gap, project_header, empty_project, worktree_item,
  create_local_item, DashboardCreateSessionLocalRow, GroupDashboardRow, real, local, row_item,
  rows_or_empty, group_items, further_groups, all_groups, select_dashboard_items,
  merge_rows_and_create_session_local_rows, compare_dashboard_rows, local_row_matches_search,
  local_project_id, visible_create_session_local_rows,
}

-- The rows of worktrees among the lines.
unfoldable pub worktree_rows : List DashboardViewportItem → List WorktreeRow
worktree_rows [] = []
worktree_rows (worktree_item item ∷ items) = item.row ∷ worktree_rows items
worktree_rows (_ ∷ items) = worktree_rows items

abbrev as_real : GroupDashboardRow → Option WorktreeRow
as_real (real row) = some row
as_real (local row) = none

real_rows : List GroupDashboardRow → List WorktreeRow
unfolding filter_map
real_rows = filter_map as_real

worktree_rows-append :
    (xs ys : List DashboardViewportItem)
    → worktree_rows (xs ++ ys) ≡ worktree_rows xs ++ worktree_rows ys
unfolding worktree_rows
worktree_rows-append [] ys = refl
worktree_rows-append (worktree_item item ∷ xs) ys = ap (item.row ∷◌) (worktree_rows-append xs ys)
worktree_rows-append (project_gap _ ∷ xs) ys = worktree_rows-append xs ys
worktree_rows-append (project_header _ _ ∷ xs) ys = worktree_rows-append xs ys
worktree_rows-append (empty_project _ ∷ xs) ys = worktree_rows-append xs ys
worktree_rows-append (create_local_item _ ∷ xs) ys = worktree_rows-append xs ys

row_items-rows :
    (snapshot : WosmSnapshot) (s : TuiState) (rows : List GroupDashboardRow)
    → worktree_rows (map (row_item snapshot s) rows) ≡ real_rows rows
unfolding worktree_rows row_item real_rows filter_map
row_items-rows snapshot s [] = refl
row_items-rows snapshot s (real row ∷ rows) = ap (row ∷◌) (row_items-rows snapshot s rows)
row_items-rows snapshot s (local row ∷ rows) = row_items-rows snapshot s rows

rows_or_empty-rows :
    (project : ProjectView) (items : List DashboardViewportItem)
    → worktree_rows (rows_or_empty project items) ≡ worktree_rows items
unfolding worktree_rows
rows_or_empty-rows project [] = refl
rows_or_empty-rows project (item ∷ items) = refl

real_rows-perm : {xs ys : List GroupDashboardRow} → Perm xs ys → Perm (real_rows xs) (real_rows ys)
unfolding real_rows
real_rows-perm h = Perm.filter_map as_real h

real_rows-locals : (rows : List DashboardCreateSessionLocalRow) → real_rows (map local rows) ≡ []
unfolding real_rows filter_map
real_rows-locals [] = refl
real_rows-locals (row ∷ rows) = real_rows-locals rows

real_rows-merged :
    (rows : List WorktreeRow) (locals : List DashboardCreateSessionLocalRow)
    → real_rows (map real rows ++ map local locals) ≡ rows
unfolding real_rows filter_map
real_rows-merged [] locals = real_rows-locals locals
real_rows-merged (row ∷ rows) locals = ap (row ∷◌) (real_rows-merged rows locals)

-- A collapsed group has no rows.
abbrev Folded : ProjectGroup → Type 0
Folded group = group.collapsed ≡ true → group.rows ≡ []

group_items-rows :
    (p : Platform) (t : TextMethods) (snapshot : WosmSnapshot) (s : TuiState) (group : ProjectGroup)
    → Folded group
    → Perm (worktree_rows (group_items p t snapshot s group)) group.rows
unfolding group_items worktree_rows merge_rows_and_create_session_local_rows
group_items-rows p t snapshot s group folded = elim (Bool-cases group.collapsed) [
  | inl h ↦ rw (h, folded h) (Perm.refl [])
  | inr h ↦
      let locals =
        filter (λ row. local_row_matches_search t row group.project s.search_query)
          (filter (λ row. local_project_id row == group.project.id)
            (visible_create_session_local_rows snapshot s)) in
      let all = map real group.rows ++ map local locals in
      let sorted = sort (compare_dashboard_rows p snapshot s) all in
      rw h (
        subst (λ rows. Perm rows group.rows)
          (sym (
            rows_or_empty-rows group.project (map (row_item snapshot s) sorted)
            ∙ row_items-rows snapshot s sorted))
          (subst (Perm (real_rows sorted)) (real_rows-merged group.rows locals)
            (real_rows-perm (sort-perm (compare_dashboard_rows p snapshot s) all))))
]

module _ (f : ProjectGroup → List DashboardViewportItem) where
  abbrev Rows : ProjectGroup → Type 0
  Rows group = Perm (worktree_rows (f group)) group.rows

  join-rows :
      (group : ProjectGroup) (items : List DashboardViewportItem) (rows : List WorktreeRow)
      → Rows group
      → Perm (worktree_rows items) rows
      → Perm (worktree_rows (f group ++ items)) (group.rows ++ rows)
  join-rows group items rows h k = rw (worktree_rows-append (f group) items) (Perm.append h k)

  further-rows :
      (groups : List ProjectGroup)
      → All Rows groups
      → Perm (worktree_rows (further_groups f groups)) (flatten (map (λ g. g.rows) groups))
  unfolding worktree_rows
  further-rows [] h = Perm.refl []
  further-rows (group ∷ groups) h =
      join-rows group (further_groups f groups) _ h.0 (further-rows groups h.1)

  all_groups-rows :
      (groups : List ProjectGroup)
      → All Rows groups
      → Perm (worktree_rows (all_groups f groups)) (flatten (map (λ g. g.rows) groups))
  unfolding worktree_rows
  all_groups-rows [] h = Perm.refl []
  all_groups-rows (group ∷ groups) h =
      join-rows group (further_groups f groups) _ h.0 (further-rows groups h.1)

groups-Rows :
    (p : Platform) (t : TextMethods) (snapshot : WosmSnapshot) (s : TuiState)
    (projects : List ProjectView)
    → All (Rows (group_items p t snapshot s)) (map (project_group p t snapshot s) projects)
unfolding project_group
groups-Rows p t snapshot s [] = tt
groups-Rows p t snapshot s (project ∷ projects) = (
  group_items-rows p t snapshot s (project_group p t snapshot s project) (λ h. rw h refl),
  groups-Rows p t snapshot s projects,
)

-- The rows that the lines of the dashboard show are, up to their order, those that the selector of
-- visible rows gives, each as often: putting the local rows between them loses none and repeats none.
pub items_show_rows :
    (p : Platform) (t : TextMethods) (snapshot : WosmSnapshot) (s : TuiState)
    → Perm
        (worktree_rows (select_dashboard_items p t snapshot s))
        (select_visible_rows p t snapshot s)
unfolding select_dashboard_items select_visible_rows select_project_groups
items_show_rows p t snapshot s =
    all_groups-rows (group_items p t snapshot s)
      (map (project_group p t snapshot s) snapshot.projects)
      (groups-Rows p t snapshot s snapshot.projects)
