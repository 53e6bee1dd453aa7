-- ===== src/Dashboard/Viewport/Choices.antt =====
-- The rows that a key of the dashboard chooses, where some are being removed or started.
use wosm.Base.{
  String, true, not, ◌≡◌, refl, List, [], ◌∷◌, map, Option, none, some, find, contains, ◌==◌,
  string_eq, arith, Bool-cases, inl, inr, ◌⊎◌, sym, ◌∙◌,
}
use wosm.Base.All.{All, All-append, All-take, All-drop, All-filter, contains_own}
use wosm.Base.Platform.{Platform, TextMethods}
use wosm.Contracts.Snapshot.{ProjectView, WorktreeRow, WosmSnapshot}
use wosm.Dashboard.{PendingRemoveWorktreeRow, PendingStartAgentRow, TuiState}
use wosm.Forms.Choices.{KeyedChoice, choice_value_by_key}
use wosm.Dashboard.Selectors.{ProjectGroup, select_project_groups}
use wosm.Dashboard.Items.{
  DashboardViewportItem, project_gap, project_header, empty_project, WorktreeItem, worktree_item,
  create_local_item, GroupDashboardRow, real, local, row_item, rows_or_empty, group_items,
  further_groups, all_groups, select_dashboard_items,
}
use wosm.Dashboard.Viewport.{
  display_worktree_rows_from_items, pending_start_worktree_ids, select_dashboard_viewport,
}
use wosm.Forms.Choices.Keys.{key_choices-All, choice-All}

-- No pending removal of the row, and no pending start.
abbrev pub NotRemoving : TuiState → WorktreeRow → Type 0
NotRemoving s row =
    find (λ local_row. local_row.worktree_id == row.id) s.local_rows.pending_remove ≡ none

abbrev pub NotStarting : TuiState → WorktreeRow → Type 0
NotStarting s row =
    find (λ local_row. local_row.worktree_id == row.id) s.local_rows.pending_start ≡ none

module _ (s : TuiState) where
  -- A line of a worktree says what the local rows say of it.
  abbrev Tells : DashboardViewportItem → Type 0
  Tells (worktree_item item) =
      (item.pending_remove
        ≡ find (λ local_row. local_row.worktree_id == item.row.id) s.local_rows.pending_remove)
      × (item.pending_start
          ≡ find (λ local_row. local_row.worktree_id == item.row.id) s.local_rows.pending_start)
  Tells _ = Unit

  row_items-Tells :
      (snapshot : WosmSnapshot) (rows : List GroupDashboardRow)
      → All Tells (map (row_item snapshot s) rows)
  unfolding row_item
  row_items-Tells snapshot [] = tt
  row_items-Tells snapshot (real row ∷ rows) = ((refl, refl), row_items-Tells snapshot rows)
  row_items-Tells snapshot (local row ∷ rows) = (tt, row_items-Tells snapshot rows)

  rows_or_empty-Tells :
      (project : ProjectView) (items : List DashboardViewportItem)
      → All Tells items
      → All Tells (rows_or_empty project items)
  rows_or_empty-Tells project [] h = (tt, tt)
  rows_or_empty-Tells project (item ∷ items) h = h

  group_items-Tells :
      (p : Platform) (t : TextMethods) (snapshot : WosmSnapshot) (group : ProjectGroup)
      → All Tells (group_items p t snapshot s group)
  unfolding group_items
  group_items-Tells p t snapshot group = elim (Bool-cases group.collapsed) [
    | inl h ↦ rw h (tt, tt)
    | inr h ↦ rw h (tt, rows_or_empty-Tells group.project _ (row_items-Tells snapshot _))
  ]

  groups-Tells :
      (f : ProjectGroup → List DashboardViewportItem)
      → ((group : ProjectGroup) → All Tells (f group))
      → (groups : List ProjectGroup) → All Tells (further_groups f groups)
  groups-Tells f each [] = tt
  groups-Tells f each (group ∷ groups) =
      (tt, All-append Tells (f group) _ (each group) (groups-Tells f each groups))

  all_groups-Tells :
      (f : ProjectGroup → List DashboardViewportItem)
      → ((group : ProjectGroup) → All Tells (f group))
      → (groups : List ProjectGroup) → All Tells (all_groups f groups)
  all_groups-Tells f each [] = tt
  all_groups-Tells f each (group ∷ groups) =
      All-append Tells (f group) _ (each group) (groups-Tells f each groups)

  -- A row that is displayed is not being removed, and is being started only if it is among `ids`.
  abbrev Clear : List String → WorktreeRow → Type 0
  Clear ids row = NotRemoving s row × (NotStarting s row ⊎ (contains ids row.id ≡ true))

  abbrev starting_ids :
      WorktreeItem → List DashboardViewportItem → Option PendingStartAgentRow → List String
  starting_ids item items none = pending_start_worktree_ids items
  starting_ids item items (some _) = item.row.id ∷ pending_start_worktree_ids items

  -- Where the line of a row is being started, its id is among those that are.
  started_line :
      (ids : List String) (item : WorktreeItem) (items : List DashboardViewportItem)
      (start : Option PendingStartAgentRow)
      → All (λ id. contains ids id ≡ true) (starting_ids item items start)
      → ((start ≡ none) ⊎ (contains ids item.row.id ≡ true))
        × All (λ id. contains ids id ≡ true) (pending_start_worktree_ids items)
  started_line ids item items none k = (inl refl, k)
  started_line ids item items (some _) k = (inr k.0, k.1)

  abbrev displayed :
      WorktreeItem → List WorktreeRow → Option PendingRemoveWorktreeRow → List WorktreeRow
  displayed item rows none = item.row ∷ rows
  displayed item rows (some _) = rows

  displayed_line :
      (P : WorktreeRow → Type 0) (item : WorktreeItem) (rows : List WorktreeRow)
      (removal : Option PendingRemoveWorktreeRow)
      → (removal ≡ none → P item.row)
      → All P rows
      → All P (displayed item rows removal)
  displayed_line P item rows none h k = (h refl, k)
  displayed_line P item rows (some _) h k = k

  displayed-Clear :
      (ids : List String) (items : List DashboardViewportItem)
      → All Tells items
      → All (λ id. contains ids id ≡ true) (pending_start_worktree_ids items)
      → All (Clear ids) (display_worktree_rows_from_items items)
  unfolding display_worktree_rows_from_items pending_start_worktree_ids
  displayed-Clear ids [] h k = tt
  displayed-Clear ids (project_gap id ∷ items) h k = displayed-Clear ids items h.1 k
  displayed-Clear ids (project_header v c ∷ items) h k = displayed-Clear ids items h.1 k
  displayed-Clear ids (empty_project v ∷ items) h k = displayed-Clear ids items h.1 k
  displayed-Clear ids (create_local_item row ∷ items) h k = displayed-Clear ids items h.1 k
  displayed-Clear ids (worktree_item item ∷ items) h k =
      let line = started_line ids item items item.pending_start k in
      displayed_line (Clear ids) item (display_worktree_rows_from_items items) item.pending_remove
        (λ free. (
          sym h.0.0 ∙ free,
          elim (line.0) [ inl idle ↦ inl (sym h.0.1 ∙ idle) | inr started ↦ inr started ],
        ))
        (displayed-Clear ids items h.1 line.1)

-- A row that a key of the dashboard chooses is neither being removed nor being started.
pub chosen_row_clear :
    (p : Platform) (t : TextMethods) (snapshot : WosmSnapshot) (s : TuiState) (input : String)
    (row : WorktreeRow)
    → choice_value_by_key (select_dashboard_viewport p t snapshot s).row_choices input ≡ some row
    → NotRemoving s row × NotStarting s row
unfolding select_dashboard_viewport select_dashboard_items
chosen_row_clear p t snapshot s input row e =
    let v = select_dashboard_viewport p t snapshot s in
    let ids = pending_start_worktree_ids v.visible_items in
    let told : All (Tells s) v.visible_items = All-take (Tells s) v.body_rows _ (
      All-drop (Tells s) v.hidden_above v.items (
        all_groups-Tells s (group_items p t snapshot s) (group_items-Tells s p t snapshot)
          (select_project_groups p t snapshot s))) in
    let clear = displayed-Clear s ids v.visible_items told (contains_own ids) in
    let kept =
      All-filter (λ (c : KeyedChoice WorktreeRow). Clear s ids c.value)
        (λ choice. not (contains ids choice.value.id)) v.display_row_choices
        (key_choices-All (Clear s ids) _ clear) in
    let one =
      choice-All (λ r. Clear s ids r × (not (contains ids r.id) ≡ true)) v.row_choices input row
        kept e in
    ground (arith, one)
