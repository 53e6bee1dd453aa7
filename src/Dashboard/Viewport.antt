-- ===== src/Dashboard/Viewport.antt =====
-- packages/dashboard-core/src/components/Dashboard/layout.ts, state/dashboardScroll.ts and the end of
-- selectors/dashboardViewport.ts: the window that scrolls over the lines of the dashboard, and the rows
-- that a key chooses in it. Row counts are whole numbers, so `Math.floor` and `Number.isFinite` change
-- nothing.
pub mod Window
pub mod Choices
pub mod Shown
mod Tests
use Prim.Native.Nat.{Ordering, lt, eq, gt}
use wosm.Base.{
  ℕ, ◌+◌, ◌-◌, String, Bool, true, false, not, ◌||◌, ◌&&◌, List, [], ◌∷◌, ◌++◌, map, Option, none,
  some, length, take, drop, min, max, filter, find, any, flatten, contains, ◌==◌, string_eq,
  nat_beq, if◌then◌else◌,
}
use wosm.Base.Int.{ℤ, pos, ◌+ℤ◌, max_zero, int_beq}
use wosm.Base.Sort.{or_compare, sort}
use wosm.Base.Platform.{Platform, TextMethods}
use wosm.Contracts.Snapshot.{ProjectView, WorktreeRow, WosmSnapshot}
use wosm.Dashboard.{
  PendingCreateSessionRow, FailedCreateSessionRow, PendingRemoveWorktreeRow, PendingStartAgentRow,
  TuiState,
}
use wosm.Dashboard.LocalRows.{branch_key}
use wosm.Forms.Choices.{KeyedChoice, key_choices}
use wosm.Dashboard.Selectors.{
  ProjectGroup, select_project_groups, worktree_row_display_title, normalize_search,
}
use wosm.Dashboard.Items.{DashboardViewportItem, worktree_item, select_dashboard_items}

-- layout.ts.
abbrev pub dashboard_fixed_row_heights : List ℕ
dashboard_fixed_row_heights = 1 ∷ 1 ∷ 1 ∷ 1 ∷ 1 ∷ 1 ∷ []

abbrev pub sum : List ℕ → ℕ
sum [] = 0
sum (n ∷ ns) = n + sum ns

unfoldable pub dashboard_fixed_rows : ℕ
dashboard_fixed_rows = sum dashboard_fixed_row_heights

unfoldable pub dashboard_body_rows : ℕ → ℕ
unfolding dashboard_fixed_rows
dashboard_body_rows total_rows = max 1 (total_rows - dashboard_fixed_rows)

unfoldable pub clamp_dashboard_scroll_offset : ℕ → ℕ → ℤ → ℕ
clamp_dashboard_scroll_offset body_rows item_count scroll_offset =
    min (max_zero scroll_offset) (item_count - max 1 body_rows)

pub record DashboardViewport : Type 0 where
  pub body_rows : ℕ
  pub clamped_scroll_offset : ℕ
  pub hidden_above : ℕ
  pub hidden_below : ℕ
  pub items : List DashboardViewportItem
  pub visible_items : List DashboardViewportItem
  pub row_choices : List (KeyedChoice WorktreeRow)
  pub display_row_choices : List (KeyedChoice WorktreeRow)

unfoldable pub display_worktree_rows_from_items : List DashboardViewportItem → List WorktreeRow
display_worktree_rows_from_items [] = []
display_worktree_rows_from_items (worktree_item item ∷ items) = elim (item.pending_remove) [
  | none ↦ item.row ∷ display_worktree_rows_from_items items
  | some _ ↦ display_worktree_rows_from_items items
]
display_worktree_rows_from_items (_ ∷ items) = display_worktree_rows_from_items items

unfoldable pub pending_start_worktree_ids : List DashboardViewportItem → List String
pending_start_worktree_ids [] = []
pending_start_worktree_ids (worktree_item item ∷ items) = elim (item.pending_start) [
  | none ↦ pending_start_worktree_ids items
  | some _ ↦ item.row.id ∷ pending_start_worktree_ids items
]
pending_start_worktree_ids (_ ∷ items) = pending_start_worktree_ids items

unfoldable pub select_dashboard_viewport :
    Platform → TextMethods → WosmSnapshot → TuiState → DashboardViewport
unfolding select_dashboard_items dashboard_body_rows clamp_dashboard_scroll_offset
    display_worktree_rows_from_items pending_start_worktree_ids key_choices
select_dashboard_viewport p t snapshot s =
    let items = select_dashboard_items p t snapshot s in
    let body_rows = dashboard_body_rows s.terminal_rows in
    let offset = clamp_dashboard_scroll_offset body_rows (length items) (pos s.scroll_offset) in
    let visible_items = take body_rows (drop offset items) in
    let display_row_choices = key_choices (display_worktree_rows_from_items visible_items) in
    record {
      body_rows = body_rows;
      clamped_scroll_offset = offset;
      hidden_above = offset;
      hidden_below = length items - offset - body_rows;
      items = items;
      visible_items = visible_items;
      row_choices =
          filter
            (λ choice. not (contains (pending_start_worktree_ids visible_items) choice.value.id))
            display_row_choices;
      display_row_choices = display_row_choices;
    }

-- dashboardScroll.ts; the offset that is asked for may be below 0, the one of a state is not.
unfoldable pub clamped_scroll_offset_for_state : Platform → TextMethods → TuiState → ℤ → ℕ
unfolding select_dashboard_items dashboard_body_rows clamp_dashboard_scroll_offset
clamped_scroll_offset_for_state p t s scroll_offset = elim (s.snapshot) [
  | none ↦ 0
  | some snapshot ↦
      clamp_dashboard_scroll_offset (dashboard_body_rows s.terminal_rows)
        (length (select_dashboard_items p t snapshot s)) scroll_offset
]

unfoldable pub scroll_dashboard : Platform → TextMethods → TuiState → ℤ → TuiState
unfolding clamped_scroll_offset_for_state
scroll_dashboard p t s delta = record s {
  scroll_offset = clamped_scroll_offset_for_state p t s (pos s.scroll_offset +ℤ delta);
}

unfoldable pub clamp_dashboard_state_scroll : Platform → TextMethods → TuiState → TuiState
unfolding clamped_scroll_offset_for_state
clamp_dashboard_state_scroll p t s =
    let scroll_offset = clamped_scroll_offset_for_state p t s (pos s.scroll_offset) in
    if nat_beq scroll_offset s.scroll_offset then s else record s { scroll_offset = scroll_offset }
