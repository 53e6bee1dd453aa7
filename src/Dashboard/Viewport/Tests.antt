-- ===== src/Dashboard/Viewport/Tests.antt =====
-- The window of a small dashboard with two rows.
use mathlib.Core.List.{Perm}
use wosm.Base.{true, false, ◌≡◌, refl, [], none, some}
use wosm.Base.Platform.{TextMethods, by_length}
use wosm.Contracts.Status.{working}
use wosm.Contracts.Snapshot.{no_agent_label, WorktreeRow, WosmSnapshot}
use wosm.Samples
use wosm.Dashboard.{TuiState, connected}
use wosm.Dashboard.LocalRows.{create_empty_tui_local_rows}
use wosm.Forms.Choices.{choice_value_by_key}
use wosm.Dashboard.Selectors.{select_visible_rows}
use wosm.Dashboard.Items.{select_dashboard_items}
use wosm.Dashboard.Viewport.{select_dashboard_viewport}
use wosm.Dashboard.Viewport.Choices.{NotRemoving, NotStarting, chosen_row_clear}
use wosm.Dashboard.Viewport.Shown.{worktree_rows, items_show_rows}

abbrev plain : TextMethods
plain = record {
  trim = λ s. s;
  without_trailing_slashes = λ s. s;
  slice = λ s n. s;
  starts_with = λ s t. false;
  includes = λ s t. true;
  to_lower_case = λ s. s;
}

abbrev loaded : WosmSnapshot
loaded = Samples.snapshot working

abbrev small : TuiState
small = record {
  search_query = "";
  collapsed_project_ids = [];
  scroll_offset = 0;
  terminal_rows = 8;
  local_rows = create_empty_tui_local_rows;
  snapshot = some loaded;
  loading = false;
  screen = "dashboard";
  toasts = [];
  connection = connected;
  runtime = "";
}

abbrev first_row : WorktreeRow
first_row = Samples.row "wt2" none (Samples.display no_agent_label 70)

items_show_rows_example :
    Perm
      (worktree_rows (select_dashboard_items by_length plain loaded small))
      (select_visible_rows by_length plain loaded small)
items_show_rows_example = items_show_rows by_length plain loaded small

-- Two of the three lines fit: the project's and the first row.
key_of_row :
    choice_value_by_key (select_dashboard_viewport by_length plain loaded small).row_choices "1"
    ≡ some first_row
unfolding select_dashboard_viewport choice_value_by_key create_empty_tui_local_rows
key_of_row = refl

chosen_row_clear_example : NotRemoving small first_row × NotStarting small first_row
chosen_row_clear_example = chosen_row_clear by_length plain loaded small "1" first_row key_of_row
