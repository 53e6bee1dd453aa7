-- ===== src/Dashboard/LocalRows.antt =====
-- packages/dashboard-core/src/state/localRows.ts: the rows that the dashboard shows until the observer
-- does. A pending title is an own property of an object, here an entry of a dictionary.
use Prim.Native.String.{◌++◌ as append}
use wosm.Base.{
  ℕ, String, Bool, true, false, not, ◌&&◌, List, [], ◌∷◌, ◌++◌, map, Option, none, some, filter,
  find, contains, ◌==◌, string_eq, if◌then◌else◌,
}
use wosm.Base.Dict.{Dict, get, set, delete}
use wosm.Contracts.Status.{SafeError}
use wosm.Contracts.Snapshot.{WorktreeRow, SessionView, WosmSnapshot}
use wosm.Dashboard.{
  PendingCreateSessionRow, FailedCreateSessionRow, PendingRemoveWorktreeRow, PendingStartAgentRow,
  PendingRenameSessionTitle, TuiLocalRows, TuiState,
}

unfoldable pub create_empty_tui_local_rows : TuiLocalRows
create_empty_tui_local_rows = record {
  pending_create = [];
  failed_create = [];
  pending_remove = [];
  pending_start = [];
  pending_rename_titles = some [];
}

abbrev pub with_rows : TuiState → TuiLocalRows → TuiState
with_rows s rows = record s { local_rows = rows }

unfoldable pub add_pending_create_session_row : TuiState → PendingCreateSessionRow → TuiState
add_pending_create_session_row s row =
    let rows = s.local_rows in
    with_rows s (record rows { pending_create = rows.pending_create ++ row ∷ [] })

unfoldable pub bind_pending_create_session_row : TuiState → String → String → TuiState
bind_pending_create_session_row s local_id command_id =
    let rows = s.local_rows in
    with_rows s (record rows {
      pending_create =
          map
            (λ row.
              if row.local_id == local_id then record row { command_id = some command_id } else row)
            rows.pending_create;
    })

abbrev failed_row : PendingCreateSessionRow → SafeError → ℕ → FailedCreateSessionRow
failed_row row error expires_at = record {
  local_id = row.local_id;
  project_id = row.project_id;
  branch = row.branch;
  error = error;
  expires_at = expires_at;
}

unfoldable pub fail_pending_create_session_row : TuiState → String → SafeError → ℕ → TuiState
fail_pending_create_session_row s local_id error expires_at =
    let rows = s.local_rows in
    elim (find (λ candidate. candidate.local_id == local_id) rows.pending_create) [
      | none ↦ s
      | some row ↦ with_rows s (record rows {
        pending_create =
            filter (λ candidate. not (candidate.local_id == local_id)) rows.pending_create;
        failed_create =
            rows.failed_create
            ++ record (failed_row row error expires_at) { local_id = local_id } ∷ [];
      })
    ]

unfoldable pub remove_create_session_local_row : TuiState → String → TuiState
remove_create_session_local_row s local_id =
    let rows = s.local_rows in
    with_rows s (record rows {
      pending_create = filter (λ row. not (row.local_id == local_id)) rows.pending_create;
      failed_create = filter (λ row. not (row.local_id == local_id)) rows.failed_create;
    })

unfoldable pub add_pending_remove_worktree_row : TuiState → PendingRemoveWorktreeRow → TuiState
add_pending_remove_worktree_row s row =
    let rows = s.local_rows in
    with_rows s (record rows {
      pending_remove =
          filter (λ candidate. not (candidate.worktree_id == row.worktree_id)) rows.pending_remove
          ++ row ∷ [];
    })

unfoldable pub bind_pending_remove_worktree_row : TuiState → String → String → TuiState
bind_pending_remove_worktree_row s local_id command_id =
    let rows = s.local_rows in
    with_rows s (record rows {
      pending_remove =
          map
            (λ row.
              if row.local_id == local_id then record row { command_id = some command_id } else row)
            rows.pending_remove;
    })

unfoldable pub remove_pending_remove_worktree_row : TuiState → String → TuiState
remove_pending_remove_worktree_row s local_id =
    let rows = s.local_rows in
    with_rows s (record rows {
      pending_remove = filter (λ row. not (row.local_id == local_id)) rows.pending_remove;
    })

unfoldable pub add_pending_start_agent_row : TuiState → PendingStartAgentRow → TuiState
add_pending_start_agent_row s row =
    let rows = s.local_rows in
    with_rows s (record rows {
      pending_start =
          filter (λ candidate. not (candidate.worktree_id == row.worktree_id)) rows.pending_start
          ++ row ∷ [];
    })

unfoldable pub bind_pending_start_agent_row : TuiState → String → String → TuiState
bind_pending_start_agent_row s local_id command_id =
    let rows = s.local_rows in
    with_rows s (record rows {
      pending_start =
          map
            (λ row.
              if row.local_id == local_id then record row { command_id = some command_id } else row)
            rows.pending_start;
    })

unfoldable pub remove_pending_start_agent_row : TuiState → String → TuiState
remove_pending_start_agent_row s local_id =
    let rows = s.local_rows in
    with_rows s (record rows {
      pending_start = filter (λ row. not (row.local_id == local_id)) rows.pending_start;
    })

unfoldable pub pending_rename_titles : TuiLocalRows → Dict String PendingRenameSessionTitle
pending_rename_titles rows = elim (rows.pending_rename_titles) [ none ↦ [] | some titles ↦ titles ]

unfoldable pub with_pending_rename_titles :
    TuiLocalRows → Dict String PendingRenameSessionTitle → TuiLocalRows
with_pending_rename_titles rows [] = record rows { pending_rename_titles = none }
with_pending_rename_titles rows (title ∷ titles) = record rows {
  pending_rename_titles = some (title ∷ titles);
}

unfoldable pub add_pending_rename_session_title : TuiState → PendingRenameSessionTitle → TuiState
add_pending_rename_session_title s row = with_rows s (
    with_pending_rename_titles s.local_rows
      (set (pending_rename_titles s.local_rows) row.session_id row))

unfoldable pub bind_pending_rename_session_title : TuiState → String → String → TuiState
bind_pending_rename_session_title s session_id command_id =
    let titles = pending_rename_titles s.local_rows in
    elim (get titles session_id) [
      | none ↦ s
      | some pending ↦ with_rows s (
          with_pending_rename_titles s.local_rows
            (set titles session_id (record pending { command_id = some command_id })))
    ]

unfoldable pub remove_pending_rename_session_title : TuiState → String → TuiState
remove_pending_rename_session_title s session_id =
    let titles = pending_rename_titles s.local_rows in
    elim (get titles session_id) [
      | none ↦ s
      | some pending ↦
          with_rows s (with_pending_rename_titles s.local_rows (delete titles session_id))
    ]

-- The key of a row that is not known by its id yet, with a null character between its parts.
abbrev pub branch_key : String → String → String
branch_key project_id branch = append project_id (append "\0" branch)

abbrev pub last_with : (WorktreeRow → Bool) → List WorktreeRow → Option WorktreeRow
last_with p [] = none
last_with p (row ∷ rows) =
    let later = last_with p rows in
    elim later [ some r ↦ some r | none ↦ if p row then some row else none ]

-- `rowsByWorktreeId.get`: of rows with one id, the `Map` holds the last.
abbrev pub row_by_id : WosmSnapshot → String → Option WorktreeRow
row_by_id snapshot id = last_with (λ row. row.id == id) snapshot.rows

abbrev pub last_session : String → List SessionView → Option SessionView
last_session id [] = none
last_session id (session ∷ sessions) =
    let later = last_session id sessions in
    elim later [ some s ↦ some s | none ↦ if session.id == id then some session else none ]

abbrev pub keeps_create : WosmSnapshot → PendingCreateSessionRow → Bool
keeps_create snapshot row = not (
    contains (map (λ real. branch_key real.project_id real.branch) snapshot.rows)
      (branch_key row.project_id row.branch))

abbrev pub keeps_remove : WosmSnapshot → PendingRemoveWorktreeRow → Bool
keeps_remove snapshot row = contains (map (λ real. real.id) snapshot.rows) row.worktree_id

abbrev pub keeps_start : WosmSnapshot → PendingStartAgentRow → Bool
keeps_start snapshot row = elim (row_by_id snapshot row.worktree_id) [
  | none ↦ false
  | some real ↦
      (elim (real.agent) [ none ↦ true | some agent ↦ false ])
      && not (contains (map (λ session. session.worktree_id) snapshot.sessions) row.worktree_id)
]

abbrev pub keeps_title : WosmSnapshot → String × PendingRenameSessionTitle → Bool
keeps_title snapshot (session_id, pending) = elim (last_session session_id snapshot.sessions) [
  | none ↦ false
  | some session ↦ not (session.title == pending.title)
]

unfoldable pub prune_pending_rename_titles :
    TuiLocalRows → WosmSnapshot → Dict String PendingRenameSessionTitle
unfolding pending_rename_titles
prune_pending_rename_titles rows snapshot =
    filter (keeps_title snapshot) (pending_rename_titles rows)

unfoldable pub prune_local_rows_for_snapshot : TuiLocalRows → WosmSnapshot → TuiLocalRows
unfolding prune_pending_rename_titles with_pending_rename_titles
prune_local_rows_for_snapshot rows snapshot =
    with_pending_rename_titles
      (record rows {
        pending_create = filter (keeps_create snapshot) rows.pending_create;
        pending_remove = filter (keeps_remove snapshot) rows.pending_remove;
        pending_start = filter (keeps_start snapshot) rows.pending_start;
      })
      (prune_pending_rename_titles rows snapshot)

-- screen.ts, `replaceSnapshot`.
unfoldable pub replace_snapshot : TuiState → WosmSnapshot → TuiState
unfolding prune_local_rows_for_snapshot
replace_snapshot s snapshot = record s {
  snapshot = some snapshot;
  loading = false;
  local_rows = prune_local_rows_for_snapshot s.local_rows snapshot;
}
