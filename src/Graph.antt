-- ===== src/Graph.antt =====
-- apps/observer/src/reconcile/graph.ts: which terminal and which run a worktree is shown with. The
-- children build the rows, the sessions, the orphans and the snapshot.
pub mod Rows
pub mod Sessions
pub mod Orphans
pub mod Build
pub mod Accounting
pub mod Chosen
pub mod Visible
pub mod Agreement
mod Tests
use Prim.Native.Nat.{compare, Ordering}
use Prim.Native.String.{len, ◌++◌ as append}
use wosm.Base.{
  ℕ, String, Bool, true, false, not, ◌&&◌, ◌||◌, List, [], ◌∷◌, Option, none, some, filter, find,
  ltb, nat_beq, ◌==◌, string_eq, option_eq, if◌then◌else◌,
}
use wosm.Base.Sort.{sort, or_compare}
use wosm.Base.Platform.{Platform, TextMethods}
use wosm.Contracts.Status.{Confidence, high, medium, low}
use wosm.Contracts.Snapshot.{WorktreeRow}
use wosm.Contracts.Runtime.{WorktreeObservation, TerminalTargetObservation, ObserverHarnessRun}
use wosm.Status.{status_policy}

unfoldable pub confidence_rank : Confidence → ℕ
confidence_rank high = 3
confidence_rank medium = 2
confidence_rank low = 1

-- packages/runtime/src/paths.ts, `normalizeLocalPath` and `pathIsSameOrInside`.
unfoldable pub normalize_local_path : TextMethods → String → String
normalize_local_path t value =
    let trimmed = t.trim value in
    let without_trailing_slash =
      if ltb 1 (len trimmed) then t.without_trailing_slashes trimmed else trimmed in
    if t.starts_with without_trailing_slash "/private/var/"
    then append "/var/" (t.slice without_trailing_slash (len "/private/var/"))
    else without_trailing_slash

unfoldable pub path_is_same_or_inside : TextMethods → String → String → Bool
unfolding normalize_local_path
path_is_same_or_inside t candidate root =
    let normalized_candidate = normalize_local_path t candidate in
    let normalized_root = normalize_local_path t root in
    if normalized_candidate == normalized_root
    then true
    else if normalized_root == "/"
    then t.starts_with normalized_candidate "/"
    else t.starts_with normalized_candidate (append normalized_root "/")

unfoldable pub terminal_target_matches_worktree :
    TextMethods → TerminalTargetObservation → WorktreeObservation → Bool
unfolding path_is_same_or_inside
terminal_target_matches_worktree t terminal worktree = elim (terminal.cwd) [
  | none ↦ true
  | some cwd ↦ nat_beq (len cwd) 0 || path_is_same_or_inside t cwd worktree.path
]

unfoldable pub compare_observations :
    Platform → TerminalTargetObservation → TerminalTargetObservation → Ordering
unfolding confidence_rank
compare_observations p left right =
    or_compare (compare (confidence_rank right.confidence) (confidence_rank left.confidence)) (
      or_compare (compare (p.date_parse right.observed_at) (p.date_parse left.observed_at))
        (p.locale_compare left.id right.id))

unfoldable pub compare_harness_runs : Platform → ObserverHarnessRun → ObserverHarnessRun → Ordering
unfolding confidence_rank status_policy
compare_harness_runs p left right =
    or_compare
      (compare (status_policy (some left.status.value)).priority
        (status_policy (some right.status.value)).priority)
      (or_compare
        (compare (confidence_rank right.status.confidence) (confidence_rank left.status.confidence))
        (or_compare
          (compare (p.date_parse right.status.updated_at) (p.date_parse left.status.updated_at))
          (p.locale_compare left.run.id right.run.id)))

-- `compareRows` of graph.ts, within one project.
unfoldable pub compare_project_rows : Platform → WorktreeRow → WorktreeRow → Ordering
compare_project_rows p left right =
    or_compare (compare left.display.sort_priority right.display.sort_priority)
      (or_compare (p.locale_compare left.branch right.branch) (p.locale_compare left.id right.id))

module _ {A : Type 0} where
  -- `[0]`.
  abbrev pub first : List A → Option A
  first [] = none
  first (x ∷ xs) = some x

abbrev pub attaches : TextMethods → WorktreeObservation → TerminalTargetObservation → Bool
attaches t worktree terminal =
    (terminal.worktree_id == some worktree.id)
    && terminal_target_matches_worktree t terminal worktree

unfoldable pub choose_terminal :
    Platform
    → TextMethods
    → WorktreeObservation
    → List TerminalTargetObservation
    → Option TerminalTargetObservation
unfolding compare_observations
choose_terminal p t worktree terminals =
    first (sort (compare_observations p) (filter (attaches t worktree) terminals))

abbrev pub best_run :
    Platform → WorktreeObservation → List ObserverHarnessRun → Option ObserverHarnessRun
best_run p worktree runs =
    first
      (sort (compare_harness_runs p) (filter (λ run. run.run.worktree_id == some worktree.id) runs))

abbrev pub bound_run :
    Option TerminalTargetObservation → List ObserverHarnessRun → Option ObserverHarnessRun
bound_run none runs = none
bound_run (some terminal) runs = elim (terminal.harness_run_id) [
  | none ↦ none
  | some id ↦ find (λ run. run.run.id == id) runs
]

unfoldable pub choose_harness_run :
    Platform
    → WorktreeObservation
    → Option TerminalTargetObservation
    → List ObserverHarnessRun
    → Option ObserverHarnessRun
unfolding compare_harness_runs
choose_harness_run p worktree terminal runs = elim (bound_run terminal runs) [
  | some run ↦ some run
  | none ↦ best_run p worktree runs
]
