-- ===== src/Graph/Accounting.antt =====
-- graph.ts: the number of the rows that the worktrees of configured projects come to.
use wosm.Base.{
  suc, ◌+◌, String, Bool, true, false, List, [], ◌∷◌, map, filter, any, length, length-append,
  length-map, filter_idem, contains, IsDistinct, ◌==◌, string_eq, option_eq, eq_iff, ◌≡◌, refl, sym,
  ap, ◌∙◌, arith,
}
use wosm.Base.Sort.{insert, sort}
use Prim.Native.Nat.{Ordering}
use wosm.Base.Platform.{Platform, TextMethods}
use wosm.Contracts.Snapshot.{WorktreeRow, Counts}
use wosm.Contracts.Runtime.{ProviderProjectConfig, WorktreeObservation}
use wosm.Status.{no_counts, count_row, counts_from, counts_for_rows}
use wosm.Graph.{compare_project_rows}
use wosm.Graph.Build.{
  ObserverGraphInput, configured_worktrees, project_worktrees, build_row, rows_for_project,
  all_rows, build_wosm_snapshot,
}

module _ {A : Type 0} (cmp : A → A → Ordering) where
  length-insert : (x : A) (ys : List A) → length (insert cmp x ys) ≡ suc (length ys)
  unfolding insert
  length-insert x [] = refl
  length-insert x (y ∷ ys) = ground (arith, length-insert x ys)

  pub length-sort : (xs : List A) → length (sort cmp xs) ≡ length xs
  unfolding sort
  length-sort [] = refl
  length-sort (x ∷ xs) = length-insert x (sort cmp xs) ∙ ap suc (length-sort xs)

abbrev pub project_ids : List ProviderProjectConfig → List String
project_ids projects = map (λ project. project.id) projects

abbrev belongs : List ProviderProjectConfig → WorktreeObservation → Bool
belongs projects worktree = any (λ project. project.id == worktree.project_id) projects

abbrev of_project : ProviderProjectConfig → WorktreeObservation → Bool
of_project project worktree = worktree.project_id == project.id

unlisted :
    (projects : List ProviderProjectConfig) (project : ProviderProjectConfig)
    (w : WorktreeObservation)
    → contains (project_ids projects) project.id ≡ false
    → of_project project w ≡ true
    → belongs projects w ≡ false
unlisted [] project w h e = refl
unlisted (q ∷ projects) project w h e = ground (
  arith,
  unlisted projects project w,
  eq_iff q.id project.id,
  eq_iff w.project_id project.id,
  eq_iff q.id w.project_id,
)

length-belongs :
    (project : ProviderProjectConfig) (projects : List ProviderProjectConfig)
    (ws : List WorktreeObservation)
    → contains (project_ids projects) project.id ≡ false
    → length (filter (belongs (project ∷ projects)) ws)
      ≡ length (filter (of_project project) ws) + length (filter (belongs projects) ws)
length-belongs project projects [] h = omega arith
length-belongs project projects (w ∷ ws) h = ground (
  arith,
  length-belongs project projects ws,
  unlisted projects project w,
  eq_iff project.id w.project_id,
  eq_iff w.project_id project.id,
)

no_projects : (ws : List WorktreeObservation) → length (filter (belongs []) ws) ≡ 0
no_projects [] = refl
no_projects (w ∷ ws) = no_projects ws

length-rows :
    (p : Platform) (t : TextMethods) (input : ObserverGraphInput) (project : ProviderProjectConfig)
    → length (rows_for_project p t input project)
      ≡ length (filter (of_project project) (configured_worktrees input))
unfolding rows_for_project project_worktrees
length-rows p t input project =
    length-sort (compare_project_rows p)
      (map (build_row p t input project) (project_worktrees input project))
    ∙ length-map (build_row p t input project) (project_worktrees input project)

length-all_rows :
    (p : Platform) (t : TextMethods) (input : ObserverGraphInput)
    (projects : List ProviderProjectConfig)
    → IsDistinct (project_ids projects)
    → length (all_rows p t input projects)
      ≡ length (filter (belongs projects) (configured_worktrees input))
unfolding all_rows
length-all_rows p t input [] d = sym (no_projects (configured_worktrees input))
length-all_rows p t input (project ∷ projects) d = omega (
  arith,
  length-append (rows_for_project p t input project) (all_rows p t input projects),
  length-rows p t input project,
  length-all_rows p t input projects d.1,
  length-belongs project projects (configured_worktrees input) d.0,
)

worktrees-counts :
    (c : Counts) (rows : List WorktreeRow)
    → (counts_from c rows).worktrees ≡ c.worktrees + length rows
unfolding counts_from
worktrees-counts c [] = omega arith
worktrees-counts c (row ∷ rows) = ground (arith, worktrees-counts (count_row c row.agent) rows)

-- Where the ids of the projects are distinct, the snapshot has a row for each worktree of a configured
-- project and no other, and its count of worktrees says how many these are.
pub rows_complete :
    (p : Platform) (t : TextMethods) (input : ObserverGraphInput)
    → IsDistinct (project_ids input.projects)
    → let snapshot = build_wosm_snapshot p t input in
      (length snapshot.rows ≡ length (configured_worktrees input))
      × (snapshot.counts.rows.worktrees ≡ length (configured_worktrees input))
unfolding build_wosm_snapshot configured_worktrees counts_for_rows
rows_complete p t input d =
    let all =
      length-all_rows p t input input.projects d
      ∙ ap length (filter_idem (belongs input.projects) input.worktrees) in
    (all, omega (arith, worktrees-counts no_counts (all_rows p t input input.projects), all))
