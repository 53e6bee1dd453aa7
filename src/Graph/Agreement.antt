-- ===== src/Graph/Agreement.antt =====
-- graph.ts: the sessions of the snapshot against its rows.
use Prim.Native.Nat.{Ordering}
use wosm.Base.{
  true, false, List, [], ◌∷◌, ◌++◌, map, Option, none, some, inl, inr, ◌⊎◌, ◌≡◌, refl, arith,
}
use wosm.Base.Sort.{insert, sort}
use wosm.Base.Platform.{Platform, TextMethods}
use wosm.Contracts.Snapshot.{WorktreeAgent, WorktreeRow, SessionView}
use wosm.Contracts.Runtime.{
  ProviderProjectConfig, WorktreeObservation, TerminalTargetObservation, ObserverHarnessRun,
}
use wosm.Graph.{choose_terminal, choose_harness_run, compare_project_rows}
use wosm.Graph.Rows.{build_worktree_row, row_agent}
use wosm.Graph.Sessions.{build_session}
use wosm.Graph.Build.{
  ObserverGraphInput, project_worktrees, build_row, build_session_of, rows_for_project,
  sessions_of_worktrees, all_rows, all_sessions, build_wosm_snapshot, cons_some,
}

-- The row of the session's worktree: same terminal, and the same run of the same agent in one state.
pub record Agrees (s : SessionView) (row : WorktreeRow) : Type 0 where
  pub same_worktree : row.id ≡ s.worktree_id
  pub same_project : row.project_id ≡ s.project_id
  pub same_terminal : row.terminal ≡ some s.terminal
  pub agent : WorktreeAgent
  pub has_agent : row.agent ≡ some agent
  pub same_state : agent.state ≡ s.status.value
  pub same_run : agent.run_id ≡ s.harness.run_id

built-Agrees :
    (p : Platform) (t : TextMethods) (input : ObserverGraphInput) (project : ProviderProjectConfig)
    (w : WorktreeObservation)
    → (terminal : Option TerminalTargetObservation) → (run : Option ObserverHarnessRun)
    → (s : SessionView)
    → build_session project w terminal run input.harness_capabilities input.session_metadata
      ≡ some s
    → Agrees s (build_worktree_row t project w terminal run)
unfolding build_session build_worktree_row row_agent
built-Agrees p t input project w none run s h = ground arith
built-Agrees p t input project w (some terminal) none s h = ground arith
built-Agrees p t input project w (some terminal) (some r) s h = record {
  same_worktree = ground arith;
  same_project = ground arith;
  same_terminal = ground arith;
  agent = row_agent r;
  has_agent = refl;
  same_state = ground arith;
  same_run = ground arith;
}

-- Some row of the list agrees with the session.
abbrev pub Shown : SessionView → List WorktreeRow → Type 0
Shown s [] = false ≡ true
Shown s (row ∷ rows) = Agrees s row ⊎ Shown s rows

Shown-pick :
    (o : Ordering) (s : SessionView) (xs ys : List WorktreeRow)
    → Shown s xs
    → Shown s ys
    → Shown s (elim o [ Ordering.gt ↦ xs | _ ↦ ys ])
Shown-pick Ordering.gt s xs ys a b = a
Shown-pick Ordering.lt s xs ys a b = b
Shown-pick Ordering.eq s xs ys a b = b

Shown-insert :
    (cmp : WorktreeRow → WorktreeRow → Ordering) (s : SessionView) (row : WorktreeRow)
    (rows : List WorktreeRow)
    → Shown s (row ∷ rows)
    → Shown s (insert cmp row rows)
unfolding insert
Shown-insert cmp s row [] h = h
Shown-insert cmp s row (x ∷ rows) (inl h) =
    Shown-pick (cmp row x) s (x ∷ insert cmp row rows) (row ∷ x ∷ rows)
      (inr (Shown-insert cmp s row rows (inl h))) (inl h)
Shown-insert cmp s row (x ∷ rows) (inr (inl h)) =
    Shown-pick (cmp row x) s (x ∷ insert cmp row rows) (row ∷ x ∷ rows) (inl h) (inr (inl h))
Shown-insert cmp s row (x ∷ rows) (inr (inr h)) =
    Shown-pick (cmp row x) s (x ∷ insert cmp row rows) (row ∷ x ∷ rows)
      (inr (Shown-insert cmp s row rows (inr h))) (inr (inr h))

Shown-sort :
    (cmp : WorktreeRow → WorktreeRow → Ordering) (s : SessionView) (rows : List WorktreeRow)
    → Shown s rows
    → Shown s (sort cmp rows)
unfolding sort
Shown-sort cmp s [] h = h
Shown-sort cmp s (row ∷ rows) (inl h) = Shown-insert cmp s row (sort cmp rows) (inl h)
Shown-sort cmp s (row ∷ rows) (inr h) =
    Shown-insert cmp s row (sort cmp rows) (inr (Shown-sort cmp s rows h))

Shown-append :
    (s : SessionView) (xs ys : List WorktreeRow) → (Shown s xs ⊎ Shown s ys) → Shown s (xs ++ ys)
Shown-append s [] ys (inl h) = ground arith
Shown-append s [] ys (inr h) = h
Shown-append s (x ∷ xs) ys (inl (inl h)) = inl h
Shown-append s (x ∷ xs) ys (inl (inr h)) = inr (Shown-append s xs ys (inl h))
Shown-append s (x ∷ xs) ys (inr h) = inr (Shown-append s xs ys (inr h))

-- Every session of the list is shown by a row.
abbrev pub AllShown : List SessionView → List WorktreeRow → Type 0
AllShown [] rows = Unit
AllShown (s ∷ sessions) rows = Shown s rows × AllShown sessions rows

AllShown-mono :
    (ss : List SessionView) (xs ys : List WorktreeRow)
    → ((s : SessionView) → Shown s xs → Shown s ys)
    → AllShown ss xs
    → AllShown ss ys
AllShown-mono [] xs ys f h = tt
AllShown-mono (s ∷ ss) xs ys f h = (f s h.0, AllShown-mono ss xs ys f h.1)

AllShown-append :
    (ss ts : List SessionView) (rows : List WorktreeRow)
    → AllShown ss rows
    → AllShown ts rows
    → AllShown (ss ++ ts) rows
AllShown-append [] ts rows a b = b
AllShown-append (s ∷ ss) ts rows a b = (a.0, AllShown-append ss ts rows a.1 b)

row-Agrees :
    (p : Platform) (t : TextMethods) (input : ObserverGraphInput) (project : ProviderProjectConfig)
    (w : WorktreeObservation) (s : SessionView)
    → build_session_of p t input project w ≡ some s
    → Agrees s (build_row p t input project w)
unfolding build_session_of build_row
row-Agrees p t input project w s h =
    let terminal = choose_terminal p t w input.terminal_targets in
    let run = choose_harness_run p w terminal input.harness_runs in
    let a = built-Agrees p t input project w terminal run s h in
    record {
      same_worktree = a.same_worktree;
      same_project = a.same_project;
      same_terminal = a.same_terminal;
      agent = a.agent;
      has_agent = a.has_agent;
      same_state = a.same_state;
      same_run = a.same_run;
    }

cons-AllShown :
    (o : Option SessionView) (ss : List SessionView) (row : WorktreeRow) (rows : List WorktreeRow)
    → ((s : SessionView) → o ≡ some s → Agrees s row)
    → AllShown ss rows
    → AllShown (cons_some o ss) (row ∷ rows)
cons-AllShown none ss row rows f h = AllShown-mono ss rows (row ∷ rows) (λ s. inr) h
cons-AllShown (some s) ss row rows f h =
    (inl (f s refl), AllShown-mono ss rows (row ∷ rows) (λ s. inr) h)

worktrees-AllShown :
    (p : Platform) (t : TextMethods) (input : ObserverGraphInput) (project : ProviderProjectConfig)
    (ws : List WorktreeObservation)
    → AllShown (sessions_of_worktrees p t input project ws) (map (build_row p t input project) ws)
unfolding sessions_of_worktrees
worktrees-AllShown p t input project [] = tt
worktrees-AllShown p t input project (w ∷ ws) =
    cons-AllShown (build_session_of p t input project w)
      (sessions_of_worktrees p t input project ws) (build_row p t input project w)
      (map (build_row p t input project) ws) (row-Agrees p t input project w)
      (worktrees-AllShown p t input project ws)

projects-AllShown :
    (p : Platform) (t : TextMethods) (input : ObserverGraphInput)
    (projects : List ProviderProjectConfig)
    → AllShown (all_sessions p t input projects) (all_rows p t input projects)
unfolding all_sessions all_rows rows_for_project
projects-AllShown p t input [] = tt
projects-AllShown p t input (project ∷ projects) =
    let ws = project_worktrees input project in
    let built = map (build_row p t input project) ws in
    let here = rows_for_project p t input project in
    let rest = all_rows p t input projects in
    AllShown-append (sessions_of_worktrees p t input project ws) (all_sessions p t input projects)
      (here ++ rest)
      (AllShown-mono (sessions_of_worktrees p t input project ws) built (here ++ rest)
        (λ s h. Shown-append s here rest (inl (Shown-sort (compare_project_rows p) s built h)))
        (worktrees-AllShown p t input project ws))
      (AllShown-mono (all_sessions p t input projects) rest (here ++ rest)
        (λ s h. Shown-append s here rest (inr h)) (projects-AllShown p t input projects))

-- Every session of the snapshot has a row of its worktree, in its project, with the terminal of the
-- session and its agent, in the same state and of the same run.
pub sessions_shown :
    (p : Platform) (t : TextMethods) (input : ObserverGraphInput)
    → let snapshot = build_wosm_snapshot p t input in AllShown snapshot.sessions snapshot.rows
unfolding build_wosm_snapshot
sessions_shown p t input = projects-AllShown p t input input.projects
