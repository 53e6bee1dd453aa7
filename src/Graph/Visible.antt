-- ===== src/Graph/Visible.antt =====
-- graph.ts: where a terminal that was observed is found in the snapshot.
use wosm.Base.{
  ℕ, suc, String, true, false, List, [], ◌∷◌, ◌++◌, Option, none, some, get_elem?, zero, string_eq,
  option_eq, eq_iff, ==-refl, Option-cases, Bool-cases, inl, inr, ◌⊎◌, ◌≡◌, refl, sym, subst, arith,
}
use wosm.Base.Platform.{Platform, TextMethods}
use wosm.Contracts.Snapshot.{OrphanedRuntimeState}
use wosm.Contracts.Runtime.{
  ProviderProjectConfig, WorktreeObservation, TerminalTargetObservation, ObserverHarnessRun,
}
use wosm.Graph.Chosen.{Shown, attached-Shown}
use wosm.Graph.{attaches, terminal_target_matches_worktree}
use wosm.Graph.Orphans.{
  worktree_by_id, is_orphaned_terminal, terminal_orphans, run_orphans, all_orphans, none_if_empty,
  found,
}
use wosm.Graph.Build.{ObserverGraphInput, configured_worktrees, build_wosm_snapshot}

-- What `terminal_orphans` says of a terminal.
abbrev pub Listed : String → List OrphanedRuntimeState → Type 0
Listed id [] = false ≡ true
Listed id (orphan ∷ orphans) = (orphan.terminal_target_id ≡ some id) ⊎ Listed id orphans

-- A worktree that a terminal is attached to.
abbrev Attached : TextMethods → List WorktreeObservation → TerminalTargetObservation → Type 0
Attached t ws terminal =
    (k : ℕ) × (w : WorktreeObservation) × (get_elem? ws k ≡ some w) × (attaches t w terminal ≡ true)

found-Attached :
    (t : TextMethods) (ws : List WorktreeObservation) (terminal : TerminalTargetObservation)
    (id : String)
    → terminal.worktree_id ≡ some id
    → (w : WorktreeObservation) → worktree_by_id ws id ≡ some w
    → terminal_target_matches_worktree t terminal w ≡ true
    → Attached t ws terminal
found-Attached t [] terminal id h w found matched = ground arith
found-Attached t (v ∷ ws) terminal id h w found matched =
    elim (Option-cases (worktree_by_id ws id)) [
      | inl nothing ↦ (0, v, refl, ground (arith, nothing, ==-refl id, eq_iff v.id id))
      | inr (later, at) ↦
          let rest = found-Attached t ws terminal id h w (ground (arith, at)) matched in
          (suc rest.0, rest.1, rest.2, rest.3)
    ]

orphaned-Listed :
    (t : TextMethods) (projects : List ProviderProjectConfig) (ws : List WorktreeObservation)
    (runs : List ObserverHarnessRun) (terminals : List TerminalTargetObservation) (i : ℕ)
    (terminal : TerminalTargetObservation)
    → get_elem? terminals i ≡ some terminal
    → is_orphaned_terminal t projects ws runs terminal ≡ true
    → Listed terminal.id (terminal_orphans t projects ws runs terminals)
unfolding terminal_orphans
orphaned-Listed t projects ws runs [] i terminal at h = ground arith
orphaned-Listed t projects ws runs (x ∷ xs) zero terminal at h = ground arith
orphaned-Listed t projects ws runs (x ∷ xs) (suc i) terminal at h =
    ground (arith, orphaned-Listed t projects ws runs xs i terminal)

Listed-append :
    (id : String) (xs ys : List OrphanedRuntimeState) → Listed id xs → Listed id (xs ++ ys)
Listed-append id [] ys h = ground arith
Listed-append id (x ∷ xs) ys (inl h) = inl h
Listed-append id (x ∷ xs) ys (inr h) = inr (Listed-append id xs ys h)

abbrev pub orphan_list : Option (List OrphanedRuntimeState) → List OrphanedRuntimeState
orphan_list none = []
orphan_list (some orphans) = orphans

orphan_list_lem : (xs : List OrphanedRuntimeState) → orphan_list (none_if_empty xs) ≡ xs
orphan_list_lem [] = refl
orphan_list_lem (x ∷ xs) = refl

unorphaned-Attached :
    (t : TextMethods) (projects : List ProviderProjectConfig) (ws : List WorktreeObservation)
    (runs : List ObserverHarnessRun) (terminal : TerminalTargetObservation)
    → is_orphaned_terminal t projects ws runs terminal ≡ false
    → Attached t ws terminal
unorphaned-Attached t projects ws runs terminal h = elim (Option-cases terminal.worktree_id) [
  | inl nothing ↦ ground (arith, nothing)
  | inr (id, names) ↦ elim (Option-cases (worktree_by_id ws id)) [
    | inl missing ↦ ground (arith, names, missing)
    | inr (w, at) ↦ found-Attached t ws terminal id names w at (ground (arith, names, at))
  ]
]

-- A terminal that was observed is listed among the orphans of the snapshot, or it is attached to a
-- worktree whose row is in the snapshot, and which has chosen a terminal that was observed and is
-- attached to it too: this one or, where several are attached, one of them. Attached are those that
-- name the worktree and give no path or one in it.
pub terminal_accounted :
    (p : Platform) (t : TextMethods) (input : ObserverGraphInput) (i : ℕ)
    (terminal : TerminalTargetObservation)
    → get_elem? input.terminal_targets i ≡ some terminal
    → Listed terminal.id (orphan_list (build_wosm_snapshot p t input).orphans)
      ⊎ Shown p t input terminal
unfolding build_wosm_snapshot all_orphans
terminal_accounted p t input i terminal at =
    let ws = configured_worktrees input in
    elim (Bool-cases (is_orphaned_terminal t input.projects ws input.harness_runs terminal)) [
      | inl orphaned ↦ inl (
          subst (Listed terminal.id)
            (sym (
              orphan_list_lem (
                terminal_orphans t input.projects ws input.harness_runs input.terminal_targets
                ++ run_orphans input.projects ws input.harness_runs)))
            (Listed-append terminal.id
              (terminal_orphans t input.projects ws input.harness_runs input.terminal_targets)
              (run_orphans input.projects ws input.harness_runs)
              (orphaned-Listed t input.projects ws input.harness_runs input.terminal_targets i
                terminal at orphaned)))
      | inr kept ↦
          let on = unorphaned-Attached t input.projects ws input.harness_runs terminal kept in
          inr (attached-Shown p t input i on.0 terminal on.1 at on.2 on.3)
    ]
