-- ===== src/Graph/Chosen.antt =====
-- graph.ts: the terminal that the row of a worktree shows.
use mathlib.Core.List.{
  Mem, mem-cons_self, mem-cons_of_mem, mem-append_left, mem-append_right, mem-map_of_mem,
  not-mem-nil,
}
use mathlib.Core.List.Perm
use wosm.Base.{
  ℕ, zero, suc, Bool, true, List, [], ◌∷◌, none, some, filter, any, get_elem?, ◌==◌, string_eq,
  eq_iff, Bool-cases, Option-cases, inl, inr, ◌≡◌, refl, sym, subst, arith,
}
use wosm.Base.All.{All, All-filter, All-mono}
use wosm.Base.Sort.{insert, sort, sort-perm}
use wosm.Base.Platform.{Platform, TextMethods}
use wosm.Contracts.Runtime.{ProviderProjectConfig, WorktreeObservation, TerminalTargetObservation}
use wosm.Graph.{attaches, first, choose_terminal, compare_observations, compare_project_rows}
use wosm.Graph.Build.{
  ObserverGraphInput, configured_worktrees, project_worktrees, build_row, rows_for_project,
  all_rows, build_wosm_snapshot,
}
use Prim.Native.Nat.{Ordering}

module _ {A : Type 0} where
  mem_get : (xs : List A) (i : ℕ) (x : A) → get_elem? xs i ≡ some x → Mem x xs
  mem_get [] i x at = cc
  mem_get (y ∷ xs) zero x at = subst (λ z. Mem z (y ∷ xs)) (ground (arith, at)) mem-cons_self
  mem_get (y ∷ xs) (suc i) x at = mem-cons_of_mem y (mem_get xs i x at)

  all_own : (xs : List A) → All (λ x. Mem x xs) xs
  all_own [] = tt
  all_own (x ∷ xs) =
      (mem-cons_self, All-mono (λ y. Mem y xs) (λ y m. mem-cons_of_mem x m) xs (all_own xs))

  mem-filter_get :
      (f : A → Bool) (xs : List A) (i : ℕ) (x : A)
      → get_elem? xs i ≡ some x
      → f x ≡ true
      → Mem x (filter f xs)
  mem-filter_get f [] i x at h = cc
  mem-filter_get f (y ∷ xs) zero x at h =
      let same : y ≡ x = ground (arith, at) in
      subst (λ z. Mem x (filter f (z ∷ xs))) (sym same) (rw h mem-cons_self)
  mem-filter_get f (y ∷ xs) (suc i) x at h = elim (Bool-cases (f y)) [
    | inl hit ↦ rw hit (mem-cons_of_mem y (mem-filter_get f xs i x at h))
    | inr miss ↦ rw miss (mem-filter_get f xs i x at h)
  ]

  get-filter :
      (f : A → Bool) (xs : List A) (i : ℕ) (x : A) → get_elem? (filter f xs) i ≡ some x → f x ≡ true
  get-filter f [] i x at = cc
  get-filter f (y ∷ xs) zero x at = elim (Bool-cases (f y)) [
    | inl hit ↦ ground (arith, hit)
    | inr miss ↦ get-filter f xs zero x (ground (arith, miss))
  ]
  get-filter f (y ∷ xs) (suc i) x at = elim (Bool-cases (f y)) [
    | inl hit ↦ get-filter f xs i x (ground (arith, hit))
    | inr miss ↦ get-filter f xs (suc i) x (ground (arith, miss))
  ]

  get-any :
      (f : A → Bool) (xs : List A)
      → any f xs ≡ true
      → (i : ℕ) × (x : A) × (get_elem? xs i ≡ some x) × (f x ≡ true)
  get-any f [] h = cc
  get-any f (y ∷ xs) h = elim (Bool-cases (f y)) [
    | inl hit ↦ (0, y, refl, hit)
    | inr miss ↦
        let rest = get-any f xs (ground (arith, miss)) in (suc rest.0, rest.1, rest.2, rest.3)
  ]

  insert-All :
      (cmp : A → A → Ordering) (P : A → Type 0) (x : A) (ys : List A)
      → P x
      → All P ys
      → All P (insert cmp x ys)
  unfolding insert
  insert-All cmp P x [] h hs = (h, tt)
  insert-All cmp P x (y ∷ ys) h hs = ground (arith, insert-All cmp P x ys h)

  sort-All :
      (cmp : A → A → Ordering) (P : A → Type 0) (xs : List A) → All P xs → All P (sort cmp xs)
  unfolding sort
  sort-All cmp P [] h = tt
  sort-All cmp P (x ∷ xs) h = insert-All cmp P x (sort cmp xs) h.0 (sort-All cmp P xs h.1)

  first-All : (P : A → Type 0) (xs : List A) (x : A) → All P xs → first xs ≡ some x → P x
  first-All P [] x h e = cc
  first-All P (y ∷ xs) x h e = subst P (ground (arith, e)) h.0

  first-none : (xs : List A) (x : A) → Mem x xs → first xs ≡ none → ⊥
  first-none [] x m e = not-mem-nil m
  first-none (y ∷ xs) x m e = cc

-- The row of a worktree of a project is one of the snapshot.
row-Mem :
    (p : Platform) (t : TextMethods) (input : ObserverGraphInput)
    (projects : List ProviderProjectConfig) (i k : ℕ) (project : ProviderProjectConfig)
    (w : WorktreeObservation)
    → get_elem? projects i ≡ some project
    → get_elem? (configured_worktrees input) k ≡ some w
    → (w.project_id == project.id) ≡ true
    → Mem (build_row p t input project w) (all_rows p t input projects)
unfolding all_rows rows_for_project project_worktrees
row-Mem p t input [] i k project w at there own = cc
row-Mem p t input (q ∷ projects) zero k project w at there own =
    let same : q ≡ project = ground (arith, at) in
    subst (λ c. Mem (build_row p t input project w) (all_rows p t input (c ∷ projects))) (sym same)
      (mem-append_left (all_rows p t input projects) (
        (Perm.mem_iff (sort-perm (compare_project_rows p) _)).1 (
          mem-map_of_mem (build_row p t input project) (
            mem-filter_get (λ v. v.project_id == project.id) (configured_worktrees input) k w there
              own))))
row-Mem p t input (q ∷ projects) (suc i) k project w at there own =
    mem-append_right (rows_for_project p t input q)
      (row-Mem p t input projects i k project w at there own)

-- A terminal belongs to a worktree whose row is in the snapshot, and which has chosen a terminal,
-- itself or another one that is attached to the worktree too.
pub record Shown (p : Platform) (t : TextMethods) (input : ObserverGraphInput)
    (terminal : TerminalTargetObservation) : Type 0 where
  pub project : ProviderProjectConfig
  pub worktree : WorktreeObservation
  pub chosen : TerminalTargetObservation
  pub attached : attaches t worktree terminal ≡ true
  pub in_rows : Mem (build_row p t input project worktree) (build_wosm_snapshot p t input).rows
  pub is_chosen : choose_terminal p t worktree input.terminal_targets ≡ some chosen
  pub is_observed : Mem chosen input.terminal_targets
  pub chosen_attached : attaches t worktree chosen ≡ true

chosen_lem :
    (p : Platform) (t : TextMethods) (w : WorktreeObservation)
    (terminals : List TerminalTargetObservation) (i : ℕ) (terminal : TerminalTargetObservation)
    → get_elem? terminals i ≡ some terminal
    → attaches t w terminal ≡ true
    → (c : TerminalTargetObservation) × (choose_terminal p t w terminals ≡ some c)
      × Mem c terminals
      × (attaches t w c ≡ true)
unfolding choose_terminal
chosen_lem p t w terminals i terminal at fits =
    elim (Option-cases (choose_terminal p t w terminals)) [
      | inl nothing ↦ absurd (
          first-none _ terminal
            ((Perm.mem_iff (sort-perm (compare_observations p) _)).1
              (mem-filter_get (attaches t w) terminals i terminal at fits))
            nothing)
      | inr (c, is) ↦
          let own =
            first-All (λ x. Mem x terminals × (attaches t w x ≡ true))
              (sort (compare_observations p) (filter (attaches t w) terminals)) c
              (sort-All (compare_observations p) (λ x. Mem x terminals × (attaches t w x ≡ true))
                (filter (attaches t w) terminals)
                (All-filter (λ x. Mem x terminals) (attaches t w) terminals (all_own terminals)))
              is in
          (c, is, own.0, own.1)
    ]

pub attached-Shown :
    (p : Platform) (t : TextMethods) (input : ObserverGraphInput) (i k : ℕ)
    (terminal : TerminalTargetObservation) (w : WorktreeObservation)
    → get_elem? input.terminal_targets i ≡ some terminal
    → get_elem? (configured_worktrees input) k ≡ some w
    → attaches t w terminal ≡ true
    → Shown p t input terminal
unfolding configured_worktrees build_wosm_snapshot
attached-Shown p t input i k terminal w at there fits =
    let c = chosen_lem p t w input.terminal_targets i terminal at fits in
    let kept =
      get-filter (λ v. any (λ q. q.id == v.project_id) input.projects) input.worktrees k w there in
    let q = get-any (λ q. q.id == w.project_id) input.projects kept in
    let own : (w.project_id == q.1.id) ≡ true =
      ground (arith, q.3, eq_iff q.1.id w.project_id, eq_iff w.project_id q.1.id) in
    record {
      project = q.1;
      worktree = w;
      chosen = c.0;
      attached = fits;
      in_rows = row-Mem p t input input.projects q.0 k q.1 w q.2 there own;
      is_chosen = c.1;
      is_observed = c.2;
      chosen_attached = c.3;
    }
