-- ===== src/Dashboard/Operations.antt =====
-- localRows.ts: the operations on the local rows, and what each of them keeps.
use wosm.Base.{
  ℕ, String, Bool, false, not, List, [], ◌∷◌, ◌++◌, map, some, filter, contains, ◌==◌, ◌≡◌, refl,
  ap, string_eq, arith, if◌then◌else◌, IsDistinct, append-IsDistinct, Option-cases, inl, inr,
}
use wosm.Base.Dict.{Dict, get, set, delete}
use wosm.Contracts.Status.{SafeError}
use wosm.Contracts.Snapshot.{WosmSnapshot}
use wosm.Dashboard.{
  PendingCreateSessionRow, PendingRemoveWorktreeRow, PendingStartAgentRow,
  PendingRenameSessionTitle, TuiLocalRows, TuiState,
}
use wosm.Dashboard.LocalRows.{
  add_pending_create_session_row, bind_pending_create_session_row, fail_pending_create_session_row,
  remove_create_session_local_row, add_pending_remove_worktree_row,
  bind_pending_remove_worktree_row, remove_pending_remove_worktree_row, add_pending_start_agent_row,
  bind_pending_start_agent_row, remove_pending_start_agent_row, pending_rename_titles,
  with_pending_rename_titles, add_pending_rename_session_title, bind_pending_rename_session_title,
  remove_pending_rename_session_title, keeps_create, keeps_remove, keeps_start,
  prune_pending_rename_titles, prune_local_rows_for_snapshot, replace_snapshot, with_rows,
}

-- The operations on the local rows, as one type.
pub data Operation : Type 0 where
  add_create : PendingCreateSessionRow → Operation
  bind_create : (local_id command_id : String) → Operation
  fail_create : String → SafeError → ℕ → Operation
  remove_create : String → Operation
  add_removal : PendingRemoveWorktreeRow → Operation
  bind_removal : (local_id command_id : String) → Operation
  drop_removal : String → Operation
  add_start : PendingStartAgentRow → Operation
  bind_start : (local_id command_id : String) → Operation
  drop_start : String → Operation
  add_title : PendingRenameSessionTitle → Operation
  bind_title : (session_id command_id : String) → Operation
  drop_title : String → Operation
  load : WosmSnapshot → Operation

unfoldable pub operate : TuiState → Operation → TuiState
operate s (add_create row) = add_pending_create_session_row s row
operate s (bind_create local_id command_id) = bind_pending_create_session_row s local_id command_id
operate s (fail_create local_id error at) = fail_pending_create_session_row s local_id error at
operate s (remove_create local_id) = remove_create_session_local_row s local_id
operate s (add_removal row) = add_pending_remove_worktree_row s row
operate s (bind_removal local_id command_id) =
    bind_pending_remove_worktree_row s local_id command_id
operate s (drop_removal local_id) = remove_pending_remove_worktree_row s local_id
operate s (add_start row) = add_pending_start_agent_row s row
operate s (bind_start local_id command_id) = bind_pending_start_agent_row s local_id command_id
operate s (drop_start local_id) = remove_pending_start_agent_row s local_id
operate s (add_title row) = add_pending_rename_session_title s row
operate s (bind_title session_id command_id) =
    bind_pending_rename_session_title s session_id command_id
operate s (drop_title session_id) = remove_pending_rename_session_title s session_id
operate s (load snapshot) = replace_snapshot s snapshot

module _ {ℓ} {A : Type ℓ} (of : A → String) where
  contains-kept :
      (p : A → Bool) (xs : List A) (k : String)
      → contains (map of xs) k ≡ false
      → contains (map of (filter p xs)) k ≡ false
  contains-kept p [] k h = refl
  contains-kept p (x ∷ xs) k h = ground (arith, contains-kept p xs k)

  kept-IsDistinct :
      (p : A → Bool) (xs : List A) → IsDistinct (map of xs) → IsDistinct (map of (filter p xs))
  kept-IsDistinct p [] d = tt
  kept-IsDistinct p (x ∷ xs) d = ground (arith, kept-IsDistinct p xs, contains-kept p xs (of x))

  map-same : (f : A → A) (xs : List A) → ((x : A) → of (f x) ≡ of x) → map of (map f xs) ≡ map of xs
  map-same f [] h = refl
  map-same f (x ∷ xs) h = ground (arith, h x, map-same f xs h)

  map-snoc : (xs : List A) (x : A) → map of (xs ++ x ∷ []) ≡ map of xs ++ of x ∷ []
  map-snoc [] x = refl
  map-snoc (y ∷ xs) x = ap (λ zs. of y ∷ zs) (map-snoc xs x)

  contains-others :
      (xs : List A) (k : String) → contains (map of (filter (λ x. not (of x == k)) xs)) k ≡ false
  contains-others [] k = refl
  contains-others (x ∷ xs) k = ground (arith, contains-others xs k)

  -- An entry in the place of those with its key.
  replaced-IsDistinct :
      (xs : List A) (x : A)
      → IsDistinct (map of xs)
      → IsDistinct (map of (filter (λ y. not (of y == of x)) xs ++ x ∷ []))
  replaced-IsDistinct xs x d =
      let others = filter (λ y. not (of y == of x)) xs in
      ground (
        arith,
        map-snoc others x,
        append-IsDistinct (map of others) (of x),
        contains-others xs (of x),
        kept-IsDistinct (λ y. not (of y == of x)) xs d,
      )

-- No worktree waits for two removals or for two agents.
pub record IsSingle (s : TuiState) : Type 0 where
  pub removals : IsDistinct (map (λ row. row.worktree_id) s.local_rows.pending_remove)
  pub starts : IsDistinct (map (λ row. row.worktree_id) s.local_rows.pending_start)

titled-IsSingle :
    (s : TuiState) (rows : TuiLocalRows) (m : Dict String PendingRenameSessionTitle)
    → IsDistinct (map (λ row. row.worktree_id) rows.pending_remove)
    → IsDistinct (map (λ row. row.worktree_id) rows.pending_start)
    → IsSingle (with_rows s (with_pending_rename_titles rows m))
unfolding with_pending_rename_titles
titled-IsSingle s rows [] a b = record { removals = a; starts = b }
titled-IsSingle s rows (x ∷ m) a b = record { removals = a; starts = b }

-- Every operation keeps this, whatever rows are added and whatever snapshots are loaded.
pub operate-IsSingle : (s : TuiState) (o : Operation) → IsSingle s → IsSingle (operate s o)
unfolding operate add_pending_create_session_row bind_pending_create_session_row
    fail_pending_create_session_row remove_create_session_local_row add_pending_remove_worktree_row
    bind_pending_remove_worktree_row remove_pending_remove_worktree_row add_pending_start_agent_row
    bind_pending_start_agent_row remove_pending_start_agent_row add_pending_rename_session_title
    bind_pending_rename_session_title remove_pending_rename_session_title replace_snapshot
    prune_local_rows_for_snapshot
operate-IsSingle s (add_create row) v = record { removals = v.removals; starts = v.starts }
operate-IsSingle s (bind_create l c) v = record { removals = v.removals; starts = v.starts }
operate-IsSingle s (fail_create l e at) v = ground arith
operate-IsSingle s (remove_create l) v = record { removals = v.removals; starts = v.starts }
operate-IsSingle s (add_removal row) v = record {
  removals =
      replaced-IsDistinct (λ row. row.worktree_id) s.local_rows.pending_remove row v.removals;
  starts = v.starts;
}
operate-IsSingle s (bind_removal l c) v = record {
  removals = ground (
    arith,
    v.removals,
    map-same (λ row. row.worktree_id)
        (λ row. if row.local_id == l then record row { command_id = some c } else row)
        s.local_rows.pending_remove (λ row. ground arith),
  );
  starts = v.starts;
}
operate-IsSingle s (drop_removal l) v = record {
  removals =
      kept-IsDistinct (λ row. row.worktree_id) (λ row. not (row.local_id == l))
        s.local_rows.pending_remove v.removals;
  starts = v.starts;
}
operate-IsSingle s (add_start row) v = record {
  removals = v.removals;
  starts = replaced-IsDistinct (λ row. row.worktree_id) s.local_rows.pending_start row v.starts;
}
operate-IsSingle s (bind_start l c) v = record {
  removals = v.removals;
  starts = ground (
    arith,
    v.starts,
    map-same (λ row. row.worktree_id)
        (λ row. if row.local_id == l then record row { command_id = some c } else row)
        s.local_rows.pending_start (λ row. ground arith),
  );
}
operate-IsSingle s (drop_start l) v = record {
  removals = v.removals;
  starts =
      kept-IsDistinct (λ row. row.worktree_id) (λ row. not (row.local_id == l))
        s.local_rows.pending_start v.starts;
}
operate-IsSingle s (add_title row) v =
    titled-IsSingle s s.local_rows (set (pending_rename_titles s.local_rows) row.session_id row)
      v.removals v.starts
operate-IsSingle s (bind_title id c) v =
    elim (Option-cases (get (pending_rename_titles s.local_rows) id)) [
      | inl nothing ↦ ground (arith, nothing)
      | inr (pending, h) ↦ ground (
        arith,
        h,
        titled-IsSingle s s.local_rows
            (set (pending_rename_titles s.local_rows) id (record pending { command_id = some c }))
            v.removals v.starts,
      )
    ]
operate-IsSingle s (drop_title id) v =
    elim (Option-cases (get (pending_rename_titles s.local_rows) id)) [
      | inl nothing ↦ ground (arith, nothing)
      | inr (pending, h) ↦ ground (
        arith,
        h,
        titled-IsSingle s s.local_rows (delete (pending_rename_titles s.local_rows) id) v.removals
            v.starts,
      )
    ]
operate-IsSingle s (load snapshot) v =
    let rows = s.local_rows in
    let kept =
      titled-IsSingle s
        (record rows {
          pending_create = filter (keeps_create snapshot) rows.pending_create;
          pending_remove = filter (keeps_remove snapshot) rows.pending_remove;
          pending_start = filter (keeps_start snapshot) rows.pending_start;
        })
        (prune_pending_rename_titles rows snapshot)
        (kept-IsDistinct (λ row. row.worktree_id) (keeps_remove snapshot) rows.pending_remove
          v.removals)
        (kept-IsDistinct (λ row. row.worktree_id) (keeps_start snapshot) rows.pending_start
          v.starts) in
    record { removals = kept.removals; starts = kept.starts }
