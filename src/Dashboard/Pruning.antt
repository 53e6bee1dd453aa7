-- ===== src/Dashboard/Pruning.antt =====
-- localRows.ts: what the operations on the local rows keep, and how a snapshot settles them.
use wosm.Base.{String, [], ◌∷◌, filter, ◌≡◌, refl, ap, ◌∙◌, string_eq, arith, filter_idem}
use wosm.Base.Dict.{Dict}
use wosm.Contracts.Snapshot.{WosmSnapshot}
use wosm.Dashboard.{PendingRenameSessionTitle, TuiLocalRows}
use wosm.Dashboard.LocalRows.{
  pending_rename_titles, with_pending_rename_titles, keeps_create, keeps_remove, keeps_start,
  keeps_title, prune_pending_rename_titles, prune_local_rows_for_snapshot,
}

pub titles-with :
    (rows : TuiLocalRows) (m : Dict String PendingRenameSessionTitle)
    → pending_rename_titles (with_pending_rename_titles rows m) ≡ m
unfolding pending_rename_titles with_pending_rename_titles
titles-with rows [] = refl
titles-with rows (x ∷ m) = refl

pub rows-with :
    (rows : TuiLocalRows) (m : Dict String PendingRenameSessionTitle)
    → let next = with_pending_rename_titles rows m in
      (next.pending_create ≡ rows.pending_create)
      × (next.failed_create ≡ rows.failed_create)
      × (next.pending_remove ≡ rows.pending_remove)
      × (next.pending_start ≡ rows.pending_start)
unfolding with_pending_rename_titles
rows-with rows [] = (refl, refl, refl, refl)
rows-with rows (x ∷ m) = (refl, refl, refl, refl)

-- The former titles do not matter.
with-same :
    (rows other : TuiLocalRows) (m n : Dict String PendingRenameSessionTitle)
    → n ≡ m
    → other.pending_create ≡ rows.pending_create
    → other.failed_create ≡ rows.failed_create
    → other.pending_remove ≡ rows.pending_remove
    → other.pending_start ≡ rows.pending_start
    → with_pending_rename_titles other n ≡ with_pending_rename_titles rows m
unfolding with_pending_rename_titles
with-same rows other [] n h a b c d = ground arith
with-same rows other (x ∷ m) n h a b c d = ground arith

-- Loading a snapshot again settles nothing more.
pub prune_idem :
    (rows : TuiLocalRows) (snapshot : WosmSnapshot)
    → prune_local_rows_for_snapshot (prune_local_rows_for_snapshot rows snapshot) snapshot
      ≡ prune_local_rows_for_snapshot rows snapshot
unfolding prune_local_rows_for_snapshot prune_pending_rename_titles
prune_idem rows snapshot =
    let base = record rows {
      pending_create = filter (keeps_create snapshot) rows.pending_create;
      pending_remove = filter (keeps_remove snapshot) rows.pending_remove;
      pending_start = filter (keeps_start snapshot) rows.pending_start;
    } in
    let titles = pending_rename_titles rows in
    let kept = filter (keeps_title snapshot) titles in
    let once = rows-with base kept in
    with-same base
      (record (with_pending_rename_titles base kept) {
        pending_create =
            filter (keeps_create snapshot) (with_pending_rename_titles base kept).pending_create;
        pending_remove =
            filter (keeps_remove snapshot) (with_pending_rename_titles base kept).pending_remove;
        pending_start =
            filter (keeps_start snapshot) (with_pending_rename_titles base kept).pending_start;
      })
      kept
      (filter (keeps_title snapshot) (pending_rename_titles (with_pending_rename_titles base kept)))
      (ap (filter (keeps_title snapshot)) (titles-with base kept)
        ∙ filter_idem (keeps_title snapshot) titles)
      (ap (filter (keeps_create snapshot)) once.0
        ∙ filter_idem (keeps_create snapshot) rows.pending_create)
      once.1
      (ap (filter (keeps_remove snapshot)) once.2
        ∙ filter_idem (keeps_remove snapshot) rows.pending_remove)
      (ap (filter (keeps_start snapshot)) once.3
        ∙ filter_idem (keeps_start snapshot) rows.pending_start)
