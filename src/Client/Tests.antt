-- ===== src/Client/Tests.antt =====
-- The reducer on a small snapshot.
use wosm.Base.{refl, string_eq}
use wosm.Contracts.Status.{idle}
use wosm.Contracts.Events
use wosm.Client.Reducer.{apply_wosm_event}
use wosm.Client.Identity.{HasDistinctIds, apply-HasDistinctIds}
use wosm.Samples.{snapshot}

snapshot-HasDistinctIds : HasDistinctIds (snapshot idle)
snapshot-HasDistinctIds = record { rows = (refl, (refl, tt)); sessions = (refl, tt) }

apply-HasDistinctIds_example :
    HasDistinctIds (apply_wosm_event (snapshot idle) (Events.worktree_removed "wt2")).snapshot
apply-HasDistinctIds_example =
    apply-HasDistinctIds (snapshot idle) (Events.worktree_removed "wt2") tt snapshot-HasDistinctIds
