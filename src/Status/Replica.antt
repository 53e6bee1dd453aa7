-- ===== src/Status/Replica.antt =====
-- statusProjection.ts against packages/client/src/snapshotReducer.ts: a client that applies the event
-- which a projection publishes, against the rows that the observer then serves.
use mathlib.Core.List.{Perm}
use wosm.Base.{
  ℕ, zero, suc, String, true, false, List, [], ◌∷◌, map, none, some, ◌≡◌, ◌≢◌, ◌↔◌, refl, ap, arith,
  contains, IsDistinct, Option, Option-cases, inl, inr, get_elem?, string_eq, eq_iff,
}
use wosm.Base.Sort.{sort-perm}
use wosm.Base.Platform.{Platform}
use wosm.Contracts.Status.{no_run, stuck, ObservedStatus}
use wosm.Contracts.Hooks.{HarnessEventReport}
use wosm.Contracts.Snapshot.{WorktreeAgent, WorktreeDisplay, WorktreeRow, SessionView, WosmSnapshot}
use wosm.Contracts.Events
use wosm.Contracts.Events.{WosmEvent, RowPatch}
use wosm.Client.Reducer.{
  apply_wosm_event, patch_row, merge_row_patch, merge_display, row_patch_for_agent_state,
  display_for_agent,
}
use wosm.Client.Identity.{HasDistinctIds, ids}
use wosm.Status.{display_for_status}
use wosm.Status.Projection.{
  project_agent, project_row, project_session, Noted, note_session, note_sessions,
}
use wosm.Status.Result.{
  listed, agent_event, sort_rows, rebuild_snapshot, replace_at, project_harness_event_report,
}
use wosm.Status.Consistency.{Projects}

-- The client shows an agent as the observer shows the status that it came from, exactly where the
-- status is not `none`, for which only the observer has a label.
pub display_agrees :
    (agent : WorktreeAgent) (status : ObservedStatus)
    → (display_for_agent (project_agent agent status) ≡ display_for_status status)
      ↔ (status.value ≢ no_run)
unfolding display_for_agent display_for_status project_agent
display_agrees agent status =
    (λ e v. ground (arith, ap (λ (d : WorktreeDisplay). d.sort_priority) e), λ known. ground arith)

patch_other :
    (rows : List WorktreeRow) (id : String) (patch : RowPatch)
    → contains (ids (λ row. row.id) rows) id ≡ false
    → map (patch_row id patch) rows ≡ rows
patch_other [] id patch h = refl
patch_other (row ∷ rows) id patch h = ground (arith, patch_other rows id patch)

get-contains :
    (rows : List WorktreeRow) (i : ℕ) (row : WorktreeRow)
    → get_elem? rows i ≡ some row
    → contains (ids (λ r. r.id) rows) row.id ≡ true
get-contains [] i row h = cc
get-contains (r ∷ rows) zero row h = ground (arith, eq_iff r.id row.id)
get-contains (r ∷ rows) (suc i) row h = ground (arith, get-contains rows i row)

patch-replace_at :
    (rows : List WorktreeRow) (i : ℕ) (row : WorktreeRow) (patch : RowPatch)
    → IsDistinct (ids (λ r. r.id) rows)
    → get_elem? rows i ≡ some row
    → map (patch_row row.id patch) rows ≡ replace_at rows i (merge_row_patch row patch)
unfolding replace_at
patch-replace_at [] i row patch d h = cc
patch-replace_at (r ∷ rows) zero row patch d h =
    ground (arith, eq_iff r.id row.id, patch_other rows row.id patch)
patch-replace_at (r ∷ rows) (suc i) row patch d h =
    ground (arith, eq_iff r.id row.id, get-contains rows i row, patch-replace_at rows i row patch)

-- The row that the client makes of the event is the observer's, but for what its display keeps of the
-- old one.
merged-project_row :
    (row : WorktreeRow) (agent : WorktreeAgent) (status : ObservedStatus)
    → status.value ≢ no_run
    → let next = project_agent agent status in
      let seen = merge_row_patch row (row_patch_for_agent_state (some next)) in
      (seen ≡ record (project_row row next status) {
        display = merge_display row.display (display_for_status status);
      })
unfolding merge_row_patch row_patch_for_agent_state project_row
merged-project_row row agent status known =
    let e = (display_agrees agent status).1 known in ground (arith, e)

plain_display :
    (row : WorktreeRow) (status : ObservedStatus)
    → row.display.warning ≡ none
    → row.display.reason ≡ none
    → merge_display row.display (display_for_status status) ≡ display_for_status status
unfolding merge_display
plain_display row status hw hr = ground arith

plain-project_row :
    (row : WorktreeRow) (agent : WorktreeAgent) (status : ObservedStatus)
    → status.value ≢ no_run
    → row.display.warning ≡ none
    → row.display.reason ≡ none
    → let next = project_agent agent status in
      merge_row_patch row (row_patch_for_agent_state (some next)) ≡ project_row row next status
unfolding project_row
plain-project_row row agent status known hw hr =
    rw (merged-project_row row agent status known, plain_display row status hw hr, project_row)

-- The event of a projected session, if there is one, updates a session.
abbrev IsUpdate : Option WosmEvent → Type 0
IsUpdate (some (Events.session_updated id patch)) = Unit
IsUpdate none = Unit
IsUpdate _ = ⊥

note-IsUpdate :
    (noted : Noted) (id : String) (status : ObservedStatus) (session : SessionView)
    → IsUpdate noted.event
    → IsUpdate (note_session noted id status session).event
unfolding note_session
note-IsUpdate noted id status session h = ground arith

notes-IsUpdate :
    (sessions : List SessionView) (noted : Noted) (id : String) (status : ObservedStatus)
    → IsUpdate noted.event
    → IsUpdate (note_sessions noted id status sessions).event
unfolding note_sessions
notes-IsUpdate [] noted id status h = h
notes-IsUpdate (session ∷ sessions) noted id status h =
    notes-IsUpdate sessions (note_session noted id status session) id status
      (note-IsUpdate noted id status session h)

session-IsUpdate :
    (sessions : List SessionView) (agent : WorktreeAgent) (status : ObservedStatus)
    → IsUpdate (project_session sessions agent status).event
unfolding project_session
session-IsUpdate sessions agent status = elim (Option-cases agent.session_id) [
  | inl nothing ↦ ground (arith, nothing)
  | inr (id, has) ↦
      rw has (notes-IsUpdate sessions (record { changed = false; event = none }) id status tt)
]

-- A client that applies events in their order.
abbrev pub apply_all : WosmSnapshot → List WosmEvent → WosmSnapshot
apply_all s [] = s
apply_all s (e ∷ es) = apply_all (apply_wosm_event s e).snapshot es

update_rows :
    (s : WosmSnapshot) (event : Option WosmEvent)
    → IsUpdate event
    → (apply_all s (listed event)).rows ≡ s.rows
unfolding apply_wosm_event
update_rows s none h = refl
update_rows s (some event) h = ground arith

-- A client holds the snapshot, whose rows have distinct ids, and so have its sessions. A report is
-- projected that changes its agent's state, to one other than `none`, on a row that showed neither a
-- warning nor a reason. When the client has applied the events that the projection publishes, it
-- holds the very rows that the observer then serves, up to their order.
pub replica_rows :
    (p : Platform) (s : WosmSnapshot) (r : HarnessEventReport) (at : String)
    → HasDistinctIds s
    → (t : Projects p s r at (project_harness_event_report p s r at))
    → t.agent.state ≢ t.status.value
    → t.status.value ≢ no_run
    → t.row.display.warning ≡ none
    → t.row.display.reason ≡ none
    → Perm
        (project_harness_event_report p s r at).snapshot.rows
        (apply_all s (project_harness_event_report p s r at).events).rows
unfolding apply_wosm_event rebuild_snapshot sort_rows project_row
replica_rows p s r at d t moved known hw hr =
    let next = project_agent t.agent t.status in
    let sessions = project_session s.sessions next t.status in
    let patched =
      patch-replace_at s.rows t.index t.row (row_patch_for_agent_state (some next)) d.rows
        t.is_row in
    let changed = agent_event r (project_row t.row next t.status) next sessions.sessions in
    let seen =
      update_rows (apply_wosm_event s changed).snapshot sessions.event
        (session-IsUpdate s.sessions next t.status) in
    rw
      (
        t.events_are moved,
        t.snapshot_is,
        seen,
        patched,
        plain-project_row t.row t.agent t.status known hw hr,
      )
      (sort-perm _ _)

-- A warning that the row showed before stays on the client, though the observer shows none for the new
-- status.
pub stale_warning :
    (row : WorktreeRow) (agent : WorktreeAgent) (status : ObservedStatus)
    → row.display.warning ≡ some true
    → status.value ≢ stuck
    → let next = project_agent agent status in
      ((merge_row_patch row (row_patch_for_agent_state (some next))).display.warning ≡ some true)
      × ((project_row row next status).display.warning ≡ none)
unfolding merge_row_patch row_patch_for_agent_state project_row display_for_status display_for_agent
    project_agent
stale_warning row agent status hw hs = ground arith
