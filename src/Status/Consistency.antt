-- ===== src/Status/Consistency.antt =====
-- statusProjection.ts and statusPolicy.ts: the outcomes of a projection.

use mathlib.Core.Path.{fun_ext}
use wosm.Base.{
  ℕ, suc, String, true, false, List, [], ◌∷◌, ◌++◌, map, Option, none, some, ◌==◌, if◌then◌else◌,
  get_elem?, string_eq, nat_eq, bool_eq, option_eq, ◌≡◌, ◌≢◌, refl, arith, Option-cases, Bool-cases,
  ◌∙◌, ap, ◌⊎◌, inl, inr,
}
use wosm.Base.Sort.{sort, flip, flip-compare, flip-or_compare, gt_of_flip, IsSorted, sort-IsSorted}
use wosm.Base.Platform.{Platform, IsConsistent}
use wosm.Contracts.Status.{unknown, ObservedStatus, confidence_eq, agent_state_eq}
use wosm.Contracts.Hooks.{HarnessEventReport}
use wosm.Contracts.Events.{WosmEvent}
use wosm.Contracts.Snapshot.{
  WorktreeAgent, WorktreeRow, SessionView, ProjectView, WosmSnapshot, label_eq,
}
use wosm.Status.{counts_for_rows}
use wosm.Status.Projection.{
  CorrelatedBy, StatusProjectionResult, unprojected, find_projection_target,
  should_preserve_current_agent, project_agent, project_row, project_session,
}
use wosm.Status.Result.{
  listed, agent_event, compare_position, compare_rows, project_position, sort_rows, recount,
  rebuild_snapshot, replace_at, project_target, project_harness_event_report,
}

-- What every snapshot that a projection changed satisfies: its counts are those of its rows, in all
-- and for each project, and its rows are in the dashboard's order.
pub record IsProjected (p : Platform) (s : WosmSnapshot) : Type 0 where
  pub counted : s.counts.rows ≡ counts_for_rows s.rows
  pub projects_counted : s.projects ≡ map (recount s.rows) s.projects
  pub sorted : IsSorted (compare_rows p s.projects) s.rows

flip-compare_position : (a b : Option ℕ) → compare_position b a ≡ flip (compare_position a b)
flip-compare_position none none = refl
flip-compare_position none (some j) = refl
flip-compare_position (some i) none = refl
flip-compare_position (some i) (some j) = flip-compare i j

flip-compare_rows :
    (p : Platform) (projects : List ProjectView)
    → IsConsistent p
    → (l r : WorktreeRow) → compare_rows p projects r l ≡ flip (compare_rows p projects l r)
unfolding compare_rows
flip-compare_rows p projects c l r = simp (flip-or_compare) (
    cc (
      flip-compare_position (project_position 0 projects l.project_id)
          (project_position 0 projects r.project_id),
      flip-compare l.display.sort_priority r.display.sort_priority,
      c l.branch r.branch,
      c l.id r.id,
    ))

position-recount :
    (rows : List WorktreeRow) (i : ℕ) (projects : List ProjectView) (id : String)
    → project_position i (map (recount rows) projects) id ≡ project_position i projects id
unfolding project_position
position-recount rows i [] id = refl
position-recount rows i (project ∷ projects) id =
    ground (arith, position-recount rows (suc i) projects id)

compare-recount :
    (p : Platform) (rows : List WorktreeRow) (projects : List ProjectView)
    → compare_rows p (map (recount rows) projects) ≡ compare_rows p projects
unfolding compare_rows
compare-recount p rows projects = fun_ext λ l. fun_ext λ r.
    cc
      (position-recount rows 0 projects l.project_id, position-recount rows 0 projects r.project_id)

recount_twice :
    (rows : List WorktreeRow) (projects : List ProjectView)
    → map (recount rows) projects ≡ map (recount rows) (map (recount rows) projects)
recount_twice rows [] = refl
recount_twice rows (project ∷ projects) = cc (recount_twice rows projects)

rebuild-IsProjected :
    (p : Platform) (s : WosmSnapshot) (rows : List WorktreeRow) (sessions : List SessionView)
    (at : String)
    → IsConsistent p
    → IsProjected p (rebuild_snapshot s (sort_rows p rows s.projects) sessions at)
unfolding rebuild_snapshot sort_rows
rebuild-IsProjected p s rows sessions at c =
    let cmp = compare_rows p s.projects in
    let sorted =
      sort-IsSorted cmp
        (λ l r. gt_of_flip (cmp l r) (cmp r l) (flip-compare_rows p s.projects c l r)) rows in
    record {
      counted = refl;
      projects_counted = recount_twice (sort cmp rows) s.projects;
      sorted = rw (compare-recount p (sort cmp rows) s.projects) sorted;
    }

-- The two outcomes of the code behind the early returns.
target_cases :
    (p : Platform) (s : WosmSnapshot) (r : HarnessEventReport) (at : String)
    (status : ObservedStatus) (index : ℕ) (by : CorrelatedBy) (row : WorktreeRow)
    (agent : WorktreeAgent)
    → let next = project_agent agent status in
      let result = project_target p s r at status index by row agent in
      (result ≡ unprojected s)
      ⊎ ((result.projected ≡ true)
          × (should_preserve_current_agent p agent status ≡ false)
          × (result.snapshot
              ≡ rebuild_snapshot s
                  (sort_rows p (replace_at s.rows index (project_row row next status)) s.projects)
                  (project_session s.sessions next status).sessions
                  at)
          × (result.events
              ≡ (if agent.state == next.state
                  then []
                  else agent_event r
                      (project_row row next status)
                      next
                      (project_session s.sessions next status).sessions
                    ∷ [])
                ++ listed (project_session s.sessions next status).event))
unfolding project_target
target_cases p s r at status index by row agent = ground arith

-- What a report comes to: nothing, or the projection of its status on the row that it names alone.
pub record Projects (p : Platform) (s : WosmSnapshot) (r : HarnessEventReport) (at : String)
    (t : StatusProjectionResult) : Type 0 where
  pub status : ObservedStatus
  pub index : ℕ
  pub by : CorrelatedBy
  pub row : WorktreeRow
  pub agent : WorktreeAgent
  pub has_status : r.status ≡ some status
  pub is_known : status.value ≢ unknown
  pub is_target : find_projection_target s r ≡ some (index, by)
  pub is_row : get_elem? s.rows index ≡ some row
  pub is_agent : row.agent ≡ some agent
  pub not_preserved : should_preserve_current_agent p agent status ≡ false
  pub snapshot_is :
      t.snapshot
      ≡ rebuild_snapshot s
          (sort_rows p
            (replace_at s.rows index (project_row row (project_agent agent status) status))
            s.projects)
          (project_session s.sessions (project_agent agent status) status).sessions
          at
  pub events_are :
      agent.state ≢ status.value
      → t.events
        ≡ agent_event r
            (project_row row (project_agent agent status) status)
            (project_agent agent status)
            (project_session s.sessions (project_agent agent status) status).sessions
          ∷ listed (project_session s.sessions (project_agent agent status) status).event

moved_events :
    (agent : WorktreeAgent) (status : ObservedStatus) (e : WosmEvent) (rest : List WosmEvent)
    → agent.state ≢ status.value
    → (if agent.state == (project_agent agent status).state then [] else e ∷ []) ++ rest ≡ e ∷ rest
unfolding project_agent
moved_events agent status e rest h = ground arith

report_reaches :
    (p : Platform) (s : WosmSnapshot) (r : HarnessEventReport) (at : String)
    → let t = project_harness_event_report p s r at in
      (t ≡ unprojected s)
      ⊎ ((status : ObservedStatus) × (index : ℕ) × (by : CorrelatedBy) × (row : WorktreeRow)
          × (agent : WorktreeAgent) × (r.status ≡ some status)
          × (status.value ≢ unknown)
          × (find_projection_target s r ≡ some (index, by))
          × (get_elem? s.rows index ≡ some row)
          × (row.agent ≡ some agent)
          × (t ≡ project_target p s r at status index by row agent))
unfolding project_harness_event_report
report_reaches p s r at = elim (Option-cases r.status) [
  | inl e ↦ inl (ground arith)
  | inr (status, hs) ↦ elim (Bool-cases (status.value == unknown)) [
    | inl e ↦ inl (ground arith)
    | inr known ↦ elim (Option-cases (find_projection_target s r)) [
      | inl e ↦ inl (ground arith)
      | inr ((index, by), ht) ↦ elim (Option-cases (get_elem? s.rows index)) [
        | inl e ↦ inl (ground arith)
        | inr (row, hr) ↦ elim (Option-cases row.agent) [
          | inl e ↦ inl (ground arith)
          | inr (agent, ha) ↦
              inr (status, index, by, row, agent, hs, λ e. ground arith, ht, hr, ha, ground arith)
        ]
      ]
    ]
  ]
]

-- A report either changes nothing and publishes nothing, or it carries a known status, names one row
-- with an agent whose exit it does not precede, and changes that row and its sessions.
pub report_cases :
    (p : Platform) (s : WosmSnapshot) (r : HarnessEventReport) (at : String)
    → let t = project_harness_event_report p s r at in (t ≡ unprojected s) ⊎ Projects p s r at t
report_cases p s r at = elim (report_reaches p s r at) [
  | inl e ↦ inl e
  | inr (status, index, by, row, agent, hs, known, ht, hr, ha, e) ↦
      elim (target_cases p s r at status index by row agent) [
        | inl same ↦ inl (e ∙ same)
        | inr (_, fresh, snap, published) ↦ inr (record {
          status = status;
          index = index;
          by = by;
          row = row;
          agent = agent;
          has_status = hs;
          is_known = known;
          is_target = ht;
          is_row = hr;
          is_agent = ha;
          not_preserved = fresh;
          snapshot_is = rw e snap;
          events_are = λ h. rw e (published ∙ moved_events agent status _ _ h);
        })
      ]
]

-- Whatever a projected snapshot's order and counts were, the new one is sorted and counts its rows.
pub projected-IsProjected :
    (p : Platform) (s : WosmSnapshot) (r : HarnessEventReport) (at : String)
    → IsConsistent p
    → (project_harness_event_report p s r at).projected ≡ true
    → IsProjected p (project_harness_event_report p s r at).snapshot
unfolding unprojected
projected-IsProjected p s r at c h = elim (report_cases p s r at) [
  | inl e ↦ absurd (nothing e)
  | inr t ↦ rw t.snapshot_is (rebuild-IsProjected p s _ _ at c)
]
  where
    nothing : project_harness_event_report p s r at ≡ unprojected s → ⊥
    nothing e = cc (h, ap (λ (t : StatusProjectionResult). t.projected) e)
