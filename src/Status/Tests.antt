-- ===== src/Status/Tests.antt =====
-- Projections of a report onto a small snapshot.
use mathlib.Core.List.{Perm, Mem, mem-cons_of_mem, mem-cons_self}
use wosm.Status.Exits.{project_all, exit_stays}
use wosm.Status.Target.{IsOnly, is_named, find_projection_target_lem}
use wosm.Contracts.Hooks.{HarnessEventReport}
use wosm.Base.{
  ℕ, zero, suc, get_elem?, List, String, true, [], ◌∷◌, map, ◌≡◌, ◌≢◌, ◌↔◌, refl, arith, none, some,
  string_eq, nat_eq,
}
use wosm.Base.Platform.{by_length, by_length-IsConsistent}
use wosm.Base.Sort.{sort}
use wosm.Contracts.Status.{idle, working, stuck, exited, no_run}
use wosm.Contracts.Snapshot.{WorktreeRow, idle_label, stuck_label}
use wosm.Contracts.Events
use wosm.Contracts.Events.{WosmEvent}
use wosm.Client.Identity.{HasDistinctIds}
use wosm.Client.Reducer.{display_for_agent}
use wosm.Status.{display_for_status}
use wosm.Status.Projection.{
  CorrelatedBy, by_run, find_projection_target, should_preserve_current_agent, project_agent,
  project_row, project_session,
}
use wosm.Status.Result.{
  project_harness_event_report, project_target, compare_rows, project_position, sort_rows,
  rebuild_snapshot, replace_at,
}
use wosm.Status.Consistency.{IsProjected, Projects, projected-IsProjected}
use wosm.Status.Replica.{display_agrees, apply_all, replica_rows, stale_warning}
use wosm.Samples.{row, agent, display, status, snapshot, report}

projected_rows :
    map
      (λ row. row.id)
      (project_harness_event_report by_length
        (snapshot idle)
        (report working "t22")
        "t3").snapshot.rows
    ≡ "wt1" ∷ "wt2" ∷ []
unfolding project_harness_event_report project_target project_session project_row project_agent
    find_projection_target should_preserve_current_agent display_for_status rebuild_snapshot
    sort_rows sort compare_rows project_position replace_at
projected_rows = refl

snapshot-HasDistinctIds : HasDistinctIds (snapshot idle)
snapshot-HasDistinctIds = record { rows = (refl, (refl, tt)); sessions = (refl, tt) }

-- A report of a new state for the run of `wt1`.
new_state :
    Projects by_length
      (snapshot idle)
      (report working "t22")
      "t3"
      (project_harness_event_report by_length (snapshot idle) (report working "t22") "t3")
unfolding project_harness_event_report project_target project_session project_agent
    find_projection_target should_preserve_current_agent display_for_status
new_state = record {
  status = status working "t22";
  index = 1;
  by = by_run;
  row = row "wt1" (some (agent idle)) (display idle_label 40);
  agent = agent idle;
  has_status = refl;
  is_known = λ e. cc;
  is_target = refl;
  is_row = refl;
  is_agent = refl;
  not_preserved = refl;
  snapshot_is = refl;
  events_are = λ _. refl;
}

projected-IsProjected_example :
    IsProjected by_length
      (project_harness_event_report by_length (snapshot idle) (report working "t22") "t3").snapshot
unfolding project_harness_event_report project_target project_session project_agent
    find_projection_target should_preserve_current_agent display_for_status
projected-IsProjected_example =
    projected-IsProjected by_length (snapshot idle) (report working "t22") "t3"
      by_length-IsConsistent refl

abbrev warned_row : WorktreeRow
warned_row =
    row "wt1" (some (agent stuck)) (record (display stuck_label 20) { warning = some true })

abbrev published : WosmEvent
published = Events.worktree_agent_state_changed (record {
  worktree_id = "wt1";
  agent = some (record (agent working) { updated_at = "t22" });
  session_title = some "fix";
  change_source = some Events.harness_event_report;
  harness_event_type = some "Stop";
  report_id = some "r1";
})

replica_rows_example :
    Perm
      (project_harness_event_report by_length
        (snapshot idle)
        (report working "t22")
        "t3").snapshot.rows
      (apply_all
        (snapshot idle)
        (project_harness_event_report by_length
          (snapshot idle)
          (report working "t22")
          "t3").events).rows
unfolding new_state
replica_rows_example =
    replica_rows by_length (snapshot idle) (report working "t22") "t3" snapshot-HasDistinctIds
      new_state (λ e. cc) (λ e. cc) refl refl

-- Two reports from before the exit.
abbrev older_reports : List (HarnessEventReport × String)
older_reports = (report working "t", "t3") ∷ (report idle "t", "t4") ∷ []

abbrev exited_row : WorktreeRow
exited_row = row "wt1" (some (agent exited)) (display idle_label 40)

exit_stays_example : Mem exited_row (project_all by_length (snapshot exited) older_reports).rows
exit_stays_example =
    exit_stays by_length (snapshot exited) older_reports exited_row (agent exited)
      (mem-cons_of_mem _ mem-cons_self) refl refl refl (omega arith, (omega arith, tt))

-- The report names the second row alone.
named_alone : IsOnly (is_named (report working "t22")) (snapshot idle).rows 1
named_alone = ((_, refl, refl), alone)
  where
    alone :
        (j : ℕ) (other : WorktreeRow)
        → get_elem? (snapshot idle).rows j ≡ some other
        → is_named (report working "t22") other ≡ true
        → j ≡ 1
    alone zero other at h = absurd (ground arith)
    alone (suc zero) other at h = refl
    alone (suc (suc j)) other at h = absurd (ground arith)

find_projection_target_lem_example :
    (by : CorrelatedBy) × (find_projection_target (snapshot idle) (report working "t22")
      ≡ some (1, by))
find_projection_target_lem_example =
    (find_projection_target_lem (snapshot idle) (report working "t22") 1).1 named_alone

display_agrees_example :
    (display_for_agent (project_agent (agent idle) (status working "t2"))
      ≡ display_for_status (status working "t2"))
    ↔ ((status working "t2").value ≢ no_run)
display_agrees_example = display_agrees (agent idle) (status working "t2")

stale_warning_example :
    (project_row warned_row
      (project_agent (agent stuck) (status idle "t2"))
      (status idle "t2")).display.warning
    ≡ none
stale_warning_example = (stale_warning warned_row (agent stuck) (status idle "t2") refl (λ e. cc)).1
