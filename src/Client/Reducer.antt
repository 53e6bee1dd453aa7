-- ===== src/Client/Reducer.antt =====
-- packages/client/src/snapshotReducer.ts: how a client brings its copy of the snapshot up to date
-- with one event.
use wosm.Base.{
  ℕ, String, Bool, true, false, List, [], ◌∷◌, ◌++◌, map, Option, none, some, filter, any, not,
  ◌==◌, string_eq, if◌then◌else◌,
}
use wosm.Base.Dict.{set}
use wosm.Contracts.Status.{AgentState, starting, idle, working, needs_attention, stuck, exited}
use wosm.Contracts.Snapshot.{
  WorktreeRuntime, TerminalAttachment, WorktreeAgent, WorktreeDisplay, DisplayStatusLabel,
  no_agent_label, starting_label, idle_label, working_label, needs_attention_label, stuck_label,
  exited_label, unknown_label, WorktreeRow, SessionHarness, SessionView, WosmSnapshot,
}
use wosm.Contracts.Events
use wosm.Contracts.Events.{RowPatch, SessionPatch, WosmEvent}
use wosm.Client.Notices.{ClientNotice, safe_error_to_notice}

pub record ApplyWosmEventResult : Type 0 where
  pub snapshot : WosmSnapshot
  pub needs_snapshot_refresh : Bool
  pub notices : List ClientNotice

-- `new ?? old` of a field that is always there.
abbrev pub or_old {ℓ} : {A : Type ℓ} → Option A → A → A
or_old none old = old
or_old (some new) old = new

-- A spread `{ ...old, ...new }` keeps an optional field of `old` that `new` lacks.
abbrev pub spread {ℓ} : {A : Type ℓ} → Option A → Option A → Option A
spread old none = old
spread old (some new) = some new

merge_runtime : WorktreeRuntime → WorktreeRuntime → WorktreeRuntime
merge_runtime old new = record {
  state = new.state;
  source = new.source;
  dirty = spread old.dirty new.dirty;
  ahead = spread old.ahead new.ahead;
  behind = spread old.behind new.behind;
  pr = spread old.pr new.pr;
  change_summary = spread old.change_summary new.change_summary;
  checks = spread old.checks new.checks;
}

merge_terminal : TerminalAttachment → TerminalAttachment → TerminalAttachment
merge_terminal old new = record {
  provider = new.provider;
  state = new.state;
  focusable = spread old.focusable new.focusable;
  closeable = spread old.closeable new.closeable;
  has_workspace = spread old.has_workspace new.has_workspace;
  has_primary_agent_endpoint = spread old.has_primary_agent_endpoint new.has_primary_agent_endpoint;
  confidence = spread old.confidence new.confidence;
  reason = spread old.reason new.reason;
  observed_at = spread old.observed_at new.observed_at;
}

unfoldable pub merge_display : WorktreeDisplay → WorktreeDisplay → WorktreeDisplay
merge_display old new = record {
  status_label = new.status_label;
  sort_priority = new.sort_priority;
  alert = new.alert;
  warning = spread old.warning new.warning;
  reason = spread old.reason new.reason;
}

merge_harness : SessionHarness → SessionHarness → SessionHarness
merge_harness old new = record {
  provider = new.provider;
  mode = new.mode;
  pid = spread old.pid new.pid;
  run_id = spread old.run_id new.run_id;
  capabilities = new.capabilities;
}

abbrev patched {ℓ} : {A : Type ℓ} → (A → A → A) → A → Option A → A
patched merge old none = old
patched merge old (some new) = merge old new

-- `{ ...row.terminal, ...patch.terminal }`, where the row may have none.
abbrev onto {ℓ} : {A : Type ℓ} → (A → A → A) → Option A → A → A
onto merge none new = new
onto merge (some old) new = merge old new

-- A field that the patch has, with `undefined`, is deleted.
abbrev pub replaced {ℓ} :
    {A : Type ℓ} → (Option A → A → A) → Option A → Option (Option A) → Option A
replaced merge old none = old
replaced merge old (some none) = none
replaced merge old (some (some new)) = some (merge old new)

unfoldable pub merge_row_patch : WorktreeRow → RowPatch → WorktreeRow
unfolding merge_runtime merge_terminal merge_display
merge_row_patch row patch = record {
  id = or_old patch.id row.id;
  project_id = or_old patch.project_id row.project_id;
  project_label = or_old patch.project_label row.project_label;
  branch = or_old patch.branch row.branch;
  path = or_old patch.path row.path;
  worktree = patched merge_runtime row.worktree patch.worktree;
  terminal = replaced (onto merge_terminal) row.terminal patch.terminal;
  agent = replaced (λ _ new. new) row.agent patch.agent;
  recovery = none;
  display = patched merge_display row.display patch.display;
}

unfoldable pub merge_session_patch : SessionView → SessionPatch → SessionView
unfolding merge_terminal merge_harness
merge_session_patch session patch = record {
  id = or_old patch.id session.id;
  project_id = or_old patch.project_id session.project_id;
  worktree_id = or_old patch.worktree_id session.worktree_id;
  created_at = or_old patch.created_at session.created_at;
  updated_at = or_old patch.updated_at session.updated_at;
  harness = patched merge_harness session.harness patch.harness;
  terminal = patched merge_terminal session.terminal patch.terminal;
  status = or_old patch.status session.status;
  title = or_old patch.title session.title;
  tags = or_old patch.tags session.tags;
}

abbrev shown : DisplayStatusLabel → ℕ → Bool → Option Bool → Option String → WorktreeDisplay
shown label priority alert warning reason = record {
  status_label = label;
  sort_priority = priority;
  alert = alert;
  warning = warning;
  reason = reason;
}

-- The last clause is the `return` behind the tests.
display_for_state : AgentState → String → WorktreeDisplay
display_for_state needs_attention reason = shown needs_attention_label 10 true none (some reason)
display_for_state stuck reason = shown stuck_label 20 true (some true) (some reason)
display_for_state working reason = shown working_label 30 false none none
display_for_state starting reason = shown starting_label 35 false none none
display_for_state idle reason = shown idle_label 40 false none none
display_for_state exited reason = shown exited_label 60 false none none
display_for_state _ reason = shown unknown_label 50 false none none

unfoldable pub display_for_agent : WorktreeAgent → WorktreeDisplay
unfolding display_for_state
display_for_agent agent = display_for_state agent.state agent.reason

abbrev no_row_patch : RowPatch
no_row_patch = record {
  id = none;
  project_id = none;
  project_label = none;
  branch = none;
  path = none;
  worktree = none;
  terminal = none;
  agent = none;
  recovery = none;
  display = none;
}

unfoldable pub row_patch_for_agent_state : Option WorktreeAgent → RowPatch
unfolding display_for_agent
row_patch_for_agent_state none = record no_row_patch {
  agent = some none;
  display = some (
      shown no_agent_label 70 false none (some "No harness run is associated with this worktree."));
}
row_patch_for_agent_state (some agent) = record no_row_patch {
  agent = some (some agent);
  display = some (display_for_agent agent);
}

unfoldable pub upsert_session : List SessionView → SessionView → List SessionView
upsert_session sessions session =
    if any (λ candidate. candidate.id == session.id) sessions
    then map (λ candidate. if candidate.id == session.id then session else candidate) sessions
    else sessions ++ session ∷ []

abbrev pub patch_row : String → RowPatch → WorktreeRow → WorktreeRow
patch_row id patch row = if row.id == id then merge_row_patch row patch else row

abbrev pub patch_session : String → SessionPatch → SessionView → SessionView
patch_session id patch session =
    if session.id == id then merge_session_patch session patch else session

with_snapshot : WosmSnapshot → List WorktreeRow → List SessionView → ApplyWosmEventResult
with_snapshot snapshot rows sessions = record {
  snapshot = record snapshot { rows = rows; sessions = sessions };
  needs_snapshot_refresh = false;
  notices = [];
}

refreshed : WosmSnapshot → Bool → List ClientNotice → ApplyWosmEventResult
refreshed snapshot refresh notices = record {
  snapshot = snapshot;
  needs_snapshot_refresh = refresh;
  notices = notices;
}

unfoldable pub apply_wosm_event : WosmSnapshot → WosmEvent → ApplyWosmEventResult
unfolding with_snapshot refreshed
apply_wosm_event s (Events.worktree_added row) = with_snapshot s (s.rows ++ row ∷ []) s.sessions
apply_wosm_event s (Events.worktree_updated id patch) =
    with_snapshot s (map (patch_row id patch) s.rows) s.sessions
apply_wosm_event s (Events.worktree_removed id) =
    with_snapshot s (filter (λ row. not (row.id == id)) s.rows)
      (filter (λ session. not (session.worktree_id == id)) s.sessions)
apply_wosm_event s (Events.worktree_agent_state_changed change) =
    with_snapshot s
      (map (patch_row change.worktree_id (row_patch_for_agent_state change.agent)) s.rows)
      s.sessions
apply_wosm_event s (Events.session_created session) =
    with_snapshot s s.rows (upsert_session s.sessions session)
apply_wosm_event s (Events.session_updated id patch) =
    with_snapshot s s.rows (map (patch_session id patch) s.sessions)
apply_wosm_event s (Events.session_removed id) =
    with_snapshot s s.rows (filter (λ session. not (session.id == id)) s.sessions)
apply_wosm_event s (Events.provider_health_changed provider health) =
    refreshed (record s { provider_health = set s.provider_health provider health }) true []
apply_wosm_event s (Events.command_failed id error diagnostic) =
    refreshed s false (safe_error_to_notice error ∷ [])
apply_wosm_event s (Events.observer_reconciled at changed diagnostic) = refreshed s true []
apply_wosm_event s (Events.project_updated project) = refreshed s true []
apply_wosm_event s (Events.provider_hook_ingested at hook provider event) = refreshed s true []
apply_wosm_event s (Events.provider_hook_spool_drained at drained failed) = refreshed s true []
apply_wosm_event s _ = refreshed s false []
