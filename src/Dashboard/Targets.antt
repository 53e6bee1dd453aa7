-- ===== src/Dashboard/Targets.antt =====
-- What the commands of state/commandBuilders.ts are for.
use wosm.Base.{
  String, true, List, Option, none, some, find, ◌==◌, string_eq, ◌≡◌, refl, arith, inl, inr,
  Bool-cases, Option-cases, sym, ap,
}
use wosm.Contracts.Snapshot.{
  ProjectView, WorktreeRow, SessionView, WosmSnapshot, WorktreeRecoveryAction, WorktreeAgent,
}
use wosm.Contracts.Commands.{
  WosmCommand, session_start_agent, session_resume_agent, terminal_focus, session_send_prompt,
  harness_native, TerminalFocusOrigin,
}
use wosm.Dashboard.Builders.{
  built, row_session, build_focus_command, build_start_agent_command, build_resume_agent_command,
  resume_of, build_primary_command_for_row, build_send_prompt_command, can_send_prompt_to_row,
}

-- A row is named by its session, or else by its worktree.
abbrev pub worktree_unless : Option String → WorktreeRow → Option String
worktree_unless (some session) row = none
worktree_unless none row = some row.id

-- What a command of the primary key does for a row, of a project that is at hand.
abbrev pub Serves : WorktreeRow → ProjectView → WosmCommand → Type 0
Serves row project (session_resume_agent p) =
    (recovery : WorktreeRecoveryAction) × (row.recovery ≡ some recovery)
    × (p.recovery_handle_id ≡ some recovery.handle_id)
    × (p.worktree_id ≡ row.id)
    × (p.project_id ≡ project.id)
Serves row project (session_start_agent p) =
    (row.recovery ≡ none)
    × (row.agent ≡ none)
    × (p.worktree_id ≡ row.id)
    × (p.project_id ≡ project.id)
Serves row project (terminal_focus p) =
    (row.recovery ≡ none)
    × ((agent : WorktreeAgent) × (row.agent ≡ some agent)
        × (p.session_id ≡ agent.session_id)
        × (p.worktree_id ≡ worktree_unless agent.session_id row))
Serves row project _ = ⊥

focus-Serves :
    (row : WorktreeRow) (project : ProjectView) (origin : Option TerminalFocusOrigin)
    (agent : WorktreeAgent)
    → row.recovery ≡ none
    → row.agent ≡ some agent
    → Serves row project (build_focus_command row origin)
unfolding build_focus_command
focus-Serves row project origin agent lost runs = elim (Option-cases agent.session_id) [
  | inl no_session ↦
      let none_named : row_session row ≡ none = ground (arith, runs, no_session) in
      rw (build_focus_command, none_named)
        (lost, (agent, runs, sym no_session, ap (λ o. worktree_unless o row) (sym no_session)))
  | inr (id, session) ↦
      let named : row_session row ≡ some id = ground (arith, runs, session) in
      rw (build_focus_command, named)
        (lost, (agent, runs, sym session, ap (λ o. worktree_unless o row) (sym session)))
]

-- A row has a project in the snapshot. The primary key's command is built: it resumes what the row can
-- recover, or else starts an agent where the row has none, or else focuses the session of the row's
-- agent, or the row's worktree where that agent has no session.
pub primary-Serves :
    (row : WorktreeRow) (snapshot : WosmSnapshot) (origin : Option TerminalFocusOrigin)
    (project : ProjectView)
    → find (λ candidate. candidate.id == row.project_id) snapshot.projects ≡ some project
    → (c : WosmCommand) × (build_primary_command_for_row row snapshot origin ≡ built c)
      × Serves row project c
unfolding build_primary_command_for_row build_resume_agent_command build_start_agent_command
primary-Serves row snapshot origin project found = elim (Option-cases row.recovery) [
  | inr (recovery, lost) ↦ (
    resume_of row project recovery,
    simp (build_primary_command_for_row, build_resume_agent_command, lost, found) refl,
    (recovery, lost, refl, refl, refl),
  )
  | inl kept ↦ elim (Option-cases row.agent) [
    | inl no_agent ↦ (
      build_start_agent_command row project,
      simp (build_primary_command_for_row, kept, no_agent, found) refl,
      (kept, no_agent, refl, refl),
    )
    | inr (agent, runs) ↦ (
      build_focus_command row origin,
      simp (build_primary_command_for_row, kept, runs) refl,
      focus-Serves row project origin agent kept runs,
    )
  ]
]

-- A prompt is only sent to the session of the row, which is one of the sessions and takes prompts: the
-- command of any text that is built names it with that text.
pub prompt-taken :
    (row : WorktreeRow) (sessions : List SessionView) (prompt : String) (c : WosmCommand)
    → build_send_prompt_command row sessions prompt ≡ built c
    → (id : String) × (session : SessionView) × (row_session row ≡ some id)
      × (find (λ candidate. candidate.id == id) sessions ≡ some session)
      × (session.harness.capabilities.can_receive_prompt ≡ true)
      × (c
          ≡ session_send_prompt
              (record { session_id = id; prompt = prompt; delivery = some harness_native }))
unfolding build_send_prompt_command can_send_prompt_to_row
prompt-taken row sessions prompt c gives = elim (Option-cases (row_session row)) [
  | inl no_session ↦ ground (arith, no_session, gives)
  | inr (id, own) ↦ elim (Option-cases (find (λ candidate. candidate.id == id) sessions)) [
    | inl unknown_id ↦ ground (arith, own, unknown_id, gives)
    | inr (session, found) ↦ elim (Bool-cases session.harness.capabilities.can_receive_prompt) [
      | inr closed ↦ ground (arith, own, found, closed, gives)
      | inl takes ↦ (id, session, own, found, takes, ground (arith, own, found, takes, gives))
    ]
  ]
]
