-- ===== src/Status/Exits.antt =====
-- statusProjection.ts, `shouldPreserveCurrentAgent`, over the reports that follow an exit.
use mathlib.Core.List.{
  Mem, mem-cons_of_mem, eq-or-mem_of_mem-cons, Mem-prop, mem-cons_self, not-mem-nil,
}
use mathlib.Core.List.Perm
use mathlib.Core.Logic.Or
use wosm.Base.{
  ℕ, zero, suc, ◌<◌, String, List, [], ◌∷◌, Option, none, some, get_elem?, ◌≡◌, ◌≢◌, sym, ap, subst,
  arith, inl, inr,
}
use wosm.Base.Sort.{sort-perm}
use wosm.Base.Platform.{Platform}
use wosm.Contracts.Status.{high, exited, ObservedStatus}
use wosm.Contracts.Hooks.{HarnessEventReport}
use wosm.Contracts.Snapshot.{WorktreeAgent, WorktreeRow, WosmSnapshot}
use wosm.Status.Projection.{StatusProjectionResult, unprojected, should_preserve_current_agent}
use wosm.Status.Result.{sort_rows, rebuild_snapshot, replace_at, project_harness_event_report}
use wosm.Status.Consistency.{Projects, report_cases}

-- The snapshot behind a list of reports, each with the time of its projection.
abbrev pub project_all : Platform → WosmSnapshot → List (HarnessEventReport × String) → WosmSnapshot
project_all p s [] = s
project_all p s ((r, at) ∷ reports) =
    project_all p (project_harness_event_report p s r at).snapshot reports

-- A status, if there is one, is older than a time, and those of all reports are.
abbrev pub IsOlder : Platform → Option ObservedStatus → String → Type 0
IsOlder p none time = Unit
IsOlder p (some status) time = p.date_parse status.updated_at < p.date_parse time

abbrev pub AllOlder : Platform → List (HarnessEventReport × String) → String → Type 0
AllOlder p [] time = Unit
AllOlder p ((r, at) ∷ reports) time = IsOlder p r.status time × AllOlder p reports time

mem-replace_at :
    (rows : List WorktreeRow) (i : ℕ) (row target next : WorktreeRow)
    → Mem row rows
    → get_elem? rows i ≡ some target
    → row ≢ target
    → Mem row (replace_at rows i next)
unfolding replace_at
mem-replace_at [] i row target next member at apart = absurd (not-mem-nil member)
mem-replace_at (r ∷ rows) zero row target next member at apart =
    Or.elim Mem-prop (eq-or-mem_of_mem-cons member) (λ e. absurd (apart (ground (arith, at, e))))
      (λ m. mem-cons_of_mem next m)
mem-replace_at (r ∷ rows) (suc i) row target next member at apart =
    Or.elim Mem-prop (eq-or-mem_of_mem-cons member)
      (λ e. subst (λ x. Mem row (x ∷ replace_at rows i next)) e mem-cons_self)
      (λ m. mem-cons_of_mem r (mem-replace_at rows i row target next m (ground (arith, at)) apart))

-- The agent of the row that a report projects on is not one whose exit the report precedes.
projects-exited :
    (p : Platform) (s : WosmSnapshot) (r : HarnessEventReport) (at : String) (row : WorktreeRow)
    (agent : WorktreeAgent) (t : Projects p s r at (project_harness_event_report p s r at))
    → row.agent ≡ some agent
    → agent.state ≡ exited
    → agent.confidence ≡ high
    → p.date_parse t.status.updated_at < p.date_parse agent.updated_at
    → row ≢ t.row
unfolding should_preserve_current_agent
projects-exited p s r at row agent t has gone sure older same =
    let own : t.agent ≡ agent = cc (ap (λ (w : WorktreeRow). w.agent) same, has, t.is_agent) in
    ground (arith, own, t.not_preserved)

report-Mem :
    (p : Platform) (s : WosmSnapshot) (r : HarnessEventReport) (at : String) (row : WorktreeRow)
    (agent : WorktreeAgent)
    → Mem row s.rows
    → row.agent ≡ some agent
    → agent.state ≡ exited
    → agent.confidence ≡ high
    → AllOlder p ((r, at) ∷ []) agent.updated_at
    → Mem row (project_harness_event_report p s r at).snapshot.rows
unfolding unprojected rebuild_snapshot sort_rows
report-Mem p s r at row agent member has gone sure older = elim (report_cases p s r at) [
  | inl e ↦ subst (λ (t : StatusProjectionResult). Mem row t.snapshot.rows) (sym e) member
  | inr t ↦ rw t.snapshot_is (
      (Perm.mem_iff (sort-perm _ _)).1 (
        mem-replace_at s.rows t.index row t.row _ member t.is_row (
          projects-exited p s r at row agent t has gone sure
            (subst (λ o. IsOlder p o agent.updated_at) t.has_status older.0))))
]

-- A row with an agent that has exited with high confidence stays as it is, through any reports whose
-- statuses were all updated before the agent's.
pub exit_stays :
    (p : Platform) (s : WosmSnapshot) (reports : List (HarnessEventReport × String))
    (row : WorktreeRow) (agent : WorktreeAgent)
    → Mem row s.rows
    → row.agent ≡ some agent
    → agent.state ≡ exited
    → agent.confidence ≡ high
    → AllOlder p reports agent.updated_at
    → Mem row (project_all p s reports).rows
exit_stays p s [] row agent member has gone sure older = member
exit_stays p s ((r, at) ∷ reports) row agent member has gone sure older =
    exit_stays p (project_harness_event_report p s r at).snapshot reports row agent
      (report-Mem p s r at row agent member has gone sure (older.0, tt)) has gone sure older.1
