-- ===== src/Hooks/Routing.antt =====
-- apps/observer/src/hooks/providerHookIngress.ts: the provider that a hook is for, and the observations
-- that it makes of it. A provider's `ingestEvent` is a function that throws as `none`.
use wosm.Base.{
  String, not, List, [], ◌∷◌, ◌++◌, map, Option, none, some, ◌==◌, string_eq, if◌then◌else◌,
}
use wosm.Base.Dict.{Dict, get, set}
use wosm.Contracts.Status.{SafeError}
use wosm.Contracts.Hooks.{
  ProviderHookEvent, worktree_hook, terminal_hook, harness_hook_kind, provider_hook,
}
use wosm.Contracts.Runtime.{WorktreeObservation, TerminalTargetObservation, HarnessEventObservation}
use wosm.Hooks.{
  ObservationPayload, worktree_payload, terminal_payload, harness_payload, ObservationRecord, Store,
  Attempt, done, threw,
}

pub record RawEvent : Type 0 where
  pub provider : String
  pub event : String
  pub observed_at : String

pub record WorktreeProvider : Type 0 where
  pub id : String
  pub ingest_event : Option (RawEvent → Option (List WorktreeObservation))

pub record TerminalProvider : Type 0 where
  pub id : String
  pub ingest_event : Option (RawEvent → Option (List TerminalTargetObservation))

pub record HarnessContext : Type 0 where
  pub worktrees : List WorktreeObservation
  pub terminal_targets : List TerminalTargetObservation

pub record HarnessProvider : Type 0 where
  pub id : String
  pub ingest_event : Option (RawEvent → HarnessContext → Option (List HarnessEventObservation))

pub record ProviderRegistry : Type 0 where
  pub worktree : WorktreeProvider
  pub terminal : TerminalProvider
  pub harnesses : Dict String HarnessProvider

unfoldable pub raw_event : ProviderHookEvent → RawEvent
raw_event e = record {
  provider = e.provider;
  event = elim (e.payload) [ none ↦ e.event | some payload ↦ payload ];
  observed_at = e.received_at;
}

unfoldable pub worktree_observation_record : WorktreeObservation → ObservationRecord
worktree_observation_record o = record {
  provider = o.provider;
  provider_type = "worktree";
  entity_kind = "worktree";
  entity_key = o.id;
  payload = worktree_payload o;
  observed_at = o.observed_at;
}

-- The contract here has no provider data, which `stripTerminalProviderData` takes away.
unfoldable pub terminal_observation_record : TerminalTargetObservation → ObservationRecord
terminal_observation_record o = record {
  provider = o.provider;
  provider_type = "terminal";
  entity_kind = "terminal_target";
  entity_key = o.id;
  payload = terminal_payload o;
  observed_at = o.observed_at;
}

abbrev pub first_of : List (Option String) → String → String
first_of [] other = other
first_of (none ∷ rest) other = first_of rest other
first_of (some value ∷ rest) other = value

unfoldable pub harness_event_observation_record :
    ProviderHookEvent → HarnessEventObservation → ObservationRecord
harness_event_observation_record e o = record {
  provider = o.provider;
  provider_type = "harness";
  entity_kind = "harness_event";
  entity_key = first_of (o.harness_run_id ∷ o.session_id ∷ o.worktree_id ∷ e.hook_id ∷ []) e.event;
  payload = harness_payload o;
  observed_at = o.observed_at;
}

-- `provider.ingestEvent(...)` and the records of what it observed.
abbrev pub recorded_as {ℓ} :
    {A : Type ℓ} → (A → ObservationRecord) → Option (List A) → Option (List ObservationRecord)
recorded_as f none = none
recorded_as f (some observations) = some (map f observations)

unfoldable pub ingest_worktree_hook :
    ProviderRegistry → ProviderHookEvent → Option (List ObservationRecord)
unfolding raw_event worktree_observation_record
ingest_worktree_hook registry e = elim (registry.worktree.ingest_event) [
  | none ↦ some []
  | some ingest ↦
      if not (registry.worktree.id == e.provider)
      then some []
      else recorded_as worktree_observation_record (ingest (raw_event e))
]

unfoldable pub ingest_terminal_hook :
    ProviderRegistry → ProviderHookEvent → Option (List ObservationRecord)
unfolding raw_event terminal_observation_record
ingest_terminal_hook registry e = elim (registry.terminal.ingest_event) [
  | none ↦ some []
  | some ingest ↦
      if not (registry.terminal.id == e.provider)
      then some []
      else recorded_as terminal_observation_record (ingest (raw_event e))
]

abbrev pub as_worktree : ObservationPayload → Option WorktreeObservation
as_worktree (worktree_payload o) = some o
as_worktree _ = none

abbrev pub as_terminal : ObservationPayload → Option TerminalTargetObservation
as_terminal (terminal_payload o) = some o
as_terminal _ = none

-- The loop over the observations, with the map of the latest so far.
abbrev pub collect_latest {ℓ} :
    {T : Type ℓ}
    → (ObservationPayload → Option T)
    → String
    → List ObservationRecord
    → Dict String T
    → Dict String T
collect_latest parse kind [] latest = latest
collect_latest parse kind (o ∷ os) latest = collect_latest parse kind os (
    if not (o.entity_kind == kind)
    then latest
    else elim (parse o.payload) [ none ↦ latest | some value ↦ set latest o.entity_key value ])

unfoldable pub latest_observation_payloads {ℓ} :
    {T : Type ℓ} → List ObservationRecord → String → (ObservationPayload → Option T) → List T
latest_observation_payloads observations kind parse =
    map (λ entry. entry.1) (collect_latest parse kind observations [])

-- The argument is what `listCurrentProviderEntityObservations` finds.
unfoldable pub harness_event_context : List ObservationRecord → HarnessContext
unfolding latest_observation_payloads
harness_event_context persisted = record {
  worktrees = latest_observation_payloads persisted "worktree" as_worktree;
  terminal_targets = latest_observation_payloads persisted "terminal_target" as_terminal;
}

unfoldable pub ingest_harness_hook :
    ProviderRegistry → List ObservationRecord → ProviderHookEvent → Option (List ObservationRecord)
unfolding raw_event harness_event_context harness_event_observation_record
ingest_harness_hook registry persisted e = elim (get registry.harnesses e.provider) [
  | none ↦ some []
  | some provider ↦ elim (provider.ingest_event) [
    | none ↦ some []
    | some ingest ↦
        recorded_as (harness_event_observation_record e)
          (ingest (raw_event e) (harness_event_context persisted))
  ]
]

-- `[...a, ...b]`, where each may have thrown.
abbrev pub join_all :
    Option (List ObservationRecord)
    → Option (List ObservationRecord)
    → Option (List ObservationRecord)
join_all none b = none
join_all (some xs) none = none
join_all (some xs) (some ys) = some (xs ++ ys)

unfoldable pub route_provider_hook :
    ProviderRegistry → List ObservationRecord → ProviderHookEvent → Option (List ObservationRecord)
unfolding ingest_worktree_hook ingest_terminal_hook ingest_harness_hook
route_provider_hook registry persisted e = elim (e.kind) [
  | worktree_hook ↦ ingest_worktree_hook registry e
  | terminal_hook ↦ ingest_terminal_hook registry e
  | harness_hook_kind ↦ ingest_harness_hook registry persisted e
  | provider_hook ↦
      join_all (ingest_worktree_hook registry e)
        (join_all (ingest_terminal_hook registry e) (ingest_harness_hook registry persisted e))
]

-- The loop that records the observations; it ends where a record cannot be written.
abbrev pub record_all :
    (ObservationRecord → Option SafeError)
    → Store
    → List ObservationRecord
    → Store × Option SafeError
record_all write s [] = (s, none)
record_all write s (o ∷ os) =
    let rest = record_all write (record s { observations = s.observations ++ o ∷ [] }) os in
    elim (write o) [ none ↦ rest | some e ↦ (s, some e) ]

-- What the boundary makes of the provider: its observations, or the error of a throw or a timeout.
abbrev pub bounded :
    Option SafeError
    → SafeError
    → Option (List ObservationRecord)
    → Attempt (List ObservationRecord)
bounded (some timeout) failure observations = threw timeout
bounded none failure none = threw failure
bounded none failure (some observations) = done observations

abbrev pub ingested :
    (ObservationRecord → Option SafeError)
    → Store
    → Attempt (List ObservationRecord)
    → Store × Attempt (Option SafeError)
ingested write s (threw e) = (s, done (some e))
ingested write s (done observations) =
    let result = record_all write s observations in
    (result.0, elim (result.1) [ none ↦ done none | some e ↦ threw e ])
