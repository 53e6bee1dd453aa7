-- ===== src/Hooks.antt =====
-- apps/observer/src/hooks and persistence/ingressDedupe.ts: what the observer keeps of hooks and reports.
-- `Store` is the part of the database that is written, with what was published and asked for. A
-- transaction that fails changes nothing; whether one does, and what the runtime boundary makes of the
-- failure, is an argument. Ids, expiry times and sources of the database's rows are left out.
pub mod Routing
pub mod Ingestion
pub mod Reports
pub mod Spool
pub mod Grown
pub mod Once
pub mod Repeats
pub mod Drained
pub mod Process
pub mod Kept
pub mod Unlost
mod Tests
use wosm.Base.{
  ℕ, String, Bool, true, false, ◌&&◌, List, [], ◌∷◌, ◌++◌, Option, none, some, contains, Equality,
  ◌==◌, string_eq, ◌≡◌, ◌↔◌, refl, arith, if◌then◌else◌, dec_beq, dec_beq_iff,
}
use wosm.Contracts.Status.{SafeError}
use wosm.Contracts.Events.{WosmEvent}
use wosm.Contracts.Runtime.{
  WorktreeObservation, TerminalTargetObservation, HarnessEventObservation, SessionRecoveryHandle,
}

-- The kind and the id by which repeats are told.
pub data IngressKind : Type 0 where
  hook harness_report : IngressKind

pub record IngressDedupeKey : Type 0 where
  pub kind : IngressKind
  pub id : String

abbrev pub kind_same : IngressKind → IngressKind → Bool
kind_same hook hook = true
kind_same harness_report harness_report = true
kind_same _ _ = false

abbrev pub key_same : IngressDedupeKey → IngressDedupeKey → Bool
key_same a b = kind_same a.kind b.kind && (a.id == b.id)

kind_same_iff : (a b : IngressKind) → (kind_same a b ≡ true) ↔ (a ≡ b)
kind_same_iff hook hook = (λ _. refl, λ _. refl)
kind_same_iff hook harness_report = (λ h. cc, λ h. cc)
kind_same_iff harness_report hook = (λ h. cc, λ h. cc)
kind_same_iff harness_report harness_report = (λ _. refl, λ _. refl)

pub key_same_iff : (a b : IngressDedupeKey) → (key_same a b ≡ true) ↔ (a ≡ b)
key_same_iff a b = ground (arith, kind_same_iff a.kind b.kind, string_eq.same_iff a.id b.id)

instance abbrev pub key_eq : Equality IngressDedupeKey
key_eq = record { same_iff = key_same_iff; same = key_same }

-- An observation's payload, by the schema that it is of.
pub data ObservationPayload : Type 0 where
  worktree_payload : WorktreeObservation → ObservationPayload
  terminal_payload : TerminalTargetObservation → ObservationPayload
  harness_payload : HarnessEventObservation → ObservationPayload

pub record ObservationRecord : Type 0 where
  pub provider : String
  pub provider_type : String
  pub entity_kind : String
  pub entity_key : String
  pub payload : ObservationPayload
  pub observed_at : String

pub record Store : Type 0 where
  pub dedupe : List IngressDedupeKey
  pub events : List WosmEvent
  pub observations : List ObservationRecord
  pub handles : List SessionRecoveryHandle
  pub published : List WosmEvent
  pub reconciles : List String

-- `INSERT OR IGNORE`: the key was new if a row was added.
unfoldable pub claim_ingress_dedupe_key : Store → IngressDedupeKey → Store × Bool
claim_ingress_dedupe_key s key =
    if contains s.dedupe key then (s, false) else (record s { dedupe = s.dedupe ++ key ∷ [] }, true)

-- What becomes of a call that the boundary guards or that is awaited without a guard.
pub data Attempt {ℓ} (A : Type ℓ) : Type ℓ where
  done : A → Attempt A
  threw : SafeError → Attempt A

abbrev pub publish : Store → WosmEvent → Store
publish s event = record s { published = s.published ++ event ∷ [] }

-- The callback, where there is one and it is wanted.
abbrev pub call_on_reconcile : Bool → Store → String → Store
call_on_reconcile wanted s reason =
    if wanted then record s { reconciles = s.reconciles ++ reason ∷ [] } else s
