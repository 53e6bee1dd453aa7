-- ===== src/Hooks/Ingestion.antt =====
-- apps/observer/src/hooks/ingestion.ts, `createProviderHookIngress`, and `ingestProviderHookEvent` of
-- providerHookIngress.ts: a provider hook is recorded, and then handed to its
-- provider.
use Prim.Native.String.{◌++◌ as append}
use wosm.Base.{
  String, Bool, true, false, ◌&&◌, List, [], ◌∷◌, ◌++◌, Option, none, some, if◌then◌else◌,
}
use wosm.Contracts.Status.{SafeError}
use wosm.Contracts.Events.{WosmEvent, provider_hook_ingested}
use wosm.Contracts.Hooks.{
  ProviderHookEvent, ProviderHookReceipt, HookReceiptStatus, hook_ingested, hook_rejected,
}
use wosm.Hooks.{
  Store, Attempt, done, threw, IngressDedupeKey, hook, claim_ingress_dedupe_key, ObservationRecord,
  publish, call_on_reconcile,
}
use wosm.Hooks.Routing.{ProviderRegistry, route_provider_hook, bounded, ingested}

-- What a call meets: the id that it would draw, the error of a transaction that fails, the providers
-- with the current observations, what the boundary makes of a timeout or a throw of theirs, the
-- errors of writing observations, and whether a reconcile is wanted and can be asked for.
pub record HookCall : Type 0 where
  pub fresh_id : String
  pub transaction : Option SafeError
  pub providers : Option ProviderRegistry
  pub current : List ObservationRecord → List ObservationRecord
  pub timeout : Option SafeError
  pub failure : SafeError
  pub write : ObservationRecord → Option SafeError
  pub trigger_reconcile : Option Bool
  pub has_callback : Bool

abbrev pub or_true : Option Bool → Bool
or_true none = true
or_true (some b) = b

abbrev pub or_id : Option String → String → String
or_id none fresh = fresh
or_id (some id) fresh = id

abbrev pub hook_key : String → IngressDedupeKey
hook_key id = record { kind = hook; id = id }

abbrev pub hook_event : String → ProviderHookEvent → WosmEvent
hook_event id e = provider_hook_ingested e.received_at id e.provider e.event

abbrev pub hook_receipt : String → ProviderHookEvent → HookReceiptStatus → ProviderHookReceipt
hook_receipt id e status = record {
  hook_id = id;
  provider = e.provider;
  event = e.event;
  is_accepted = true;
  status = status;
  received_at = e.received_at;
  reconciled = none;
  spooled = none;
  deduped = none;
  error = none;
}

abbrev pub rejected_hook_receipt : String → ProviderHookEvent → SafeError → ProviderHookReceipt
rejected_hook_receipt id e error = record (hook_receipt id e hook_rejected) {
  is_accepted = false;
  error = some error;
}

abbrev pub ingested_hook_receipt : String → ProviderHookEvent → Bool → ProviderHookReceipt
ingested_hook_receipt id e deduped = record (hook_receipt id e hook_ingested) {
  reconciled = some false;
  deduped = some deduped;
}

-- `recordEventWithIngressDedupe`: the transaction claims the key and records the event.
unfoldable pub record_event_with_ingress_dedupe :
    Store → WosmEvent → IngressDedupeKey → Store × Bool
unfolding claim_ingress_dedupe_key
record_event_with_ingress_dedupe s event key =
    let claim = claim_ingress_dedupe_key s key in
    if claim.1
    then (record (claim.0) { events = (claim.0).events ++ event ∷ [] }, true)
    else (s, false)

unfoldable pub ingest_provider_hook_event :
    HookCall → Store → ProviderHookEvent → Store × Attempt (Option SafeError)
unfolding route_provider_hook
ingest_provider_hook_event call s e = elim (call.providers) [
  | none ↦ (s, done none)
  | some registry ↦ ingested call.write s (
      bounded call.timeout call.failure
        (route_provider_hook registry (call.current s.observations) e))
]

-- The end of `ingest`: the reconcile is asked for and the receipt made, unless a write threw.
abbrev pub finish_hook :
    HookCall
    → String
    → ProviderHookEvent
    → Store × Attempt (Option SafeError)
    → Store × Attempt ProviderHookReceipt
finish_hook call id e (s, threw error) = (s, threw error)
finish_hook call id e (s, done error) = (
  call_on_reconcile (or_true call.trigger_reconcile && call.has_callback) s
      (append "hook:" (append e.provider (append ":" e.event))),
  done (record (ingested_hook_receipt id e false) { error = error }),
)

unfoldable pub ingest_hook :
    HookCall → Store → ProviderHookEvent → Store × Attempt ProviderHookReceipt
unfolding record_event_with_ingress_dedupe ingest_provider_hook_event
ingest_hook call s input =
    let id = or_id input.hook_id call.fresh_id in
    let e = record input { hook_id = some id } in
    let result = record_event_with_ingress_dedupe s (hook_event id e) (hook_key id) in
    let rest =
      finish_hook call id e
        (ingest_provider_hook_event call (publish (result.0) (hook_event id e)) e) in
    elim (call.transaction) [
      | some error ↦ (s, done (rejected_hook_receipt id e error))
      | none ↦ if result.1 then rest else (s, done (ingested_hook_receipt id e true))
    ]
