-- ===== src/Hooks/Grown.antt =====
-- What an ingestion of hooks/ingestion.ts adds to the store.
use wosm.Base.{
  String, false, List, [], ◌∷◌, ◌++◌, Option, none, some, contains, ◌≡◌, refl, ap, ◌∙◌, arith,
  Bool-cases, Option-cases, inl, inr, ◌⊎◌,
}
use wosm.Contracts.Status.{SafeError}
use wosm.Contracts.Events.{WosmEvent}
use wosm.Contracts.Hooks.{ProviderHookEvent, HarnessEventReport}
use wosm.Hooks.{
  Store, Attempt, done, threw, IngressDedupeKey, key_eq, claim_ingress_dedupe_key,
  ObservationRecord, publish,
}
use wosm.Hooks.Routing.{ingested, record_all, bounded, route_provider_hook}
use wosm.Hooks.Ingestion.{
  HookCall, or_id, hook_key, hook_event, finish_hook, record_event_with_ingress_dedupe,
  ingest_provider_hook_event, ingest_hook,
}
use wosm.Hooks.Reports.{
  ReportCall, report_key, reported_event, record_report, keep_handle, finish_report_ingest,
  ingest_report, session_recovery_handle_from_report,
}

-- What a store shares with another that a provider's observations, a handle or a reconcile set apart.
abbrev pub SameRecord : Store → Store → Type 0
SameRecord a b = (a.dedupe ≡ b.dedupe) × (a.events ≡ b.events) × (a.published ≡ b.published)

record_all-SameRecord :
    (write : ObservationRecord → Option SafeError) (s : Store) (os : List ObservationRecord)
    → SameRecord (record_all write s os).0 s
record_all-SameRecord write s [] = (refl, refl, refl)
record_all-SameRecord write s (o ∷ os) =
    ground
      (arith, record_all-SameRecord write (record s { observations = s.observations ++ o ∷ [] }) os)

ingested-SameRecord :
    (write : ObservationRecord → Option SafeError) (s : Store)
    (a : Attempt (List ObservationRecord))
    → SameRecord (ingested write s a).0 s
ingested-SameRecord write s (threw e) = (refl, refl, refl)
ingested-SameRecord write s (done os) = record_all-SameRecord write s os

provider-SameRecord :
    (call : HookCall) (s : Store) (e : ProviderHookEvent)
    → SameRecord (ingest_provider_hook_event call s e).0 s
unfolding ingest_provider_hook_event
provider-SameRecord call s e = elim (Option-cases call.providers) [
  | inl none_set ↦ rw none_set (refl, refl, refl)
  | inr (registry, set) ↦ rw set (
      ingested-SameRecord call.write s (
        bounded call.timeout call.failure
          (route_provider_hook registry (call.current s.observations) e)))
]

finish-SameRecord :
    (call : HookCall) (id : String) (e : ProviderHookEvent) (r : Store × Attempt (Option SafeError))
    → SameRecord (finish_hook call id e r).0 (r.0)
finish-SameRecord call id e (s, threw error) = (refl, refl, refl)
finish-SameRecord call id e (s, done error) = ground arith

-- The first ingestion of a key adds it with its event, and may publish the event.
pub record Grown (s next : Store) (key : IngressDedupeKey) (event : WosmEvent) : Type 0 where
  pub fresh : contains s.dedupe key ≡ false
  pub dedupe : next.dedupe ≡ s.dedupe ++ key ∷ []
  pub events : next.events ≡ s.events ++ event ∷ []
  pub published : (next.published ≡ s.published) ⊎ (next.published ≡ s.published ++ event ∷ [])

abbrev claimed : Store → IngressDedupeKey → WosmEvent → Store
claimed s key event = record s { dedupe = s.dedupe ++ key ∷ []; events = s.events ++ event ∷ [] }

hook_first :
    (call : HookCall) (s : Store) (input : ProviderHookEvent)
    → let id = or_id input.hook_id call.fresh_id in
      let e = record input { hook_id = some id } in
      call.transaction ≡ none
      → contains s.dedupe (hook_key id) ≡ false
      → ingest_hook call s input
        ≡ finish_hook call id e (
            ingest_provider_hook_event call
              (publish (claimed s (hook_key id) (hook_event id e)) (hook_event id e))
              e)
unfolding ingest_hook record_event_with_ingress_dedupe claim_ingress_dedupe_key
hook_first call s input works new = ground arith

pub hook_new :
    (call : HookCall) (s : Store) (input : ProviderHookEvent)
    → let id = or_id input.hook_id call.fresh_id in
      call.transaction ≡ none
      → contains s.dedupe (hook_key id) ≡ false
      → Grown s
          (ingest_hook call s input).0
          (hook_key id)
          (hook_event id (record input { hook_id = some id }))
hook_new call s input works new =
    let id = or_id input.hook_id call.fresh_id in
    let e = record input { hook_id = some id } in
    let first = publish (claimed s (hook_key id) (hook_event id e)) (hook_event id e) in
    let provided = provider-SameRecord call first e in
    let ended = finish-SameRecord call id e (ingest_provider_hook_event call first e) in
    let step = hook_first call s input works new in
    record {
      fresh = new;
      dedupe = ap (λ a. (a.0).dedupe) step ∙ ended.0 ∙ provided.0;
      events = ap (λ a. (a.0).events) step ∙ ended.1 ∙ provided.1;
      published = inr (ap (λ a. (a.0).published) step ∙ ended.2 ∙ provided.2);
    }

pub hook_grows :
    (call : HookCall) (s : Store) (input : ProviderHookEvent)
    → let id = or_id input.hook_id call.fresh_id in
      let e = record input { hook_id = some id } in
      let next = (ingest_hook call s input).0 in
      SameRecord next s ⊎ Grown s next (hook_key id) (hook_event id e)
unfolding ingest_hook record_event_with_ingress_dedupe claim_ingress_dedupe_key
hook_grows call s input =
    let id = or_id input.hook_id call.fresh_id in
    elim (Option-cases call.transaction) [
      | inr (error, failed) ↦ inl (rw failed (refl, refl, refl))
      | inl works ↦ elim (Bool-cases (contains s.dedupe (hook_key id))) [
        | inl repeat ↦ inl (rw (works, repeat) (refl, refl, refl))
        | inr new ↦ inr (hook_new call s input works new)
      ]
    ]

pub keep-SameRecord :
    (call : ReportCall) (s : Store) (r : HarnessEventReport) → SameRecord (keep_handle call s r).0 s
unfolding session_recovery_handle_from_report
keep-SameRecord call s r = ground arith

ended-SameRecord :
    (call : ReportCall) (s : Store) (r : HarnessEventReport) (k : Store × Option SafeError)
    → let next = (finish_report_ingest call r k).0 in
      (next.dedupe ≡ k.0.dedupe)
      × (next.events ≡ k.0.events)
      × ((next.published ≡ k.0.published)
          ⊎ (next.published ≡ k.0.published ++ reported_event r ∷ []))
ended-SameRecord call s r (kept, some error) = (refl, refl, inl refl)
ended-SameRecord call s r (kept, none) = (ground arith, ground arith, inr (ground arith))

pub report_step :
    (call : ReportCall) (s : Store) (r : HarnessEventReport)
    → call.transaction ≡ none
    → contains s.dedupe (report_key r) ≡ false
    → ingest_report call s r
      ≡ finish_report_ingest call r (keep_handle call (record_report call s r).0 r)
unfolding ingest_report record_report claim_ingress_dedupe_key
report_step call s r works new = ground arith

pub report_first :
    (call : ReportCall) (s : Store) (r : HarnessEventReport)
    → call.transaction ≡ none
    → contains s.dedupe (report_key r) ≡ false
    → Grown s (ingest_report call s r).0 (report_key r) (reported_event r)
unfolding record_report claim_ingress_dedupe_key
report_first call s r works new =
    let step = report_step call s r works new in
    let first = (record_report call s r).0 in
    let kept = keep-SameRecord call first r in
    let ended = ended-SameRecord call s r (keep_handle call first r) in
    record {
      fresh = new;
      dedupe = ap (λ a. (a.0).dedupe) step ∙ ended.0 ∙ kept.0 ∙ rw new refl;
      events = ap (λ a. (a.0).events) step ∙ ended.1 ∙ kept.1 ∙ rw new refl;
      published = elim ended.2 [
        | inl e ↦ inl (ap (λ a. (a.0).published) step ∙ e ∙ kept.2 ∙ rw new refl)
        | inr e ↦ inr (
            ap (λ a. (a.0).published) step
            ∙ e
            ∙ ap (λ es. es ++ reported_event r ∷ []) (kept.2 ∙ rw new refl))
      ];
    }

pub report_grows :
    (call : ReportCall) (s : Store) (r : HarnessEventReport)
    → let next = (ingest_report call s r).0 in
      SameRecord next s ⊎ Grown s next (report_key r) (reported_event r)
unfolding ingest_report record_report claim_ingress_dedupe_key
report_grows call s r = elim (Option-cases call.transaction) [
  | inr (error, failed) ↦ inl (rw failed (refl, refl, refl))
  | inl works ↦ elim (Bool-cases (contains s.dedupe (report_key r))) [
    | inl repeat ↦ inl (rw (works, repeat) (refl, refl, refl))
    | inr new ↦ inr (report_first call s r works new)
  ]
]
