-- ===== src/Hooks/Repeats.antt =====
-- What comes in again, of hooks/ingestion.ts: the answers to a hook and to a report that were claimed.
use wosm.Base.{
  String, true, false, List, [], ◌∷◌, ◌++◌, none, some, contains, ◌≡◌, refl, ap, ◌∙◌, arith, inl,
  inr, contains-append, ==-refl, Bool-cases,
}
use wosm.Contracts.Status.{SafeError}
use wosm.Contracts.Hooks.{ProviderHookEvent, HarnessEventReport}
use wosm.Contracts.Runtime.{SessionRecoveryHandle}
use wosm.Hooks.{Store, done, IngressDedupeKey, key_eq, claim_ingress_dedupe_key}
use wosm.Hooks.Ingestion.{
  HookCall, or_id, hook_key, ingest_hook, ingested_hook_receipt, record_event_with_ingress_dedupe,
}
use wosm.Hooks.Reports.{
  ReportCall, report_key, report_receipt, rejected_report_receipt, record_report, keep_handle,
  finish_report_ingest, ingest_report, session_recovery_handle_from_report,
}
use wosm.Hooks.Grown.{hook_new, hook_grows, report_first, report_grows, report_step}
use wosm.Hooks.Once.{Arrival, hook_arrival, report_arrival, take_in, take_all}

grown_has :
    (s next : Store) (k j : IngressDedupeKey) (keys : List IngressDedupeKey)
    → next.dedupe ≡ s.dedupe ++ keys
    → contains s.dedupe j ≡ true
    → contains next.dedupe j ≡ true
grown_has s next k j keys e has = rw e (ground (arith, contains-append s.dedupe keys j, has))

-- What is claimed stays claimed.
pub take_in_has :
    (s : Store) (a : Arrival) (k : IngressDedupeKey)
    → contains s.dedupe k ≡ true
    → contains (take_in s a).dedupe k ≡ true
unfolding take_in
take_in_has s (hook_arrival call e) k has = elim (hook_grows call s e) [
  | inl same ↦ rw same.0 has
  | inr g ↦ grown_has s (ingest_hook call s e).0 k k _ g.dedupe has
]
take_in_has s (report_arrival call r) k has = elim (report_grows call s r) [
  | inl same ↦ rw same.0 has
  | inr g ↦ grown_has s (ingest_report call s r).0 k k _ g.dedupe has
]

take_all_has :
    (later : List Arrival) (s : Store) (k : IngressDedupeKey)
    → contains s.dedupe k ≡ true
    → contains (take_all s later).dedupe k ≡ true
unfolding take_all
take_all_has [] s k has = has
take_all_has (a ∷ later) s k has = take_all_has later (take_in s a) k (take_in_has s a k has)

claims :
    (s next : Store) (k : IngressDedupeKey)
    → next.dedupe ≡ s.dedupe ++ k ∷ []
    → contains next.dedupe k ≡ true
claims s next k e = rw e (ground (arith, contains-append s.dedupe (k ∷ []) k, ==-refl k))

pub hook_claims :
    (call : HookCall) (s : Store) (input : ProviderHookEvent)
    → call.transaction ≡ none
    → contains (ingest_hook call s input).0.dedupe (hook_key (or_id input.hook_id call.fresh_id))
      ≡ true
unfolding ingest_hook record_event_with_ingress_dedupe claim_ingress_dedupe_key
hook_claims call s input works =
    let id = or_id input.hook_id call.fresh_id in
    elim (Bool-cases (contains s.dedupe (hook_key id))) [
      | inl repeat ↦ ground (arith, repeat, works)
      | inr new ↦
          claims s (ingest_hook call s input).0 (hook_key id)
            (hook_new call s input works new).dedupe
    ]

known_hook :
    (call : HookCall) (s : Store) (input : ProviderHookEvent) (id : String)
    → call.transaction ≡ none
    → contains s.dedupe (hook_key id) ≡ true
    → let sent = record input { hook_id = some id } in
      ingest_hook call s sent ≡ (s, done (ingested_hook_receipt id sent true))
unfolding ingest_hook record_event_with_ingress_dedupe claim_ingress_dedupe_key
known_hook call s input id works known = rw (works, known) refl

-- A hook is ingested in a transaction that works. Later, after any ingestions, it is sent again with
-- the id that it was answered with, and the transaction works: nothing changes, and the answer is that
-- it is ingested, as a repeat.
pub ingest_hook-repeat :
    (first again : HookCall) (s : Store) (input : ProviderHookEvent) (later : List Arrival)
    → first.transaction ≡ none
    → again.transaction ≡ none
    → let id = or_id input.hook_id first.fresh_id in
      let sent = record input { hook_id = some id } in
      let now = take_all (ingest_hook first s input).0 later in
      ingest_hook again now sent ≡ (now, done (ingested_hook_receipt id sent true))
ingest_hook-repeat first again s input later works works_again =
    let id = or_id input.hook_id first.fresh_id in
    let now = take_all (ingest_hook first s input).0 later in
    known_hook again now input id works_again (
      take_all_has later (ingest_hook first s input).0 (hook_key id)
        (hook_claims first s input works))

known_report :
    (call : ReportCall) (s : Store) (r : HarnessEventReport)
    → call.transaction ≡ none
    → contains s.dedupe (report_key r) ≡ true
    → ingest_report call s r ≡ (s, record (report_receipt call r false) { deduped = some true })
unfolding ingest_report record_report claim_ingress_dedupe_key
known_report call s r works known = rw (works, known) refl

-- The call that writes the handle throws.
handle_fails :
    (call : ReportCall) (s : Store) (r : HarnessEventReport) (h : SessionRecoveryHandle)
    (error : SafeError)
    → session_recovery_handle_from_report r ≡ some h
    → call.upsert ≡ some error
    → keep_handle call s r ≡ (s, some error)
handle_fails call s r h error named fails = ground (arith, named, fails)

-- A new report names a session that can be resumed, its transaction works, and writing the handle
-- throws: the report is rejected with that error, nothing is published and no handle is stored. When
-- it is sent again, with whatever came in between and in a transaction that works, it is accepted as a
-- repeat and nothing changes: the handle and the published event are lost.
pub ingest_report-lost :
    (first again : ReportCall) (s : Store) (r : HarnessEventReport) (h : SessionRecoveryHandle)
    (error : SafeError) (later : List Arrival)
    → first.transaction ≡ none
    → again.transaction ≡ none
    → contains s.dedupe (report_key r) ≡ false
    → session_recovery_handle_from_report r ≡ some h
    → first.upsert ≡ some error
    → let a = ingest_report first s r in
      let now = take_all (a.0) later in
      (a.1 ≡ rejected_report_receipt first r error)
      × ((a.0).published ≡ s.published)
      × ((a.0).handles ≡ s.handles)
      × (ingest_report again now r
          ≡ (now, record (report_receipt again r false) { deduped = some true }))
unfolding record_report claim_ingress_dedupe_key
ingest_report-lost first again s r h error later works works_again new named fails =
    let kept = (record_report first s r).0 in
    let step =
      report_step first s r works new
      ∙ ap (finish_report_ingest first r) (handle_fails first kept r h error named fails) in
    let grown = report_first first s r works new in
    (
      ap (λ a. a.1) step,
      ap (λ a. (a.0).published) step ∙ rw new refl,
      ap (λ a. (a.0).handles) step ∙ rw new refl,
      known_report again (take_all (ingest_report first s r).0 later) r works_again (
          take_all_has later (ingest_report first s r).0 (report_key r)
            (claims s (ingest_report first s r).0 (report_key r) grown.dedupe)),
    )
