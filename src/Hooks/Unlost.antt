-- ===== src/Hooks/Unlost.antt =====
-- The drain of hooks/spool.ts as runtime/api.ts runs it, over the whole spool.
use wosm.Base.{
  String, Bool, true, false, List, [], ◌∷◌, none, some, ◌≡◌, refl, ap, ◌∙◌, inl, inr, Option-cases,
  subst, contains, IsDistinct, string_eq,
}
use wosm.Base.Dict.{keys, get}
use wosm.Contracts.Hooks.{ProviderHookEvent, HarnessEventReport, ProviderHookSpoolRecord}
use wosm.Hooks.{Store, Attempt, IngressDedupeKey, key_eq}
use wosm.Hooks.Ingestion.{HookCall, hook_key}
use wosm.Hooks.Reports.{ReportCall}
use wosm.Hooks.Spool.{
  SpoolFile, invalid, hook_file, report_file, SpoolDir, SpoolDisk, DrainState, gone, json_names,
  drain_spool_record, drain_name, drain_names, drain_provider_ingress_spool, drain_file,
}
use wosm.Hooks.Once.{take_in, hook_arrival, report_arrival}
use wosm.Hooks.Repeats.{take_in_has}
use wosm.Hooks.Process.{
  Projection, without_reconcile, process_harness_ingress_report, observer_ingress, process-dedupe,
  request_reason,
}
use wosm.Hooks.Kept.{
  accepted_hook_claims, request_reason-dedupe, Waits, Kept, settle-Touched, settle-Kept,
}

abbrev IsReport : SpoolFile → Type 0
IsReport (report_file r) = Unit
IsReport _ = ⊥

hook_file_inj : (r q : ProviderHookSpoolRecord) → hook_file r ≡ hook_file q → r ≡ q
hook_file_inj r q h = cc

report_has :
    (call : ReportCall) (project : Store → HarnessEventReport → Attempt Projection) (s : Store)
    (r : HarnessEventReport) (k : IngressDedupeKey)
    → contains s.dedupe k ≡ true
    → let answer = process_harness_ingress_report call project s r in
      contains (request_reason (answer.0) (answer.1.reconcile_reason)).dedupe k ≡ true
unfolding take_in
report_has call project s r k has =
    let answer = process_harness_ingress_report call project s r in
    ap (λ d. contains d k)
      (request_reason-dedupe (answer.0) (answer.1.reconcile_reason)
        ∙ process-dedupe call project s r)
    ∙ take_in_has s (report_arrival (without_reconcile call) r) k has

module _ (hook_call : Store → ProviderHookEvent → HookCall)
    (report_call : Store → HarnessEventReport → ReportCall)
    (project : Store → HarnessEventReport → Attempt Projection) (disk : SpoolDisk) where
  drain_record_has :
      (s : Store) (file : SpoolFile) (k : IngressDedupeKey)
      → contains s.dedupe k ≡ true
      → contains
          (drain_spool_record (observer_ingress hook_call report_call project) disk s file).0.dedupe
          k
        ≡ true
  unfolding drain_spool_record take_in observer_ingress
  drain_record_has s invalid k has = has
  drain_record_has s (hook_file r) k has =
      take_in_has s
        (hook_arrival (record (hook_call s r.event) { trigger_reconcile = some false }) r.event) k
        has
  drain_record_has s (report_file r) k has =
      report_has (report_call s r.report) project s r.report k has

  drained_hook_claims :
      (s : Store) (r : ProviderHookSpoolRecord) (id : String)
      → r.event.hook_id ≡ some id
      → let a =
          drain_spool_record
            (observer_ingress hook_call report_call project)
            disk
            s
            (hook_file r) in
        a.1 ≡ gone → contains a.0.dedupe (hook_key id) ≡ true
  unfolding drain_spool_record observer_ingress
  drained_hook_claims s r id own h =
      accepted_hook_claims (record (hook_call s r.event) { trigger_reconcile = some false }) s
        r.event id own h

  -- Of a spool with one file for a name, a hook that waits in one or was claimed.
  abbrev Safe : DrainState Store → String → ProviderHookEvent → String → Type 0
  Safe d name e id = IsDistinct (keys d.files) × Kept disk d name e id

  file-Safe :
      (d : DrainState Store) (n : String) (file : SpoolFile) (name : String) (e : ProviderHookEvent)
      (id : String)
      → e.hook_id ≡ some id
      → d.rejected ≡ none
      → get d.files n ≡ some file
      → Safe d name e id
      → Safe (drain_file (observer_ingress hook_call report_call project) disk d n file) name e id
  file-Safe d n invalid name e id own on found safe = safe
  file-Safe d n (hook_file r) name e id own on found safe =
      let i = observer_ingress hook_call report_call project in
      let a = drain_spool_record i disk d.ingress (hook_file r) in
      (
        (settle-Touched i disk d n (hook_file r) a safe.0).0,
        settle-Kept i disk d n (hook_file r) a name e id safe.0 on found
            (drain_record_has d.ingress (hook_file r) (hook_key id))
            (λ q same event h.
              drained_hook_claims d.ingress r id
                (ap (λ x. x.hook_id) (ap (λ x. x.event) (hook_file_inj r q same) ∙ event) ∙ own) h)
            safe.1,
      )
  file-Safe d n (report_file r) name e id own on found safe =
      let i = observer_ingress hook_call report_call project in
      let a = drain_spool_record i disk d.ingress (report_file r) in
      (
        (settle-Touched i disk d n (report_file r) a safe.0).0,
        settle-Kept i disk d n (report_file r) a name e id safe.0 on found
            (drain_record_has d.ingress (report_file r) (hook_key id))
            (λ q same event h. absurd (subst IsReport same tt)) safe.1,
      )

  name-Safe :
      (d : DrainState Store) (n name : String) (e : ProviderHookEvent) (id : String)
      → e.hook_id ≡ some id
      → d.rejected ≡ none
      → Safe d name e id
      → Safe (drain_name (observer_ingress hook_call report_call project) disk d n) name e id
  unfolding drain_name
  name-Safe d n name e id own on safe = elim (Option-cases (get d.files n)) [
    | inl missing ↦ rw (drain_name, missing) safe
    | inr (file, found) ↦ rw (drain_name, found) (file-Safe d n file name e id own on found safe)
  ]

  names-Safe :
      (names : List String) (d : DrainState Store) (name : String) (e : ProviderHookEvent)
      (id : String)
      → e.hook_id ≡ some id
      → d.rejected ≡ none
      → Safe d name e id
      → Safe (drain_names (observer_ingress hook_call report_call project) disk d names) name e id
  unfolding drain_names
  names-Safe [] d name e id own on safe = safe
  names-Safe (n ∷ names) d name e id own on safe =
      let i = observer_ingress hook_call report_call project in
      let next = drain_name i disk d n in
      let one = name-Safe d n name e id own on safe in
      elim (Option-cases next.rejected) [
        | inl still ↦ rw (drain_names, still) (names-Safe names next name e id own still one)
        | inr (error, off) ↦ rw (drain_names, off) one
      ]

  -- A hook with an id waits in a file of the spool, which has one file for a name. After a drain,
  -- whatever fails in it, the hook's key was claimed by the ingestion, or the same event still waits
  -- in a file of that name, or the drain rejected with the error of writing that file back in its
  -- `catch`.
  pub drain-Kept :
      (is_json : String → Bool) (now : String) (files : SpoolDir) (s : Store) (name : String)
      (e : ProviderHookEvent) (id : String)
      → e.hook_id ≡ some id
      → IsDistinct (keys files)
      → Waits files name e
      → let result =
          drain_provider_ingress_spool
            (observer_ingress hook_call report_call project)
            disk
            is_json
            now
            files
            s in
        Kept disk result.state name e id
  unfolding drain_provider_ingress_spool
  drain-Kept is_json now files s name e id own distinct waits =
      (names-Safe (json_names is_json files)
        (record { files = files; ingress = s; drained = 0; failed = 0; rejected = none }) name e id
        own refl (distinct, inr (inl waits))).1
