-- ===== src/Hooks/Once.antt =====
-- Histories of ingestions, of hooks/ingestion.ts.
use wosm.Base.{
  true, List, [], ◌∷◌, ◌++◌, contains, IsDistinct, ◌≡◌, refl, sym, ap, ◌∙◌, arith, Option, none,
  some, Option-cases, inl, inr, append-IsDistinct, contains-append, ==-refl, subst,
}
use wosm.Base.All.{All, All-append, All-mono, not_among}
use wosm.Contracts.Events.{WosmEvent, provider_hook_ingested, harness_event_reported}
use wosm.Contracts.Hooks.{ProviderHookEvent, HarnessEventReport}
use wosm.Hooks.{Store, IngressDedupeKey, hook, harness_report, key_eq}
use wosm.Hooks.Ingestion.{HookCall, ingest_hook}
use wosm.Hooks.Reports.{ReportCall, ingest_report}
use wosm.Hooks.Grown.{SameRecord, Grown, hook_grows, report_grows}

-- What comes in, with what its call meets.
pub data Arrival : Type 0 where
  hook_arrival : HookCall → ProviderHookEvent → Arrival
  report_arrival : ReportCall → HarnessEventReport → Arrival

unfoldable pub take_in : Store → Arrival → Store
unfolding ingest_hook ingest_report
take_in s (hook_arrival call e) = (ingest_hook call s e).0
take_in s (report_arrival call r) = (ingest_report call s r).0

unfoldable pub take_all : Store → List Arrival → Store
unfolding take_in
take_all s [] = s
take_all s (a ∷ later) = take_all (take_in s a) later

-- The keys of the hooks and reports among events.
abbrev pub event_key : WosmEvent → Option IngressDedupeKey
event_key (provider_hook_ingested at id provider event) = some (record { kind = hook; id = id })
event_key (harness_event_reported at id provider event) =
    some (record { kind = harness_report; id = id })
event_key _ = none

abbrev pub with_key : Option IngressDedupeKey → List IngressDedupeKey → List IngressDedupeKey
with_key none ks = ks
with_key (some k) ks = k ∷ ks

abbrev pub event_keys : List WosmEvent → List IngressDedupeKey
event_keys [] = []
event_keys (e ∷ es) = with_key (event_key e) (event_keys es)

abbrev pub Known : List IngressDedupeKey → List WosmEvent → Type 0
Known known es = All (λ k. contains known k ≡ true) (event_keys es)

-- The recorded events are those of the known keys, in their order; what was published was recorded,
-- and nothing was published twice.
pub record Recorded (s : Store) : Type 0 where
  pub known : IsDistinct s.dedupe
  pub events : event_keys s.events ≡ s.dedupe
  pub published : IsDistinct (event_keys s.published)
  pub only_known : Known s.dedupe s.published

event_keys-append :
    (es : List WosmEvent) (e : WosmEvent) (k : IngressDedupeKey)
    → event_key e ≡ some k
    → event_keys (es ++ e ∷ []) ≡ event_keys es ++ k ∷ []
event_keys-append [] e k h = rw h refl
event_keys-append (x ∷ es) e k h = elim (Option-cases (event_key x)) [
  | inl other ↦ rw other (event_keys-append es e k h)
  | inr (key, own) ↦ rw own (ap (λ ks. key ∷ ks) (event_keys-append es e k h))
]

published-Known :
    (known : List IngressDedupeKey) (es : List WosmEvent) (k : IngressDedupeKey)
    → Known known es
    → Known (known ++ k ∷ []) es
published-Known known es k all =
    All-mono (λ j. contains known j ≡ true)
      (λ j has. ground (arith, contains-append known (k ∷ []) j, has)) (event_keys es) all

same-Recorded : (s next : Store) → SameRecord next s → Recorded s → Recorded next
same-Recorded s next same r = record {
  known = subst IsDistinct (sym same.0) r.known;
  events = ap event_keys same.1 ∙ r.events ∙ sym same.0;
  published = subst (λ ps. IsDistinct (event_keys ps)) (sym same.2) r.published;
  only_known =
      subst (λ d. Known d next.published) (sym same.0)
        (subst (λ ps. Known s.dedupe ps) (sym same.2) r.only_known);
}

Grown-Recorded :
    (s next : Store) (k : IngressDedupeKey) (e : WosmEvent)
    → event_key e ≡ some k
    → Grown s next k e
    → Recorded s
    → Recorded next
Grown-Recorded s next k e own g r =
    let here = published-Known s.dedupe s.published k r.only_known in
    record {
      known = subst IsDistinct (sym g.dedupe) (append-IsDistinct s.dedupe k g.fresh r.known);
      events =
          ap event_keys g.events
          ∙ event_keys-append s.events e k own
          ∙ ap (λ ks. ks ++ k ∷ []) r.events
          ∙ sym g.dedupe;
      published = elim g.published [
        | inl same ↦ subst (λ ps. IsDistinct (event_keys ps)) (sym same) r.published
        | inr more ↦
            subst (λ ps. IsDistinct (event_keys ps)) (sym more)
              (subst IsDistinct (sym (event_keys-append s.published e k own)) (
                append-IsDistinct (event_keys s.published) k
                  (not_among s.dedupe (event_keys s.published) k g.fresh r.only_known) r.published))
      ];
      only_known =
          subst (λ d. Known d next.published) (sym g.dedupe)
            (elim g.published [
              | inl same ↦ subst (λ ps. Known (s.dedupe ++ k ∷ []) ps) (sym same) here
              | inr more ↦
                  subst (λ ps. Known (s.dedupe ++ k ∷ []) ps) (sym more)
                    (subst (All (λ j. contains (s.dedupe ++ k ∷ []) j ≡ true))
                      (sym (event_keys-append s.published e k own))
                      (All-append (λ j. contains (s.dedupe ++ k ∷ []) j ≡ true)
                        (event_keys s.published) (k ∷ []) here
                        (ground (arith, contains-append s.dedupe (k ∷ []) k, ==-refl k), tt)))
            ]);
    }

pub take_in-Recorded : (s : Store) (a : Arrival) → Recorded s → Recorded (take_in s a)
unfolding take_in
take_in-Recorded s (hook_arrival call e) r = elim (hook_grows call s e) [
  | inl same ↦ same-Recorded s (ingest_hook call s e).0 same r
  | inr g ↦ Grown-Recorded s (ingest_hook call s e).0 _ _ refl g r
]
take_in-Recorded s (report_arrival call e) r = elim (report_grows call s e) [
  | inl same ↦ same-Recorded s (ingest_report call s e).0 same r
  | inr g ↦ Grown-Recorded s (ingest_report call s e).0 _ _ refl g r
]

-- Whatever comes in, and whatever fails: the events that are recorded of hooks and reports are those
-- of the claimed keys, each once and in the order of the claims, and an event of one is published at
-- most once and only after it was claimed.
pub take_all-Recorded :
    (arrivals : List Arrival) (s : Store) → Recorded s → Recorded (take_all s arrivals)
unfolding take_all
take_all-Recorded [] s r = r
take_all-Recorded (a ∷ later) s r = take_all-Recorded later (take_in s a) (take_in-Recorded s a r)
