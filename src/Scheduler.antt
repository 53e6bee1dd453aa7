-- ===== src/Scheduler.antt =====
-- apps/observer/src/runtime/reconcileScheduler.ts: requests to reconcile are gathered for a while and
-- served by one reconcile at a time. `requested` and `served` record what was asked for and what was
-- handed out; the time and the outcome of a reconcile are parts of the events.
pub mod Service
mod Tests
use Prim.Native.String.{◌++◌ as append}
use wosm.Base.{
  ℕ, ◌-◌, String, Bool, true, false, not, ◌&&◌, ◌||◌, List, [], ◌∷◌, ◌++◌, Option, none, some,
  length, contains, add, nat_beq, string_eq, if◌then◌else◌,
}
use wosm.Base.Platform.{TextMethods}

pub record FlushProfile : Type 0 where
  pub reason : String
  pub queued_count : ℕ
  pub queued_while_running : ℕ
  pub wait_ms : ℕ
  pub duration_ms : ℕ
  pub queued_after : ℕ

-- A reconcile that runs: what `flush` holds while it waits.
pub record Flush : Type 0 where
  pub reason : String
  pub queued_count : ℕ
  pub queued_at : Option ℕ
  pub started_at : ℕ

-- `timer` is the delay of the timer that is scheduled.
pub record Scheduler : Type 0 where
  pub running : Option Flush
  pub timer : Option ℕ
  pub first_queued_at : Option ℕ
  pub queued_reasons : List String
  pub requested : List String
  pub served : List String
  pub profiles : List FlushProfile

pub data Event : Type 0 where
  request : String → (now : ℕ) → Event
  timer_fires : (now : ℕ) → Event
  reconcile_settles : (now : ℕ) → Event

abbrev pub debounce_ms : ℕ
debounce_ms = 100

abbrev pub backlog_debounce_ms : ℕ
backlog_debounce_ms = 1000

unfoldable pub new_scheduler : Scheduler
new_scheduler = record {
  running = none;
  timer = none;
  first_queued_at = none;
  queued_reasons = [];
  requested = [];
  served = [];
  profiles = [];
}

-- `new Set(reasons)`.
abbrev pub unique : List String → List String → List String
unique seen [] = seen
unique seen (reason ∷ reasons) = unique (add seen reason) reasons

abbrev pub every_hook : TextMethods → List String → Bool
every_hook t [] = true
every_hook t (reason ∷ reasons) = t.starts_with reason "hook:" && every_hook t reasons

abbrev pub batch : (ℕ → String) → String → ℕ → String
batch show kind count = append kind (append ":batch(" (append (show count) ")"))

abbrev pub summary : TextMethods → (ℕ → String) → List String → ℕ → String
summary t show (reason ∷ []) count = reason
summary t show reasons count =
    if every_hook t reasons then batch show "hook" count else batch show "scheduled" count

-- `show` writes a number.
unfoldable pub summarize_reasons : TextMethods → (ℕ → String) → List String → String
summarize_reasons t show reasons = summary t show (unique [] reasons) (length reasons)

abbrev pub is_running : Scheduler → Bool
is_running s = elim (s.running) [ none ↦ false | some flush ↦ true ]

abbrev pub has_timer : Scheduler → Bool
has_timer s = elim (s.timer) [ none ↦ false | some delay ↦ true ]

abbrev first_time : Scheduler → ℕ → Option ℕ
first_time s now = elim (s.queued_reasons) [ [] ↦ some now | _ ∷ _ ↦ s.first_queued_at ]

unfoldable pub request_reconcile : Scheduler → String → ℕ → Scheduler
request_reconcile s reason now =
    let next = record s {
      first_queued_at = first_time s now;
      queued_reasons = s.queued_reasons ++ reason ∷ [];
      requested = s.requested ++ reason ∷ [];
    } in
    if is_running s || has_timer s then next else record next { timer = some debounce_ms }

-- `flush` up to its wait.
unfoldable pub start_flush : TextMethods → (ℕ → String) → Scheduler → ℕ → Scheduler
unfolding summarize_reasons
start_flush t show s now = elim (s.running) [
  | some flush ↦ s
  | none ↦ elim (s.queued_reasons) [
    | [] ↦ s
    | reason ∷ reasons ↦ record s {
      running = some (record {
        reason = summarize_reasons t show s.queued_reasons;
        queued_count = length s.queued_reasons;
        queued_at = s.first_queued_at;
        started_at = now;
      });
      first_queued_at = none;
      queued_reasons = [];
      served = s.served ++ s.queued_reasons;
    }
  ]
]

unfoldable pub fire : TextMethods → (ℕ → String) → Scheduler → ℕ → Scheduler
unfolding start_flush
fire t show s now = elim (s.timer) [
  | none ↦ s
  | some delay ↦ start_flush t show (record s { timer = none }) now
]

abbrev wait_of : Flush → ℕ
wait_of flush = elim (flush.queued_at) [ none ↦ 0 | some queued_at ↦ flush.started_at - queued_at ]

abbrev pub profile_of : Scheduler → Flush → ℕ → FlushProfile
profile_of s flush now = record {
  reason = flush.reason;
  queued_count = flush.queued_count;
  queued_while_running = length s.queued_reasons;
  wait_ms = wait_of flush;
  duration_ms = now - flush.started_at;
  queued_after = length s.queued_reasons;
}

-- The `finally` of `flush`, which runs whether the reconcile succeeded or not.
unfoldable pub finish_flush : Scheduler → ℕ → Scheduler
finish_flush s now = elim (s.running) [
  | none ↦ s
  | some flush ↦
      let next = record s {
        running = none;
        profiles = s.profiles ++ profile_of s flush now ∷ [];
      } in
      elim (s.queued_reasons) [
        | [] ↦ next
        | reason ∷ reasons ↦
            if has_timer s then next else record next { timer = some backlog_debounce_ms }
      ]
]

unfoldable pub step : TextMethods → (ℕ → String) → Scheduler → Event → Scheduler
unfolding request_reconcile fire finish_flush
step t show s (request reason now) = request_reconcile s reason now
step t show s (timer_fires now) = fire t show s now
step t show s (reconcile_settles now) = finish_flush s now

unfoldable pub run : TextMethods → (ℕ → String) → Scheduler → List Event → Scheduler
unfolding step
run t show s [] = s
run t show s (e ∷ es) = run t show (step t show s e) es
