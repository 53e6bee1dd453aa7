-- ===== src/Scheduler/Tests.antt =====
-- Two hooks' requests, of which the second arrives while the first is served.
use wosm.Base.{ℕ, String, false, List, [], ◌∷◌, none, ◌==◌, string_eq, ◌≡◌, refl}
use wosm.Base.Platform.{TextMethods}
use wosm.Scheduler.{
  Event, request, timer_fires, reconcile_settles, new_scheduler, request_reconcile, fire,
  start_flush, step, run, is_running, summarize_reasons,
}
use wosm.Scheduler.Service.{requests_served}

abbrev hooks : TextMethods
hooks = record {
  trim = λ s. s;
  without_trailing_slashes = λ s. s;
  slice = λ s n. s;
  starts_with = λ s prefix. prefix == "hook:";
  includes = λ s part. false;
  to_lower_case = λ s. s;
}

abbrev digits : ℕ → String
digits n = "n"

abbrev history : List Event
history = request "hook:a" 0 ∷ request "hook:b" 10 ∷ timer_fires 100 ∷ request "hook:c" 150 ∷ []

in_flight :
    let s = run hooks digits new_scheduler history in
    (s.served ≡ "hook:a" ∷ "hook:b" ∷ []) × (s.queued_reasons ≡ "hook:c" ∷ []) × (s.timer ≡ none)
unfolding run step new_scheduler request_reconcile fire start_flush
in_flight = (refl, refl, refl)

batched : summarize_reasons hooks digits ("hook:a" ∷ "hook:b" ∷ []) ≡ "hook:batch(n)"
unfolding summarize_reasons
batched = refl

requests_served_example :
    let s = run hooks digits new_scheduler history in
    let after =
      run hooks digits s (reconcile_settles 200 ∷ timer_fires 1200 ∷ reconcile_settles 1300 ∷ []) in
    (after.served ≡ s.requested) × (after.queued_reasons ≡ []) × (is_running after ≡ false)
requests_served_example = requests_served hooks digits history 200 1200 1300
