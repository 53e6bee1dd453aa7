-- ===== src/Delivery/Tests.antt =====
-- A hook finds no observer, clears a stale lock and starts one, which answers the second time.
use wosm.Base.{ℕ, zero, suc, true, [], ◌∷◌, none, some, ◌≡◌, refl}
use wosm.Delivery.{
  returned, Surroundings, made, already_exists, is_running, deliver, stale_removed, lock_made,
  observer_started, lock_released, MakeLock, deliver_provider_hook_with_spooling,
  maybe_start_observer, acquire_auto_start_lock, acquire_attempts,
}
use wosm.Delivery.Outcome.{Ends, delivery-Ends}

abbrev second_time : ℕ → MakeLock
second_time zero = already_exists
second_time (suc n) = made

abbrev late_observer : Surroundings ℕ
late_observer = record {
  first_delivery = returned (record { receipt = none; error = none });
  retry_delivery = returned (record { receipt = some 7; error = none });
  parent_error = none;
  make_lock = second_time;
  is_stale = λ attempt. true;
  removal_error = λ attempt. none;
  started = returned is_running;
  release_error = none;
  health_error = none;
  spool_receipt = λ error. returned 0;
  record_receipt = none;
}

delivered_late : deliver_provider_hook_with_spooling late_observer true ≡ (
  returned 7,
  deliver ∷ stale_removed ∷ lock_made ∷ observer_started ∷ lock_released ∷ deliver ∷ [],
)
unfolding deliver_provider_hook_with_spooling maybe_start_observer acquire_auto_start_lock
    acquire_attempts
delivered_late = refl

delivery-Ends_example : Ends late_observer (deliver_provider_hook_with_spooling late_observer true)
delivery-Ends_example = delivery-Ends late_observer true
