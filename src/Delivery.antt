-- ===== src/Delivery.antt =====
-- packages/provider-hooks/src/deliveryPolicy.ts: a hook's event is delivered to the observer, which is
-- started for it if need be by one hook at a time, or else spooled. What the observer, the file system
-- and the observer's start come to is `Surroundings`; each function returns its answer, or the error
-- that it rejects with, and what it called, in order. Errors stand as safeErrorFromUnknown makes them.
pub mod Log
pub mod Outcome
mod Tests
use wosm.Base.{
  ℕ, zero, suc, Bool, true, false, List, [], ◌∷◌, ◌++◌, Option, none, some, if◌then◌else◌,
}
use wosm.Contracts.Status.{SafeError, safe_error}

-- What an asynchronous function comes to.
pub data Answer (A : Type 0) : Type 0 where
  returned : A → Answer A
  rejected : SafeError → Answer A

pub record ProviderDeliveryAttempt (R : Type 0) : Type 0 where
  pub receipt : Option R
  pub error : Option SafeError

-- What `mkdir` of the lock's directory comes to.
pub data MakeLock : Type 0 where
  made : MakeLock
  already_exists : MakeLock
  refused : SafeError → MakeLock

pub data Started : Type 0 where
  is_running : Started
  not_running : Option SafeError → Started

pub record Surroundings (R : Type 0) : Type 0 where
  pub first_delivery : Answer (ProviderDeliveryAttempt R)
  pub retry_delivery : Answer (ProviderDeliveryAttempt R)
  pub parent_error : Option SafeError
  pub make_lock : ℕ → MakeLock
  pub is_stale : ℕ → Bool
  pub removal_error : ℕ → Option SafeError
  pub started : Answer Started
  pub release_error : Option SafeError
  pub health_error : Option SafeError
  pub spool_receipt : Option SafeError → Answer R
  pub record_receipt : Option (R → Answer R)

-- The calls, whether or not they fail.
pub data Action : Type 0 where
  deliver lock_made stale_removed observer_started lock_released health_awaited : Action
  spooled : Option SafeError → Action

pub data AutoStartLock : Type 0 where
  acquired contended : AutoStartLock
  failed : SafeError → AutoStartLock

pub data StartResult : Type 0 where
  start_ok : StartResult
  start_failed : SafeError → StartResult

abbrev pub start_error : SafeError
start_error =
    safe_error "ObserverStartupError" "OBSERVER_START_FAILED"
      "Observer could not be started for provider hook delivery." none

abbrev pub start_result : Answer Started → Answer StartResult
start_result (returned is_running) = returned start_ok
start_result (returned (not_running none)) = returned (start_failed start_error)
start_result (returned (not_running (some error))) = returned (start_failed error)
start_result (rejected error) = rejected error

-- `finally`: an error of its own goes before the answer.
abbrev pub finally : {A : Type 0} → Option SafeError → Answer A → Answer A
finally none answer = answer
finally (some error) answer = rejected error

module _ {R : Type 0} where
  -- The loop, with the attempts that are left.
  unfoldable pub acquire_attempts : ℕ → ℕ → Surroundings R → Answer AutoStartLock × List Action
  acquire_attempts zero attempt s = (returned contended, [])
  acquire_attempts (suc left) attempt s =
      let again = acquire_attempts left (suc attempt) s in
      elim (s.make_lock attempt) [
        | made ↦ (returned acquired, lock_made ∷ [])
        | refused error ↦ (returned (failed error), [])
        | already_exists ↦
            if s.is_stale attempt
            then elim (s.removal_error attempt) [
              | none ↦ (again.0, stale_removed ∷ again.1)
              | some error ↦ (rejected error, stale_removed ∷ [])
            ]
            else (returned contended, [])
      ]

  unfoldable pub acquire_auto_start_lock : Surroundings R → Answer AutoStartLock × List Action
  unfolding acquire_attempts
  acquire_auto_start_lock s = elim (s.parent_error) [
    | some error ↦ (returned (failed error), [])
    | none ↦ acquire_attempts 2 0 s
  ]

  unfoldable pub wait_for_contended_auto_start : Surroundings R → Answer StartResult × List Action
  wait_for_contended_auto_start s = elim (s.health_error) [
    | none ↦ (returned start_ok, health_awaited ∷ [])
    | some error ↦ (returned (start_failed error), health_awaited ∷ [])
  ]

  abbrev pub start_under : Surroundings R → Answer AutoStartLock → Answer StartResult × List Action
  start_under s (returned acquired) =
      (finally s.release_error (start_result s.started), observer_started ∷ lock_released ∷ [])
  start_under s (returned contended) = wait_for_contended_auto_start s
  start_under s (returned (failed error)) = (returned (start_failed error), [])
  start_under s (rejected error) = (rejected error, [])

  unfoldable pub maybe_start_observer : Surroundings R → Answer StartResult × List Action
  unfolding acquire_auto_start_lock wait_for_contended_auto_start
  maybe_start_observer s =
      let lock = acquire_auto_start_lock s in
      let start = start_under s lock.0 in (start.0, lock.1 ++ start.1)

  abbrev pub recorded : Surroundings R → Answer R → Answer R
  recorded s (rejected error) = rejected error
  recorded s (returned receipt) = elim (s.record_receipt) [
    | none ↦ returned receipt
    | some recorder ↦ recorder receipt
  ]

  abbrev pub spool : Surroundings R → Option SafeError → List Action → Answer R × List Action
  spool s error log = (recorded s (s.spool_receipt error), log ++ spooled error ∷ [])

  abbrev pub or_spool :
      Surroundings R → ProviderDeliveryAttempt R → List Action → Answer R × List Action
  or_spool s attempt log = elim (attempt.receipt) [
    | some receipt ↦ (recorded s (returned receipt), log)
    | none ↦ spool s attempt.error log
  ]

  abbrev pub after_retry :
      Surroundings R → Answer (ProviderDeliveryAttempt R) → List Action → Answer R × List Action
  after_retry s (returned attempt) log = or_spool s attempt log
  after_retry s (rejected error) log = (rejected error, log)

  abbrev pub after_start :
      Surroundings R → Answer StartResult → List Action → Answer R × List Action
  after_start s (returned start_ok) log = after_retry s s.retry_delivery (log ++ deliver ∷ [])
  after_start s (returned (start_failed error)) log = spool s (some error) log
  after_start s (rejected error) log = (rejected error, log)

  abbrev pub after_first :
      Surroundings R
      → Bool
      → Answer (ProviderDeliveryAttempt R)
      → Answer StartResult × List Action
      → Answer R × List Action
  after_first s auto_start (rejected error) start = (rejected error, deliver ∷ [])
  after_first s auto_start (returned attempt) start = elim (attempt.receipt) [
    | some receipt ↦ (recorded s (returned receipt), deliver ∷ [])
    | none ↦
        if auto_start
        then after_start s start.0 (deliver ∷ start.1)
        else or_spool s attempt (deliver ∷ [])
  ]

  unfoldable pub deliver_provider_hook_with_spooling :
      Surroundings R → Bool → Answer R × List Action
  unfolding maybe_start_observer
  deliver_provider_hook_with_spooling s auto_start =
      after_first s auto_start s.first_delivery (maybe_start_observer s)
