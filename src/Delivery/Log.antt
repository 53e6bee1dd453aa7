-- ===== src/Delivery/Log.antt =====
-- deliveryPolicy.ts: the calls of a delivery, and its lock.
use wosm.Base.{ℕ, zero, suc, ◌+◌, ◌≤◌, Bool, List, [], ◌∷◌, ◌++◌, Option, ◌≡◌, refl, arith}
use wosm.Contracts.Status.{SafeError}
use wosm.Delivery.{
  Answer, returned, rejected, Surroundings, Action, deliver, lock_made, observer_started,
  lock_released, spooled, AutoStartLock, acquired, contended, failed, acquire_attempts,
  acquire_auto_start_lock, wait_for_contended_auto_start, start_under, maybe_start_observer,
  deliver_provider_hook_with_spooling,
}

-- What a log says: the errors that were spooled, and the numbers of three actions.
abbrev pub spools : List Action → List (Option SafeError)
spools [] = []
spools (spooled error ∷ log) = error ∷ spools log
spools (_ ∷ log) = spools log

abbrev pub deliveries : List Action → ℕ
deliveries [] = 0
deliveries (deliver ∷ log) = suc (deliveries log)
deliveries (_ ∷ log) = deliveries log

abbrev pub locks : List Action → ℕ
locks [] = 0
locks (lock_made ∷ log) = suc (locks log)
locks (_ ∷ log) = locks log

abbrev pub releases : List Action → ℕ
releases [] = 0
releases (lock_released ∷ log) = suc (releases log)
releases (_ ∷ log) = releases log

abbrev pub starts : List Action → ℕ
starts [] = 0
starts (observer_started ∷ log) = suc (starts log)
starts (_ ∷ log) = starts log

pub spools-append : (a b : List Action) → spools (a ++ b) ≡ spools a ++ spools b
spools-append [] b = refl
spools-append (x ∷ a) b = ground (arith, spools-append a b)

pub counts-append :
    (a b : List Action)
    → (deliveries (a ++ b) ≡ deliveries a + deliveries b)
      × (locks (a ++ b) ≡ locks a + locks b)
      × (releases (a ++ b) ≡ releases a + releases b)
      × (starts (a ++ b) ≡ starts a + starts b)
counts-append [] b = ground arith
counts-append (x ∷ a) b = ground (arith, counts-append a b)

abbrev holds : Answer AutoStartLock → ℕ
holds (returned acquired) = 1
holds _ = 0

module _ {R : Type 0} where
  acquire_lem :
      (left attempt : ℕ) (s : Surroundings R)
      → let lock = acquire_attempts left attempt s in
        (locks lock.1 ≡ holds lock.0)
        × (releases lock.1 ≡ 0)
        × (starts lock.1 ≡ 0)
        × (deliveries lock.1 ≡ 0)
        × (spools lock.1 ≡ [])
  unfolding acquire_attempts
  acquire_lem zero attempt s = ground arith
  acquire_lem (suc left) attempt s = ground (arith, acquire_lem left (suc attempt) s)

  lock_lem :
      (s : Surroundings R)
      → let lock = acquire_auto_start_lock s in
        (locks lock.1 ≡ holds lock.0)
        × (releases lock.1 ≡ 0)
        × (starts lock.1 ≡ 0)
        × (deliveries lock.1 ≡ 0)
        × (spools lock.1 ≡ [])
  unfolding acquire_auto_start_lock
  lock_lem s = ground (arith, acquire_lem 2 0 s)

  under_lem :
      (s : Surroundings R) (lock : Answer AutoStartLock)
      → let start = start_under s lock in
        (releases start.1 ≡ holds lock)
        × (starts start.1 ≡ holds lock)
        × (locks start.1 ≡ 0)
        × (deliveries start.1 ≡ 0)
        × (spools start.1 ≡ [])
  unfolding wait_for_contended_auto_start
  under_lem s (returned acquired) = ground arith
  under_lem s (returned contended) = ground arith
  under_lem s (returned (failed error)) = ground arith
  under_lem s (rejected error) = ground arith

  pub start_lem :
      (s : Surroundings R)
      → let start = maybe_start_observer s in
        (releases start.1 ≡ locks start.1)
        × (starts start.1 ≡ locks start.1)
        × (locks start.1 ≤ 1)
        × (deliveries start.1 ≡ 0)
        × (spools start.1 ≡ [])
  unfolding maybe_start_observer
  start_lem s =
      let lock = acquire_auto_start_lock s in
      let start = start_under s lock.0 in
      ground (
        arith,
        lock_lem s,
        under_lem s lock.0,
        counts-append lock.1 start.1,
        spools-append lock.1 start.1,
      )

  -- The lock's directory is made at most once, is removed again whatever the start came to, and the
  -- observer is started under it alone.
  pub lock_released_lem :
      (s : Surroundings R) (auto_start : Bool)
      → let log = (deliver_provider_hook_with_spooling s auto_start).1 in
        (releases log ≡ locks log) × (starts log ≡ locks log) × (locks log ≤ 1)
  unfolding deliver_provider_hook_with_spooling
  lock_released_lem s auto_start =
      let start = maybe_start_observer s in
      ground (arith, start_lem s, counts-append start.1 (deliver ∷ []))
