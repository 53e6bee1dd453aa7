-- ===== src/Delivery/Outcome.antt =====
-- deliveryPolicy.ts: what becomes of an event.
use wosm.Base.{
  ℕ, zero, suc, ◌≤◌, Bool, List, [], ◌∷◌, ◌++◌, Option, some, Option-cases, Bool-cases, subst, inl,
  inr, ◌⊎◌, ◌≡◌, refl, arith,
}
use wosm.Contracts.Status.{SafeError}
use wosm.Delivery.{
  Answer, returned, rejected, ProviderDeliveryAttempt, Surroundings, Action, deliver, spooled,
  AutoStartLock, StartResult, start_ok, start_failed, acquire_attempts, acquire_auto_start_lock,
  wait_for_contended_auto_start, start_under, maybe_start_observer, recorded, spool, or_spool,
  after_retry, after_start, after_first, deliver_provider_hook_with_spooling,
}
use wosm.Delivery.Log.{spools, deliveries, spools-append, counts-append, start_lem}

module _ {R : Type 0} where
  -- The call that an error comes from: one of those whose errors the code does not catch.
  pub data ComesFrom (s : Surroundings R) (error : SafeError) : Type 0 where
    a_delivery :
        (s.first_delivery ≡ rejected error) ⊎ (s.retry_delivery ≡ rejected error)
        → ComesFrom s error
    the_spool :
        (cause : Option SafeError) → s.spool_receipt cause ≡ rejected error → ComesFrom s error
    the_recorder :
        (receipt : R) → recorded s (returned receipt) ≡ rejected error → ComesFrom s error
    the_removal : (attempt : ℕ) → s.removal_error attempt ≡ some error → ComesFrom s error
    the_start : s.started ≡ rejected error → ComesFrom s error
    the_release : s.release_error ≡ some error → ComesFrom s error

  attempt_error :
      (left attempt : ℕ) (s : Surroundings R) (error : SafeError)
      → (acquire_attempts (suc left) attempt s).0 ≡ rejected error
      → (s.removal_error attempt ≡ some error)
        ⊎ ((acquire_attempts left (suc attempt) s).0 ≡ rejected error)
  unfolding acquire_attempts
  attempt_error left attempt s error h = ground arith

  attempts-ComesFrom :
      (left attempt : ℕ) (s : Surroundings R) (error : SafeError)
      → (acquire_attempts left attempt s).0 ≡ rejected error
      → ComesFrom s error
  unfolding acquire_attempts
  attempts-ComesFrom zero attempt s error h = absurd (ground arith)
  attempts-ComesFrom (suc left) attempt s error h = elim (attempt_error left attempt s error h) [
    | inl fails ↦ the_removal attempt fails
    | inr later ↦ attempts-ComesFrom left (suc attempt) s error later
  ]

  lock-ComesFrom :
      (s : Surroundings R) (error : SafeError)
      → (acquire_auto_start_lock s).0 ≡ rejected error
      → ComesFrom s error
  unfolding acquire_auto_start_lock
  lock-ComesFrom s error h = attempts-ComesFrom 2 0 s error (ground arith)

  start_error_cases :
      (s : Surroundings R) (lock : Answer AutoStartLock) (error : SafeError)
      → (start_under s lock).0 ≡ rejected error
      → (lock ≡ rejected error) ⊎ (s.started ≡ rejected error) ⊎ (s.release_error ≡ some error)
  unfolding wait_for_contended_auto_start
  start_error_cases s lock error h = ground arith

  start-ComesFrom :
      (s : Surroundings R) (error : SafeError)
      → (maybe_start_observer s).0 ≡ rejected error
      → ComesFrom s error
  unfolding maybe_start_observer
  start-ComesFrom s error h =
      elim (start_error_cases s (acquire_auto_start_lock s).0 error (ground arith)) [
        | inl e ↦ lock-ComesFrom s error e
        | inr (inl e) ↦ the_start e
        | inr (inr e) ↦ the_release e
      ]

  -- A receipt is one that a delivery brought, and nothing is spooled, or the spool's for the one event
  -- that is spooled. An error is one that the code does not catch.
  abbrev pub Settles : Surroundings R → Answer R → List (Option SafeError) → Type 0
  Settles s (rejected error) log = ComesFrom s error
  Settles s (returned answer) log =
      ((attempt : ProviderDeliveryAttempt R) × (receipt : R) × ((s.first_delivery
            ≡ returned attempt)
          ⊎ (s.retry_delivery ≡ returned attempt))
        × (attempt.receipt ≡ some receipt)
        × (recorded s (returned receipt) ≡ returned answer)
        × (log ≡ []))
      ⊎ ((cause : Option SafeError) × (receipt : R) × (s.spool_receipt cause ≡ returned receipt)
          × (recorded s (returned receipt) ≡ returned answer)
          × (log ≡ cause ∷ []))

  abbrev pub Ends : Surroundings R → Answer R × List Action → Type 0
  Ends s result = (deliveries result.1 ≤ 2) × Settles s result.0 (spools result.1)

  answered-Settles :
      (s : Surroundings R) (attempt : ProviderDeliveryAttempt R) (receipt : R) (answer : Answer R)
      → (s.first_delivery ≡ returned attempt) ⊎ (s.retry_delivery ≡ returned attempt)
      → attempt.receipt ≡ some receipt
      → recorded s (returned receipt) ≡ answer
      → Settles s answer []
  answered-Settles s attempt receipt (returned a) from has e =
      inl (attempt, receipt, from, has, e, refl)
  answered-Settles s attempt receipt (rejected error) from has e = the_recorder receipt e

  spooled-Settles :
      (s : Surroundings R) (cause : Option SafeError) (kept answer : Answer R)
      → s.spool_receipt cause ≡ kept
      → recorded s kept ≡ answer
      → Settles s answer (cause ∷ [])
  spooled-Settles s cause (returned receipt) (returned a) has e = inr (cause, receipt, has, e, refl)
  spooled-Settles s cause (returned receipt) (rejected error) has e = the_recorder receipt e
  spooled-Settles s cause (rejected error) answer has e =
      subst (λ a. Settles s a (cause ∷ [])) e (the_spool cause has)

  spool-Ends :
      (s : Surroundings R) (cause : Option SafeError) (log : List Action)
      → spools log ≡ []
      → deliveries log ≤ 2
      → Ends s (spool s cause log)
  spool-Ends s cause log quiet few = (
    ground (arith, counts-append log (spooled cause ∷ [])),
    rw (spools-append log (spooled cause ∷ []), quiet)
        (spooled-Settles s cause (s.spool_receipt cause) (recorded s (s.spool_receipt cause)) refl
          refl),
  )

  or_spool-Ends :
      (s : Surroundings R) (attempt : ProviderDeliveryAttempt R) (log : List Action)
      → (s.first_delivery ≡ returned attempt) ⊎ (s.retry_delivery ≡ returned attempt)
      → spools log ≡ []
      → deliveries log ≤ 2
      → Ends s (or_spool s attempt log)
  or_spool-Ends s attempt log from quiet few = elim (Option-cases attempt.receipt) [
    | inr (receipt, h) ↦ rw (h, quiet) (few, answered-Settles s attempt receipt _ from h refl)
    | inl missed ↦ rw missed (spool-Ends s attempt.error log quiet few)
  ]

  after_retry-Ends :
      (s : Surroundings R) (answer : Answer (ProviderDeliveryAttempt R)) (log : List Action)
      → s.retry_delivery ≡ answer
      → spools log ≡ []
      → deliveries log ≤ 2
      → Ends s (after_retry s answer log)
  after_retry-Ends s (returned attempt) log h quiet few =
      or_spool-Ends s attempt log (inr h) quiet few
  after_retry-Ends s (rejected error) log h quiet few = (few, a_delivery (inr h))

  after_start-Ends :
      (s : Surroundings R) (start : Answer StartResult) (log : List Action)
      → ((error : SafeError) → start ≡ rejected error → ComesFrom s error)
      → spools log ≡ []
      → deliveries log ≤ 1
      → Ends s (after_start s start log)
  after_start-Ends s (returned start_ok) log from quiet few =
      after_retry-Ends s s.retry_delivery (log ++ deliver ∷ []) refl
        (ground (arith, spools-append log (deliver ∷ [])))
        (ground (arith, counts-append log (deliver ∷ [])))
  after_start-Ends s (returned (start_failed error)) log from quiet few =
      spool-Ends s (some error) log quiet (omega arith)
  after_start-Ends s (rejected error) log from quiet few = (omega arith, from error refl)

  after_first-Ends :
      (s : Surroundings R) (auto_start : Bool) (answer : Answer (ProviderDeliveryAttempt R))
      → s.first_delivery ≡ answer
      → Ends s (after_first s auto_start answer (maybe_start_observer s))
  after_first-Ends s auto_start (rejected error) h = (omega arith, a_delivery (inl h))
  after_first-Ends s auto_start (returned attempt) h = elim (Option-cases attempt.receipt) [
    | inr (receipt, has) ↦
        rw has (omega arith, answered-Settles s attempt receipt _ (inl h) has refl)
    | inl missed ↦ elim (Bool-cases auto_start) [
      | inl auto ↦
          let start = maybe_start_observer s in
          let logged = start_lem s in
          rw (missed, auto)
            (after_start-Ends s start.0 (deliver ∷ start.1) (start-ComesFrom s)
              (ground (arith, logged)) (ground (arith, logged)))
      | inr never ↦
          let same : after_first s auto_start (returned attempt) (maybe_start_observer s)
              ≡ or_spool s attempt (deliver ∷ []) =
            ground (arith, missed, never) in
          rw same (or_spool-Ends s attempt (deliver ∷ []) (inl h) refl (omega arith))
    ]
  ]

  -- The event is offered to the observer twice at most. If the delivery returns a receipt, then it is
  -- that of a delivery, and nothing was spooled, or it is the spool's, and the event was spooled once,
  -- as the recorder passes it on. If it rejects, then the error is that of a delivery, of the spool,
  -- of the recorder, of removing a stale lock or the own one, or of starting the observer.
  pub delivery-Ends :
      (s : Surroundings R) (auto_start : Bool)
      → Ends s (deliver_provider_hook_with_spooling s auto_start)
  unfolding deliver_provider_hook_with_spooling
  delivery-Ends s auto_start = after_first-Ends s auto_start s.first_delivery refl
