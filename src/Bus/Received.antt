-- ===== src/Bus/Received.antt =====
-- What a subscriber of runtime/eventBus.ts receives.
use wosm.Base.{
  ℕ, zero, suc, true, List, [], ◌∷◌, ◌++◌, map, Option, none, some, ◌≡◌, refl, sym, ap, ◌∙◌, ◌⊎◌,
  inl, inr, arith, Bool-cases, append_assoc, append-nil, subst, filter, if◌then◌else◌,
}
use wosm.Base.Platform.{Platform}
use wosm.Contracts.Events.{WosmEvent}
use wosm.Bus.{
  event_matches_filter, Subscriber, offer, offer_to, next, take_from, resume, answer_first,
  return_from, BusStep, publish, at_place,
}

abbrev pub somes : List (Option WosmEvent) → List WosmEvent
somes [] = []
somes (none ∷ answers) = somes answers
somes (some event ∷ answers) = event ∷ somes answers

-- What it was answered, has taken and has in its queue.
abbrev pub received : Subscriber → List WosmEvent
received s = somes s.answers ++ s.taken ++ s.queue

-- A take waits for an empty queue only.
abbrev pub IsTidy : Subscriber → Type 0
IsTidy s = (s.waiting ≡ 0) ⊎ (s.queue ≡ [])

abbrev pub Follows : Platform → Subscriber → List WosmEvent → Subscriber → Type 0
Follows p s events t =
    (t.filter ≡ s.filter)
    × IsTidy t
    × (t.active ≡ true
        → (s.active ≡ true)
          × (received t ≡ received s ++ filter (λ e. event_matches_filter p e s.filter) events))

somes-append :
    (answers : List (Option WosmEvent)) (event : WosmEvent)
    → somes (answers ++ some event ∷ []) ≡ somes answers ++ event ∷ []
somes-append [] event = refl
somes-append (none ∷ answers) event = somes-append answers event
somes-append (some e ∷ answers) event = ap (λ es. e ∷ es) (somes-append answers event)

behind_taken :
    (answered taken : List WosmEvent) (event : WosmEvent)
    → answered ++ (taken ++ event ∷ []) ++ [] ≡ answered ++ taken ++ [] ++ event ∷ []
behind_taken answered taken event =
    append-nil (answered ++ (taken ++ event ∷ []))
    ∙ sym (append_assoc answered taken (event ∷ []))
    ∙ ap (λ es. es ++ event ∷ []) (sym (append-nil (answered ++ taken)))

taken_over :
    (answered taken queue : List WosmEvent) (event : WosmEvent)
    → answered ++ (taken ++ event ∷ []) ++ queue ≡ answered ++ taken ++ (event ∷ queue) ++ []
taken_over answered taken queue event =
    ap (λ es. es ++ queue) (sym (append_assoc answered taken (event ∷ [])))
    ∙ append_assoc (answered ++ taken) (event ∷ []) queue
    ∙ sym (append-nil (answered ++ taken ++ (event ∷ queue)))

module _ (p : Platform) where
  offer_to-Follows :
      (waiting : ℕ) (s : Subscriber) (event : WosmEvent)
      → s.waiting ≡ waiting
      → IsTidy s
      → event_matches_filter p event s.filter ≡ true
      → Follows p s (event ∷ []) (offer_to waiting s event)
  offer_to-Follows zero s event same tidy hit = rw hit (
    refl,
    inl same,
    λ h. (h, sym (append_assoc (somes s.answers ++ s.taken) s.queue (event ∷ []))),
  )
  offer_to-Follows (suc waiting) s event same (inl idle) hit = ground (arith, same, idle)
  offer_to-Follows (suc waiting) s event same (inr empty) hit = rw hit (
    refl,
    inr empty,
    λ h. (
      h,
      subst
          (λ q.
            somes s.answers ++ (s.taken ++ event ∷ []) ++ q
            ≡ somes s.answers ++ s.taken ++ q ++ event ∷ [])
          (sym empty) (behind_taken (somes s.answers) s.taken event),
    ),
  )

  pub offer-Follows :
      (s : Subscriber) (event : WosmEvent) → IsTidy s → Follows p s (event ∷ []) (offer p event s)
  unfolding offer
  offer-Follows s event tidy = elim (Bool-cases s.active) [
    | inr off ↦ simp (offer, off) (refl, tidy, λ h. ground (arith, h, off))
    | inl on ↦ elim (Bool-cases (event_matches_filter p event s.filter)) [
      | inl hit ↦
          let same : offer p event s ≡ offer_to s.waiting s event = simp (offer, on, hit) refl in
          subst (Follows p s (event ∷ [])) (sym same)
            (offer_to-Follows s.waiting s event refl tidy hit)
      | inr miss ↦ simp (offer, on, miss) (refl, tidy, λ h. (h, sym (append-nil (received s))))
    ]
  ]

  take_from-Follows :
      (queue : List WosmEvent) (s : Subscriber)
      → s.queue ≡ queue
      → IsTidy s
      → Follows p s [] (take_from queue s)
  take_from-Follows [] s same tidy = (refl, inr same, λ h. (h, sym (append-nil (received s))))
  take_from-Follows (event ∷ queue) s same (inl idle) = (
    refl,
    inl idle,
    λ h. (
      h,
      subst
          (λ q.
            somes s.answers ++ (s.taken ++ event ∷ []) ++ queue
            ≡ somes s.answers ++ s.taken ++ q ++ [])
          (sym same) (taken_over (somes s.answers) s.taken queue event),
    ),
  )
  take_from-Follows (event ∷ queue) s same (inr empty) = ground (arith, same, empty)

  pub next-Follows : (s : Subscriber) → IsTidy s → Follows p s [] (next s)
  unfolding next
  next-Follows s tidy = elim (Bool-cases s.active) [
    | inl on ↦
        let same : next s ≡ take_from s.queue s = simp (next, on) refl in
        subst (Follows p s []) (sym same) (take_from-Follows s.queue s refl tidy)
    | inr off ↦ simp (next, off) (refl, tidy, λ h. ground (arith, h, off))
  ]

  answer_first-Follows :
      (taken : List WosmEvent) (s : Subscriber)
      → s.taken ≡ taken
      → IsTidy s
      → Follows p s [] (answer_first taken s)
  answer_first-Follows [] s same tidy = (refl, tidy, λ h. (h, sym (append-nil (received s))))
  answer_first-Follows (event ∷ taken) s same tidy =
      let kept : s.active ≡ true → (if s.active then some event else none) ≡ some event =
        λ h. rw h refl in
      (
        refl,
        tidy,
        λ h. (
          h,
          ap (λ a. somes (s.answers ++ a ∷ []) ++ taken ++ s.queue) (kept h)
              ∙ ap (λ es. es ++ taken ++ s.queue) (somes-append s.answers event)
              ∙ ap (λ es. es ++ s.queue) (append_assoc (somes s.answers) (event ∷ []) taken)
              ∙ ap (λ t. somes s.answers ++ t ++ s.queue) (sym same)
              ∙ sym (append-nil (received s)),
        ),
      )

  pub resume-Follows : (s : Subscriber) → IsTidy s → Follows p s [] (resume s)
  unfolding resume
  resume-Follows s tidy = answer_first-Follows s.taken s refl tidy

  pub return_from-Follows : (s : Subscriber) → IsTidy s → Follows p s [] (return_from s)
  unfolding return_from
  return_from-Follows s tidy = (refl, inl refl, λ h. ground (arith, h))

-- The events that steps publish.
abbrev pub published : List BusStep → List WosmEvent
published [] = []
published (publish event ∷ steps) = event ∷ published steps
published (_ ∷ steps) = published steps

abbrev pub nth : ℕ → List Subscriber → Option Subscriber
nth n [] = none
nth zero (s ∷ bus) = some s
nth (suc n) (s ∷ bus) = nth n bus

pub nth-map :
    (f : Subscriber → Subscriber) (bus : List Subscriber) (n : ℕ) (s : Subscriber)
    → nth n bus ≡ some s
    → nth n (map f bus) ≡ some (f s)
nth-map f [] n s h = cc
nth-map f (x ∷ bus) zero s h = cc
nth-map f (x ∷ bus) (suc n) s h = nth-map f bus n s h

pub nth-append :
    (bus more : List Subscriber) (n : ℕ) (s : Subscriber)
    → nth n bus ≡ some s
    → nth n (bus ++ more) ≡ some s
nth-append [] more n s h = cc
nth-append (x ∷ bus) more zero s h = h
nth-append (x ∷ bus) more (suc n) s h = nth-append bus more n s h

-- A change at a place is of the subscriber there, and leaves the others.
pub nth-at_place :
    (f : Subscriber → Subscriber) (bus : List Subscriber) (m n : ℕ) (s : Subscriber)
    → nth n bus ≡ some s
    → (nth n (at_place m f bus) ≡ some s) ⊎ (nth n (at_place m f bus) ≡ some (f s))
nth-at_place f [] m n s h = inl (cc)
nth-at_place f (x ∷ bus) zero zero s h = inr cc
nth-at_place f (x ∷ bus) zero (suc n) s h = inl h
nth-at_place f (x ∷ bus) (suc m) zero s h = inl h
nth-at_place f (x ∷ bus) (suc m) (suc n) s h = nth-at_place f bus m n s h
