-- ===== src/Bus/Run.antt =====
-- Runs of the bus of runtime/eventBus.ts, as a subscriber sees them.
use wosm.Base.{
  ℕ, Bool, List, [], ◌∷◌, ◌++◌, some, ◌≡◌, refl, sym, ap, ◌∙◌, inl, inr, append_assoc, append-nil,
  subst, filter, filter-append,
}
use wosm.Base.Platform.{Platform}
use wosm.Contracts.Events.{WosmEvent}
use wosm.Bus.{
  event_matches_filter, Subscriber, offer, next, resume, return_from, BusStep, publish, subscribe,
  ask, resumed, returned, bus_step, bus_run, at_place,
}
use wosm.Bus.Received.{
  received, IsTidy, Follows, offer-Follows, next-Follows, resume-Follows, return_from-Follows,
  published, nth, nth-map, nth-append, nth-at_place,
}

module _ (p : Platform) where
  stays-Follows : (s : Subscriber) → IsTidy s → Follows p s [] s
  stays-Follows s tidy = (refl, tidy, λ h. (h, sym (append-nil (received s))))

  trans-Follows :
      (s t u : Subscriber) (es fs : List WosmEvent)
      → Follows p s es t
      → Follows p t fs u
      → Follows p s (es ++ fs) u
  trans-Follows s t u es fs first second = (
    second.0 ∙ first.0,
    second.1,
    λ h.
        let late = second.2 h in
        let early = first.2 late.0 in
        let wanted : WosmEvent → Bool = λ e. event_matches_filter p e s.filter in
        (
          early.0,
          late.1
              ∙ ap (λ g. received t ++ filter (λ e. event_matches_filter p e g) fs) first.0
              ∙ ap (λ es. es ++ filter wanted fs) early.1
              ∙ append_assoc (received s) (filter wanted es) (filter wanted fs)
              ∙ ap (λ es. received s ++ es) (sym (filter-append wanted es fs)),
        ),
  )

  abbrev Reaches : ℕ → Subscriber → List WosmEvent → List Subscriber → Type 0
  Reaches n s events bus = (t : Subscriber) × (nth n bus ≡ some t) × Follows p s events t

  place-Reaches :
      (f : Subscriber → Subscriber) (bus : List Subscriber) (m n : ℕ) (s : Subscriber)
      → nth n bus ≡ some s
      → IsTidy s
      → Follows p s [] (f s)
      → Reaches n s [] (at_place m f bus)
  place-Reaches f bus m n s here tidy changed = elim (nth-at_place f bus m n s here) [
    | inl other ↦ (s, other, stays-Follows s tidy)
    | inr own ↦ (f s, own, changed)
  ]

  step-Reaches :
      (bus : List Subscriber) (step : BusStep) (n : ℕ) (s : Subscriber)
      → nth n bus ≡ some s
      → IsTidy s
      → Reaches n s (published (step ∷ [])) (bus_step p bus step)
  unfolding bus_step
  step-Reaches bus (publish event) n s here tidy =
      (offer p event s, nth-map (offer p event) bus n s here, offer-Follows p s event tidy)
  step-Reaches bus (subscribe g) n s here tidy =
      (s, nth-append bus _ n s here, stays-Follows s tidy)
  step-Reaches bus (ask m) n s here tidy =
      place-Reaches next bus m n s here tidy (next-Follows p s tidy)
  step-Reaches bus (resumed m) n s here tidy =
      place-Reaches resume bus m n s here tidy (resume-Follows p s tidy)
  step-Reaches bus (returned m) n s here tidy =
      place-Reaches return_from bus m n s here tidy (return_from-Follows p s tidy)

  published_split :
      (step : BusStep) (steps : List BusStep)
      → published (step ∷ []) ++ published steps ≡ published (step ∷ steps)
  published_split (publish event) steps = refl
  published_split (subscribe g) steps = refl
  published_split (ask n) steps = refl
  published_split (resumed n) steps = refl
  published_split (returned n) steps = refl

  -- After any steps of the bus a subscriber that has not returned was answered, has taken or has in its
  -- queue what it had before, and behind it the published events that match its filter, each once and
  -- in the order in which they were published.
  pub bus_run-Follows :
      (steps : List BusStep) (bus : List Subscriber) (n : ℕ) (s : Subscriber)
      → nth n bus ≡ some s
      → IsTidy s
      → (t : Subscriber) × (nth n (bus_run p bus steps) ≡ some t) × Follows p s (published steps) t
  unfolding bus_run
  bus_run-Follows [] bus n s here tidy = (s, here, stays-Follows s tidy)
  bus_run-Follows (step ∷ steps) bus n s here tidy =
      let one = step-Reaches bus step n s here tidy in
      let rest = bus_run-Follows steps (bus_step p bus step) n (one.0) one.1 (one.2.1) in
      (
        rest.0,
        rest.1,
        subst (λ es. Follows p s es (rest.0)) (published_split step steps)
            (trans-Follows s (one.0) (rest.0) (published (step ∷ [])) (published steps) one.2
              rest.2),
      )
