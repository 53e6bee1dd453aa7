-- ===== src/Overlays/Exits.antt =====
-- harnessEventStatus.ts: a run that has exited, and the events that are laid over it.
use wosm.Base.{
  ℕ, zero, suc, ◌≤◌, String, Bool, false, List, [], ◌∷◌, map, some, filter, get_elem?, ◌==◌,
  string_eq, option_eq, IsDistinct, contains, ◌≡◌, ◌⊎◌, inl, inr, refl, subst, arith, eq_iff,
  Option-cases, Bool-cases,
}
use wosm.Base.Platform.{Platform}
use wosm.Contracts.Status.{high, exited}
use wosm.Contracts.Runtime.{ObserverHarnessRun}
use wosm.Overlays.{
  HarnessEventObservation, PersistedProviderObservation, StatusOverlay, CorrelatedBy,
  by_harness_run_id, by_session_id, by_worktree_id, single_correlation, correlate_harness_event,
  should_preserve_live_status, candidate, run_observation_with_status, apply_status_overlay,
  apply_harness_event_status_overlays,
}
use wosm.Overlays.Latest.{IsOrder, Among, given, latest_overlay}

abbrev pub ids : List ObserverHarnessRun → List String
ids runs = map (λ run. run.run.id) runs

-- A run of the list.
abbrev pub In : ObserverHarnessRun → List ObserverHarnessRun → Type 0
In run runs = (i : ℕ) × (get_elem? runs i ≡ some run)

In-filter :
    (f : ObserverHarnessRun → Bool) (runs : List ObserverHarnessRun) (run : ObserverHarnessRun)
    (i : ℕ)
    → get_elem? (filter f runs) i ≡ some run
    → In run runs
In-filter f [] run i h = ground arith
In-filter f (x ∷ runs) run zero h = elim (Bool-cases (f x)) [
  | inl kept ↦ (zero, ground (arith, kept))
  | inr dropped ↦ let (j, at) = In-filter f runs run zero (ground (arith, dropped)) in (suc j, at)
]
In-filter f (x ∷ runs) run (suc i) h = elim (Bool-cases (f x)) [
  | inl kept ↦ let (j, at) = In-filter f runs run i (ground (arith, kept)) in (suc j, at)
  | inr dropped ↦
      let (j, at) = In-filter f runs run (suc i) (ground (arith, dropped)) in (suc j, at)
]

single-In :
    (f : ObserverHarnessRun → Bool) (runs : List ObserverHarnessRun) (by : CorrelatedBy)
    (run : ObserverHarnessRun) (found : CorrelatedBy)
    → single_correlation (filter f runs) by ≡ some (run, found)
    → get_elem? (filter f runs) 0 ≡ some run
unfolding single_correlation
single-In f runs by run found h = ground arith

single_correlated-In :
    (f g : ObserverHarnessRun → Bool) (runs : List ObserverHarnessRun) (by : CorrelatedBy)
    (run : ObserverHarnessRun) (found : CorrelatedBy)
    → single_correlation (filter f (filter g runs)) by ≡ some (run, found)
    → In run runs
single_correlated-In f g runs by run found h =
    let (j, at) = In-filter f (filter g runs) run 0 (single-In f (filter g runs) by run found h) in
    In-filter g runs run j at

correlated-In :
    (event : HarnessEventObservation) (runs : List ObserverHarnessRun) (run : ObserverHarnessRun)
    (found : CorrelatedBy)
    → correlate_harness_event event runs ≡ some (run, found)
    → In run runs
unfolding correlate_harness_event
correlated-In event runs run found h =
    let same_provider : ObserverHarnessRun → Bool = λ r. r.run.provider == event.provider in
    elim (Option-cases event.harness_run_id) [
      | inr (id, at) ↦
          single_correlated-In (λ r. r.run.id == id) same_provider runs by_harness_run_id run found
            (ground (arith, at))
      | inl no_run ↦ elim (Option-cases event.session_id) [
        | inr (id, at) ↦
            single_correlated-In (λ r. r.run.session_id == some id) same_provider runs by_session_id
              run found (ground (arith, no_run, at))
        | inl no_session ↦ elim (Option-cases event.worktree_id) [
          | inr (id, at) ↦
              single_correlated-In (λ r. r.run.worktree_id == some id) same_provider runs
                by_worktree_id run found (ground (arith, no_run, no_session, at))
          | inl nothing ↦ ground (arith, no_run, no_session, nothing)
        ]
      ]
    ]

absent :
    (runs : List ObserverHarnessRun) (run : ObserverHarnessRun) (k : String)
    → contains (ids runs) k ≡ false
    → (i : ℕ) → get_elem? runs i ≡ some run
    → (run.run.id == k) ≡ false
absent [] run k h i at = ground arith
absent (x ∷ runs) run k h zero at = ground arith
absent (x ∷ runs) run k h (suc i) at = absent runs run k (ground arith) i at

unique :
    (runs : List ObserverHarnessRun) (a b : ObserverHarnessRun) (i j : ℕ)
    → IsDistinct (ids runs)
    → get_elem? runs i ≡ some a
    → get_elem? runs j ≡ some b
    → a.run.id ≡ b.run.id
    → a ≡ b
unique [] a b i j d h k e = ground arith
unique (x ∷ runs) a b zero zero d h k e = ground arith
unique (x ∷ runs) a b zero (suc j) d h k e =
    ground (arith, absent runs b x.run.id d.0 j k, eq_iff b.run.id x.run.id)
unique (x ∷ runs) a b (suc i) zero d h k e =
    ground (arith, absent runs a x.run.id d.0 i h, eq_iff a.run.id x.run.id)
unique (x ∷ runs) a b (suc i) (suc j) d h k e = unique runs a b i j d.1 h k e

-- An overlay is for a run of the list, and does not come before that run's certain exit.
candidate_lem :
    (p : Platform) (runs : List ObserverHarnessRun) (o : PersistedProviderObservation) (k : String)
    (c : StatusOverlay)
    → candidate p runs o ≡ some (k, c)
    → (run : ObserverHarnessRun) × In run runs
      × (run.run.id ≡ k)
      × (should_preserve_live_status p run c.status ≡ false)
unfolding candidate
candidate_lem p runs o k c h = elim (Option-cases o.payload) [
  | inl nothing ↦ ground (arith, nothing)
  | inr (event, is) ↦ elim (Option-cases (correlate_harness_event event runs)) [
    | inl nothing ↦ ground (arith, is, nothing)
    | inr ((run, by), found) ↦ (
      run,
      correlated-In event runs run by found,
      ground (arith, is, found),
      ground (arith, is, found),
    )
  ]
]

given_cases :
    (p : Platform) (runs : List ObserverHarnessRun) (k : String) (o : PersistedProviderObservation)
    (os : List PersistedProviderObservation)
    → (given p runs k (o ∷ os) ≡ given p runs k os)
      ⊎ ((c : StatusOverlay) × (candidate p runs o ≡ some (k, c))
          × (given p runs k (o ∷ os) ≡ c ∷ given p runs k os))
unfolding given
given_cases p runs k o os = elim (Option-cases (candidate p runs o)) [
  | inl nothing ↦ inl (ground (arith, nothing))
  | inr ((id, c), h) ↦ elim (Bool-cases (id == k)) [
    | inl same ↦ inr (c, ground (arith, h, eq_iff id k), ground (arith, h))
    | inr other ↦ inl (ground (arith, h))
  ]
]

given_lem :
    (p : Platform) (runs : List ObserverHarnessRun) (k : String)
    (os : List PersistedProviderObservation) (c : StatusOverlay)
    → Among c (given p runs k os)
    → (o : PersistedProviderObservation) × (candidate p runs o ≡ some (k, c))
unfolding given
given_lem p runs k [] c h = ground arith
given_lem p runs k (o ∷ os) c h = elim (given_cases p runs k o os) [
  | inl skipped ↦ given_lem p runs k os c (subst (Among c) skipped h)
  | inr (d, is, more) ↦ elim (subst (Among c) more h) [
    | inl e ↦ (o, ground (arith, is))
    | inr rest ↦ given_lem p runs k os c rest
  ]
]

newer :
    (p : Platform) (run m : ObserverHarnessRun) (c : StatusOverlay)
    → m ≡ run
    → run.status.value ≡ exited
    → run.status.confidence ≡ high
    → should_preserve_live_status p m c.status ≡ false
    → p.date_parse run.status.updated_at ≤ p.date_parse c.status.updated_at
unfolding should_preserve_live_status
newer p run m c e gone sure fresh = ground arith

-- Where the ids of the runs are distinct, a run whose exit is certain is never given a status that is
-- older than its exit, whatever the observations are: it keeps its place, and is unchanged or newer.
pub exit_kept :
    (p : Platform) (runs : List ObserverHarnessRun)
    (observations : List PersistedProviderObservation) (i : ℕ) (run : ObserverHarnessRun)
    → IsOrder p
    → IsDistinct (ids runs)
    → get_elem? runs i ≡ some run
    → run.status.value ≡ exited
    → run.status.confidence ≡ high
    → (after : ObserverHarnessRun) × (get_elem?
          (apply_harness_event_status_overlays p runs observations)
          i
        ≡ some after)
      × (after.run.id ≡ run.run.id)
      × (p.date_parse run.status.updated_at ≤ p.date_parse after.status.updated_at)
unfolding apply_status_overlay run_observation_with_status
exit_kept p runs observations i run order distinct at gone sure =
    elim (latest_overlay p runs observations i run order at) [
      | inl (none_given, same) ↦ (run, same, refl, omega arith)
      | inr (c, (among, all), moved) ↦
          let (o, is) = given_lem p runs run.run.id observations c among in
          let (m, (j, there), same_id, fresh) = candidate_lem p runs o run.run.id c is in
          (
            apply_status_overlay run c,
            moved,
            refl,
            newer p run m c (unique runs m run j i distinct there at same_id) gone sure fresh,
          )
    ]
