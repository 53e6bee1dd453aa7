-- ===== src/Overlays/Latest.antt =====
-- harnessEventStatus.ts: the overlay of a run among those that its observations give.

use wosm.Base.{
  ℕ, zero, suc, String, true, false, List, [], ◌∷◌, map, Option, none, some, get_elem?, ◌==◌,
  string_eq, ◌≡◌, ◌⊎◌, inl, inr, refl, arith, eq_iff, if◌then◌else◌, Option-cases, Bool-cases,
}
use wosm.Base.Dict.{Dict, get, get-set}
use wosm.Base.Platform.{Platform, IsConsistent}
use wosm.Contracts.Runtime.{ObserverHarnessRun}
use wosm.Overlays.{
  PersistedProviderObservation, StatusOverlay, candidate, compare_overlays, is_lt, keep_latest,
  latest_by_run_id, overlaid, apply_status_overlay, apply_harness_event_status_overlays,
}

-- The first is not before the second.
abbrev pub NotBefore : Platform → StatusOverlay → StatusOverlay → Type 0
NotBefore p a b = is_lt (compare_overlays p a b) ≡ false

-- The order of the observations' ids is an order.
pub record IsOrder (p : Platform) : Type 0 where
  pub consistent : IsConsistent p
  pub transitive :
      (a b c : String)
      → is_lt (p.locale_compare a b) ≡ false
      → is_lt (p.locale_compare b c) ≡ false
      → is_lt (p.locale_compare a c) ≡ false

NotBefore-trans :
    (p : Platform) (a b c : StatusOverlay)
    → IsOrder p
    → NotBefore p a b
    → NotBefore p b c
    → NotBefore p a c
unfolding compare_overlays
NotBefore-trans p a b c o h k =
    ground (arith, o.transitive a.observation_id b.observation_id c.observation_id)

NotBefore-refl : (p : Platform) (a : StatusOverlay) → IsOrder p → NotBefore p a a
unfolding compare_overlays
NotBefore-refl p a o = ground (arith, o.consistent a.observation_id a.observation_id)

NotBefore-total :
    (p : Platform) (a b : StatusOverlay)
    → IsOrder p
    → is_lt (compare_overlays p a b) ≡ true
    → NotBefore p b a
unfolding compare_overlays
NotBefore-total p a b o h = ground (arith, o.consistent a.observation_id b.observation_id)

-- What the observations give for a run, in their order.
unfoldable pub given :
    Platform
    → List ObserverHarnessRun
    → String
    → List PersistedProviderObservation
    → List StatusOverlay
given p runs k [] = []
given p runs k (observation ∷ observations) =
    let rest = given p runs k observations in
    elim (candidate p runs observation) [
      | none ↦ rest
      | some (id, overlay) ↦ if id == k then overlay ∷ rest else rest
    ]

abbrev pub later_of : Platform → Option StatusOverlay → StatusOverlay → Option StatusOverlay
later_of p none overlay = some overlay
later_of p (some previous) overlay =
    if is_lt (compare_overlays p overlay previous) then some previous else some overlay

abbrev pub latest_of : Platform → Option StatusOverlay → List StatusOverlay → Option StatusOverlay
latest_of p best [] = best
latest_of p best (x ∷ xs) = latest_of p (later_of p best x) xs

keep_latest-get :
    (p : Platform) (latest : Dict String StatusOverlay) (id : String) (overlay : StatusOverlay)
    (k : String)
    → get (keep_latest p latest (id, overlay)) k
      ≡ (if id == k then later_of p (get latest k) overlay else get latest k)
keep_latest-get p latest id overlay k = ground (arith, get-set latest id k overlay, eq_iff id k)

latest_by_run_id-get :
    (p : Platform) (runs : List ObserverHarnessRun) (latest : Dict String StatusOverlay)
    (k : String) (observations : List PersistedProviderObservation)
    → get (latest_by_run_id p runs latest observations) k
      ≡ latest_of p (get latest k) (given p runs k observations)
unfolding latest_by_run_id given
latest_by_run_id-get p runs latest k [] = refl
latest_by_run_id-get p runs latest k (o ∷ os) = elim (Option-cases (candidate p runs o)) [
  | inl nothing ↦ ground (arith, nothing, latest_by_run_id-get p runs latest k os)
  | inr ((id, overlay), h) ↦ ground (
    arith,
    h,
    latest_by_run_id-get p runs (keep_latest p latest (id, overlay)) k os,
    keep_latest-get p latest id overlay k,
  )
]

abbrev pub Among : StatusOverlay → List StatusOverlay → Type 0
Among best [] = false ≡ true
Among best (x ∷ xs) = (x ≡ best) ⊎ Among best xs

abbrev pub AllNotAfter : Platform → StatusOverlay → List StatusOverlay → Type 0
AllNotAfter p best [] = Unit
AllNotAfter p best (x ∷ xs) = NotBefore p best x × AllNotAfter p best xs

-- The best that there is, from one on.
best_lem :
    (p : Platform) (b : StatusOverlay) (xs : List StatusOverlay)
    → IsOrder p
    → (c : StatusOverlay) × (latest_of p (some b) xs ≡ some c)
      × NotBefore p c b
      × ((b ≡ c) ⊎ Among c xs)
      × AllNotAfter p c xs
best_lem p b [] o = (b, refl, NotBefore-refl p b o, inl refl, tt)
best_lem p b (x ∷ xs) o = elim (Bool-cases (is_lt (compare_overlays p x b))) [
  | inl before ↦
      let (c, is, over, from, all) = best_lem p b xs o in
      (
        c,
        ground (arith, before, is),
        over,
        elim from [ inl e ↦ inl e | inr a ↦ inr (inr a) ],
        (NotBefore-trans p c b x o over (NotBefore-total p x b o before), all),
      )
  | inr after ↦
      let (c, is, over, from, all) = best_lem p x xs o in
      (
        c,
        ground (arith, after, is),
        NotBefore-trans p c x b o over after,
        inr (elim from [ inl e ↦ inl e | inr a ↦ inr a ]),
        (over, all),
      )
]

abbrev pub LatestOf : Platform → StatusOverlay → List StatusOverlay → Type 0
LatestOf p c xs = Among c xs × AllNotAfter p c xs

some_latest :
    (p : Platform) (xs : List StatusOverlay)
    → IsOrder p
    → (xs ≡ []) ⊎ ((c : StatusOverlay) × (latest_of p none xs ≡ some c) × LatestOf p c xs)
some_latest p [] o = inl refl
some_latest p (x ∷ xs) o =
    let (c, is, over, from, all) = best_lem p x xs o in
    inr (c, is, (elim from [ inl e ↦ inl e | inr a ↦ inr a ], (over, all)))

map-get :
    (f : ObserverHarnessRun → ObserverHarnessRun) (runs : List ObserverHarnessRun) (i : ℕ)
    (run : ObserverHarnessRun)
    → get_elem? runs i ≡ some run
    → get_elem? (map f runs) i ≡ some (f run)
map-get f [] i run h = ground arith
map-get f (x ∷ runs) zero run h = ground arith
map-get f (x ∷ runs) (suc i) run h = map-get f runs i run h

-- Each run keeps its place. Where no observation gives it a status it is unchanged, and otherwise it
-- takes one that an observation gives it, before which no other comes.
pub latest_overlay :
    (p : Platform) (runs : List ObserverHarnessRun)
    (observations : List PersistedProviderObservation) (i : ℕ) (run : ObserverHarnessRun)
    → IsOrder p
    → get_elem? runs i ≡ some run
    → let xs = given p runs run.run.id observations in
      let after = get_elem? (apply_harness_event_status_overlays p runs observations) i in
      (xs ≡ []) × (after ≡ some run)
      ⊎ ((c : StatusOverlay) × LatestOf p c xs × (after ≡ some (apply_status_overlay run c)))
unfolding apply_harness_event_status_overlays
latest_overlay p runs observations i run o h =
    let latest = latest_by_run_id p runs [] observations in
    let found = latest_by_run_id-get p runs [] run.run.id observations in
    let moved = map-get (overlaid latest) runs i run h in
    elim (some_latest p (given p runs run.run.id observations) o) [
      | inl nothing ↦ inl (nothing, ground (arith, nothing, found, moved))
      | inr (c, is, best) ↦ inr (c, best, ground (arith, is, found, moved))
    ]
