-- ===== src/Status/Target.antt =====
-- statusProjection.ts, `findProjectionTarget`, against what it means for a report to name a row.
use wosm.Base.{
  ℕ, zero, suc, ◌+◌, String, Bool, true, false, List, [], ◌∷◌, Option, none, some, filter, ◌&&◌,
  ◌==◌, if◌then◌else◌, get_elem?, string_eq, option_eq, ◌≡◌, ◌↔◌, refl, ◌∙◌, ap, arith, Bool-cases,
  Option-cases, inl, inr, subst,
}
use wosm.Contracts.Hooks.{HarnessEventReport, HarnessEventReportCorrelation}
use wosm.Contracts.Snapshot.{WorktreeAgent, WorktreeRow, WosmSnapshot}
use wosm.Status.Projection.{
  CorrelatedBy, by_run, by_session, by_worktree, indexed, on_agent, single_target, correlate,
  find_projection_target,
}

-- The strongest key that a correlation has, on a row and its agent.
abbrev pub is_keyed :
    Option String → Option String → Option String → WorktreeRow → WorktreeAgent → Bool
is_keyed (some run) session worktree row agent = agent.run_id == some run
is_keyed none (some session) worktree row agent = agent.session_id == some session
is_keyed none none (some worktree) row agent = row.id == worktree
is_keyed none none none row agent = false

-- The row has an agent of the report's provider, which fits that key.
abbrev pub is_named : HarnessEventReport → WorktreeRow → Bool
is_named report row = elim (row.agent) [
  | none ↦ false
  | some agent ↦ elim (report.correlation) [
    | none ↦ false
    | some c ↦
        (agent.harness == report.provider)
        && is_keyed c.harness_run_id c.session_id c.worktree_id row agent
  ]
]

-- The row at a place is named, and no other row is.
abbrev pub IsOnly : (WorktreeRow → Bool) → List WorktreeRow → ℕ → Type 0
IsOnly f rows i =
    ((row : WorktreeRow) × (get_elem? rows i ≡ some row) × (f row ≡ true))
    × ((j : ℕ) → (other : WorktreeRow) → get_elem? rows j ≡ some other → f other ≡ true → j ≡ i)

abbrev hits : (WorktreeRow → Bool) → ℕ → List WorktreeRow → List (WorktreeRow × ℕ)
hits f n [] = []
hits f n (row ∷ rows) = let rest = hits f (suc n) rows in if f row then (row, n) ∷ rest else rest

filters-hits :
    (f g : WorktreeRow × ℕ → Bool) (h : WorktreeRow → Bool)
    → ((row : WorktreeRow) (n : ℕ) → (f (row, n) && g (row, n)) ≡ h row)
    → (n : ℕ) (rows : List WorktreeRow) → filter g (filter f (indexed n rows)) ≡ hits h n rows
unfolding indexed
filters-hits f g h both n [] = refl
filters-hits f g h both n (row ∷ rows) =
    ground (arith, both row n, filters-hits f g h both (suc n) rows)

none-hits :
    (h : WorktreeRow → Bool) (n : ℕ) (rows : List WorktreeRow)
    → hits h n rows ≡ []
    → (j : ℕ) (other : WorktreeRow) → get_elem? rows j ≡ some other
    → h other ≡ false
none-hits h n [] e j other at = ground arith
none-hits h n (row ∷ rows) e zero other at = ground arith
none-hits h n (row ∷ rows) e (suc j) other at =
    none-hits h (suc n) rows (ground arith) j other (ground arith)

hits-none :
    (h : WorktreeRow → Bool) (n : ℕ) (rows : List WorktreeRow)
    → ((j : ℕ) (other : WorktreeRow) → get_elem? rows j ≡ some other → h other ≡ false)
    → hits h n rows ≡ []
hits-none h n [] misses = refl
hits-none h n (row ∷ rows) misses =
    ground
      (arith, misses 0 row refl, hits-none h (suc n) rows (λ j other at. misses (suc j) other at))

hits-IsOnly :
    (h : WorktreeRow → Bool) (n : ℕ) (rows : List WorktreeRow) (row : WorktreeRow) (m : ℕ)
    → hits h n rows ≡ (row, m) ∷ []
    → (j : ℕ) × (m ≡ n + j) × IsOnly h rows j
hits-IsOnly h n [] row m e = absurd (ground arith)
hits-IsOnly h n (first ∷ rows) row m e = elim (Bool-cases (h first)) [
  | inl hit ↦ (
    0,
    ground (arith, hit),
    ((first, refl, hit), λ j other at named. alone (ground (arith, hit)) j other at named),
  )
  | inr miss ↦
      let rest = hits-IsOnly h (suc n) rows row m (ground (arith, miss)) in
      (
        suc rest.0,
        omega (arith, rest.1),
        (rest.2.0, λ j other at named. later miss rest.0 rest.2 j other at named),
      )
]
  where
    alone :
        hits h (suc n) rows ≡ []
        → (j : ℕ) (other : WorktreeRow) → get_elem? (first ∷ rows) j ≡ some other
        → h other ≡ true
        → j ≡ 0
    alone empty zero other at named = refl
    alone empty (suc j) other at named =
        absurd (ground (arith, none-hits h (suc n) rows empty j other at, named))

    later :
        h first ≡ false
        → (i : ℕ) → IsOnly h rows i
        → (j : ℕ) (other : WorktreeRow) → get_elem? (first ∷ rows) j ≡ some other
        → h other ≡ true
        → j ≡ suc i
    later miss i only zero other at named = absurd (ground arith)
    later miss i only (suc j) other at named = ap (λ k. suc k) (only.1 j other at named)

IsOnly-hits :
    (h : WorktreeRow → Bool) (n : ℕ) (rows : List WorktreeRow) (i : ℕ)
    → IsOnly h rows i
    → (row : WorktreeRow) × (hits h n rows ≡ (row, n + i) ∷ [])
IsOnly-hits h n [] i only = absurd (ground (arith, only.0.1))
IsOnly-hits h n (first ∷ rows) zero ((row, at, named), only) = (
  first,
  ground (arith, named, at, hits-none h (suc n) rows (λ j other found. quiet j other found)),
)
  where
    quiet : (j : ℕ) (other : WorktreeRow) → get_elem? rows j ≡ some other → h other ≡ false
    quiet j other found = elim (Bool-cases (h other)) [
      | inl hit ↦ absurd (omega (arith, only (suc j) other found hit))
      | inr miss ↦ miss
    ]
IsOnly-hits h n (first ∷ rows) (suc i) ((row, at, named), only) =
    let rest =
      IsOnly-hits h (suc n) rows i
        ((row, at, named), λ j other found hit. omega (arith, only (suc j) other found hit)) in
    elim (Bool-cases (h first)) [
      | inl hit ↦ absurd (omega (arith, only 0 first refl hit))
      | inr miss ↦ (rest.0, ground (arith, miss, rest.1))
    ]

single_target_lem :
    (xs : List (WorktreeRow × ℕ)) (by : CorrelatedBy) (i : ℕ)
    → ((b : CorrelatedBy) × (single_target xs by ≡ some (i, b)))
      ↔ ((row : WorktreeRow) × (xs ≡ (row, i) ∷ []))
unfolding single_target
single_target_lem [] by i = (λ e. absurd (ground (arith, e.1)), λ e. absurd (ground (arith, e.1)))
single_target_lem ((row, m) ∷ []) by i =
    (λ e. (row, ground (arith, e.1)), λ e. (by, ground (arith, e.1)))
single_target_lem (x ∷ y ∷ xs) by i =
    (λ e. absurd (ground (arith, e.1)), λ e. absurd (ground (arith, e.1)))

-- What a strongest key finds.
found_by :
    (s : WosmSnapshot) (r : HarnessEventReport) (key : WorktreeRow × ℕ → Bool) (by : CorrelatedBy)
    (i : ℕ)
    → ((row : WorktreeRow) (n : ℕ)
        → (on_agent (λ a. a.harness == r.provider) (row, n) && key (row, n)) ≡ is_named r row)
    → ((b : CorrelatedBy) × (single_target
            (filter key (filter (on_agent (λ a. a.harness == r.provider)) (indexed 0 s.rows)))
            by
          ≡ some (i, b)))
      ↔ IsOnly (is_named r) s.rows i
found_by s r key by i fits =
    let h = is_named r in
    let same = filters-hits (on_agent (λ a. a.harness == r.provider)) key h fits 0 s.rows in
    (
      λ e.
          let one = (single_target_lem (hits h 0 s.rows) by i).0 (rw same at e) in
          let only = hits-IsOnly h 0 s.rows one.0 i one.1 in
          subst (IsOnly h s.rows) (omega (arith, only.1)) only.2,
      λ only.
          let one = IsOnly-hits h 0 s.rows i only in
          rw same (
            (single_target_lem (hits h 0 s.rows) by i).1
              (one.0, one.1 ∙ ap (λ n. (one.0, n) ∷ []) (omega arith))),
    )

keyed_by :
    (s : WosmSnapshot) (r : HarnessEventReport) (c : HarnessEventReportCorrelation)
    (run session worktree : Option String) (i : ℕ)
    → r.correlation ≡ some c
    → c.harness_run_id ≡ run
    → c.session_id ≡ session
    → c.worktree_id ≡ worktree
    → ((b : CorrelatedBy) × (correlate
            (filter (on_agent (λ a. a.harness == r.provider)) (indexed 0 s.rows))
            run
            session
            worktree
          ≡ some (i, b)))
      ↔ IsOnly (is_named r) s.rows i
unfolding correlate
keyed_by s r c (some run) session worktree i hc hr hs hw =
    found_by s r (on_agent (λ a. a.run_id == some run)) by_run i (λ row n. ground (arith, hc, hr))
keyed_by s r c none (some session) worktree i hc hr hs hw =
    found_by s r (on_agent (λ a. a.session_id == some session)) by_session i
      (λ row n. ground (arith, hc, hr, hs))
keyed_by s r c none none (some worktree) i hc hr hs hw =
    found_by s r (λ entry. (entry.0.id == worktree) && on_agent (λ _. true) entry) by_worktree i
      (λ row n. ground (arith, hc, hr, hs, hw))
keyed_by s r c none none none i hc hr hs hw =
    (λ e. absurd (ground (arith, e.1)), λ only. absurd (ground (arith, only.0.2, hc, hr, hs, hw)))

-- A report's target is exactly the row that the report names alone: the one row with an agent of the
-- report's provider whose run, or else session, or else worktree is the one that the correlation gives.
-- Where no row or several are named there is none.
pub find_projection_target_lem :
    (s : WosmSnapshot) (r : HarnessEventReport) (i : ℕ)
    → ((by : CorrelatedBy) × (find_projection_target s r ≡ some (i, by)))
      ↔ IsOnly (is_named r) s.rows i
unfolding find_projection_target
find_projection_target_lem s r i = elim (Option-cases r.correlation) [
  | inl nothing ↦ (
    λ e. absurd (ground (arith, e.1, nothing)),
    λ only. absurd (ground (arith, only.0.2, nothing)),
  )
  | inr (c, gives) ↦
      let same =
        keyed_by s r c c.harness_run_id c.session_id c.worktree_id i gives refl refl refl in
      (
        λ e. same.0 (e.0, ground (arith, e.1, gives)),
        λ only. let known = same.1 only in (known.0, ground (arith, known.1, gives)),
      )
]
