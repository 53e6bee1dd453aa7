-- ===== src/Folders/Found.antt =====
-- What `searchDirectories` of folderService.ts finds.
use mathlib.Core.List.{Perm}
use wosm.Base.{
  ◌⊎◌, ℕ, zero, suc, ◌≤◌, ◌<◌, String, true, false, List, [], ◌∷◌, ◌++◌, map, Option, none, some,
  ◌≡◌, refl, sym, ap, ◌∙◌, arith, inl, inr, Bool-cases, Option-cases, subst, contains, length,
  length-append, leb, ◌||◌, IsDistinct, append-IsDistinct, string_eq, contains-append, ==-refl,
}
use wosm.Base.All.{All, All-append, All-mono, not_among}
use wosm.Base.Sort.{sort-perm}
use wosm.Folders.{
  TuiFolderEntry, TuiFolderSearchResult, SearchState, Round, stopped, goes_on, search_max_visited,
  search_max_results, visit, search_round, search_queue, search_all, search_directories,
  directory_matches, entry_of, seen_roots, nothing_found, should_search, search_result,
  sort_search_results, Machine,
}

abbrev pub paths : List TuiFolderEntry → List String
paths = map (λ e. e.path)

paths-append :
    (es : List TuiFolderEntry) (e : TuiFolderEntry) → paths (es ++ e ∷ []) ≡ paths es ++ e.path ∷ []
paths-append [] e = refl
paths-append (x ∷ es) e = ap (λ ps. x.path ∷ ps) (paths-append es e)

module _ (m : Machine) (query : String) where
  abbrev pub Hit : List String → TuiFolderEntry → Type 0
  Hit visited e = (contains visited e.path ≡ true) × (directory_matches m e.path query ≡ true)

  -- The search keeps its limits, and what it found is of what it visited, each once.
  pub record Sound (s : SearchState) : Type 0 where
    pub room : length s.matches ≤ search_max_results
    pub visits : length s.visited ≤ search_max_visited
    pub once : IsDistinct (paths s.matches)
    pub hits : All (Hit s.visited) s.matches

  abbrev SoundRound : Round → Type 0
  SoundRound (stopped t) = Sound t
  SoundRound (goes_on t) = Sound t

  Hit-paths :
      (visited : List String) (es : List TuiFolderEntry)
      → All (Hit visited) es
      → All (λ p. contains visited p ≡ true) (paths es)
  Hit-paths visited [] hits = tt
  Hit-paths visited (e ∷ es) hits = (hits.0.0, Hit-paths visited es hits.1)

  same-Sound :
      (s t : SearchState) → s.matches ≡ t.matches → s.visited ≡ t.visited → Sound s → Sound t
  same-Sound s t matches visited sound = record {
    room = subst (λ es. length es ≤ search_max_results) matches sound.room;
    visits = subst (λ ps. length ps ≤ search_max_visited) visited sound.visits;
    once = subst (λ es. IsDistinct (paths es)) matches sound.once;
    hits =
        subst (λ es. All (Hit t.visited) es) matches
          (subst (λ ps. All (Hit ps) s.matches) visited sound.hits);
  }

  visit-Sound :
      (s : SearchState) (path : String) (depth : ℕ) (rest : List (String × ℕ))
      → length s.matches < search_max_results
      → length s.visited < search_max_visited
      → contains s.visited path ≡ false
      → Sound s
      → Sound (visit m query s path depth rest)
  unfolding visit
  visit-Sound s path depth rest room below new sound =
      let old : All (Hit (s.visited ++ path ∷ [])) s.matches =
        All-mono (Hit s.visited)
          (λ e hit. (ground (arith, contains-append s.visited (path ∷ []) e.path, hit.0), hit.1))
          s.matches sound.hits in
      let visits : length (s.visited ++ path ∷ []) ≤ search_max_visited =
        omega (arith, length-append s.visited (path ∷ []), below) in
      elim (Bool-cases (directory_matches m path query)) [
        | inr missed ↦
            rw missed (record { room = sound.room; visits = visits; once = sound.once; hits = old })
        | inl hit ↦ rw hit (record {
          room = omega (arith, length-append s.matches (entry_of m path ∷ []), room);
          visits = visits;
          once = subst IsDistinct (sym (paths-append s.matches (entry_of m path))) (
              append-IsDistinct (paths s.matches) path
                (not_among s.visited (paths s.matches) path new
                  (Hit-paths s.visited s.matches sound.hits))
                sound.once);
          hits =
              All-append (Hit (s.visited ++ path ∷ [])) s.matches (entry_of m path ∷ []) old (
                (ground (arith, contains-append s.visited (path ∷ []) path, ==-refl path), hit),
                tt,
              );
        })
      ]

  round-Sound :
      (s : SearchState) (queue : List (String × ℕ))
      → Sound s
      → SoundRound (search_round m query (record s { queue = queue }))
  unfolding search_round
  round-Sound s [] sound = same-Sound s (record s { queue = [] }) refl refl sound
  round-Sound s ((path, depth) ∷ rest) sound =
      let here = record s { queue = (path, depth) ∷ rest } in
      elim (Bool-cases (leb search_max_results (length s.matches))) [
        | inl full ↦
            rw (search_round, full)
              (same-Sound s (record here { truncated = true }) refl refl sound)
        | inr room ↦ elim (Bool-cases (leb search_max_visited (length s.visited))) [
          | inl limit ↦
              rw (search_round, room, limit)
                (same-Sound s (record here { reached_visit_limit = true }) refl refl sound)
          | inr below ↦ elim (Bool-cases (contains s.visited path)) [
            | inl seen ↦
                rw (search_round, room, below, seen)
                  (same-Sound s (record s { queue = rest }) refl refl sound)
            | inr new ↦
                rw (search_round, room, below, new)
                  (visit-Sound here path depth rest (ground (arith, room)) (ground (arith, below))
                    new (same-Sound s here refl refl sound))
          ]
        ]
      ]

  round_end :
      (fuel : ℕ) (t : SearchState) (r : Round)
      → ((u : SearchState) → Sound u → search_queue m fuel query u ≡ some t → Sound t)
      → SoundRound r
      → elim r [ stopped u ↦ some u | goes_on u ↦ search_queue m fuel query u ] ≡ some t
      → Sound t
  round_end fuel t (stopped u) further sound gives = let same : u ≡ t = cc in subst Sound same sound
  round_end fuel t (goes_on u) further sound gives = further u sound gives

  queue-Sound :
      (fuel : ℕ) (s t : SearchState) → Sound s → search_queue m fuel query s ≡ some t → Sound t
  unfolding search_queue
  queue-Sound zero s t sound gives = cc
  queue-Sound (suc fuel) s t sound gives =
      round_end fuel t (search_round m query s) (λ u. queue-Sound fuel u t)
        (round-Sound s s.queue sound) gives

  -- What is left of the roots behind one that gave `o`.
  abbrev behind : ℕ → List String → Option SearchState → Option SearchState
  behind fuel roots none = none
  behind fuel roots (some u) = elim (u.truncated || u.reached_visit_limit) [
    | true ↦ some u
    | false ↦ search_all m fuel query u roots
  ]

  behind-Sound :
      (fuel : ℕ) (roots : List String) (t u : SearchState)
      → (search_all m fuel query u roots ≡ some t → Sound t)
      → Sound u
      → behind fuel roots (some u) ≡ some t
      → Sound t
  behind-Sound fuel roots t u further sound gives =
      elim (Bool-cases (u.truncated || u.reached_visit_limit)) [
        | inl cut ↦ let same : u ≡ t = ground (arith, gives, cut) in subst Sound same sound
        | inr whole ↦ further (ground (arith, gives, whole))
      ]

  all-Sound :
      (fuel : ℕ) (roots : List String) (s t : SearchState)
      → Sound s
      → search_all m fuel query s roots ≡ some t
      → Sound t
  unfolding search_all
  all-Sound fuel [] s t sound gives = let same : s ≡ t = cc in subst Sound same sound
  all-Sound fuel (root ∷ roots) s t sound gives =
      elim (Option-cases (search_queue m fuel query (record s { queue = (root, 0) ∷ [] }))) [
        | inl out ↦ ground (arith, gives, out)
        | inr (u, found) ↦
            let ok =
              queue-Sound fuel (record s { queue = (root, 0) ∷ [] }) u
                (same-Sound s (record s { queue = (root, 0) ∷ [] }) refl refl sound) found in
            behind-Sound fuel roots t u (all-Sound fuel roots u t ok) ok
              (sym (ap (behind fuel roots) found) ∙ gives)
      ]

some_inj : {V : Type 0} (a b : V) → some a ≡ some b → a ≡ b
some_inj a b h = cc

nothing-Sound : (m : Machine) (query : String) → Sound m query (nothing_found m)
nothing-Sound m query = record { room = omega arith; visits = omega arith; once = tt; hits = tt }

-- A query that is not searched for finds nothing; for any other one the search of the roots ends in a
-- state that is sound, and the entries are its matches, in some order.
abbrev pub Finds : Machine → ℕ → TuiFolderSearchResult → Type 0
Finds m fuel r =
    ((should_search m r.query ≡ false) × (r.entries ≡ []))
    ⊎ ((s : SearchState) × (search_all m fuel r.query (nothing_found m) (seen_roots m) ≡ some s)
        × Perm r.entries s.matches
        × (r.truncated ≡ s.truncated)
        × Sound m r.query s)

-- A search with a result either had a query that is not searched for, and no entries, or it ended in a
-- state in which it had visited at most 1200 folders and found at most 80, which are the entries: each
-- of them it had visited, each fits the query, and none is there twice.
pub search_directories_found :
    (m : Machine) (fuel : ℕ) (query : String) (r : TuiFolderSearchResult)
    → search_directories m fuel query ≡ some r
    → (r.query ≡ m.texts.trim query) × Finds m fuel r
unfolding search_directories sort_search_results
search_directories_found m fuel query r gives =
    let normalized_query = m.texts.trim query in
    let claim : TuiFolderSearchResult → Type 0 =
      λ a. (a.query ≡ m.texts.trim query) × Finds m fuel a in
    elim (Bool-cases (should_search m normalized_query)) [
      | inr unfit ↦
          subst claim
            (some_inj (record { query = normalized_query; entries = []; truncated = false }) r
              ((rw (search_directories, unfit) refl) ∙ gives))
            (refl, inl (unfit, refl))
      | inl fit ↦
          elim (Option-cases
            (search_all m fuel normalized_query (nothing_found m) (seen_roots m))) [
              | inl out ↦
                  let fails : search_directories m fuel query ≡ none =
                    rw (search_directories, fit, out) refl in
                  ground (arith, fails, gives)
              | inr (s, found) ↦
                  subst claim
                    (some_inj (search_result m normalized_query s) r
                      ((rw (search_directories, fit, found) refl) ∙ gives))
                    (
                      refl,
                      inr (
                        s,
                        found,
                        sort-perm _ s.matches,
                        refl,
                        all-Sound m normalized_query fuel (seen_roots m) (nothing_found m) s
                            (nothing-Sound m normalized_query) found,
                      ),
                    )
            ]
    ]
