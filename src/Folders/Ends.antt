-- ===== src/Folders/Ends.antt =====
-- The ends of the loops of folderService.ts.
use wosm.Base.{
  ℕ, zero, suc, ◌+◌, ◌≤◌, ◌<◌, String, true, false, List, [], ◌∷◌, Option, none, some, ◌≡◌, refl,
  ◌∙◌, ◌≢◌, ◌==◌, ◌||◌, arith, inl, inr, Bool-cases, subst, contains, length, length-append, leb,
  string_eq,
}
use wosm.Folders.{
  SearchState, stopped, goes_on, search_max_visited, search_max_results, visit, search_round,
  search_queue, search_all, search_directories, seen_roots, nothing_found, should_search,
  search_result, find_git_root, review_folder, review_of, resolve_path, TuiFolderSearchResult,
  TuiFolderReview, Machine,
}

module _ (m : Machine) (query : String) where
  -- With some fuel, and with any more, a search of a root gives a result.
  abbrev pub QueueEnds : SearchState → Type 0
  QueueEnds s =
      (fuel : ℕ) × (t : SearchState) × ((more : ℕ) → search_queue m (fuel + more) query s ≡ some t)

  stops_here :
      (n : ℕ) (s t : SearchState)
      → search_round m query s ≡ stopped t
      → search_queue m (suc n) query s ≡ some t
  unfolding search_queue
  stops_here n s t stops = rw (search_queue, stops) refl

  goes_further :
      (n : ℕ) (s t : SearchState)
      → search_round m query s ≡ goes_on t
      → search_queue m (suc n) query s ≡ search_queue m n query t
  unfolding search_queue
  goes_further n s t continues = rw (search_queue, continues) refl

  round_stops : (s t : SearchState) → search_round m query s ≡ stopped t → QueueEnds s
  round_stops s t stops = (
    1,
    t,
    λ more.
        let sum : suc more ≡ 1 + more = omega arith in
        subst (λ n. search_queue m n query s ≡ some t) sum (stops_here more s t stops),
  )

  round_goes_on :
      (s t : SearchState) → search_round m query s ≡ goes_on t → QueueEnds t → QueueEnds s
  round_goes_on s t continues (fuel, end, gives) = (
    suc fuel,
    end,
    λ more.
        let sum : suc (fuel + more) ≡ suc fuel + more = omega arith in
        subst (λ n. search_queue m n query s ≡ some end) sum
          (goes_further (fuel + more) s t continues ∙ gives more),
  )

  one_round :
      (path : String) (depth : ℕ) (rest : List (String × ℕ)) (s : SearchState)
      → QueueEnds (record s { queue = rest })
      → (length s.visited < search_max_visited
          → QueueEnds (visit m query (record s { queue = (path, depth) ∷ rest }) path depth rest))
      → QueueEnds (record s { queue = (path, depth) ∷ rest })
  unfolding search_round
  one_round path depth rest s again further =
      let here = record s { queue = (path, depth) ∷ rest } in
      elim (Bool-cases (leb search_max_results (length s.matches))) [
        | inl full ↦
            round_stops here (record here { truncated = true }) (rw (search_round, full) refl)
        | inr room ↦ elim (Bool-cases (leb search_max_visited (length s.visited))) [
          | inl limit ↦
              round_stops here (record here { reached_visit_limit = true })
                (rw (search_round, room, limit) refl)
          | inr below ↦ elim (Bool-cases (contains s.visited path)) [
            | inl seen ↦
                round_goes_on here (record here { queue = rest })
                  (rw (search_round, room, below, seen) refl) again
            | inr new ↦
                round_goes_on here (visit m query here path depth rest)
                  (rw (search_round, room, below, new) refl) (further (ground (arith, below)))
          ]
        ]
      ]

  -- Each round takes a directory off the queue, and only a first visit puts others on it, of which there
  -- are no more than the limit.
  queue_ends :
      (left : ℕ) (queue : List (String × ℕ)) (s : SearchState)
      → search_max_visited ≤ length s.visited + left
      → QueueEnds (record s { queue = queue })
  unfolding search_round visit
  queue_ends left [] s bound = round_stops (record s { queue = [] }) (record s { queue = [] }) refl
  queue_ends zero ((path, depth) ∷ rest) s bound =
      one_round path depth rest s (queue_ends zero rest s bound)
        (λ below. absurd (omega (arith, below, bound)))
  queue_ends (suc left) ((path, depth) ∷ rest) s bound =
      let visited = visit m query (record s { queue = (path, depth) ∷ rest }) path depth rest in
      one_round path depth rest s (queue_ends (suc left) rest s bound) (λ below.
        queue_ends left visited.queue visited
          (omega (arith, bound, length-append s.visited (path ∷ []))))

  abbrev AllEnds : SearchState → List String → Type 0
  AllEnds s roots =
      (fuel : ℕ) × (t : SearchState) × ((more : ℕ)
        → search_all m (fuel + more) query s roots ≡ some t)

  root_ends :
      (root : String) (roots : List String) (s t : SearchState) (fuel : ℕ)
      → ((more : ℕ)
          → search_queue m (fuel + more) query (record s { queue = (root, 0) ∷ [] }) ≡ some t)
      → AllEnds t roots
      → AllEnds s (root ∷ roots)
  unfolding search_all
  root_ends root roots s t fuel gives (further, end, ends) =
      elim (Bool-cases (t.truncated || t.reached_visit_limit)) [
        | inl cut ↦ (fuel, t, λ more. rw (search_all, gives more, cut) refl)
        | inr whole ↦ (
          fuel + further,
          end,
          λ more.
              let one : fuel + (further + more) ≡ fuel + further + more = omega arith in
              let two : further + (fuel + more) ≡ fuel + further + more = omega arith in
              let first =
                subst (λ n. search_queue m n query (record s { queue = (root, 0) ∷ [] }) ≡ some t)
                  one (gives (further + more)) in
              let second =
                subst (λ n. search_all m n query t roots ≡ some end) two (ends (fuel + more)) in
              rw (search_all, first, whole) second,
        )
      ]

  all_ends : (roots : List String) (s : SearchState) → AllEnds s roots
  unfolding search_all
  all_ends [] s = (0, s, λ more. refl)
  all_ends (root ∷ roots) s =
      let ends = queue_ends search_max_visited ((root, 0) ∷ []) s (omega arith) in
      root_ends root roots s (ends.1) (ends.0) (ends.2) (all_ends roots (ends.1))

-- A search of folders gives a result, with some fuel and with any more, whatever the file system
-- holds.
pub search_directories_ends :
    (m : Machine) (query : String)
    → (fuel : ℕ) × (r : TuiFolderSearchResult) × ((more : ℕ)
        → search_directories m (fuel + more) query ≡ some r)
unfolding search_directories
search_directories_ends m query =
    let normalized_query = m.texts.trim query in
    elim (Bool-cases (should_search m normalized_query)) [
      | inl fit ↦
          let ends = all_ends m normalized_query (seen_roots m) (nothing_found m) in
          (
            ends.0,
            search_result m normalized_query (ends.1),
            λ more. rw (search_directories, fit, ends.2 more) refl,
          )
      | inr unfit ↦ (
        0,
        record { query = normalized_query; entries = []; truncated = false },
        λ more. rw (search_directories, unfit) refl,
      )
    ]

module _ (m : Machine) (depth : String → ℕ)
    (rises : (path : String) → m.dirname path ≢ path → depth (m.dirname path) < depth path) where
  -- What is found holds a repository.
  abbrev pub IsMarked : Option String → Type 0
  IsMarked none = Unit
  IsMarked (some root) = m.has_git_marker root ≡ true

  git_root_ends :
      (left : ℕ) (path : String)
      → depth path < left
      → (root : Option String) × (find_git_root m left path ≡ some root) × IsMarked root
  unfolding find_git_root
  git_root_ends zero path below = absurd (omega (arith, below))
  git_root_ends (suc left) path below = elim (Bool-cases (m.has_git_marker path)) [
    | inl marked ↦ (some path, rw (find_git_root, marked) refl, marked)
    | inr plain ↦ elim (Bool-cases (m.dirname path == path)) [
      | inl top ↦ (none, rw (find_git_root, plain, top) refl, tt)
      | inr lower ↦
          let up =
            rises path
              (λ same. ground (arith, lower, (string_eq.same_iff (m.dirname path) path).1 same)) in
          let found = git_root_ends left (m.dirname path) (omega (arith, up, below)) in
          (found.0, rw (find_git_root, plain, lower) found.1, found.2)
    ]
  ]

  -- Let a parent be less deep than what it is the parent of, unless that is a root, its own parent. The
  -- review of a folder gives a result with fuel for the depth of the folder, and where it names the
  -- root of a repository that has its marker.
  pub review_folder_ends :
      (path : String)
      → let start = m.resolve (resolve_path m path) in
        (r : TuiFolderReview) × (review_folder m (suc (depth start)) path ≡ some r)
        × IsMarked r.git_root
  unfolding review_folder
  review_folder_ends path =
      let selected_path = resolve_path m path in
      let start = m.resolve selected_path in
      let found = git_root_ends (suc (depth start)) start (omega arith) in
      (review_of m selected_path (found.0), rw (review_folder, found.1) refl, found.2)
