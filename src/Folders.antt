-- ===== src/Folders.antt =====
-- packages/dashboard-core/src/services/folderService.ts: the folders that the dashboard shows and finds.
-- The file system answers as it does while a call runs, `none` where it throws; the functions of
-- node:path and the methods of texts are parameters.
pub mod Ends
pub mod Found
pub mod Cache
mod Tests
use Prim.Native.Nat.{Ordering, eq, compare}
use Prim.Native.String.{◌++◌ as append}
use wosm.Base.{
  ℕ, zero, suc, ◌+◌, String, Bool, true, false, not, ◌&&◌, ◌||◌, List, [], ◌∷◌, ◌++◌, map, Option,
  none, some, ◌==◌, string_eq, if◌then◌else◌, contains, length, filter, leb, ltb,
}
use wosm.Base.Dict.{Dict, get, set, delete, size}
use wosm.Base.Sort.{sort, or_compare}
use wosm.Base.Text.{code_units}
use wosm.Base.Platform.{Platform, TextMethods}

pub record TuiFolderEntry : Type 0 where
  pub name : String
  pub path : String
  pub display_path : Option String

pub record TuiFolderReadResult : Type 0 where
  pub path : String
  pub entries : List TuiFolderEntry

pub record TuiFolderReview : Type 0 where
  pub selected_path : String
  pub git_root : Option String
  pub id : String
  pub label : String

pub record TuiFolderSearchResult : Type 0 where
  pub query : String
  pub entries : List TuiFolderEntry
  pub truncated : Bool

-- A name of a directory, and whether it is one itself.
pub record DirectoryEntry : Type 0 where
  pub name : String
  pub is_directory : Bool

-- `strip_tilde` takes the first two characters off, `split` splits at `/`, and the last two methods are
-- the two regular expressions of a project's id.
pub record Machine : Type 0 where
  pub platform : Platform
  pub texts : TextMethods
  pub basename : String → String
  pub dirname : String → String
  pub resolve : String → String
  pub resolve_in : String → String → String
  pub join : String → String → String
  pub relative : String → String → String
  pub strip_tilde : String → String
  pub split : String → List String
  pub dash_others : String → String
  pub strip_dashes : String → String
  pub home : String
  pub cwd : String
  pub read_dir : String → Option (List DirectoryEntry)
  pub has_git_marker : String → Bool

abbrev pub search_max_depth : ℕ
search_max_depth = 5

abbrev pub search_max_visited : ℕ
search_max_visited = 1_200

abbrev pub search_max_results : ℕ
search_max_results = 80

abbrev pub ignored_directory_names : List String
ignored_directory_names =
    ".git" ∷ ".hg" ∷ ".svn" ∷ ".cache" ∷ ".Trash" ∷ "Library" ∷ "Movies" ∷ "Music" ∷ "Pictures"
    ∷ "Applications" ∷ "node_modules" ∷ []

-- The search of one root: what waits, what was found and seen, and how it was cut short.
pub record SearchState : Type 0 where
  pub queue : List (String × ℕ)
  pub matches : List TuiFolderEntry
  pub visited : List String
  pub truncated : Bool
  pub reached_visit_limit : Bool

pub data Round : Type 0 where
  stopped : SearchState → Round
  goes_on : SearchState → Round

abbrev pub path_known : List String → String → Bool
path_known = contains

module _ (m : Machine) where
  unfoldable pub resolve_path : String → String
  resolve_path path =
      if path == "~"
      then m.home
      else if m.texts.starts_with path "~/"
      then m.resolve_in m.home (m.strip_tilde path)
      else m.resolve path

  unfoldable pub is_path_like : String → Bool
  is_path_like value =
      (value == "~") || m.texts.starts_with value "~/" || m.texts.starts_with value "/"

  unfoldable pub should_search : String → Bool
  unfolding is_path_like
  should_search query = leb 2 (length (code_units query)) && not (is_path_like query)

  unfoldable pub display_path_of : String → String
  display_path_of path =
      let relative_path = m.relative m.home path in
      if not (m.texts.starts_with relative_path "..") && not (relative_path == "")
      then append "~/" relative_path
      else path

  unfoldable pub directory_matches : String → String → Bool
  unfolding display_path_of
  directory_matches path query =
      let lowered_query = m.texts.to_lower_case query in
      if m.texts.includes (m.texts.to_lower_case (m.basename path)) lowered_query
      then true
      else if not (m.texts.includes lowered_query "/")
      then false
      else m.texts.includes (m.texts.to_lower_case (display_path_of path)) lowered_query

  unfoldable pub visible_directory_entries : String → Option (List DirectoryEntry)
  visible_directory_entries path = elim (m.read_dir path) [
    | none ↦ none
    | some entries ↦ some (
        filter (λ entry. not (contains ignored_directory_names entry.name))
          (filter (λ entry. not (m.texts.starts_with entry.name "."))
            (filter (λ entry. entry.is_directory) entries)))
  ]

  unfoldable pub safe_visible_directory_entries : String → List DirectoryEntry
  unfolding visible_directory_entries
  safe_visible_directory_entries path = elim (visible_directory_entries path) [
    | none ↦ []
    | some entries ↦ entries
  ]

  abbrev pub entry_of : String → TuiFolderEntry
  entry_of path = record {
    name = m.basename path;
    path = path;
    display_path = some (display_path_of path);
  }

  -- The first visit of a directory of the queue.
  unfoldable pub visit : String → SearchState → String → ℕ → List (String × ℕ) → SearchState
  unfolding directory_matches safe_visible_directory_entries
  visit query s path depth rest = record s {
    queue =
        if leb search_max_depth depth
        then rest
        else rest
          ++ map (λ entry. (m.join path entry.name, depth + 1))
              (safe_visible_directory_entries path);
    matches = if directory_matches path query then s.matches ++ entry_of path ∷ [] else s.matches;
    visited = s.visited ++ path ∷ [];
  }

  unfoldable pub search_round : String → SearchState → Round
  unfolding visit
  search_round query s = elim (s.queue) [
    | [] ↦ stopped s
    | (path, depth) ∷ rest ↦
        if leb search_max_results (length s.matches)
        then stopped (record s { truncated = true })
        else if leb search_max_visited (length s.visited)
        then stopped (record s { reached_visit_limit = true })
        else if contains s.visited path
        then goes_on (record s { queue = rest })
        else goes_on (visit query s path depth rest)
  ]

  -- `while (queue.length > 0)`, with fuel, about which is Folders/Ends.antt.
  unfoldable pub search_queue : ℕ → String → SearchState → Option SearchState
  unfolding search_round
  search_queue zero query s = none
  search_queue (suc fuel) query s = elim (search_round query s) [
    | stopped t ↦ some t
    | goes_on t ↦ search_queue fuel query t
  ]

  -- `for (const root of seenRoots)`.
  unfoldable pub search_all : ℕ → String → SearchState → List String → Option SearchState
  unfolding search_queue
  search_all fuel query s [] = some s
  search_all fuel query s (root ∷ roots) =
      elim (search_queue fuel query (record s { queue = (root, 0) ∷ [] })) [
        | none ↦ none
        | some t ↦ elim (t.truncated || t.reached_visit_limit) [
          | true ↦ some t
          | false ↦ search_all fuel query t roots
        ]
      ]

  unfoldable pub search_roots : List String
  search_roots =
      append m.home "/Desktop/projects"
      ∷ append m.home "/Developer"
      ∷ append m.home "/src"
      ∷ append m.home "/code"
      ∷ m.dirname (m.resolve m.cwd)
      ∷ []

  unfoldable pub unique_paths : List String → List String → List String
  unique_paths seen [] = []
  unique_paths seen (path ∷ paths) =
      let resolved_path = m.resolve path in
      let repeated = unique_paths seen paths in
      let fresh = resolved_path ∷ unique_paths (seen ++ resolved_path ∷ []) paths in
      if contains seen resolved_path then repeated else fresh

  unfoldable pub search_rank : String → TuiFolderEntry → ℕ
  unfolding display_path_of
  search_rank query entry =
      let name = m.texts.to_lower_case entry.name in
      let path = m.texts.to_lower_case (display_path_of entry.path) in
      if name == query
      then 0
      else if m.texts.starts_with name query
      then 1
      else if m.texts.includes path (append "/" query)
      then 2
      else 3

  -- `left.displayPath?.localeCompare(right.displayPath ?? "") || 0`.
  abbrev pub compare_displayed : Option String → Option String → Ordering
  compare_displayed none right = eq
  compare_displayed (some left) none = m.platform.locale_compare left ""
  compare_displayed (some left) (some right) = m.platform.locale_compare left right

  unfoldable pub sort_search_results : List TuiFolderEntry → String → List TuiFolderEntry
  unfolding search_rank
  sort_search_results entries query =
      let lowered = m.texts.to_lower_case query in
      sort
        (λ left right.
          or_compare (compare (search_rank lowered left) (search_rank lowered right))
            (compare_displayed left.display_path right.display_path))
        entries

  abbrev pub nothing_found : SearchState
  nothing_found = record {
    queue = [];
    matches = [];
    visited = [];
    truncated = false;
    reached_visit_limit = false;
  }

  abbrev pub search_result : String → SearchState → TuiFolderSearchResult
  search_result query s = record {
    query = query;
    entries = sort_search_results s.matches query;
    truncated = s.truncated;
  }

  abbrev pub seen_roots : List String
  seen_roots = unique_paths [] (map resolve_path search_roots)

  unfoldable pub search_directories : ℕ → String → Option TuiFolderSearchResult
  unfolding search_all search_roots unique_paths sort_search_results should_search resolve_path
  search_directories fuel query =
      let normalized_query = m.texts.trim query in
      elim (should_search normalized_query) [
        | false ↦ some (record { query = normalized_query; entries = []; truncated = false })
        | true ↦ elim (search_all fuel normalized_query nothing_found seen_roots) [
          | none ↦ none
          | some s ↦ some (search_result normalized_query s)
        ]
      ]

  -- `cache.keys().next().value`.
  abbrev pub without_oldest : Dict String TuiFolderReadResult → Dict String TuiFolderReadResult
  without_oldest [] = []
  without_oldest ((path, result) ∷ cache) = cache

  abbrev pub compare_names : TuiFolderEntry → TuiFolderEntry → Ordering
  compare_names left right = m.platform.locale_compare left.name right.name

  abbrev pub read_result : String → List DirectoryEntry → TuiFolderReadResult
  read_result resolved_path entries = record {
    path = resolved_path;
    entries = sort compare_names (
        map
          (λ entry. record {
            name = entry.name;
            path = m.join resolved_path entry.name;
            display_path = none;
          })
          entries);
  }

  abbrev pub remember :
      Dict String TuiFolderReadResult
      → String
      → TuiFolderReadResult
      → Dict String TuiFolderReadResult
  remember cache path result =
      let cached = set cache path result in
      if ltb 50 (size cached) then without_oldest cached else cached

  unfoldable pub read_directory :
      Dict String TuiFolderReadResult
      → String
      → Dict String TuiFolderReadResult × Option TuiFolderReadResult
  unfolding resolve_path visible_directory_entries
  read_directory cache path =
      let resolved_path = resolve_path path in
      elim (get cache resolved_path) [
        | some cached ↦ (cache, some cached)
        | none ↦ elim (visible_directory_entries resolved_path) [
          | none ↦ (cache, none)
          | some entries ↦
              let result = read_result resolved_path entries in
              (remember cache resolved_path result, some result)
        ]
      ]

  -- The loop of `findGitRoot`, with fuel.
  unfoldable pub find_git_root : ℕ → String → Option (Option String)
  find_git_root zero current = none
  find_git_root (suc fuel) current =
      let further = find_git_root fuel (m.dirname current) in
      if m.has_git_marker current
      then some (some current)
      else if m.dirname current == current
      then some none
      else further

  abbrev pub last_part : List String → Option String
  last_part [] = none
  last_part (part ∷ []) = some part
  last_part (part ∷ parts) = last_part parts

  unfoldable pub label_from_path : String → String
  label_from_path path = elim (last_part (filter (λ part. not (part == "")) (m.split path))) [
    | none ↦ "project"
    | some label ↦ label
  ]

  unfoldable pub project_id_from_label : String → String
  project_id_from_label label =
      let id = m.strip_dashes (m.dash_others (m.texts.to_lower_case (m.texts.trim label))) in
      if id == "" then "project" else id

  abbrev pub review_of : String → Option String → TuiFolderReview
  review_of selected_path git_root =
      let label = label_from_path (elim git_root [ none ↦ selected_path | some root ↦ root ]) in
      record {
        selected_path = selected_path;
        git_root = git_root;
        id = project_id_from_label label;
        label = label;
      }

  unfoldable pub review_folder : ℕ → String → Option TuiFolderReview
  unfolding resolve_path find_git_root label_from_path project_id_from_label
  review_folder fuel path =
      let selected_path = resolve_path path in
      elim (find_git_root fuel (m.resolve selected_path)) [
        | none ↦ none
        | some git_root ↦ some (review_of selected_path git_root)
      ]
