-- ===== src/Folders/Tests.antt =====
-- A small machine: a home with one folder of sources and a repository in it.
use Prim.Native.String.{◌++◌ as append}
use wosm.Base.{
  ℕ, suc, ◌<◌, String, Bool, true, false, ◌≢◌, List, [], ◌∷◌, map, Option, none, some, ◌≡◌, refl,
  arith, ◌==◌, string_eq, if◌then◌else◌, ◌+◌, Bool-cases, inl, inr,
}
use wosm.Base.Platform.{TextMethods, by_length}
use wosm.Folders.{
  Machine, TuiFolderSearchResult, TuiFolderReview, entry_of, search_directories, resolve_path,
  review_folder,
}
use wosm.Folders.Ends.{IsMarked, search_directories_ends, review_folder_ends}
use wosm.Folders.Found.{Finds, search_directories_found}

abbrev texts : TextMethods
texts = record {
  trim = λ s. s;
  without_trailing_slashes = λ s. s;
  slice = λ s n. s;
  starts_with = λ s t. false;
  includes = λ s t. s == t;
  to_lower_case = λ s. s;
}

abbrev up : String → String
up path = if path == "/h/src/api" then "/h/src" else if path == "/h/src" then "/h" else path

abbrev small : Machine
small = record {
  platform = by_length;
  texts = texts;
  basename = λ p. if p == "/h/src/api" then "api" else p;
  dirname = up;
  resolve = λ p. p;
  resolve_in = λ home p. p;
  join = λ a b. append a (append "/" b);
  relative = λ a b. "";
  strip_tilde = λ p. p;
  split = λ p. p ∷ [];
  dash_others = λ s. s;
  strip_dashes = λ s. s;
  home = "/h";
  cwd = "/h/src";
  read_dir =
      λ p. if p == "/h/src" then some (record { name = "api"; is_directory = true } ∷ []) else none;
  has_git_marker = λ p. p == "/h/src/api";
}

abbrev api_found : TuiFolderSearchResult
api_found = record { query = "api"; entries = entry_of small "/h/src/api" ∷ []; truncated = false }

finds_api : search_directories small 20 "api" ≡ some api_found
unfolding search_directories wosm.Base.Sort.sort
finds_api = refl

abbrev depth : String → ℕ
depth path = if path == "/h/src/api" then 2 else if path == "/h/src" then 1 else 0

rises : (path : String) → up path ≢ path → depth (up path) < depth path
rises path lower = elim (Bool-cases (path == "/h/src/api")) [
  | inl file ↦ rw file (omega arith)
  | inr other ↦ elim (Bool-cases (path == "/h/src")) [
    | inl src ↦ rw (other, src) (omega arith)
    | inr top ↦ absurd (lower (rw (other, top) refl))
  ]
]

search_directories_ends_example :
    (fuel : ℕ) × (r : TuiFolderSearchResult) × ((more : ℕ)
      → search_directories small (fuel + more) "api" ≡ some r)
search_directories_ends_example = search_directories_ends small "api"

review_folder_ends_example :
    (r : TuiFolderReview) × (review_folder small (suc (depth "/h/src/api")) "/h/src/api" ≡ some r)
    × IsMarked small depth rises r.git_root
unfolding resolve_path
review_folder_ends_example = review_folder_ends small depth rises "/h/src/api"

search_directories_found_example : (api_found.query ≡ "api") × Finds small 20 api_found
search_directories_found_example = search_directories_found small 20 "api" api_found finds_api
