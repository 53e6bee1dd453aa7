-- ===== src/Names/Tests.antt =====
-- Names of a session's branch.
use wosm.Base.{◌≤◌, ◌≡◌, refl, true, none, some, [], ◌∷◌, length, arith}
use wosm.Base.All.{All}
use wosm.Base.Text.{Text, code_points}
use wosm.Names.{StableNameInput, path_segment, always, NameMethods, profiles, stable_name}
use wosm.Names.Bounds.{stable_name_bounded}
use wosm.Names.Safe.{stable_name-Allowed}

-- A digest that is the same for all parts.
abbrev digest : Text
digest = code_points "0a1b2c3d4e5f"

abbrev methods : NameMethods
methods = record { trim = λ s. s; to_lower_case = λ s. s; hex_digest = λ parts. digest }

abbrev branch : StableNameInput
branch = record {
  prefix = none;
  profile = path_segment;
  display = code_points "my app" ∷ code_points "x1" ∷ [];
  unique = [];
  max_length = none;
  hash_length = none;
  hash = none;
}

-- The space becomes a separator, and the change a hash.
branch_name : stable_name methods branch ≡ code_points "my-app-x1-0a1b2c3d4e"
unfolding stable_name
branch_name = refl

abbrev cut : StableNameInput
cut = record branch { max_length = some 14; hash_length = some 4; hash = some always }

cut_name : stable_name methods cut ≡ code_points "my-app-x1-0a1b"
unfolding stable_name
cut_name = refl

stable_name_bounded_example : length (stable_name methods cut) ≤ 14
stable_name_bounded_example = stable_name_bounded methods cut

stable_name-Allowed_example :
    All (λ c. (profiles path_segment).allowed c ≡ true) (stable_name methods branch)
stable_name-Allowed_example = stable_name-Allowed methods branch (λ parts. ground arith)
