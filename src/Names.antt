-- ===== src/Names.antt =====
-- packages/runtime/src/names.ts: names for paths, windows and ids that stay the same from run to run. A
-- text is the list of its code points; what the code counts in it is of ASCII, where code units are
-- the same. `trim`, `toLowerCase` and the hexadecimal digest of the parts are parameters.
pub mod Shape
pub mod Bounds
pub mod Safe
pub mod Apart
mod Tests
use wosm.Base.{
  ℕ, zero, suc, ◌+◌, ◌-◌, Bool, true, false, not, ◌&&◌, ◌||◌, List, [], ◌∷◌, ◌++◌, map, Option,
  none, some, length, take, filter, any, ltb, leb, nat_beq, ◌==◌, nat_eq, if◌then◌else◌,
}
use mathlib.Core.List.{reverse}
use wosm.Base.Text.{Text, text_eq}

pub data StableNameProfile : Type 0 where
  id path_segment tmux_window : StableNameProfile

pub data StableNameHashMode : Type 0 where
  auto always : StableNameHashMode

pub record StableNameInput : Type 0 where
  pub prefix : Option Text
  pub profile : StableNameProfile
  pub display : List Text
  pub unique : List Text
  pub max_length : Option ℕ
  pub hash_length : Option ℕ
  pub hash : Option StableNameHashMode

pub record StableNameProfileOptions : Type 0 where
  pub separator : ℕ
  pub fallback : Text
  pub default_max_length : ℕ
  pub default_hash_length : ℕ
  pub lowercase : Bool
  pub allowed : ℕ → Bool

-- What is not of this code: methods of texts, and the digest.
pub record NameMethods : Type 0 where
  pub trim : Text → Text
  pub to_lower_case : Text → Text
  pub hex_digest : List Text → Text

abbrev pub in_range : ℕ → ℕ → ℕ → Bool
in_range low high c = leb low c && leb c high

-- `[a-z0-9._-]`, in code points.
abbrev pub lower_allowed : ℕ → Bool
lower_allowed c =
    in_range 97 122 c || in_range 48 57 c || nat_beq c 46 || nat_beq c 95 || nat_beq c 45

-- `[a-zA-Z0-9._-]`.
abbrev pub path_allowed : ℕ → Bool
path_allowed c = lower_allowed c || in_range 65 90 c

-- "item" and "worktree".
abbrev pub item : Text
item = 105 ∷ 116 ∷ 101 ∷ 109 ∷ []

abbrev pub worktree : Text
worktree = 119 ∷ 111 ∷ 114 ∷ 107 ∷ 116 ∷ 114 ∷ 101 ∷ 101 ∷ []

unfoldable pub profiles : StableNameProfile → StableNameProfileOptions
profiles id = record {
  separator = 95;
  fallback = item;
  default_max_length = 96;
  default_hash_length = 10;
  lowercase = false;
  allowed = λ c. path_allowed c || nat_beq c 58;
}
profiles path_segment = record {
  separator = 45;
  fallback = item;
  default_max_length = 96;
  default_hash_length = 10;
  lowercase = true;
  allowed = path_allowed;
}
profiles tmux_window = record {
  separator = 45;
  fallback = worktree;
  default_max_length = 48;
  default_hash_length = 10;
  lowercase = true;
  allowed = lower_allowed;
}

unfoldable pub collapse_separators : ℕ → Text → Text
collapse_separators separator [] = []
collapse_separators separator (c ∷ []) = c ∷ []
collapse_separators separator (c ∷ d ∷ cs) =
    let rest = collapse_separators separator (d ∷ cs) in
    if nat_beq c separator && nat_beq d separator then rest else c ∷ rest

unfoldable pub trim_start : ℕ → Text → Text
trim_start separator [] = []
trim_start separator (c ∷ cs) = if nat_beq c separator then trim_start separator cs else c ∷ cs

-- The separators at the end: what is left of one entry and of the trimmed rest behind it.
abbrev pub keep_before : ℕ → ℕ → Text → Text
keep_before separator c [] = if nat_beq c separator then [] else c ∷ []
keep_before separator c (d ∷ ds) = c ∷ d ∷ ds

unfoldable pub trim_end : ℕ → Text → Text
trim_end separator [] = []
trim_end separator (c ∷ cs) = keep_before separator c (trim_end separator cs)

unfoldable pub trim_separators : ℕ → Text → Text
unfolding trim_start trim_end
trim_separators separator value = trim_end separator (trim_start separator value)

-- `value || other`.
abbrev pub or_text : Text → Text → Text
or_text [] other = other
or_text (c ∷ cs) other = c ∷ cs

unfoldable pub normalize_name_part : NameMethods → Text → StableNameProfileOptions → Text × Bool
unfolding collapse_separators trim_separators
normalize_name_part methods value profile =
    let raw = methods.trim value in
    let prepared = if profile.lowercase then methods.to_lower_case raw else raw in
    let characters = map (λ c. if profile.allowed c then c else profile.separator) prepared in
    let trimmed =
      trim_separators profile.separator (collapse_separators profile.separator characters) in
    let normalized = or_text trimmed profile.fallback in (normalized, not (normalized == raw))

abbrev pub join : ℕ → List Text → Text
join separator [] = []
join separator (part ∷ []) = part
join separator (part ∷ next ∷ parts) = part ++ separator ∷ join separator (next ∷ parts)

abbrev pub is_empty : Text → Bool
is_empty [] = true
is_empty (c ∷ cs) = false

unfoldable pub compact_parts : List Text → ℕ → Text
unfolding trim_separators
compact_parts parts separator =
    trim_separators separator (join separator (filter (λ part. not (is_empty part)) parts))

unfoldable pub truncate_name : Text → ℕ → ℕ → Text
unfolding trim_separators
truncate_name value max_length separator =
    if leb (length value) max_length
    then value
    else trim_separators separator (take max_length value)

abbrev pub or_default {ℓ} : {A : Type ℓ} → Option A → A → A
or_default none other = other
or_default (some a) other = a

unfoldable pub stable_name_hash : NameMethods → List Text → ℕ → Text
stable_name_hash methods parts hash_length = take hash_length (methods.hex_digest parts)

-- `needsHash`.
abbrev pub needs_hash : StableNameHashMode → Bool → Bool → Bool
needs_hash always changed long = true
needs_hash auto changed long = changed || long

abbrev pub with_prefix : Option Text → List Text → List Text
with_prefix none display = display
with_prefix (some p) display = p ∷ display

unfoldable pub name_base : NameMethods → StableNameInput → Text × Bool
unfolding normalize_name_part compact_parts profiles
name_base methods input =
    let profile = profiles input.profile in
    let parts = with_prefix input.prefix input.display in
    let normalized_parts = map (λ part. normalize_name_part methods part profile) parts in
    (
      or_text (compact_parts (map (λ part. part.0) normalized_parts) profile.separator)
          profile.fallback,
      any (λ part. part.1) normalized_parts,
    )

-- The name of a base, without and with a hash.
abbrev pub plain_name : StableNameProfileOptions → Text → ℕ → Text
plain_name profile base max_length =
    or_text (truncate_name base max_length profile.separator) (take max_length profile.fallback)

abbrev pub hashed_name : StableNameProfileOptions → Text → Text → ℕ → Text
hashed_name profile base hash max_length =
    let suffix = profile.separator ∷ hash in
    if leb max_length (length suffix)
    then take max_length hash
    else or_text (truncate_name base (max_length - length suffix) profile.separator)
        profile.fallback
      ++ suffix

unfoldable pub stable_name : NameMethods → StableNameInput → Text
unfolding profiles name_base stable_name_hash truncate_name
stable_name methods input =
    let profile = profiles input.profile in
    let max_length = or_default input.max_length profile.default_max_length in
    let hash_length = or_default input.hash_length profile.default_hash_length in
    let base = name_base methods input in
    if needs_hash (or_default input.hash auto) base.1 (ltb max_length (length base.0))
    then hashed_name profile base.0 (stable_name_hash methods input.unique hash_length) max_length
    else plain_name profile base.0 max_length
