-- ===== src/Base/Platform.antt =====
-- What the code uses of the JavaScript platform and reads no source of: the order of texts under the
-- user's locale and the milliseconds of a timestamp, which is taken to be valid and from 1970 on.
use Prim.Native.Nat.{ℕ, Ordering, compare}
use Prim.Native.String.{String, len}
use mathlib.Core.Path.{◌≡◌}
use mathlib.Core.Bool.{Bool}
use wosm.Base.Sort.{flip, flip-compare}

pub record Platform : Type 0 where
  pub locale_compare : String → String → Ordering
  pub date_parse : String → ℕ

-- `localeCompare` of two texts the other way round is the opposite.
abbrev pub IsConsistent : Platform → Type 0
IsConsistent p = (a b : String) → p.locale_compare b a ≡ flip (p.locale_compare a b)

-- One platform: texts by their length.
abbrev pub by_length : Platform
by_length = record { locale_compare = λ a b. compare (len a) (len b); date_parse = λ s. len s }

pub by_length-IsConsistent : IsConsistent by_length
by_length-IsConsistent a b = flip-compare (len a) (len b)

-- Methods of texts; `to_lower_case` is the dashboard's `toLocaleLowerCase` too, and `without_trailing_slashes` is `replace(/\/+$/g, "")`.
pub record TextMethods : Type 0 where
  pub trim : String → String
  pub without_trailing_slashes : String → String
  pub slice : String → ℕ → String
  pub starts_with : String → String → Bool
  pub includes : String → String → Bool
  pub to_lower_case : String → String
