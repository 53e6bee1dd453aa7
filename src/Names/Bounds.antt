-- ===== src/Names/Bounds.antt =====
-- The length of a stable name.
use wosm.Base.{
  ℕ, suc, ◌-◌, ◌≤◌, ◌≡◌, refl, [], ◌∷◌, length, take, length-take, length-append, leb, ltb, arith,
  Bool-cases, inl, inr, subst,
}
use wosm.Base.Text.{Text}
use wosm.Names.{
  StableNameInput, StableNameProfile, id, path_segment, tmux_window, StableNameProfileOptions,
  NameMethods, profiles, name_base, compact_parts, or_text, or_default, plain_name, hashed_name,
  needs_hash, auto, stable_name, stable_name_hash, truncate_name,
}
use wosm.Names.Shape.{Begins, length-truncate_name, trimmed-Begins, truncate_name-Begins}

fallback-Begins : (p : StableNameProfile) → Begins (profiles p).separator (profiles p).fallback
unfolding profiles
fallback-Begins id = refl
fallback-Begins path_segment = refl
fallback-Begins tmux_window = refl

pub name_base-Begins :
    (methods : NameMethods) (input : StableNameInput)
    → Begins (profiles input.profile).separator (name_base methods input).0
unfolding name_base compact_parts
name_base-Begins methods input =
    trimmed-Begins (profiles input.profile).separator _ (profiles input.profile).fallback
      (fallback-Begins input.profile)

or_text_first : (separator : ℕ) (a b : Text) → Begins separator a → or_text a b ≡ a
or_text_first separator [] b h = absurd h
or_text_first separator (c ∷ cs) b h = refl

length-or_text_le : (a b : Text) (n : ℕ) → length a ≤ n → length b ≤ n → length (or_text a b) ≤ n
length-or_text_le [] b n h k = k
length-or_text_le (c ∷ cs) b n h k = h

length-plain_name :
    (profile : StableNameProfileOptions) (base : Text) (n : ℕ)
    → length (plain_name profile base n) ≤ n
length-plain_name profile base n =
    length-or_text_le (truncate_name base n profile.separator) (take n profile.fallback) n
      (length-truncate_name base n profile.separator)
      (omega (arith, length-take n profile.fallback))

length-hashed_name :
    (profile : StableNameProfileOptions) (base hash : Text) (n : ℕ)
    → Begins profile.separator base
    → length (hashed_name profile base hash n) ≤ n
length-hashed_name profile base hash n h = elim (Bool-cases (leb n (suc (length hash)))) [
  | inl short ↦ rw short (omega (arith, length-take n hash))
  | inr room ↦
      let k = n - suc (length hash) in
      let head = truncate_name base k profile.separator in
      let e : suc (k - 1) ≡ k = ground arith in
      let begins : Begins profile.separator head =
        subst (λ m. Begins profile.separator (truncate_name base m profile.separator)) e
          (truncate_name-Begins base (k - 1) profile.separator h) in
      rw (room, or_text_first profile.separator head profile.fallback begins)
        (ground (
          arith,
          length-append head (profile.separator ∷ hash),
          length-truncate_name base k profile.separator,
        ))
]

-- A stable name is no longer than the limit of its input, or else of its profile, for any parts, digest
-- and lengths.
pub stable_name_bounded :
    (methods : NameMethods) (input : StableNameInput)
    → length (stable_name methods input)
      ≤ or_default input.max_length (profiles input.profile).default_max_length
unfolding stable_name
stable_name_bounded methods input =
    let profile = profiles input.profile in
    let n = or_default input.max_length profile.default_max_length in
    let base = name_base methods input in
    let hash =
      stable_name_hash methods input.unique
        (or_default input.hash_length profile.default_hash_length) in
    elim (Bool-cases (needs_hash (or_default input.hash auto) base.1 (ltb n (length base.0)))) [
      | inl hashed ↦
          rw hashed (length-hashed_name profile base.0 hash n (name_base-Begins methods input))
      | inr plain ↦ rw plain (length-plain_name profile base.0 n)
    ]
