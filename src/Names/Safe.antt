-- ===== src/Names/Safe.antt =====
-- The characters of a stable name.
use wosm.Base.{
  ℕ, suc, ◌-◌, ◌≡◌, refl, Bool, true, List, [], ◌∷◌, map, not, ◌||◌, ◌&&◌, length, take, nat_beq,
  leb, ltb, if◌then◌else◌, arith, Bool-cases, inl, inr,
}
use wosm.Base.All.{All, All-append, All-take, All-filter, All-mono}
use wosm.Base.Text.{Text}
use wosm.Names.{
  StableNameInput, StableNameProfile, id, path_segment, tmux_window, NameMethods, profiles,
  in_range, normalize_name_part, collapse_separators, trim_start, trim_end, keep_before,
  trim_separators, name_base, compact_parts, join, is_empty, or_text, or_default, plain_name,
  hashed_name, needs_hash, auto, stable_name, stable_name_hash, truncate_name, with_prefix,
}

-- What the digest is made of: `[0-9a-f]`.
abbrev pub is_hex : ℕ → Bool
is_hex c = in_range 48 57 c || in_range 97 102 c

module _ (ok : ℕ → Bool) where
  abbrev pub Fits : Text → Type 0
  Fits = All (λ c. ok c ≡ true)

  keep_before-Fits :
      (separator c : ℕ) (cs : Text) → ok c ≡ true → Fits cs → Fits (keep_before separator c cs)
  keep_before-Fits separator c [] h k = elim (Bool-cases (nat_beq c separator)) [
    | inl drop ↦ rw drop tt
    | inr keep ↦ rw keep (h, tt)
  ]
  keep_before-Fits separator c (d ∷ ds) h k = (h, k)

  trim_end-Fits : (separator : ℕ) (cs : Text) → Fits cs → Fits (trim_end separator cs)
  unfolding trim_end
  trim_end-Fits separator [] h = tt
  trim_end-Fits separator (c ∷ cs) h =
      keep_before-Fits separator c (trim_end separator cs) h.0 (trim_end-Fits separator cs h.1)

  trim_start-Fits : (separator : ℕ) (cs : Text) → Fits cs → Fits (trim_start separator cs)
  unfolding trim_start
  trim_start-Fits separator [] h = tt
  trim_start-Fits separator (c ∷ cs) h = elim (Bool-cases (nat_beq c separator)) [
    | inl skip ↦ rw skip (trim_start-Fits separator cs h.1)
    | inr keep ↦ rw keep h
  ]

  trim_separators-Fits : (separator : ℕ) (cs : Text) → Fits cs → Fits (trim_separators separator cs)
  unfolding trim_separators
  trim_separators-Fits separator cs h =
      trim_end-Fits separator (trim_start separator cs) (trim_start-Fits separator cs h)

  collapse_separators-Fits :
      (separator : ℕ) (cs : Text) → Fits cs → Fits (collapse_separators separator cs)
  unfolding collapse_separators
  collapse_separators-Fits separator [] h = tt
  collapse_separators-Fits separator (c ∷ []) h = h
  collapse_separators-Fits separator (c ∷ d ∷ cs) h =
      elim (Bool-cases (nat_beq c separator && nat_beq d separator)) [
        | inl both ↦ rw both (collapse_separators-Fits separator (d ∷ cs) h.1)
        | inr keep ↦ rw keep (h.0, collapse_separators-Fits separator (d ∷ cs) h.1)
      ]

  or_text-Fits : (a b : Text) → Fits a → Fits b → Fits (or_text a b)
  or_text-Fits [] b h k = k
  or_text-Fits (c ∷ cs) b h k = h

  truncate_name-Fits :
      (value : Text) (n separator : ℕ) → Fits value → Fits (truncate_name value n separator)
  unfolding truncate_name
  truncate_name-Fits value n separator h = elim (Bool-cases (leb (length value) n)) [
    | inl fits ↦ rw fits h
    | inr cut ↦
        rw cut
          (trim_separators-Fits separator (take n value) (All-take (λ c. ok c ≡ true) n value h))
  ]

  map_allowed-Fits :
      (separator : ℕ) (cs : Text)
      → ok separator ≡ true
      → Fits (map (λ c. if ok c then c else separator) cs)
  map_allowed-Fits separator [] h = tt
  map_allowed-Fits separator (c ∷ cs) h = elim (Bool-cases (ok c)) [
    | inl fits ↦ rw fits (fits, map_allowed-Fits separator cs h)
    | inr other ↦ rw other (h, map_allowed-Fits separator cs h)
  ]

  join-Fits :
      (separator : ℕ) (parts : List Text)
      → ok separator ≡ true
      → All Fits parts
      → Fits (join separator parts)
  join-Fits separator [] h k = tt
  join-Fits separator (part ∷ []) h k = k.0
  join-Fits separator (part ∷ next ∷ parts) h k =
      All-append (λ c. ok c ≡ true) part _ k.0 (h, join-Fits separator (next ∷ parts) h k.1)

  compact_parts-Fits :
      (separator : ℕ) (parts : List Text)
      → ok separator ≡ true
      → All Fits parts
      → Fits (compact_parts parts separator)
  unfolding compact_parts
  compact_parts-Fits separator parts h k = trim_separators-Fits separator _ (
      join-Fits separator _ h (
        All-mono (λ part. Fits part × (not (is_empty part) ≡ true)) (λ part f. f.0) _
          (All-filter Fits (λ part. not (is_empty part)) parts k)))

-- The separator and the fallback of a profile are of its own characters, and so is a digest.
profile-Fits :
    (p : StableNameProfile)
    → ((profiles p).allowed (profiles p).separator ≡ true)
      × Fits (profiles p).allowed (profiles p).fallback
unfolding profiles
profile-Fits id = (refl, (refl, (refl, (refl, (refl, tt)))))
profile-Fits path_segment = (refl, (refl, (refl, (refl, (refl, tt)))))
profile-Fits tmux_window =
    (refl, (refl, (refl, (refl, (refl, (refl, (refl, (refl, (refl, tt)))))))))

hex-Fits : (p : StableNameProfile) (cs : Text) → Fits is_hex cs → Fits (profiles p).allowed cs
unfolding profiles
hex-Fits p [] h = tt
hex-Fits id (c ∷ cs) h = (ground (arith, h.0), hex-Fits id cs h.1)
hex-Fits path_segment (c ∷ cs) h = (ground (arith, h.0), hex-Fits path_segment cs h.1)
hex-Fits tmux_window (c ∷ cs) h = (ground (arith, h.0), hex-Fits tmux_window cs h.1)

module _ (methods : NameMethods) (p : StableNameProfile) where
  abbrev Allowed : Text → Type 0
  Allowed = Fits (profiles p).allowed

  part-Allowed : (part : Text) → Allowed (normalize_name_part methods part (profiles p)).0
  unfolding normalize_name_part
  part-Allowed part =
      let ok = (profiles p).allowed in
      let separator = (profiles p).separator in
      let fits = profile-Fits p in
      or_text-Fits ok _ _
        (trim_separators-Fits ok separator _
          (collapse_separators-Fits ok separator _ (map_allowed-Fits ok separator _ fits.0)))
        fits.1

  parts-Allowed :
      (parts : List Text)
      → All Allowed
          (map (λ part. part.0) (map (λ part. normalize_name_part methods part (profiles p)) parts))
  parts-Allowed [] = tt
  parts-Allowed (part ∷ parts) = (part-Allowed part, parts-Allowed parts)

  plain-Allowed : (base : Text) (n : ℕ) → Allowed base → Allowed (plain_name (profiles p) base n)
  plain-Allowed base n h =
      let ok = (profiles p).allowed in
      or_text-Fits ok _ _ (truncate_name-Fits ok base n (profiles p).separator h)
        (All-take (λ c. ok c ≡ true) n (profiles p).fallback (profile-Fits p).1)

  hashed-Allowed :
      (base hash : Text) (n : ℕ)
      → Allowed base
      → Allowed hash
      → Allowed (hashed_name (profiles p) base hash n)
  hashed-Allowed base hash n h k =
      let ok = (profiles p).allowed in
      let fits = profile-Fits p in
      elim (Bool-cases (leb n (suc (length hash)))) [
        | inl short ↦ rw short (All-take (λ c. ok c ≡ true) n hash k)
        | inr room ↦ rw room (
            All-append (λ c. ok c ≡ true) _ _
              (or_text-Fits ok _ _
                (truncate_name-Fits ok base (n - suc (length hash)) (profiles p).separator h)
                fits.1)
              (fits.0, k))
      ]

name_base-Allowed :
    (methods : NameMethods) (input : StableNameInput)
    → Allowed methods input.profile (name_base methods input).0
unfolding name_base
name_base-Allowed methods input =
    let p = input.profile in
    let fits = profile-Fits p in
    or_text-Fits (profiles p).allowed _ _
      (compact_parts-Fits (profiles p).allowed (profiles p).separator _ fits.0
        (parts-Allowed methods p (with_prefix input.prefix input.display)))
      fits.1

-- Where a digest is of hexadecimal digits, every character of a stable name is one that its profile
-- allows.
pub stable_name-Allowed :
    (methods : NameMethods) (input : StableNameInput)
    → ((parts : List Text) → All (λ c. is_hex c ≡ true) (methods.hex_digest parts))
    → All (λ c. (profiles input.profile).allowed c ≡ true) (stable_name methods input)
unfolding stable_name stable_name_hash
stable_name-Allowed methods input hex =
    let p = input.profile in
    let n = or_default input.max_length (profiles p).default_max_length in
    let m = or_default input.hash_length (profiles p).default_hash_length in
    let base = name_base methods input in
    let good = name_base-Allowed methods input in
    let hash =
      hex-Fits p (take m (methods.hex_digest input.unique))
        (All-take (λ c. is_hex c ≡ true) m (methods.hex_digest input.unique) (hex input.unique)) in
    elim (Bool-cases (needs_hash (or_default input.hash auto) base.1 (ltb n (length base.0)))) [
      | inl hashed ↦ rw hashed (hashed-Allowed methods p base.0 _ n good hash)
      | inr plain ↦ rw plain (plain-Allowed methods p base.0 n good)
    ]
