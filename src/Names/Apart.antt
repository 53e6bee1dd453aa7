-- ===== src/Names/Apart.antt =====
-- Names that carry a hash, compared.
use wosm.Base.{
  ℕ, suc, ◌+◌, ◌-◌, ◌≤◌, ◌<◌, ◌≡◌, refl, false, some, List, [], ◌∷◌, ◌++◌, length, length-append,
  length-take, leb, lt→leb_false, arith, ap, sym, ◌∙◌,
}
use wosm.Base.Text.{Text}
use wosm.Names.{
  StableNameInput, NameMethods, profiles, name_base, or_text, always, stable_name, stable_name_hash,
  truncate_name,
}

-- Two texts with ends of one length are equal only if the ends are.
end_of_append : (a b x y : Text) → length x ≡ length y → a ++ x ≡ b ++ y → x ≡ y
end_of_append [] [] x y l h = h
end_of_append [] (d ∷ b) x y l h = absurd (omega (arith, ap length h, length-append b y))
end_of_append (c ∷ a) [] x y l h = absurd (omega (arith, ap length h, length-append a x))
end_of_append (c ∷ a) (d ∷ b) x y l h = end_of_append a b x y l (cc h)

-- The text before the separator of a hash.
abbrev head_of : NameMethods → StableNameInput → ℕ → ℕ → Text
head_of methods input n m =
    let profile = profiles input.profile in
    or_text
      (truncate_name (name_base methods input).0
        (n - suc (length (stable_name_hash methods input.unique m))) profile.separator)
      profile.fallback

has_room : (n : ℕ) (hash : Text) → suc (length hash) < n → leb n (suc (length hash)) ≡ false
has_room n hash h = lt→leb_false n (suc (length hash)) h

module _ (methods : NameMethods) (n m : ℕ) where
  short :
      (input : StableNameInput)
      → m + 1 < n
      → suc (length (stable_name_hash methods input.unique m)) < n
  unfolding stable_name_hash
  short input room = omega (arith, length-take m (methods.hex_digest input.unique))

  length-hash :
      (parts : List Text)
      → m ≤ length (methods.hex_digest parts)
      → length (stable_name_hash methods parts m) ≡ m
  unfolding stable_name_hash
  length-hash parts h = omega (arith, length-take m (methods.hex_digest parts))

  ends_in_hash :
      (input : StableNameInput)
      → input.hash ≡ some always
      → input.max_length ≡ some n
      → input.hash_length ≡ some m
      → m + 1 < n
      → stable_name methods input
        ≡ head_of methods input n m
          ++ (profiles input.profile).separator ∷ stable_name_hash methods input.unique m
  unfolding stable_name
  ends_in_hash input h hn hm room =
      rw (h, hn, hm, has_room n (stable_name_hash methods input.unique m) (short input room)) refl

  -- Where a hash is asked for and finds room, and a digest is long enough, two names of one length limit
  -- are equal only if the hashes of what they are unique by are.
  pub names_apart :
      (a b : StableNameInput)
      → a.hash ≡ some always
      → b.hash ≡ some always
      → a.max_length ≡ some n
      → b.max_length ≡ some n
      → a.hash_length ≡ some m
      → b.hash_length ≡ some m
      → m + 1 < n
      → ((parts : List Text) → m ≤ length (methods.hex_digest parts))
      → stable_name methods a ≡ stable_name methods b
      → stable_name_hash methods a.unique m ≡ stable_name_hash methods b.unique m
  names_apart a b ha hb na nb ma mb room long h =
      let lengths : suc (length (stable_name_hash methods a.unique m))
          ≡ suc (length (stable_name_hash methods b.unique m)) =
        ap suc
          (length-hash a.unique (long a.unique) ∙ sym (length-hash b.unique (long b.unique))) in
      let ends =
        end_of_append (head_of methods a n m) (head_of methods b n m) _ _ lengths
          (sym (ends_in_hash a ha na ma room) ∙ h ∙ ends_in_hash b hb nb mb room) in
      cc ends
