-- ===== src/Forms/Choices/Keys.antt =====
-- The keys of choices, and the values that they are shown with.
use wosm.Base.{
  ℕ, zero, suc, String, true, ◌≡◌, refl, List, [], ◌∷◌, some, length, take, find, contains,
  get_elem?, IsDistinct, ◌==◌, ==-refl, ==-cases, string_eq, arith, Option-cases, inl, inr, subst,
}
use wosm.Base.All.{All, All-take, find-All}
use wosm.Forms.Choices.{KeyedChoice, key_choices, with_keys, choice_value_by_key, selection_keys}

module _ {ℓ} {T : Type ℓ} where
  with_keys-key :
      (ks : List String) (xs : List T) (i : ℕ) (c : KeyedChoice T)
      → get_elem? (with_keys ks xs) i ≡ some c
      → contains ks c.key ≡ true
  with_keys-key [] xs i c h = cc
  with_keys-key (k ∷ ks) [] i c h = cc
  with_keys-key (k ∷ ks) (x ∷ xs) zero c h = ground (arith, ==-refl k)
  with_keys-key (k ∷ ks) (x ∷ xs) (suc i) c h = ground (arith, with_keys-key ks xs i c)

  find_keyed :
      (ks : List String) (xs : List T) (i : ℕ) (c : KeyedChoice T)
      → IsDistinct ks
      → get_elem? (with_keys ks xs) i ≡ some c
      → (find (λ d. d.key == c.key) (with_keys ks xs) ≡ some c) × (get_elem? xs i ≡ some c.value)
  find_keyed [] xs i c d h = cc
  find_keyed (k ∷ ks) [] i c d h = cc
  find_keyed (k ∷ ks) (x ∷ xs) zero c d h = ground (arith, ==-refl k)
  find_keyed (k ∷ ks) (x ∷ xs) (suc i) c d h = elim (==-cases k c.key) [
    | inl same ↦ ground (arith, with_keys-key ks xs i c, same.1)
    | inr other ↦ ground (arith, find_keyed ks xs i c)
  ]

selection_keys-IsDistinct : IsDistinct selection_keys
selection_keys-IsDistinct = ground arith

module _ {ℓ} {T : Type ℓ} where
  get_elem?-take :
      (n i : ℕ) (xs : List T) (x : T) → get_elem? (take n xs) i ≡ some x → get_elem? xs i ≡ some x
  get_elem?-take zero i xs x h = cc
  get_elem?-take (suc n) i [] x h = cc
  get_elem?-take (suc n) zero (y ∷ ys) x h = h
  get_elem?-take (suc n) (suc i) (y ∷ ys) x h = get_elem?-take n i ys x h

  -- The key of the choice at an index chooses the value at that index.
  pub chosen_by_key :
      (values : List T) (i : ℕ) (c : KeyedChoice T)
      → get_elem? (key_choices values) i ≡ some c
      → (choice_value_by_key (key_choices values) c.key ≡ some c.value)
        × (get_elem? values i ≡ some c.value)
  unfolding key_choices choice_value_by_key
  chosen_by_key values i c h =
      let shown = take (length selection_keys) values in
      let both = find_keyed selection_keys shown i c selection_keys-IsDistinct h in
      (rw both.0 refl, get_elem?-take (length selection_keys) i values c.value both.1)

module _ {ℓ κ} {T : Type ℓ} (P : T → Type κ) where
  with_keys-All :
      (ks : List String) (xs : List T)
      → All P xs
      → All (λ (c : KeyedChoice T). P c.value) (with_keys ks xs)
  with_keys-All [] xs h = tt
  with_keys-All (k ∷ ks) [] h = tt
  with_keys-All (k ∷ ks) (x ∷ xs) h = (h.0, with_keys-All ks xs h.1)

  pub key_choices-All :
      (xs : List T) → All P xs → All (λ (c : KeyedChoice T). P c.value) (key_choices xs)
  unfolding key_choices
  key_choices-All xs h = with_keys-All selection_keys _ (All-take P (length selection_keys) xs h)

module _ {ℓ κ} {T : Type ℓ} where
  pub choice-All :
      (P : T → Type κ) (choices : List (KeyedChoice T)) (input : String) (value : T)
      → All (λ (c : KeyedChoice T). P c.value) choices
      → choice_value_by_key choices input ≡ some value
      → P value
  unfolding choice_value_by_key
  choice-All P choices input value h e =
      elim (Option-cases (find (λ choice. choice.key == input) choices)) [
        | inl missing ↦ absurd (ground arith)
        | inr (c, found) ↦ subst P (ground arith) (
            find-All (λ (c : KeyedChoice T). P c.value) (λ choice. choice.key == input) choices c h
              found)
      ]
