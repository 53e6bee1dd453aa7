-- ===== src/Base/All.antt =====
-- A property of every entry of a list.
use Prim.Native.Nat.{ℕ, zero, suc}
use mathlib.Core.Path.{◌≡◌, refl, subst}
use mathlib.Core.Logic.{inl, inr}
use mathlib.Core.Bool.{Bool, true, false}
use mathlib.Core.List.{List, [], ◌∷◌, ◌++◌}
use mathlib.Core.Option.{some}
use native.Mathlib.Omega.{arith}
use wosm.Base.Tests.{Equality, ◌==◌, ==-refl, Bool-cases}
use wosm.Base.Lists.{take, drop, filter, find, contains}

module _ {ℓ κ} {A : Type ℓ} where
  abbrev pub All : (A → Type κ) → List A → Type κ
  All P [] = Unit
  All P (x ∷ xs) = P x × All P xs

  pub All-append : (P : A → Type κ) (xs ys : List A) → All P xs → All P ys → All P (xs ++ ys)
  All-append P [] ys h k = k
  All-append P (x ∷ xs) ys h k = (h.0, All-append P xs ys h.1 k)

  pub All-take : (P : A → Type κ) (n : ℕ) (xs : List A) → All P xs → All P (take n xs)
  All-take P zero xs h = tt
  All-take P (suc n) [] h = tt
  All-take P (suc n) (x ∷ xs) h = (h.0, All-take P n xs h.1)

  pub All-drop : (P : A → Type κ) (n : ℕ) (xs : List A) → All P xs → All P (drop n xs)
  All-drop P zero xs h = h
  All-drop P (suc n) [] h = tt
  All-drop P (suc n) (x ∷ xs) h = All-drop P n xs h.1

  pub find-All :
      (P : A → Type κ) (p : A → Bool) (xs : List A) (x : A) → All P xs → find p xs ≡ some x → P x
  find-All P p [] x h e = cc
  find-All P p (y ∷ ys) x h e = elim (Bool-cases (p y)) [
    | inl hit ↦ subst P (ground arith) h.0
    | inr miss ↦ find-All P p ys x h.1 (ground arith)
  ]

  pub All-mono :
      {Q : A → Type κ} (P : A → Type κ)
      → ((x : A) → P x → Q x)
      → (xs : List A) → All P xs
      → All Q xs
  All-mono P f [] h = tt
  All-mono P f (x ∷ xs) h = (f x h.0, All-mono P f xs h.1)

  pub All-filter :
      (P : A → Type κ) (p : A → Bool) (xs : List A)
      → All P xs
      → All (λ x. P x × (p x ≡ true)) (filter p xs)
  All-filter P p [] h = tt
  All-filter P p (x ∷ xs) h = elim (Bool-cases (p x)) [
    | inl hit ↦ rw hit ((h.0, hit), All-filter P p xs h.1)
    | inr miss ↦ rw miss (All-filter P p xs h.1)
  ]

module _ {ℓ} {A : Type ℓ} ⦃e : Equality A⦄ where
  -- A list has its own entries.
  has_more :
      (x : A) (ys xs : List A)
      → All (λ y. contains xs y ≡ true) ys
      → All (λ y. contains (x ∷ xs) y ≡ true) ys
  has_more x [] xs h = tt
  has_more x (y ∷ ys) xs h = (ground (arith, h.0), has_more x ys xs h.1)

  pub contains_own : (xs : List A) → All (λ x. contains xs x ≡ true) xs
  contains_own [] = tt
  contains_own (x ∷ xs) = (ground (arith, ==-refl x), has_more x xs xs (contains_own xs))

  -- A key that none of the known ones is, is not among those that are known.
  pub not_among :
      (known ks : List A) (k : A)
      → contains known k ≡ false
      → All (λ j. contains known j ≡ true) ks
      → contains ks k ≡ false
  not_among known [] k h all = refl
  not_among known (j ∷ ks) k h all = elim (Bool-cases (j == k)) [
    | inl same ↦
        let own = subst (λ i. contains known i ≡ true) ((e.same_iff j k).0 same) all.0 in
        ground (arith, own, h)
    | inr other ↦ rw other (not_among known ks k h all.1)
  ]
