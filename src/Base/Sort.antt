-- ===== src/Base/Sort.antt =====
-- `Array.prototype.sort`: a stable sort by a comparator, as an insertion sort.
use Prim.Native.Nat.{ℕ, Ordering, lt, eq, gt, compare}
use mathlib.Core.Path.{◌≡◌}
use mathlib.Core.Logic.{◌≢◌}
use mathlib.Core.List.{List, [], ◌∷◌, Perm}
use mathlib.Core.List.Perm
use native.Mathlib.Omega.{arith}

-- `first || second` of two comparison results.
abbrev pub or_compare : Ordering → Ordering → Ordering
or_compare eq second = second
or_compare first _ = first

abbrev pub flip : Ordering → Ordering
flip lt = gt
flip eq = eq
flip gt = lt

pub flip-compare : (a b : ℕ) → compare b a ≡ flip (compare a b)
flip-compare a b = ground arith

pub flip-or_compare : (a b : Ordering) → flip (or_compare a b) ≡ or_compare (flip a) (flip b)
flip-or_compare a b = ground arith

pub gt_of_flip : (a b : Ordering) → b ≡ flip a → a ≡ gt → b ≢ gt
gt_of_flip a b h e = ground arith

module _ {ℓ} {A : Type ℓ} (cmp : A → A → Ordering) where
  unfoldable pub insert : A → List A → List A
  insert x [] = x ∷ []
  insert x (y ∷ ys) = let rest = y ∷ insert x ys in elim (cmp x y) [ gt ↦ rest | _ ↦ x ∷ y ∷ ys ]

  unfoldable pub sort : List A → List A
  unfolding insert
  sort [] = []
  sort (x ∷ xs) = insert x (sort xs)

  -- No entry compares greater than the one behind it.
  abbrev pub IsSorted : List A → Type 0
  IsSorted [] = Unit
  IsSorted (x ∷ []) = Unit
  IsSorted (x ∷ y ∷ ys) = (cmp x y ≢ gt) × IsSorted (y ∷ ys)

  insert-perm : (x : A) (ys : List A) → Perm (insert x ys) (x ∷ ys)
  unfolding insert
  insert-perm x [] = Perm.refl _
  insert-perm x (y ∷ ys) = ground (
    arith,
    Perm.refl (x ∷ y ∷ ys),
    Perm.trans (Perm.cons y (insert-perm x ys)) (Perm.swap x y ys),
  )

  pub sort-perm : (xs : List A) → Perm (sort xs) xs
  unfolding sort
  sort-perm [] = Perm.refl _
  sort-perm (x ∷ xs) = Perm.trans (insert-perm x (sort xs)) (Perm.cons x (sort-perm xs))

  module _ (antisym : (x y : A) → cmp x y ≡ gt → cmp y x ≢ gt) where
    insert-IsSorted : (x : A) (ys : List A) → IsSorted ys → IsSorted (insert x ys)
    unfolding insert
    insert-IsSorted x [] s = tt
    insert-IsSorted x (y ∷ []) s = ground (arith, antisym x y)
    insert-IsSorted x (y ∷ z ∷ zs) s =
        ground (arith, antisym x y, antisym x z, insert-IsSorted x (z ∷ zs) s.1)

    pub sort-IsSorted : (xs : List A) → IsSorted (sort xs)
    unfolding sort
    sort-IsSorted [] = tt
    sort-IsSorted (x ∷ xs) = insert-IsSorted x (sort xs) (sort-IsSorted xs)
