-- ===== src/Base/Dict.antt =====
-- A JavaScript `Map`: its entries in the order of insertion, with one entry for a key.
use Prim.Native.Nat.{ℕ, suc, ◌+◌, ◌≤◌}
use mathlib.Core.Path.{◌≡◌, refl, ap}
use mathlib.Core.Logic.{inl, inr}
use mathlib.Core.Bool.{Bool, true, false}
use mathlib.Core.List.{List, [], ◌∷◌, ◌++◌, map}
use mathlib.Core.Option.{Option, none, some}
use native.Mathlib.Omega.{arith}
use wosm.Base.Tests.{Equality, ◌==◌, if◌then◌else◌, Bool-cases}
use wosm.Base.Lists.{length, contains, add, erase, IsDistinct}

abbrev pub Dict {ℓ κ} : Type ℓ → Type κ → Type (ℓ ⊔ κ)
Dict K V = List (K × V)

module _ {ℓ κ} {K : Type ℓ} {V : Type κ} where
  abbrev pub keys : Dict K V → List K
  keys = map (λ entry. entry.0)

  abbrev pub size : Dict K V → ℕ
  size = length

  pub length-keys : (m : Dict K V) → length (keys m) ≡ size m
  length-keys [] = refl
  length-keys (x ∷ m) = ap suc (length-keys m)

module _ {ℓ κ} {K : Type ℓ} {V : Type κ} ⦃e : Equality K⦄ where
  -- `map.get(key)`.
  abbrev pub get : Dict K V → K → Option V
  get [] k = none
  get ((j, v) ∷ m) k = if j == k then some v else get m k

  -- `map.has(key)`.
  abbrev pub has : Dict K V → K → Bool
  has m k = contains (keys m) k

  -- `map.set(key, value)`: a new key goes to the end, an old one keeps its place.
  abbrev pub set : Dict K V → K → V → Dict K V
  set [] k v = (k, v) ∷ []
  set ((j, w) ∷ m) k v = if j == k then (j, v) ∷ m else (j, w) ∷ set m k v

  -- `map.delete(key)`.
  abbrev pub delete : Dict K V → K → Dict K V
  delete [] k = []
  delete ((j, w) ∷ m) k = if j == k then m else (j, w) ∷ delete m k

  pub get-set :
      (m : Dict K V) (k j : K) (v : V) → get (set m k v) j ≡ (if k == j then some v else get m j)
  get-set [] k j v = refl
  get-set ((i, w) ∷ m) k j v =
      ground (arith, e.same_iff k j, e.same_iff i k, e.same_iff i j, get-set m k j v)

  pub keys-set_old : (m : Dict K V) (k : K) (v : V) → has m k ≡ true → keys (set m k v) ≡ keys m
  keys-set_old [] k v h = cc
  keys-set_old ((i, w) ∷ m) k v h = ground (arith, keys-set_old m k v)

  pub set_new : (m : Dict K V) (k : K) (v : V) → has m k ≡ false → set m k v ≡ m ++ (k, v) ∷ []
  set_new [] k v h = refl
  set_new ((i, w) ∷ m) k v h = ground (arith, set_new m k v)

  pub has-get : (m : Dict K V) (k : K) → has m k ≡ true → (v : V) × (get m k ≡ some v)
  has-get [] k h = cc
  has-get ((i, w) ∷ m) k h = elim (Bool-cases (i == k)) [
    | inl hit ↦ (w, ground arith)
    | inr miss ↦ let rest = has-get m k (ground arith) in (rest.0, ground (arith, rest.1))
  ]

  pub get-none : (m : Dict K V) (k : K) → has m k ≡ false → get m k ≡ none
  get-none [] k h = refl
  get-none ((i, w) ∷ m) k h = ground (arith, get-none m k)

  pub keys-set : (m : Dict K V) (k : K) (v : V) → keys (set m k v) ≡ add (keys m) k
  keys-set [] k v = refl
  keys-set ((i, w) ∷ m) k v = ground (arith, e.same_iff i k, keys-set m k v)

  pub size-set :
      (m : Dict K V) (k : K) (v : V) → size (set m k v) ≡ (if has m k then size m else size m + 1)
  size-set [] k v = omega arith
  size-set ((i, w) ∷ m) k v = ground (arith, size-set m k v)

  pub keys-delete : (m : Dict K V) (k : K) → keys (delete m k) ≡ erase (keys m) k
  keys-delete [] k = refl
  keys-delete ((i, w) ∷ m) k = ground (arith, keys-delete m k)

  pub size-delete :
      (m : Dict K V) (k : K) → size m ≡ (if has m k then size (delete m k) + 1 else size m)
  size-delete [] k = refl
  size-delete ((i, w) ∷ m) k = ground (arith, size-delete m k)

  pub size-delete-le : (m : Dict K V) (k : K) → size (delete m k) ≤ size m
  size-delete-le [] k = omega arith
  size-delete-le ((i, w) ∷ m) k = ground (arith, size-delete-le m k)

  pub get-delete :
      (m : Dict K V) (k j : K)
      → IsDistinct (keys m)
      → get (delete m k) j ≡ (if k == j then none else get m j)
  get-delete [] k j d = ground arith
  get-delete ((i, w) ∷ m) k j d =
      ground (arith, e.same_iff i k, e.same_iff k j, e.same_iff i j, get-delete m k j, get-none m i)
