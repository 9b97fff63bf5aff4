-- ===== src/Base/Maps.antt =====
-- `HashMap` and `HashSet` as association lists. The laws are in the form of an `if`.
use mathlib.Core.Path.{◌≡◌, refl}
use mathlib.Core.Bool.{Bool, true, false, ◌||◌}
use mathlib.Core.Option.{Option, none, some}
use mathlib.Core.List.{List, [], ◌∷◌}
use native.Mathlib.Omega.{arith}
use mathlib.Core.Logic.{inl, inr}
use pipeit.Base.Tests.{if◌then◌else◌, PartialEq, ◌==◌, Bool-cases}
use pipeit.Base.Lists.{All}

abbrev pub Map {ℓ κ} : Type ℓ → Type κ → Type (ℓ ⊔ κ)
Map K V = List (K × V)

module _ {ℓ κ} {K : Type ℓ} {V : Type κ} ⦃e : PartialEq K⦄ where
  abbrev pub get : Map K V → K → Option V
  get [] k = none
  get ((j, v) ∷ m) k = if j == k then some v else get m k

  -- `get(..).copied().unwrap_or(d)`
  abbrev pub get_or : Map K V → K → V → V
  get_or m k d = elim (get m k) [ none ↦ d | some v ↦ v ]

  abbrev pub insert : Map K V → K → V → Map K V
  insert [] k v = (k, v) ∷ []
  insert ((j, w) ∷ m) k v = if j == k then (k, v) ∷ m else (j, w) ∷ insert m k v

  abbrev pub contains_key : Map K V → K → Bool
  contains_key m k = elim (get m k) [ none ↦ false | some _ ↦ true ]

  -- `entry(k).or_insert(v)`
  abbrev pub or_insert : Map K V → K → V → Map K V
  or_insert m k v = elim (get m k) [ none ↦ insert m k v | some _ ↦ m ]

  -- `*entry(k).or_insert(d)` changed by `f`
  abbrev pub update : Map K V → K → V → (V → V) → Map K V
  update m k d f = insert m k (f (get_or m k d))

  pub get-insert :
      (m : Map K V) (k : K) (v : V) (j : K)
      → get (insert m k v) j ≡ (if k == j then some v else get m j)
  get-insert [] k v j = refl
  get-insert ((i, w) ∷ m) k v j =
      ground (arith, get-insert m k v j, e.equal_iff i k, e.equal_iff k j, e.equal_iff i j)

  pub get-or_insert :
      (m : Map K V) (k : K) (v : V) (j : K)
      → get (or_insert m k v) j ≡ (if k == j then some (get_or m k v) else get m j)
  get-or_insert m k v j = ground (arith, get-insert m k v j, e.equal_iff k j)

  -- What holds of all entries.
  pub All-insert {ν} :
      (P : K × V → Type ν) (m : Map K V) (k : K) (v : V) → All P m → P (k, v) → All P (insert m k v)
  All-insert P [] k v h p = (p, tt)
  All-insert P ((j, w) ∷ m) k v h p = elim (Bool-cases (j == k)) [
    | inl hit ↦ rw hit (p, h.1)
    | inr miss ↦ rw miss (h.0, All-insert P m k v h.1 p)
  ]

  pub All-get {ν} :
      (P : K × V → Type ν) (m : Map K V) (k : K) (v : V) → All P m → get m k ≡ some v → P (k, v)
  All-get P [] k v h g = cc
  All-get P ((j, w) ∷ m) k v h g = elim (Bool-cases (j == k)) [
    | inl hit ↦
        let same_key : j ≡ k = (e.equal_iff j k).0 hit in
        let same_value : w ≡ v = cc (rw hit at g) in rw same_value at (rw same_key at h.0)
    | inr miss ↦ All-get P m k v h.1 (rw miss at g)
  ]

-- `HashSet` is a list without repetition.
module _ {ℓ} {K : Type ℓ} ⦃e : PartialEq K⦄ where
  abbrev pub contains : List K → K → Bool
  contains [] k = false
  contains (x ∷ xs) k = x == k || contains xs k

  -- `HashSet::insert`
  abbrev pub include : List K → K → List K
  include xs k = if contains xs k then xs else k ∷ xs

  pub contains-include :
      (xs : List K) (k j : K) → contains (include xs k) j ≡ (k == j || contains xs j)
  contains-include xs k j = ground (arith, e.equal_iff k j)
