-- ===== src/Base/Count.antt =====
-- How often a number stands in a list. Two lists with the same counts hold the same items.
use Prim.Native.Nat.{ℕ, suc, ◌+◌, ◌<◌, ◌≤◌}
use mathlib.Core.Path.{◌≡◌, refl}
use mathlib.Core.Logic.{◌⊎◌, inr}
use mathlib.Core.Bool.{Bool, true, false, ◌||◌}
use mathlib.Core.List.{List, [], ◌∷◌, ◌++◌}
use native.Mathlib.Omega.{arith}
use pipeit.Base.Tests.{if◌then◌else◌, eqb}
use pipeit.Base.Lists.{length, sort, insert_sorted}

unfoldable pub count : ℕ → List ℕ → ℕ
count a [] = 0
count a (x ∷ xs) = (if eqb a x then 1 else 0) + count a xs

-- `contains`
unfoldable pub has : List ℕ → ℕ → Bool
has [] a = false
has (x ∷ xs) a = eqb a x || has xs a

-- The position of the first `a`, and the length where there is none.
unfoldable pub index_of : ℕ → List ℕ → ℕ
index_of a [] = 0
index_of a (x ∷ xs) = if eqb a x then 0 else suc (index_of a xs)

unfoldable pub erase : ℕ → List ℕ → List ℕ
erase a [] = []
erase a (x ∷ xs) = if eqb a x then xs else x ∷ erase a xs

pub count-append : (a : ℕ) (xs ys : List ℕ) → count a (xs ++ ys) ≡ count a xs + count a ys
unfolding count
count-append a [] ys = omega arith
count-append a (x ∷ xs) ys = omega (arith, count-append a xs ys)

pub has_iff-count :
    (a : ℕ) (xs : List ℕ)
    → (has xs a ≡ true) × (0 < count a xs) ⊎ (has xs a ≡ false) × (count a xs ≡ 0)
unfolding has count
has_iff-count a [] = inr (refl, refl)
has_iff-count a (x ∷ xs) = ground (arith, has_iff-count a xs)

count-insert_sorted : (a x : ℕ) (xs : List ℕ) → count a (insert_sorted x xs) ≡ count a (x ∷ xs)
unfolding count insert_sorted
count-insert_sorted a x [] = refl
count-insert_sorted a x (y ∷ ys) = ground (arith, count-insert_sorted a x ys)

pub count-sort : (a : ℕ) (xs : List ℕ) → count a (sort xs) ≡ count a xs
unfolding count sort
count-sort a [] = refl
count-sort a (x ∷ xs) = omega (arith, count-insert_sorted a x (sort xs), count-sort a xs)

length-insert_sorted : (x : ℕ) (xs : List ℕ) → length (insert_sorted x xs) ≡ suc (length xs)
unfolding insert_sorted
length-insert_sorted x [] = refl
length-insert_sorted x (y ∷ ys) = ground (arith, length-insert_sorted x ys)

pub length-sort : (xs : List ℕ) → length (sort xs) ≡ length xs
unfolding sort
length-sort [] = refl
length-sort (x ∷ xs) = omega (arith, length-insert_sorted x (sort xs), length-sort xs)

length-erase : (a : ℕ) (xs : List ℕ) → 0 < count a xs → suc (length (erase a xs)) ≡ length xs
unfolding count erase
length-erase a [] h = omega arith
length-erase a (x ∷ xs) h = ground (arith, length-erase a xs)

count-erase :
    (a b : ℕ) (xs : List ℕ)
    → 0 < count a xs
    → count b (erase a xs) + (if eqb b a then 1 else 0) ≡ count b xs
unfolding count erase
count-erase a b [] h = omega arith
count-erase a b (x ∷ xs) h = ground (arith, count-erase a b xs)

-- A list that holds no item more often than another, and is not shorter, holds the same items.
pub count-eq_of_length :
    (xs ys : List ℕ)
    → ((a : ℕ) → count a xs ≤ count a ys)
    → length ys ≤ length xs
    → (a : ℕ) → count a xs ≡ count a ys
unfolding count
count-eq_of_length [] [] h l a = refl
count-eq_of_length [] (y ∷ ys) h l a = absurd (omega arith)
count-eq_of_length (x ∷ xs) ys h l a =
    let here : 0 < count x ys = ground (arith, h x) in
    let ih =
      count-eq_of_length xs (erase x ys) (λ b. ground (arith, h b, count-erase x b ys))
        (omega (arith, length-erase x ys here)) a in
    ground (arith, ih, count-erase x a ys here)

-- A list that holds no item more often than another is not longer.
pub length-le_of_count :
    (xs ys : List ℕ) → ((a : ℕ) → count a xs ≤ count a ys) → length xs ≤ length ys
unfolding count
length-le_of_count [] ys h = omega arith
length-le_of_count (x ∷ xs) ys h =
    let here : 0 < count x ys = ground (arith, h x) in
    let ih = length-le_of_count xs (erase x ys) (λ b. ground (arith, h b, count-erase x b ys)) in
    omega (arith, ih, length-erase x ys here)

pub length-eq_of_count :
    (xs ys : List ℕ) → ((a : ℕ) → count a xs ≡ count a ys) → length xs ≡ length ys
length-eq_of_count xs ys h = omega (
  arith,
  length-le_of_count xs ys (λ a. omega (arith, h a)),
  length-le_of_count ys xs (λ a. omega (arith, h a)),
)
