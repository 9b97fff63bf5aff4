-- ===== src/Base/Find.antt =====
-- What a search in a list finds.
use mathlib.Core.Path.{◌≡◌, refl, sym}
use mathlib.Core.Logic.{inl, inr}
use mathlib.Core.Bool.{Bool, true}
use mathlib.Core.Option.{some}
use mathlib.Core.List.{List, [], ◌∷◌}
use mathlib.Core.List.{Memᴰ}
use pipeit.Base.Tests.{Bool-cases}
use pipeit.Base.Lists.{find}

module _ {A : Type 0} where
  pub find-Mem :
      (p : A → Bool) (xs : List A) (x : A) → find p xs ≡ some x → Memᴰ x xs × (p x ≡ true)
  find-Mem p [] x e = absurd cc
  find-Mem p (y ∷ xs) x e = elim (Bool-cases (p y)) [
    | inl hit ↦ let same : y ≡ x = cc (rw hit at e) in (Memᴰ.head (sym same), rw same at hit)
    | inr miss ↦ let (later, holds) = find-Mem p xs x (rw miss at e) in (Memᴰ.tail later, holds)
  ]

  pub find-some :
      (p : A → Bool) (xs : List A) (x : A) → Memᴰ x xs → p x ≡ true → (y : A) × (find p xs ≡ some y)
  find-some p [] x h hit = elim h [ ]
  find-some p (y ∷ xs) x (Memᴰ.head same) hit = (y, rw (← same, hit) refl)
  find-some p (y ∷ xs) x (Memᴰ.tail h) hit = elim (Bool-cases (p y)) [
    | inl now ↦ (y, rw now refl)
    | inr later ↦ let (z, found) = find-some p xs x h hit in (z, rw later found)
  ]
