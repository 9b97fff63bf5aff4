-- ===== src/Outcome.antt =====
-- A computation of a pass: it returns, panics, or runs out of the fuel that it was given.
use Prim.Native.Nat.{ℕ, ◌/◌}
use pipeit.Base.{◌≡◌, refl, eqb, if◌then◌else◌}

pub data Run {ℓ} (A : Type ℓ) : Type ℓ where
  done : A → Run A
  panic : Run A
  out_of_fuel : Run A

infixl 5 ◌>>=◌
abbrev pub ◌>>=◌ {ℓ κ} : {A : Type ℓ} {B : Type κ} → Run A → (A → Run B) → Run B
done a >>= f = f a
panic >>= f = panic
out_of_fuel >>= f = out_of_fuel

-- `a / b` panics for zero.
unfoldable pub div : ℕ → ℕ → Run ℕ
div a b = if eqb b 0 then panic else done (a / b)

-- Inversion of a bind that returns.
pub >>=-eq-done {ℓ κ} :
    {A : Type ℓ} {B : Type κ} (m : Run A) (f : A → Run B) {b : B}
    → (m >>= f) ≡ done b
    → (a : A) × (m ≡ done a) × (f a ≡ done b)
>>=-eq-done (done a) f h = (a, refl, h)
>>=-eq-done panic f h = cc
>>=-eq-done out_of_fuel f h = cc
